-- ===== src/Tests.antt =====
-- Concrete inputs at which the development's theorems are applied, and the tests beside them.
mod Billing
mod Ara
mod PasswordReset
mod ConfirmationSequence
mod Ages
mod Ledger
mod Account
mod Availability
