-- ===== src/Billing.antt =====
-- Billing (src/billing): calendar arithmetic and billing periods.
pub mod Calendar
pub mod Zone
pub mod Period
pub mod EffectiveStatus
pub mod Overage
pub mod Ledger
pub mod Account
