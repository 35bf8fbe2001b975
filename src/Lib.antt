-- ===== src/Lib.antt =====
-- A verification library for the Vaketta backend, the server of a hotel messaging product: guests
-- write over WhatsApp or Instagram, flows answer them and take bookings, and hotels pay for the
-- service by subscription. Of that server it models the parts that decide money and rooms.
--
-- Billing. `Billing` follows src/billing. `Billing/Calendar` is the UTC calendar that `Date.UTC`
-- and the `getUTC…` methods give; `Billing/Zone` the reading of a time zone through `Intl`
-- (`partsInTZ`, `tzOffsetMs`, `zonedMidnightUTC`); `Billing/Period` the anchored periods of
-- src/billing/period.ts, with `Billing/Period/Money` for `proratePeriod` and `daysUntil`;
-- `Billing/EffectiveStatus` the resolver of src/billing/effectiveStatus.ts, which calls the
-- periods to say what a subscription is entitled to at an instant; `Billing/Overage` the charges
-- of src/billing/overage.ts.
--
-- Invoices. `Billing/Ledger` holds the tables of invoices and payments and the issuing of
-- src/services/invoice.service.ts; `Billing/Ledger/Payments` its `recordPayment` and
-- `applyPaymentToInvoice`, `Billing/Ledger/Review` its `transitionPayment` and the voiding of
-- src/controllers/adminBilling.controller.ts; `Billing/Ledger/Gateway` and `Billing/Ledger/Checkout`
-- the settlement of provider payments (src/services/razorpayPayment.service.ts,
-- src/controllers/razorpay.controller.ts), which ends in `recordPayment`, and
-- `Billing/Ledger/Manual` the claims of src/services/manualPayment.service.ts, which a review
-- settles. `Billing/Ledger/Runs` puts the operations in any order. A transaction is one step; the
-- write of a delivery that raced is a step of its own, and the checkout's handler reads the invoice
-- in tables of its own. `has_provider_payment` is the unique column of prisma/schema.prisma, by
-- which the database refuses a second row with a payment id. The refusal of an invoice
-- number that is taken already, by another such column, is left out.
--
-- Subscriptions. `Billing/Account` is the account of one hotel in src/services/billing.service.ts:
-- its subscriptions, the copy of their status on the hotel's row, its ledger and the cached row that
-- `getEffectiveSubscription` fills and every change drops. `Billing/Account/Plans` assigns plans and
-- starts trials, `Billing/Account/Changes` cancels, extends, restores and marks, and
-- `Billing/Account/Jobs` converts, renews and expires; they issue invoices through the ledger and ask
-- the resolver. `Billing/Account/Dunning` marks and suspends for unpaid invoices, by
-- src/services/dunning.service.ts. `Billing/Account/Runs` puts them in any order;
-- `Billing/Account/Renewal` and `Billing/Account/Conversion` compare what the jobs write with what
-- the resolver gives. The loop of renewals has the source's 36 rounds as its fuel, and a renewal
-- that is later than that goes on at the next run.
--
-- Rooms. `Ara` follows src/automation/nodes/ara: `Ara/Types` the data, `Ara/Pricing` and
-- `Ara/Distribute` the helpers of allocator.ts, `Ara/Allocator` its `allocateRooms`, and
-- `Ara/Appliers` the edits that appliers.ts makes to an allocation. `Ara/Ages` counts children as
-- adults by their ages, as ages.ts does.
--
-- Availability. `Availability` follows src/services/availability.service.ts: the nights of a stay,
-- the check for a room type over overrides and bookings, the calendar and the writes of overrides.
-- The limit of nights is the source's 3 650. A date is the number of its day: stored dates are taken
-- as midnights of UTC and the server's clock as UTC, where `toUtcDate`, which reads a date by local
-- getters, changes nothing; on another clock it may move a date by a day, which is not modelled.
--
-- Accounts. `PasswordReset` follows src/services/passwordReset.service.ts: the one-time codes of
-- an account, sent on request and used up by attempts, over a parameter for the hash of
-- src/utils/hash.ts.
--
-- Confirmations. `ConfirmationSequence` follows `runConfirmationSequence` of
-- src/workers/confirmationSequence.run.ts, which sends the messages that confirm a booking one
-- after another. The senders are parameters over a world that each of them may change, and the
-- substitution of variables in a text is an argument.
--
-- State and time. The periods, the resolver and the room code keep no state of their own: a
-- subscription, a list of rooms and an instant go in, and a new value comes out. The ledger, the
-- account of a hotel, the inventory and the codes of an account are passed as stores, where each
-- transaction is one step, and the cache is a field of the account; interleavings inside a step are
-- not modelled. An instant is a natural number of milliseconds counted from 0000-03-01T00:00Z; the
-- code compares and subtracts instants only, so the origin does not show. Theorems that walk back
-- a month ask for instants from May of year 0 on. A time zone is a parameter: `some` of its wall
-- clock, or `none` where `Intl` throws and the code falls back to UTC. Theorems about periods ask
-- that the zone be orderly, as `Billing/Zone/Laws` defines it.
--
-- Numbers. Counts and prices are natural numbers; a price stands for a whole number of the
-- currency's unit, so that rounding is exact and floating-point error is not modelled. Where a
-- guard of the code sorts out NaN, infinities, signs and fractions, the argument is a `JsNumber`
-- or a `JsValue` of `Js`, which keeps those apart, and of a fraction what `Math.round` reads. `null` and `undefined` are `none`.
--
-- Loops. The loops of `periodContaining` share the source's own guard of 24 rounds and that of
-- `periodsElapsed` has the source's 600. The jump by whole months leaves at most a step or two to
-- the guard of 24, so that it is never spent; 600 months are fifty years of billing. The loops
-- over rooms recurse on the list or on the number of rooms, and those over steps and codes on
-- their lists.
--
-- Not modelled: HTTP routes and all but the payment controllers, failures of the database and of
-- the cache, audit events, notices, queues and workers, the channels'
-- senders, the AI calls, the flow runtime, the templates and all wording sent to a guest. A
-- refused edit of an allocation carries its case in place of its message. Within src/billing,
-- `monthKey` and validate.ts are left out.
pub mod Prelude
pub mod Ara
pub mod Availability
pub mod Billing
pub mod ConfirmationSequence
pub mod Js
pub mod PasswordReset
pub mod Tests
