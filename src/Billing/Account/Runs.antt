-- ===== src/Billing/Account/Runs.antt =====
-- Everything that happens to an account, in any order: requests, jobs, payments and reads.
pub mod Consistent
pub mod Rows
pub mod Steps
pub mod Changes
pub mod Work
pub mod Delinquent
pub mod Cache
pub mod Kept
pub mod Fresh
use Prim.Native.String.{String}
use vaketta_backend.Prelude.{ℕ, Bool, Option, none, List, [], ◌∷◌}
use vaketta_backend.Billing.Zone.{TimeZone}
use vaketta_backend.Billing.Overage.{UsageCounts}
use vaketta_backend.Billing.Ledger.Runs.{Event, handle as handle_event}
use vaketta_backend.Billing.Account.{Account, Hotel, BilledTerms, Plan, get_effective_subscription}
use vaketta_backend.Billing.Account.Plans.{StartAt, assign_plan_to_hotel, start_trial}
use vaketta_backend.Billing.Account.Changes.{
  cancel_subscription, extend_subscription, reactivate_after_payment, mark_past_due,
}
use vaketta_backend.Billing.Account.Jobs.{
  convert_due_trials, renew_due_subscriptions, expire_overdue_subscriptions,
}
use vaketta_backend.Billing.Account.Dunning.{advance_delinquent}

pub data Operation : Type 0 where
  assign : StartAt → ℕ → Bool → Operation
  trial : ℕ → BilledTerms → Operation
  cancel : Bool → Operation
  extend : Bool → ℕ → Operation
  reactivate delay convert expire : Operation
  dun : ℕ → Operation
  renew : (ℕ → UsageCounts) → Operation
  bill : Event → Operation
  read : Operation

-- A hotel without subscriptions, whatever its own columns say, and with no invoices.
abbrev pub new_account : ℕ → Hotel → Account
new_account hotel_id hotel = record {
  hotel_id = hotel_id;
  hotel = hotel;
  subscriptions = [];
  next_id = 1;
  ledger = record { invoices = []; payments = []; next_id = 1 };
  cache = none;
}

pub record Instant : Type 0 where
  pub now : ℕ
  pub year : ℕ

module _ (plans : ℕ → Option Plan) (epoch : ℕ) (tz : TimeZone) where
  abbrev pub perform : Operation → Instant → Account → Account
  perform (assign start plan_id invoice) i account =
      (assign_plan_to_hotel plans start plan_id invoice i.now i.year tz account).0
  perform (trial days terms) i account = (start_trial days terms i.now tz account).0
  perform (cancel immediate) i account = (cancel_subscription immediate i.now account).0
  perform (extend back days) i account = (extend_subscription back days i.now tz account).0
  perform reactivate i account = (reactivate_after_payment i.now account).0
  perform delay i account = (mark_past_due account).0
  perform convert i account = convert_due_trials plans i.now i.year tz account
  perform (dun grace_days) i account = advance_delinquent grace_days i.now account
  perform expire i account = expire_overdue_subscriptions i.now tz account
  perform (renew usage_of) i account = renew_due_subscriptions usage_of i.now i.year tz account
  perform (bill event) i account = record account {
    ledger = handle_event event i.now account.ledger;
  }
  perform read i account = (get_effective_subscription plans account epoch i.now tz).0

  -- The account after a list of operations, the last one first.
  abbrev pub perform_all : List (Operation × Instant) → Account → Account
  perform_all [] account = account
  perform_all ((operation, i) ∷ earlier) account = perform operation i (perform_all earlier account)
