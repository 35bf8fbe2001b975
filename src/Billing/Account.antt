-- ===== src/Billing/Account.antt =====
-- The account of one hotel in src/services/billing.service.ts: its subscriptions, the copy of their
-- status on the row of the hotel, and the cached row that requests are answered from. Plans are a
-- parameter, and a time zone stands for the platform's configuration.
pub mod Plans
pub mod Changes
pub mod Jobs
pub mod Dunning
pub mod Runs
pub mod Renewal
pub mod Conversion
use Prim.Native.String.{String}
use vaketta_backend.Prelude.{
  ℕ, ◌+◌, Bool, true, false, Option, none, some, List, [], ◌∷◌, ◌==◌, if◌then◌else◌,
}
use vaketta_backend.Js.{JsNumber, JsValue, of_ℕ, number}
use vaketta_backend.Billing.Zone.{TimeZone}
use vaketta_backend.Billing.Period.{anchor_day_of}
use vaketta_backend.Billing.EffectiveStatus.{
  BillingStatus, trialing, active, past_due, expired, canceled, SubscriptionState, EffectiveState,
  open_ended, resolve_effective_state,
}
use vaketta_backend.Billing.Overage.{OverageTerms}
use vaketta_backend.Billing.Ledger.{Ledger}

pub record BilledTerms : Type 0 where
  pub plan_name : String
  pub currency : String
  pub price : ℕ
  pub allowance : OverageTerms

pub record Plan : Type 0 where
  pub terms : BilledTerms
  pub tax_rate : JsValue

pub record Subscription : Type 0 where
  pub id : ℕ
  pub plan_id : Option ℕ
  pub status : BillingStatus
  pub terms : BilledTerms
  pub tax_rate : JsValue
  pub start_date : ℕ
  pub end_date : Option ℕ
  pub billing_anchor_day : Option JsNumber
  pub auto_renew : Bool
  pub canceled_at : Option ℕ
  pub scheduled_plan_id : Option ℕ

-- The billing columns of the row of the hotel.
pub record Hotel : Type 0 where
  pub plan_id : Option ℕ
  pub subscription_status : BillingStatus
  pub billing_start_date : Option ℕ
  pub billing_end_date : Option ℕ

-- What is cached: the fields that the resolver reads, and the terms.
pub record CachedSubscription : Type 0 where
  pub state : SubscriptionState
  pub terms : Option BilledTerms
  pub scheduled_terms : Option BilledTerms

-- The subscriptions stand with the latest first.
pub record Account : Type 0 where
  pub hotel_id : ℕ
  pub hotel : Hotel
  pub subscriptions : List Subscription
  pub next_id : ℕ
  pub ledger : Ledger
  pub cache : Option CachedSubscription

-- `LIVE_STATUSES`.
abbrev pub is_live : BillingStatus → Bool
is_live trialing = true
is_live active = true
is_live past_due = true
is_live expired = false
is_live canceled = false

-- `getCurrentSubscription`: the latest subscription that is live.
unfoldable pub current_subscription : List Subscription → Option Subscription
current_subscription [] = none
current_subscription (s ∷ ss) = if is_live s.status then some s else current_subscription ss

unfoldable pub update_subscription :
    ℕ → (Subscription → Subscription) → List Subscription → List Subscription
update_subscription id f [] = []
update_subscription id f (s ∷ ss) =
    let rest = update_subscription id f ss in if s.id == id then f s ∷ rest else s ∷ rest

-- An `updateMany` of the live subscriptions.
unfoldable pub update_live : (Subscription → Subscription) → List Subscription → List Subscription
update_live f [] = []
update_live f (s ∷ ss) =
    let rest = update_live f ss in if is_live s.status then f s ∷ rest else s ∷ rest

unfoldable pub cancel_live_subscriptions : ℕ → List Subscription → List Subscription
cancel_live_subscriptions now =
    update_live (λ s. record s { status = canceled; canceled_at = some now })

abbrev pub is_some {ℓ} : {A : Type ℓ} → Option A → Bool
is_some none = false
is_some (some a) = true

-- `toState`.
abbrev pub to_state : Subscription → SubscriptionState
to_state s = record {
  status = s.status;
  start_date = s.start_date;
  end_date = s.end_date;
  auto_renew = s.auto_renew;
  billing_anchor_day = s.billing_anchor_day;
  has_scheduled_plan = is_some s.scheduled_plan_id;
}

abbrev pub or_epoch : Option ℕ → ℕ → ℕ
or_epoch (some date) epoch = date
or_epoch none epoch = epoch

module _ (plans : ℕ → Option Plan) where
  unfoldable pub plan_terms : Option ℕ → Option BilledTerms
  plan_terms none = none
  plan_terms (some id) = elim (plans id) [ none ↦ none | some plan ↦ some plan.terms ]

  -- `loadSubscriptionRow` of a hotel that exists; without a live subscription the hotel's own status
  -- is taken, with no end and no terms. The epoch of 1970 stands for a missing start.
  unfoldable pub load_row : Option Subscription → Hotel → ℕ → CachedSubscription
  load_row (some s) hotel epoch = record {
    state = to_state s;
    terms = some s.terms;
    scheduled_terms = plan_terms s.scheduled_plan_id;
  }
  load_row none hotel epoch = record {
    state = record {
      status = hotel.subscription_status;
      start_date = or_epoch hotel.billing_start_date epoch;
      end_date = none;
      auto_renew = false;
      billing_anchor_day = none;
      has_scheduled_plan = false;
    };
    terms = none;
    scheduled_terms = none;
  }

  unfoldable pub load_subscription_row : Account → ℕ → CachedSubscription
  load_subscription_row account epoch =
      load_row (current_subscription account.subscriptions) account.hotel epoch

  abbrev pub cached_or_loaded : Option CachedSubscription → Account → ℕ → CachedSubscription
  cached_or_loaded (some row) account epoch = row
  cached_or_loaded none account epoch = load_subscription_row account epoch

  abbrev pub or_terms : Option BilledTerms → Option BilledTerms → Option BilledTerms
  or_terms (some terms) own = some terms
  or_terms none own = own

  -- `getEffectiveSubscription` while the database answers: the cached row is filled where it was
  -- missing, and the answer is computed from it at the instant.
  unfoldable pub get_effective_subscription :
      Account → ℕ → ℕ → TimeZone → Account × EffectiveState × Option BilledTerms
  get_effective_subscription account epoch now tz =
      let row = cached_or_loaded account.cache account epoch in
      let state = resolve_effective_state row.state now tz in
      (
        record account { cache = some row },
        state,
        if state.trial_was_converted then or_terms row.scheduled_terms row.terms else row.terms,
      )

pub data AccountError : Type 0 where
  plan_not_found not_on_trial no_active_subscription zero_days : AccountError

-- What an operation returns to its caller: an error that it threw, or whether it changed the account.
pub data AccountResult : Type 0 where
  refused : AccountError → AccountResult
  nothing_done : AccountResult
  changed : AccountResult
