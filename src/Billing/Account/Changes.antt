-- ===== src/Billing/Account/Changes.antt =====
-- Cancelling, extending, restoring and marking a subscription in src/services/billing.service.ts.
-- Events and messages to the admin's page are left out.
use vaketta_backend.Prelude.{
  ℕ, ◌+◌, ◌-◌, ◌*◌, Bool, true, false, not, ◌&&◌, ◌||◌, Option, none, some, List, [], ◌∷◌, ltb,
  ◌==◌, if◌then◌else◌,
}
use vaketta_backend.Js.{JsNumber, of_ℕ}
use vaketta_backend.Billing.Calendar.{day_ms}
use vaketta_backend.Billing.Zone.{TimeZone}
use vaketta_backend.Billing.Period.{anchor_day_of}
use vaketta_backend.Billing.EffectiveStatus.{
  BillingStatus, trialing, active, past_due, expired, canceled,
}
use vaketta_backend.Billing.Ledger.{outstanding_balance}
use vaketta_backend.Billing.Account.{
  Account, Subscription, AccountResult, refused, nothing_done, changed, no_active_subscription,
  zero_days, current_subscription, update_subscription, is_some,
}

-- What a cancellation writes to the subscription: at once, or at the end of the period.
abbrev pub canceled_now : ℕ → Subscription → Subscription
canceled_now now s = record s {
  status = canceled;
  canceled_at = some now;
  auto_renew = false;
  end_date = some now;
}

abbrev pub canceled_at_end : ℕ → Subscription → Subscription
canceled_at_end now s = record s { auto_renew = false; canceled_at = some now }

unfoldable pub cancel_found : Option Subscription → Bool → ℕ → Account → Account × AccountResult
cancel_found none immediate now account = (account, refused no_active_subscription)
cancel_found (some s) true now account = (
  record account {
    subscriptions = update_subscription s.id (canceled_now now) account.subscriptions;
    hotel = record account.hotel { subscription_status = expired; billing_end_date = some now };
    cache = none;
  },
  changed,
)
cancel_found (some s) false now account = (
  record account {
    subscriptions = update_subscription s.id (canceled_at_end now) account.subscriptions;
    cache = none;
  },
  changed,
)

unfoldable pub cancel_subscription : Bool → ℕ → Account → Account × AccountResult
unfolding cancel_found
cancel_subscription immediate now account =
    cancel_found (current_subscription account.subscriptions) immediate now account

-- An instant moved by days, forward or back.
abbrev pub shift_days : Bool → ℕ → ℕ → ℕ
shift_days false days base = base + days * day_ms
shift_days true days base = base - days * day_ms

abbrev pub end_or_now : Option ℕ → ℕ → ℕ
end_or_now (some end) now = end
end_or_now none now = now

abbrev pub anchor_or : Option JsNumber → ℕ → JsNumber
anchor_or (some day) derived = day
anchor_or none derived = of_ℕ derived

abbrev pub extended : ℕ → JsNumber → Subscription → Subscription
extended new_end anchor s = record s { end_date = some new_end; billing_anchor_day = some anchor }

unfoldable pub extend_found :
    Option Subscription → Bool → ℕ → ℕ → TimeZone → Account → Account × AccountResult
extend_found none back days now tz account = (account, refused no_active_subscription)
extend_found (some s) back days now tz account =
    let base = end_or_now s.end_date now in
    let new_end = shift_days back days base in
    let anchor = anchor_or s.billing_anchor_day (anchor_day_of base tz) in
    (
      record account {
        subscriptions = update_subscription s.id (extended new_end anchor) account.subscriptions;
        hotel = record account.hotel {
          billing_end_date = some new_end;
          subscription_status =
              if ltb now new_end then s.status else account.hotel.subscription_status;
        };
        cache = none;
      },
      changed,
    )

-- By a whole number of days, forward or back, that is not 0.
unfoldable pub extend_subscription : Bool → ℕ → ℕ → TimeZone → Account → Account × AccountResult
unfolding extend_found
extend_subscription back days now tz account =
    if days == 0
    then (account, refused zero_days)
    else extend_found (current_subscription account.subscriptions) back days now tz account

abbrev pub latest : List Subscription → Option Subscription
latest [] = none
latest (s ∷ ss) = some s

abbrev pub is_period_open : Option ℕ → ℕ → Bool
is_period_open none now = false
is_period_open (some end) now = ltb now end

abbrev pub is_expired : BillingStatus → Bool
is_expired trialing = false
is_expired active = false
is_expired past_due = false
is_expired expired = true
is_expired canceled = false

-- An expired subscription is active again, with its old period.
unfoldable pub restore : Option Subscription → ℕ → Account → Account × AccountResult
restore none now account = (account, nothing_done)
restore (some s) now account =
    if not (is_expired s.status)
    then (account, nothing_done)
    else (if not s.auto_renew && not (is_period_open s.end_date now)
        then (account, nothing_done)
        else (
          record account {
            subscriptions =
                update_subscription s.id (λ x. record x { status = active }) account.subscriptions;
            hotel = record account.hotel {
              subscription_status = active;
              billing_start_date = some s.start_date;
              billing_end_date = s.end_date;
            };
            cache = none;
          },
          changed,
        ))

-- Once nothing is owed, the latest subscription is restored, unless there is a live one.
unfoldable pub reactivate_after_payment : ℕ → Account → Account × AccountResult
unfolding restore
reactivate_after_payment now account =
    let restored = restore (latest account.subscriptions) now account in
    if ltb 0 (outstanding_balance account.hotel_id account.ledger)
      || is_some (current_subscription account.subscriptions)
    then (account, nothing_done)
    else restored

abbrev pub is_active : BillingStatus → Bool
is_active trialing = false
is_active active = true
is_active past_due = false
is_active expired = false
is_active canceled = false

-- An `updateMany` of the active subscriptions.
unfoldable pub delay_active : List Subscription → List Subscription
delay_active [] = []
delay_active (s ∷ ss) =
    let rest = delay_active ss in
    if is_active s.status then record s { status = past_due } ∷ rest else s ∷ rest

unfoldable pub mark_past_due : Account → Account × AccountResult
mark_past_due account =
    if is_active account.hotel.subscription_status
    then (
      record account {
        hotel = record account.hotel { subscription_status = past_due };
        subscriptions = delay_active account.subscriptions;
        cache = none;
      },
      changed,
    )
    else (account, nothing_done)
