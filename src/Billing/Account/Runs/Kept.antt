-- ===== src/Billing/Account/Runs/Kept.antt =====
-- Consistency through runs.
use vaketta_backend.Prelude.{ℕ, Option, List, [], ◌∷◌, arith}
use vaketta_backend.Billing.Zone.{TimeZone}
use vaketta_backend.Billing.Account.{Account, Hotel, Plan, get_effective_subscription}
use vaketta_backend.Billing.Account.Runs.{
  Operation, assign, trial, cancel, extend, reactivate, delay, convert, expire, dun, renew, bill,
  read, Instant, perform, perform_all, new_account,
}
use vaketta_backend.Billing.Account.Runs.Consistent.{IsConsistent}
use vaketta_backend.Billing.Account.Runs.Steps.{
  assign_plan_to_hotel-IsConsistent, start_trial-IsConsistent,
}
use vaketta_backend.Billing.Account.Runs.Changes.{
  cancel_subscription-IsConsistent, extend_subscription-IsConsistent,
  reactivate_after_payment-IsConsistent, mark_past_due-IsConsistent,
}
use vaketta_backend.Billing.Account.Runs.Work.{
  convert_due_trials-IsConsistent, renew_due_subscriptions-IsConsistent,
  expire_overdue_subscriptions-IsConsistent,
}
use vaketta_backend.Billing.Account.Runs.Delinquent.{advance_delinquent-IsConsistent}

perform-IsConsistent :
    (plans : ℕ → Option Plan) (epoch : ℕ) (tz : TimeZone) (operation : Operation) (i : Instant)
    (account : Account)
    → IsConsistent account
    → IsConsistent (perform plans epoch tz operation i account)
unfolding get_effective_subscription
perform-IsConsistent plans epoch tz (assign start plan_id invoice) i account c =
    assign_plan_to_hotel-IsConsistent plans start plan_id invoice i.now i.year tz account c
perform-IsConsistent plans epoch tz (trial days terms) i account c =
    start_trial-IsConsistent days terms i.now tz account c
perform-IsConsistent plans epoch tz (cancel immediate) i account c =
    cancel_subscription-IsConsistent immediate i.now account c
perform-IsConsistent plans epoch tz (extend back days) i account c =
    extend_subscription-IsConsistent back days i.now tz account c
perform-IsConsistent plans epoch tz reactivate i account c =
    reactivate_after_payment-IsConsistent i.now account c
perform-IsConsistent plans epoch tz delay i account c = mark_past_due-IsConsistent account c
perform-IsConsistent plans epoch tz convert i account c =
    convert_due_trials-IsConsistent plans i.now i.year tz account c
perform-IsConsistent plans epoch tz (dun grace_days) i account c =
    advance_delinquent-IsConsistent grace_days i.now account c
perform-IsConsistent plans epoch tz expire i account c =
    expire_overdue_subscriptions-IsConsistent i.now tz account c
perform-IsConsistent plans epoch tz (renew usage_of) i account c =
    renew_due_subscriptions-IsConsistent usage_of i.now i.year tz account c
perform-IsConsistent plans epoch tz (bill event) i account c = record {
  one_live = c.one_live;
  ids = c.ids;
  copied = c.copied;
}
perform-IsConsistent plans epoch tz read i account c = record {
  one_live = c.one_live;
  ids = c.ids;
  copied = c.copied;
}

-- After any operations at any instants, a hotel has at most one live subscription, and the status and
-- the dates on the hotel's row are those of that subscription.
pub perform_all-IsConsistent :
    (plans : ℕ → Option Plan) (epoch : ℕ) (tz : TimeZone) (operations : List (Operation × Instant))
    (hotel_id : ℕ) (hotel : Hotel)
    → IsConsistent (perform_all plans epoch tz operations (new_account hotel_id hotel))
perform_all-IsConsistent plans epoch tz [] hotel_id hotel = record {
  one_live = omega arith;
  ids = tt;
  copied = tt;
}
perform_all-IsConsistent plans epoch tz ((operation, i) ∷ earlier) hotel_id hotel =
    perform-IsConsistent plans epoch tz operation i _
      (perform_all-IsConsistent plans epoch tz earlier hotel_id hotel)
