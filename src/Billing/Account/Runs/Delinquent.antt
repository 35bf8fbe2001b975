-- ===== src/Billing/Account/Runs/Delinquent.antt =====
-- Consistency and the cache through the passes over unpaid invoices.
use vaketta_backend.Prelude.{ℕ, inl, inr, refl, arith, List, [], ◌∷◌, ◌==◌, Bool-cases}
use vaketta_backend.Billing.EffectiveStatus.{expired}
use vaketta_backend.Billing.Ledger.{Invoice}
use vaketta_backend.Billing.Account.{Account, Subscription, is_live}
use vaketta_backend.Billing.Account.Changes.{mark_past_due}
use vaketta_backend.Billing.Account.Dunning.{mark_each, suspend, suspend_each, advance_delinquent}
use vaketta_backend.Billing.Account.Runs.Consistent.{IsConsistent, Copies-none}
use vaketta_backend.Billing.Account.Runs.Rows.{live_count-update_live, Falling-update_live}
use vaketta_backend.Billing.Account.Runs.Changes.{mark_past_due-IsConsistent}

-- Passes over the invoices keep what one step keeps.
mark_each_keeps :
    (P : Account → Type 0) (invs : List Invoice) (account : Account)
    → ((a : Account) → P a → P (mark_past_due a).0)
    → P account
    → P (mark_each invs account)
unfolding mark_each
mark_each_keeps P [] account step p = p
mark_each_keeps P (inv ∷ invs) account step p =
    elim (Bool-cases (inv.hotel_id == account.hotel_id)) [
      | inl own ↦ rw own (mark_each_keeps P invs _ step (step account p))
      | inr foreign ↦ rw foreign (mark_each_keeps P invs account step p)
    ]

suspend_each_keeps :
    (P : Account → Type 0) (invs : List Invoice) (account : Account)
    → ((a : Account) → P a → P (suspend a))
    → P account
    → P (suspend_each invs account)
unfolding suspend_each
suspend_each_keeps P [] account step p = p
suspend_each_keeps P (inv ∷ invs) account step p =
    elim (Bool-cases (inv.hotel_id == account.hotel_id)) [
      | inl own ↦ rw own (suspend_each_keeps P invs _ step (step account p))
      | inr foreign ↦ rw foreign (suspend_each_keeps P invs account step p)
    ]

pub advance_delinquent_keeps :
    (P : Account → Type 0) (grace_days now : ℕ) (account : Account)
    → ((a : Account) → P a → P (mark_past_due a).0)
    → ((a : Account) → P a → P (suspend a))
    → P account
    → P (advance_delinquent grace_days now account)
unfolding advance_delinquent
advance_delinquent_keeps P grace_days now account mark stop p =
    suspend_each_keeps P _ _ stop (mark_each_keeps P _ account mark p)

suspend-IsConsistent : (account : Account) → IsConsistent account → IsConsistent (suspend account)
unfolding suspend
suspend-IsConsistent account c =
    let f : Subscription → Subscription = λ s. record s { status = expired } in
    let dead = live_count-update_live f account.subscriptions (λ s. refl) in
    elim (Bool-cases (is_live account.hotel.subscription_status)) [
      | inl live ↦ rw live (record {
        one_live = omega (arith, dead);
        ids = Falling-update_live account.next_id f account.subscriptions (λ s. refl) c.ids;
        copied = Copies-none _ _ dead;
      })
      | inr ended ↦ rw ended c
    ]

pub advance_delinquent-IsConsistent :
    (grace_days now : ℕ) (account : Account)
    → IsConsistent account
    → IsConsistent (advance_delinquent grace_days now account)
advance_delinquent-IsConsistent grace_days now account c =
    advance_delinquent_keeps IsConsistent grace_days now account mark_past_due-IsConsistent
      suspend-IsConsistent c
