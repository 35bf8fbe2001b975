-- ===== src/Billing/Account/Dunning.antt =====
-- Unpaid invoices: the two passes of `advanceDelinquent` in src/services/dunning.service.ts over the
-- invoices of one hotel. The lists of invoices are read before each pass; the notices are left out.
use vaketta_backend.Prelude.{ℕ, List, [], ◌∷◌, ◌==◌, if◌then◌else◌, none}
use vaketta_backend.Billing.EffectiveStatus.{expired}
use vaketta_backend.Billing.Ledger.{Invoice, find_overdue_invoices, find_just_overdue_invoices}
use vaketta_backend.Billing.Account.{Account, is_live, update_live}
use vaketta_backend.Billing.Account.Changes.{mark_past_due}

unfoldable pub mark_each : List Invoice → Account → Account
mark_each [] account = account
mark_each (inv ∷ invs) account =
    mark_each invs (if inv.hotel_id == account.hotel_id then (mark_past_due account).0 else account)

-- A hotel that is live is expired with its subscriptions.
unfoldable pub suspend : Account → Account
suspend account =
    if is_live account.hotel.subscription_status
    then record account {
      hotel = record account.hotel { subscription_status = expired };
      subscriptions = update_live (λ s. record s { status = expired }) account.subscriptions;
      cache = none;
    }
    else account

unfoldable pub suspend_each : List Invoice → Account → Account
suspend_each [] account = account
suspend_each (inv ∷ invs) account =
    suspend_each invs (if inv.hotel_id == account.hotel_id then suspend account else account)

unfoldable pub advance_delinquent : ℕ → ℕ → Account → Account
advance_delinquent grace_days now account =
    let marked = mark_each (find_just_overdue_invoices now account.ledger) account in
    suspend_each (find_overdue_invoices now grace_days marked.ledger) marked
