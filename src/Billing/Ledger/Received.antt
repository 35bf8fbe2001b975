-- ===== src/Billing/Ledger/Received.antt =====
-- What was received for an invoice, through the transition of a payment.
use Prim.Native.String.{String}
use vaketta_backend.Prelude.{
  ℕ, ◌+◌, ◌≤◌, ◌≡◌, inl, inr, refl, arith, true, Option, none, some, List, [], ◌∷◌, ◌==◌,
  if◌then◌else◌, Bool-cases, ==_iff,
}
use vaketta_backend.Billing.Ledger.{Payment}
use vaketta_backend.Billing.Ledger.Payments.{find_payment, update_payment, is_pending}
use vaketta_backend.Billing.Ledger.Review.{Settlement, to_succeeded, to_failed, claimed}
use vaketta_backend.Billing.Ledger.Credit.{received, AllDated}

pub AllDated-update :
    (n id : ℕ) (s : Settlement) (actor : Option ℕ) (reason : Option String) (ps : List Payment)
    → AllDated n ps
    → AllDated n (update_payment id (claimed s actor reason) ps)
unfolding update_payment
AllDated-update n id s actor reason [] d = tt
AllDated-update n id to_succeeded actor reason (p ∷ ps) d =
    ground (arith, AllDated-update p.id id to_succeeded actor reason ps d.2)
AllDated-update n id to_failed actor reason (p ∷ ps) d =
    ground (arith, AllDated-update p.id id to_failed actor reason ps d.2)

update_payment_above :
    (f : Payment → Payment) (n id : ℕ) (ps : List Payment)
    → n ≤ id
    → AllDated n ps
    → update_payment id f ps ≡ ps
unfolding update_payment
update_payment_above f n id [] h d = refl
update_payment_above f n id (p ∷ ps) h d =
    ground (arith, update_payment_above f p.id id ps (omega arith) d.2)

-- What a transition of the payment that is found adds to what was received.
abbrev pub gain : Settlement → Option Payment → ℕ → ℕ
gain to_failed p k = 0
gain to_succeeded none k = 0
gain to_succeeded (some p) k = if k == p.invoice_id then p.amount else 0

abbrev pub IsPending : Option Payment → Type 0
IsPending none = Unit
IsPending (some p) = is_pending p.status ≡ true

received-claimed :
    (s : Settlement) (actor : Option ℕ) (reason : Option String) (p : Payment) (k : ℕ) (rest : ℕ)
    → is_pending p.status ≡ true
    → received k (claimed s actor reason p ∷ []) ≡ received k (p ∷ []) + gain s (some p) k
received-claimed to_succeeded actor reason p k rest h = ground arith
received-claimed to_failed actor reason p k rest h = ground arith

pub received-update :
    (n id : ℕ) (s : Settlement) (actor : Option ℕ) (reason : Option String) (ps : List Payment)
    (k : ℕ)
    → AllDated n ps
    → IsPending (find_payment id ps)
    → received k (update_payment id (claimed s actor reason) ps)
      ≡ received k ps + gain s (find_payment id ps) k
unfolding update_payment find_payment
received-update n id to_succeeded actor reason [] k d h = refl
received-update n id to_failed actor reason [] k d h = refl
received-update n id s actor reason (p ∷ ps) k d h = elim (Bool-cases (p.id == id)) [
  | inl same ↦
      let i : p.id ≡ id = (==_iff p.id id).0 same in
      let tail = update_payment_above (claimed s actor reason) p.id id ps (omega arith) d.2 in
      rw same (rw tail (omega (arith, received-claimed s actor reason p k 0 (rw same at h))))
  | inr other ↦
      rw other (omega (arith, received-update p.id id s actor reason ps k d.2 (rw other at h)))
]
