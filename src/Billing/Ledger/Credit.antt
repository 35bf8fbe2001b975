-- ===== src/Billing/Ledger/Credit.antt =====
-- The balance of the ledger: what an invoice shows as paid beside its payments.
use mathlib.Core.Path.{subst}
use mathlib.Core.Option.{some-injective}
use vaketta_backend.Prelude.{
  ℕ, ◌+◌, ◌≤◌, ◌<◌, ◌≡◌, inl, inr, refl, sym, arith, false, Option, none, some, List, [], ◌∷◌, leb,
  ◌==◌, if◌then◌else◌, sum_by, Bool-cases, leb→lt, ==_iff, ◌∙◌,
}
use vaketta_backend.Billing.Ledger.{
  Invoice, InvoiceStatus, draft, open_, paid, voided, uncollectible, Payment, Ledger,
}
use vaketta_backend.Billing.Ledger.Payments.{
  find_invoice, update_invoice, outstanding_of, credit, is_void, is_succeeded,
}

-- The money that has arrived for an invoice.
abbrev pub received : ℕ → List Payment → ℕ
received id ps =
    sum_by (λ p. if p.invoice_id == id then (if is_succeeded p.status then p.amount else 0) else 0)
      ps

-- What each status says of the amount that is paid.
abbrev pub StatusFits : InvoiceStatus → ℕ → ℕ → Type 0
StatusFits open_ amount total = amount < total
StatusFits paid amount total = amount ≡ total
StatusFits voided amount total = amount ≡ 0
StatusFits draft amount total = Unit
StatusFits uncollectible amount total = Unit

-- An invoice that shows what was received for it, within its total, and has the status of that.
pub record IsBalanced (ps : List Payment) (inv : Invoice) : Type 0 where
  pub backed : inv.amount_paid ≡ received inv.id ps
  pub within : inv.amount_paid ≤ inv.total
  pub fits : StatusFits inv.status inv.amount_paid inv.total

-- Every invoice is balanced, and the ids fall from below a bound, so that none occurs twice.
abbrev pub AllBalanced : ℕ → List Payment → List Invoice → Type 0
AllBalanced n ps [] = Unit
AllBalanced n ps (inv ∷ invs) = (inv.id < n) × IsBalanced ps inv × AllBalanced inv.id ps invs

-- The payments' ids fall too, and each payment is later than its invoice.
abbrev pub AllDated : ℕ → List Payment → Type 0
AllDated n [] = Unit
AllDated n (p ∷ ps) = (p.id < n) × (p.invoice_id < p.id) × AllDated p.id ps

pub record IsSound (ledger : Ledger) : Type 0 where
  pub balanced : AllBalanced ledger.next_id ledger.payments ledger.invoices
  pub dated : AllDated ledger.next_id ledger.payments

pub AllDated-le : (m n : ℕ) (ps : List Payment) → m ≤ n → AllDated m ps → AllDated n ps
AllDated-le m n [] h d = tt
AllDated-le m n (p ∷ ps) h d = (omega arith, d.1, d.2)

pub AllBalanced-le :
    (m n : ℕ) (ps : List Payment) (invs : List Invoice)
    → m ≤ n
    → AllBalanced m ps invs
    → AllBalanced n ps invs
AllBalanced-le m n ps [] h b = tt
AllBalanced-le m n ps (inv ∷ invs) h b = (omega arith, b.1, b.2)

-- Nothing was received for an invoice that is not there yet.
pub received_fresh : (n id : ℕ) (ps : List Payment) → n ≤ id → AllDated n ps → received id ps ≡ 0
received_fresh n id [] h d = refl
received_fresh n id (p ∷ ps) h d =
    let tail = received_fresh p.id id ps (omega arith) d.2 in ground arith

-- Ids at or above the bound stand in no row.
update_invoice_above :
    (f : Invoice → Invoice) (n id : ℕ) (ps : List Payment) (invs : List Invoice)
    → n ≤ id
    → AllBalanced n ps invs
    → update_invoice id f invs ≡ invs
unfolding update_invoice
update_invoice_above f n id ps [] h b = refl
update_invoice_above f n id ps (inv ∷ invs) h b =
    ground (arith, update_invoice_above f inv.id id ps invs (omega arith) b.2)

pub find_invoice-IsBalanced :
    (n id : ℕ) (ps : List Payment) (invs : List Invoice) (inv : Invoice)
    → find_invoice id invs ≡ some inv
    → AllBalanced n ps invs
    → (inv.id ≡ id) × (inv.id < n) × IsBalanced ps inv
unfolding find_invoice
find_invoice-IsBalanced n id ps [] inv e b = absurd (ground arith)
find_invoice-IsBalanced n id ps (x ∷ invs) inv e b = elim (Bool-cases (x.id == id)) [
  | inl same ↦
      let path : x ≡ inv = some-injective _ _ (rw same at e) in
      subst (λ i. (i.id ≡ id) × (i.id < n) × IsBalanced ps i) path
        ((==_iff x.id id).0 same, b.0, b.1)
  | inr other ↦
      let (i, below, bal) = find_invoice-IsBalanced x.id id ps invs inv (rw other at e) b.2 in
      (i, omega arith, bal)
]

-- An invoice that may be credited with an amount.
abbrev pub Takes : ℕ → Option Invoice → Type 0
Takes amount none = Unit
Takes amount (some inv) = (amount ≤ outstanding_of inv) × (is_void inv.status ≡ false)

credit-IsBalanced :
    (amount now : ℕ) (ps qs : List Payment) (inv : Invoice)
    → IsBalanced ps inv
    → Takes amount (some inv)
    → received inv.id qs ≡ received inv.id ps + amount
    → IsBalanced qs (credit amount now inv)
unfolding credit
credit-IsBalanced amount now ps qs inv b t r =
    elim (Bool-cases (leb inv.total (inv.amount_paid + amount))) [
      | inl full ↦ rw full (record {
        backed = omega (arith, b.backed);
        within = ground (arith, b.within);
        fits = ground (arith, b.within);
      })
      | inr part ↦ rw part (record {
        backed = omega (arith, b.backed);
        within = ground (arith, b.within);
        fits = status_part inv.status b.fits t.1 (leb→lt _ _ part);
      })
    ]
  where
    status_part :
        (status : InvoiceStatus)
        → StatusFits status inv.amount_paid inv.total
        → is_void status ≡ false
        → inv.amount_paid + amount < inv.total
        → StatusFits status (inv.amount_paid + amount) inv.total
    status_part draft f v l = tt
    status_part open_ f v l = l
    status_part paid f v l = ground arith
    status_part voided f v l = ground arith
    status_part uncollectible f v l = tt

credit-id : (amount now : ℕ) (inv : Invoice) → (credit amount now inv).id ≡ inv.id
unfolding credit
credit-id amount now inv = ground arith

pub IsBalanced-other :
    (ps qs : List Payment) (inv : Invoice)
    → received inv.id qs ≡ received inv.id ps
    → IsBalanced ps inv
    → IsBalanced qs inv
IsBalanced-other ps qs inv e b = record {
  backed = b.backed ∙ sym e;
  within = b.within;
  fits = b.fits;
}

pub AllBalanced-other :
    (n id amount : ℕ) (ps qs : List Payment) (invs : List Invoice)
    → n ≤ id
    → AllBalanced n ps invs
    → ((k : ℕ) → received k qs ≡ received k ps + (if k == id then amount else 0))
    → AllBalanced n qs invs
AllBalanced-other n id amount ps qs [] h b r = tt
AllBalanced-other n id amount ps qs (x ∷ invs) h b r =
    let other : (x.id == id) ≡ false = ground arith in
    (
      b.0,
      IsBalanced-other ps qs x (r x.id ∙ rw other (omega arith)) b.1,
      AllBalanced-other x.id id amount ps qs invs (omega arith) b.2 r,
    )

-- A payment that succeeds is credited to its invoice, and no other invoice changes.
pub AllBalanced-credit :
    (n id amount now : ℕ) (ps qs : List Payment) (invs : List Invoice)
    → AllBalanced n ps invs
    → Takes amount (find_invoice id invs)
    → ((k : ℕ) → received k qs ≡ received k ps + (if k == id then amount else 0))
    → AllBalanced n qs (update_invoice id (credit amount now) invs)
unfolding find_invoice update_invoice
AllBalanced-credit n id amount now ps qs [] b t r = tt
AllBalanced-credit n id amount now ps qs (x ∷ invs) b t r = elim (Bool-cases (x.id == id)) [
  | inl same ↦
      let i : x.id ≡ id = (==_iff x.id id).0 same in
      rw same (
        (unfold credit in ground arith),
        credit-IsBalanced amount now ps qs x b.1 (rw same at t) (r x.id ∙ rw same refl),
        rw
            (
              credit-id amount now x,
              update_invoice_above (credit amount now) x.id id ps invs (omega arith) b.2,
            )
            (AllBalanced-other x.id id amount ps qs invs (omega arith) b.2 r),
      )
  | inr other ↦ rw other (
    b.0,
    IsBalanced-other ps qs x (r x.id ∙ rw other (omega arith)) b.1,
    AllBalanced-credit x.id id amount now ps qs invs b.2 (rw other at t) r,
  )
]

-- An invoice that may be voided: nothing was paid for it.
abbrev pub IsUnpaid : Option Invoice → Type 0
IsUnpaid none = Unit
IsUnpaid (some inv) = inv.amount_paid ≡ 0

pub AllBalanced-void :
    (n id : ℕ) (ps : List Payment) (invs : List Invoice)
    → AllBalanced n ps invs
    → IsUnpaid (find_invoice id invs)
    → AllBalanced n ps (update_invoice id (λ i. record i { status = voided }) invs)
unfolding find_invoice update_invoice
AllBalanced-void n id ps [] b u = tt
AllBalanced-void n id ps (x ∷ invs) b u = elim (Bool-cases (x.id == id)) [
  | inl same ↦
      let i : x.id ≡ id = (==_iff x.id id).0 same in
      rw same (
        b.0,
        record { backed = b.1.backed; within = b.1.within; fits = rw same at u },
        rw
            (update_invoice_above (λ i. record i { status = voided }) x.id id ps invs (omega arith)
              b.2)
            b.2,
      )
  | inr other ↦ rw other (b.0, b.1, AllBalanced-void x.id id ps invs b.2 (rw other at u))
]
