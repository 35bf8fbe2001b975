-- ===== src/Billing/Account/Runs/Consistent.antt =====
-- An account with one live subscription at most, which the row of the hotel copies.
use mathlib.Core.Option.{some-injective}
use vaketta_backend.Prelude.{
  ℕ, ◌≤◌, ◌<◌, ◌≡◌, inl, inr, refl, sym, arith, true, false, some, List, [], ◌∷◌, ◌==◌,
  if◌then◌else◌, Bool-cases, ==_iff, subst, sum_by, All,
}
use vaketta_backend.Billing.Account.{
  Account, Subscription, Hotel, is_live, current_subscription, update_subscription,
}

-- The columns of the hotel that copy a subscription.
pub record IsCopied (hotel : Hotel) (s : Subscription) : Type 0 where
  pub status : hotel.subscription_status ≡ s.status
  pub start : hotel.billing_start_date ≡ some s.start_date
  pub end : hotel.billing_end_date ≡ s.end_date

abbrev pub live_count : List Subscription → ℕ
live_count ss = sum_by (λ s. if is_live s.status then 1 else 0) ss

abbrev pub Falling : ℕ → List Subscription → Type 0
Falling n [] = Unit
Falling n (s ∷ ss) = (s.id < n) × Falling s.id ss

abbrev pub Copies : Hotel → List Subscription → Type 0
Copies hotel ss = All (λ s. is_live s.status ≡ true → IsCopied hotel s) ss

pub record IsConsistent (account : Account) : Type 0 where
  pub one_live : live_count account.subscriptions ≤ 1
  pub ids : Falling account.next_id account.subscriptions
  pub copied : Copies account.hotel account.subscriptions

pub Falling-le : (m n : ℕ) (ss : List Subscription) → m ≤ n → Falling m ss → Falling n ss
Falling-le m n [] h d = tt
Falling-le m n (s ∷ ss) h d = (omega arith, d.1)

-- Without a live subscription there is nothing to copy.
pub Copies-none : (hotel : Hotel) (ss : List Subscription) → live_count ss ≡ 0 → Copies hotel ss
Copies-none hotel [] h = tt
Copies-none hotel (s ∷ ss) h = elim (Bool-cases (is_live s.status)) [
  | inl live ↦ absurd (omega (arith, (rw live at h)))
  | inr dead ↦ (
    (λ live. absurd (ground (arith, live, dead))),
    Copies-none hotel ss (omega (arith, (rw dead at h))),
  )
]

-- Ids above those of the rows leave them.
pub update_subscription_above :
    (n id : ℕ) (f : Subscription → Subscription) (ss : List Subscription)
    → n ≤ id
    → Falling n ss
    → update_subscription id f ss ≡ ss
unfolding update_subscription
update_subscription_above n id f [] h d = refl
update_subscription_above n id f (s ∷ ss) h d =
    ground (arith, update_subscription_above s.id id f ss (omega arith) d.1)

pub Falling-update :
    (n id : ℕ) (f : Subscription → Subscription) (ss : List Subscription)
    → ((s : Subscription) → (f s).id ≡ s.id)
    → Falling n ss
    → Falling n (update_subscription id f ss)
unfolding update_subscription
Falling-update n id f [] keeps d = tt
Falling-update n id f (s ∷ ss) keeps d =
    let rest = Falling-update s.id id f ss keeps d.1 in
    elim (Bool-cases (s.id == id)) [
      | inl same ↦ rw same (omega (arith, keeps s), rw (keeps s) rest)
      | inr other ↦ rw other (d.0, rest)
    ]

-- A change of the one live subscription: the copy has to fit the changed row only.
pub Copies-update :
    (n : ℕ) (hotel : Hotel) (f : Subscription → Subscription) (ss : List Subscription)
    (s : Subscription)
    → current_subscription ss ≡ some s
    → live_count ss ≤ 1
    → Falling n ss
    → (is_live (f s).status ≡ true → IsCopied hotel (f s))
    → Copies hotel (update_subscription s.id f ss)
unfolding current_subscription update_subscription
Copies-update n hotel f [] s e one d c = absurd (ground (arith, e))
Copies-update n hotel f (x ∷ ss) s e one d c = elim (Bool-cases (is_live x.status)) [
  | inl live ↦
      let path : x ≡ s = some-injective _ _ (rw live at e) in
      let none_left : live_count ss ≡ 0 = (omega (arith, (rw live at one))) in
      subst (λ k. Copies hotel (update_subscription k.id f (x ∷ ss))) path
        (rw ((==_iff x.id x.id).1 refl) (
          subst (λ k. is_live (f k).status ≡ true → IsCopied hotel (f k)) (sym path) c,
          rw (update_subscription_above x.id x.id f ss (omega arith) d.1)
              (Copies-none hotel ss none_left),
        ))
  | inr dead ↦
      let e' : current_subscription ss ≡ some s = rw dead at e in
      let below = current-Falling x.id ss s e' d.1 in
      let other : (x.id == s.id) ≡ false = ground (arith, below) in
      rw other (
        (λ live. absurd (ground (arith, live, dead))),
        Copies-update x.id hotel f ss s e' (omega (arith, (rw dead at one))) d.1 c,
      )
]
  where
    current-Falling :
        (n : ℕ) (ss : List Subscription) (s : Subscription)
        → current_subscription ss ≡ some s
        → Falling n ss
        → s.id < n
    current-Falling n [] s e d = absurd (ground (arith, e))
    current-Falling n (x ∷ ss) s e d = elim (Bool-cases (is_live x.status)) [
      | inl live ↦ subst (λ k. k.id < n) (some-injective _ _ (rw live at e)) d.0
      | inr dead ↦ let below = current-Falling x.id ss s (rw dead at e) d.1 in omega (arith, below)
    ]

-- A change of one row to a status that is live only if it was keeps the count.
pub live_count-update :
    (id : ℕ) (f : Subscription → Subscription) (ss : List Subscription)
    → ((s : Subscription) → is_live s.status ≡ false → is_live (f s).status ≡ false)
    → live_count (update_subscription id f ss) ≤ live_count ss
unfolding update_subscription
live_count-update id f [] dies = omega arith
live_count-update id f (s ∷ ss) dies =
    let rest = live_count-update id f ss dies in
    let d = dies s in
    elim (Bool-cases (s.id == id)) [
      | inl same ↦ rw same (ground (arith, rest, d))
      | inr other ↦ rw other (ground (arith, rest))
    ]
