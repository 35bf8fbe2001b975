-- ===== src/Billing/Overage.antt =====
-- Overage money: src/billing/overage.ts. The counts and terms may be any JavaScript value, since the
-- source guards against corrupt rows.
use vaketta_backend.Prelude.{
  ℕ, ◌+◌, ◌-◌, ◌*◌, ◌≡◌, arith, true, false, leb, ◌==◌, if◌then◌else◌, ltb, ◌&&◌, ◌≤◌, ◌↔◌, refl,
  zero, suc, inl, inr, lt-or-le,
}
use native.Mathlib.Nat.{add-mul}
use vaketta_backend.Js.{JsValue, nan, infinite, finite, number, not_a_number}

pub record UsageCounts : Type 0 where
  pub conversations_used : JsValue
  pub ai_replies_used : JsValue

pub record OverageTerms : Type 0 where
  pub conversation_limit : JsValue
  pub ai_reply_limit : JsValue
  pub extra_conversation_charge : JsValue
  pub extra_ai_reply_charge : JsValue

pub record OverageResult : Type 0 where
  pub conversation_overage : ℕ
  pub ai_reply_overage : ℕ
  pub conversation_charge : ℕ
  pub ai_reply_charge : ℕ
  pub total : ℕ

-- A positive finite number is rounded down; anything else counts 0.
unfoldable pub safe_count : JsValue → ℕ
safe_count (number (finite false whole _)) = whole
safe_count (number (finite true _ _)) = 0
safe_count (number nan) = 0
safe_count (number (infinite _)) = 0
safe_count not_a_number = 0

unfoldable pub units_over_limit : JsValue → JsValue → ℕ
units_over_limit used limit =
    let lim = safe_count limit in if lim == 0 then 0 else safe_count used - lim

unfoldable pub compute_overage : UsageCounts → OverageTerms → OverageResult
compute_overage usage terms =
    let conversations = units_over_limit usage.conversations_used terms.conversation_limit in
    let replies = units_over_limit usage.ai_replies_used terms.ai_reply_limit in
    let conversation_charge = conversations * safe_count terms.extra_conversation_charge in
    let ai_reply_charge = replies * safe_count terms.extra_ai_reply_charge in
    record {
      conversation_overage = conversations;
      ai_reply_overage = replies;
      conversation_charge = conversation_charge;
      ai_reply_charge = ai_reply_charge;
      total = conversation_charge + ai_reply_charge;
    }

-- A finite number that is at least a count.
abbrev pub Reaches : JsValue → ℕ → Type 0
Reaches (number (finite false whole _)) n = n ≤ whole
Reaches (number (finite true _ _)) n = ⊥
Reaches (number nan) n = ⊥
Reaches (number (infinite _)) n = ⊥
Reaches not_a_number n = ⊥

-- The number of units that a value is worth: it reaches each of them, and no further one.
abbrev pub Counts : JsValue → ℕ → Type 0
Counts v n = (unit : ℕ) → 1 ≤ unit → (unit ≤ n) ↔ Reaches v unit

none_counted : (n : ℕ) → ((unit : ℕ) → 1 ≤ unit → unit ≤ n → ⊥) → 0 ≡ n
none_counted zero h = refl
none_counted (suc n) h = absurd (h 1 (omega arith) (omega arith))

Counts-safe_count : (v : JsValue) (n : ℕ) → Counts v n → safe_count v ≡ n
unfolding safe_count
Counts-safe_count (number (finite false whole f)) n c = elim (lt-or-le whole n) [
  | inl less ↦ let reached = (c n (omega arith)).0 (omega arith) in absurd (omega arith)
  | inr le ↦ elim (lt-or-le n whole) [
    | inl more ↦ let reached = (c whole (omega arith)).1 (omega arith) in absurd (omega arith)
    | inr ge ↦ omega arith
  ]
]
Counts-safe_count (number (finite true w f)) n c = none_counted n (λ unit h. (c unit h).0)
Counts-safe_count (number nan) n c = none_counted n (λ unit h. (c unit h).0)
Counts-safe_count (number (infinite s)) n c = none_counted n (λ unit h. (c unit h).0)
Counts-safe_count not_a_number n c = none_counted n (λ unit h. (c unit h).0)

-- The bill of one resource, unit by unit: each unit used after those of the allowance costs the price,
-- and an allowance of 0 is unlimited.
unfoldable pub bill : ℕ → ℕ → ℕ → ℕ
bill zero limit price = 0
bill (suc before) limit price =
    bill before limit price + (if ltb 0 limit && leb limit before then price else 0)

bill_lem :
    (used limit price : ℕ)
    → bill used limit price ≡ (if limit == 0 then 0 else used - limit) * price
unfolding bill
bill_lem zero limit price = grind arith
bill_lem (suc before) limit price =
    let rest = bill_lem before limit price in
    elim (lt-or-le 0 limit) [
      | inl finite_allowance ↦ elim (lt-or-le before limit) [
        | inl within ↦
            let left : before - limit ≡ 0 = omega arith in
            let next : suc before - limit ≡ 0 = omega arith in
            let rest' = rw left at rest in rw next (ground (arith, rest'))
        | inr above ↦
            let next : suc before - limit ≡ (before - limit) + 1 = omega arith in
            rw next (ground (arith, rest, add-mul (before - limit) 1 price))
      ]
      | inr unlimited ↦ ground (arith, rest)
    ]

-- For any usage and terms, where each value is worth the number of units that it reaches as a finite
-- number (0 for NaN, an infinity, a negative number or no number), the total is the sum of the bills of
-- the two resources: each unit used after those of the allowance costs the price, and a resource with an
-- allowance of 0 costs nothing.
pub compute_overage-bill :
    (usage : UsageCounts) (terms : OverageTerms) (used limit price used' limit' price' : ℕ)
    → Counts usage.conversations_used used
    → Counts terms.conversation_limit limit
    → Counts terms.extra_conversation_charge price
    → Counts usage.ai_replies_used used'
    → Counts terms.ai_reply_limit limit'
    → Counts terms.extra_ai_reply_charge price'
    → (compute_overage usage terms).total ≡ bill used limit price + bill used' limit' price'
unfolding compute_overage units_over_limit
compute_overage-bill usage terms used limit price used' limit' price' a b c a' b' c' =
    rw
      (
        Counts-safe_count usage.conversations_used used a,
        Counts-safe_count terms.conversation_limit limit b,
        Counts-safe_count terms.extra_conversation_charge price c,
        Counts-safe_count usage.ai_replies_used used' a',
        Counts-safe_count terms.ai_reply_limit limit' b',
        Counts-safe_count terms.extra_ai_reply_charge price' c',
        bill_lem used limit price,
        bill_lem used' limit' price',
      )
      refl
