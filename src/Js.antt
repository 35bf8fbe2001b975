-- ===== src/Js.antt =====
-- The numbers that JavaScript hands to the number guards of the repository: a value of type
-- `number` may be NaN, infinite, negative or fractional, and an `unknown` may be no number at all.
use vaketta_backend.Prelude.{ℕ, Bool, true, false}

-- What a number has behind its whole part.
pub data Rest : Type 0 where
  exact below_half from_half : Rest

-- `finite neg whole fraction` is the number whose absolute value is `whole` plus a rest below 1,
-- where `fraction` says whether the rest is 0, below a half, or at least a half. The guards and
-- `Math.round` read no more of a number.
pub data JsNumber : Type 0 where
  nan : JsNumber
  infinite : Bool → JsNumber
  finite : Bool → ℕ → Rest → JsNumber

pub data JsValue : Type 0 where
  number : JsNumber → JsValue
  not_a_number : JsValue

abbrev pub of_ℕ : ℕ → JsNumber
of_ℕ n = finite false n exact

abbrev pub is_exact : Rest → Bool
is_exact exact = true
is_exact below_half = false
is_exact from_half = false

-- `x != null ? x : …` reads null and undefined alike; both are `none` in the models.
-- `Number.isInteger`.
abbrev pub is_integer : JsNumber → Bool
is_integer nan = false
is_integer (infinite _) = false
is_integer (finite _ _ fraction) = is_exact fraction

-- `Number.isFinite`.
abbrev pub is_finite : JsNumber → Bool
is_finite nan = false
is_finite (infinite _) = false
is_finite (finite _ _ _) = true
