-- ===== src/Ara/Ages.antt =====
-- Children's ages: `accumulateAges` and `reclassifyGuests` of src/automation/nodes/ara/ages.ts.
pub mod Laws
use vaketta_backend.Prelude.{
  ℕ, ◌+◌, ◌-◌, Option, none, some, List, [], ◌∷◌, ◌++◌, ltb, leb, ◌==◌, if◌then◌else◌, length, take,
  Bool,
}

pub data AgeStatus : Type 0 where
  complete partial over : AgeStatus

pub record AgeAccumulation : Type 0 where
  pub ages : List ℕ
  pub status : AgeStatus

unfoldable pub accumulate_ages : List ℕ → List ℕ → ℕ → AgeAccumulation
accumulate_ages collected incoming children_count =
    let merged = collected ++ incoming in
    if length merged == children_count
    then record { ages = merged; status = complete }
    else (if ltb (length merged) children_count
        then record { ages = merged; status = partial }
        else record { ages = take children_count merged; status = over })

-- `Array.prototype.filter`.
unfoldable pub filter : (ℕ → Bool) → List ℕ → List ℕ
filter keep [] = []
filter keep (a ∷ as_) = let rest = filter keep as_ in if keep a then a ∷ rest else rest

pub record ReclassResult : Type 0 where
  pub effective_adults : ℕ
  pub effective_children : ℕ
  pub effective_children_ages : List ℕ
  pub promoted_to_adult : ℕ

-- The callers collect one age for each child, so the children left are never fewer than none.
unfoldable pub reclassify_guests : ℕ → ℕ → List ℕ → Option ℕ → ReclassResult
reclassify_guests adults children ages none = record {
  effective_adults = adults;
  effective_children = children;
  effective_children_ages = ages;
  promoted_to_adult = 0;
}
reclassify_guests adults children ages (some limit) =
    let promoted = length (filter (λ a. ltb limit a) ages) in
    record {
      effective_adults = adults + promoted;
      effective_children = children - promoted;
      effective_children_ages = filter (λ a. leb a limit) ages;
      promoted_to_adult = promoted;
    }
