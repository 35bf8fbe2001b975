-- ===== src/Ara/Ages/Laws.antt =====
-- Counting children as adults: the guests and the ages that are left.
use vaketta_backend.Prelude.{
  refl, ℕ, ◌+◌, ◌≤◌, ◌≡◌, ◌↔◌, min, arith, some, List, [], ◌∷◌, ◌++◌, ltb, leb, length,
  length-append, length-take, sum_by, if◌then◌else◌, ◌==◌,
}
use vaketta_backend.Ara.Ages.{complete, over, accumulate_ages, filter, reclassify_guests}

-- Each age is above the limit or not.
filter-length :
    (limit : ℕ) (ages : List ℕ)
    → length (filter (λ a. ltb limit a) ages) + length (filter (λ a. leb a limit) ages)
      ≡ length ages
unfolding filter
filter-length limit [] = omega arith
filter-length limit (a ∷ ages) = ground (arith, filter-length limit ages)

filter_count :
    (limit : ℕ) (ages : List ℕ)
    → length (filter (λ a. ltb limit a) ages) ≡ sum_by (λ a. if ltb limit a then 1 else 0) ages
unfolding filter
filter_count limit [] = refl
filter_count limit (a ∷ ages) = ground (arith, filter_count limit ages)

-- How often an age stands in a list.
abbrev pub times : ℕ → List ℕ → ℕ
times age ages = sum_by (λ a. if a == age then 1 else 0) ages

times-filter :
    (limit age : ℕ) (ages : List ℕ)
    → times age (filter (λ a. leb a limit) ages) ≡ (if leb age limit then times age ages else 0)
unfolding filter
times-filter limit age [] = ground arith
times-filter limit age (a ∷ ages) = ground (arith, times-filter limit age ages)

-- Where an age is known for each child, exactly the children whose age is above the limit are counted
-- as adults: the number of guests is kept, each age up to the limit is left as often as it was given,
-- no other age is left, and there is one age for each child that remains.
pub reclassify_guests-KeepsGuests :
    (adults children limit : ℕ) (ages : List ℕ)
    → length ages ≡ children
    → let r = reclassify_guests adults children ages (some limit) in
      (r.effective_adults + r.effective_children ≡ adults + children)
      × (length r.effective_children_ages ≡ r.effective_children)
      × (r.effective_adults ≡ adults + r.promoted_to_adult)
      × (r.promoted_to_adult ≡ sum_by (λ a. if ltb limit a then 1 else 0) ages)
      × ((age : ℕ)
          → times age r.effective_children_ages ≡ (if leb age limit then times age ages else 0))
unfolding reclassify_guests
reclassify_guests-KeepsGuests adults children limit ages h =
    let split = filter-length limit ages in
    (
      omega arith,
      omega arith,
      omega arith,
      filter_count limit ages,
      λ age. times-filter limit age ages,
    )

-- The ages kept are as many as were given, up to the number of children; they are complete exactly when
-- as many were given as there are children, and over exactly when more were.
pub accumulate_ages_count :
    (collected incoming : List ℕ) (children_count : ℕ)
    → let r = accumulate_ages collected incoming children_count in
      let given = length collected + length incoming in
      (length r.ages ≡ min given children_count)
      × ((r.status ≡ complete) ↔ (given ≡ children_count))
      × ((r.status ≡ over) ↔ (children_count + 1 ≤ given))
unfolding accumulate_ages
accumulate_ages_count collected incoming children_count =
    let both = length-append collected incoming in
    let kept = length-take children_count (collected ++ incoming) in
    (ground arith, (λ e. ground arith, λ e. ground arith), (λ e. ground arith, λ e. ground arith))
