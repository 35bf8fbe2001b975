-- ===== src/Tests/Ages.antt =====
-- Three children of 4, 9 and 15 years, where the limit is 12.
use vaketta_backend.Prelude.{
  ◌+◌, ◌≡◌, refl, some, [], ◌∷◌, length, ℕ, sum_by, ltb, leb, if◌then◌else◌,
}
use vaketta_backend.Ara.Ages.{reclassify_guests}
use vaketta_backend.Ara.Ages.Laws.{times, reclassify_guests-KeepsGuests}

reclassify_guests-KeepsGuests_example :
    let r = reclassify_guests 2 3 (4 ∷ 9 ∷ 15 ∷ []) (some 12) in
    (r.effective_adults + r.effective_children ≡ 5)
    × (length r.effective_children_ages ≡ r.effective_children)
    × (r.effective_adults ≡ 2 + r.promoted_to_adult)
    × (r.promoted_to_adult ≡ sum_by (λ a. if ltb 12 a then 1 else 0) (4 ∷ 9 ∷ 15 ∷ []))
    × ((age : ℕ)
        → times age r.effective_children_ages
          ≡ (if leb age 12 then times age (4 ∷ 9 ∷ 15 ∷ []) else 0))
reclassify_guests-KeepsGuests_example = reclassify_guests-KeepsGuests 2 3 12 (4 ∷ 9 ∷ 15 ∷ []) refl
