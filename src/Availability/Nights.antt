-- ===== src/Availability/Nights.antt =====
-- The nights of a stay.
use vaketta_backend.Prelude.{ℕ, zero, suc, ◌+◌, ◌≤◌, ◌≡◌, arith, ◌&&◌, ltb, leb, if◌then◌else◌}
use vaketta_backend.Availability.{nights_from, night_range, occurrences, hard_max_stay_nights}

occurrences-nights_from :
    (night n cur end : ℕ)
    → occurrences night (nights_from n cur end)
      ≡ (if leb cur night && (ltb night end && ltb night (cur + n)) then 1 else 0)
unfolding nights_from
occurrences-nights_from night zero cur end = ground arith
occurrences-nights_from night (suc n) cur end =
    let rest = occurrences-nights_from night n (cur + 1) end in ground (arith, rest)

-- A stay of at most ten years has each of its nights once, and no other.
pub occurrences-night_range :
    (night start end : ℕ)
    → end ≤ start + hard_max_stay_nights
    → occurrences night (night_range start end)
      ≡ (if leb start night && ltb night end then 1 else 0)
unfolding night_range
occurrences-night_range night start end short =
    ground (arith, occurrences-nights_from night 3_650 start end)
