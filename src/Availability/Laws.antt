-- ===== src/Availability/Laws.antt =====
-- The check of availability, by the nights of a stay.
use vaketta_backend.Prelude.{
  ℕ, zero, suc, ◌+◌, ◌≤◌, ◌<◌, ◌≡◌, ◌↔◌, arith, Bool, true, false, ◌&&◌, List, ltb, leb, ◌==◌,
  if◌then◌else◌, sum_by, inl, inr, lt-or-le, All, lt→ltb, le→ltb, subst,
}
use vaketta_backend.Availability.{
  Booking, BookingStatus, enquiry, awaiting, hold, confirmed, cancelled, nights_from,
  hard_max_stay_nights,
}

-- The statuses in which a booking takes a room: held or confirmed, and neither an enquiry, nor pending,
-- nor cancelled.
abbrev pub takes : BookingStatus → Bool
takes hold = true
takes confirmed = true
takes enquiry = false
takes awaiting = false
takes cancelled = false

-- The held or confirmed bookings that take a room of a type in a night.
abbrev pub covering : ℕ → ℕ → ℕ → List Booking → ℕ
covering hotel_id room_type_id night bookings =
    sum_by
      (λ b.
        if b.hotel_id == hotel_id
          && (b.room_type_id == room_type_id
              && (takes b.status && (leb b.check_in night && ltb night b.check_out)))
        then 1
        else 0)
      bookings

-- Bookings of at most ten years.
abbrev pub AllShort : List Booking → Type 0
AllShort bookings = All (λ b. b.check_out ≤ b.check_in + hard_max_stay_nights) bookings

pub All-nights_from :
    (P : ℕ → Type 0) (n cur end : ℕ)
    → end ≤ cur + n
    → All P (nights_from n cur end) ↔ ((night : ℕ) → cur ≤ night → night < end → P night)
unfolding nights_from
All-nights_from P zero cur end h = ((λ a night lo hi. absurd (omega arith)), λ f. tt)
All-nights_from P (suc n) cur end h =
    let (to, from) = All-nights_from P n (cur + 1) end (omega arith) in
    elim (lt-or-le cur end) [
      | inl more ↦ rw (lt→ltb cur end more) (
        (λ a night lo hi. elim (lt-or-le cur night) [
          | inl later ↦ to a.1 night (omega arith) hi
          | inr here ↦ let e : cur ≡ night = omega arith in subst P e a.0
        ]),
        (λ f. (f cur (omega arith) more, from (λ night lo hi. f night (omega arith) hi))),
      )
      | inr over ↦ rw (le→ltb cur end over) ((λ a night lo hi. absurd (omega arith)), λ f. tt)
    ]
