-- ===== src/Ara/Distribute.antt =====
-- How many rooms a number of guests takes, and how they spread over them: `baseFirstRoomCount` and
-- `distributeIntoRooms` of src/automation/nodes/ara/allocator.ts.
use native.Mathlib.Nat.{div-add-mod', mod-lt, mul-add}
use vaketta_backend.Prelude.{
  ap, ◌∙◌, ℕ, zero, suc, ◌+◌, ◌-◌, ◌*◌, ◌/◌, ◌%◌, ◌≤◌, ◌<◌, ◌≡◌, inl, inr, arith, ◌&&◌, List, [],
  ◌∷◌, ltb, leb, ◌==◌, if◌then◌else◌, min, max, length, sum_by, All, leb→le, Bool-cases,
}

-- `Math.ceil(n / d)`, where `d` is not 0.
abbrev pub ceil_div : ℕ → ℕ → ℕ
ceil_div n d = (n + d - 1) / d

unfoldable pub base_first_room_count : ℕ → ℕ → ℕ → ℕ
base_first_room_count units base limit =
    if units == 0
    then 0
    else (if base == 0
        then ceil_div units (max 1 limit)
        else (let n = units / base in
            let r = units % base in
            if r == 0 then n else (if leb r (n * (limit - base)) then n else n + 1)))

-- The first loop: each room takes `cap` guests or what is left. It also returns what remains.
unfoldable pub lay_base : ℕ → ℕ → ℕ → List ℕ × ℕ
lay_base zero cap remaining = ([], remaining)
lay_base (suc rooms) cap remaining =
    let give = min cap remaining in
    let (per, left) = lay_base rooms cap (remaining - give) in (give ∷ per, left)

-- The second loop: while guests remain, each room takes some of them into its spare places.
unfoldable pub absorb : List ℕ → ℕ → ℕ → List ℕ
absorb [] spare remaining = []
absorb (p ∷ ps) spare remaining =
    let give = min spare remaining in
    let rest = absorb ps spare (remaining - give) in
    if ltb 0 remaining && ltb 0 spare then (p + give) ∷ rest else p ∷ ps

unfoldable pub distribute_into_rooms : ℕ → ℕ → ℕ → ℕ → List ℕ
unfolding lay_base absorb
distribute_into_rooms units rooms base limit =
    let base_each = if ltb 0 base then base else limit in
    let (per, remaining) = lay_base rooms base_each units in
    absorb per (limit - base_each) remaining

abbrev pub sum : List ℕ → ℕ
sum = sum_by (λ n. n)

lay_base_lem :
    (rooms cap n : ℕ)
    → let (per, left) = lay_base rooms cap n in
      (length per ≡ rooms)
      × (sum per + left ≡ n)
      × (left ≡ n - rooms * cap)
      × All (λ p. p ≤ cap) per
unfolding lay_base
lay_base_lem zero cap n = omega arith
lay_base_lem (suc rooms) cap n = grind (arith, lay_base_lem rooms cap (n - min cap n))

-- Each room of the second loop holds no less than before and at most `spare` more, and what the
-- loop cannot place is what exceeds the spare places.
absorb_lem :
    (ps : List ℕ) (spare cap n : ℕ)
    → All (λ p. p ≤ cap) ps
    → n ≤ length ps * spare
    → let out = absorb ps spare n in
      (length out ≡ length ps) × (sum out ≡ sum ps + n) × All (λ p. p ≤ cap + spare) out
unfolding absorb
absorb_lem [] spare cap n h k = omega arith
absorb_lem (p ∷ ps) spare cap n h k = grind (arith, absorb_lem ps spare cap (n - min spare n) h.1)

distribute_each :
    (units rooms each spare : ℕ)
    → units ≤ rooms * (each + spare)
    → let (per, remaining) = lay_base rooms each units in
      let out = absorb per spare remaining in
      (length out ≡ rooms) × (sum out ≡ units) × All (λ p. p ≤ each + spare) out
distribute_each units rooms each spare k =
    let (count, total, left, caps) = lay_base_lem rooms each units in
    let (per, remaining) = lay_base rooms each units in
    let fits : remaining ≤ length per * spare = rw count (omega arith) in
    let (count', total', caps') = absorb_lem per spare each remaining caps fits in
    (count' ∙ count, omega arith, caps')

-- Guests that fit into the rooms at the limit are all placed, where the base of a room is at most its
-- limit: as many rooms come out as were asked for, their guests add up, and none is over the limit.
pub distribute_into_rooms_lem :
    (units rooms base limit : ℕ)
    → base ≤ limit
    → units ≤ rooms * limit
    → let out = distribute_into_rooms units rooms base limit in
      (length out ≡ rooms) × (sum out ≡ units) × All (λ p. p ≤ limit) out
unfolding distribute_into_rooms
distribute_into_rooms_lem units rooms base limit h k =
    let each = if ltb 0 base then base else limit in
    let small : each ≤ limit = ground arith in
    let i : each + (limit - each) ≡ limit = omega arith in
    let placed = distribute_each units rooms each (limit - each) (rw i k) in
    (placed.0, placed.1, rw i at placed.2)

-- The rooms that are opened can hold everyone at the limit.
pub units-le-base_first_room_count :
    (units base limit : ℕ)
    → 0 < limit
    → base ≤ limit
    → units ≤ base_first_room_count units base limit * limit
unfolding base_first_room_count
units-le-base_first_room_count units base limit h k =
    let m : max 1 limit ≡ limit = omega arith in
    let q = units / base in
    let q' = (units + limit - 1) / limit in
    let i : limit ≡ base + (limit - base) = omega arith in
    let spread : q * limit ≡ q * base + q * (limit - base) =
      ap (λ t. q * t) i ∙ mul-add q base (limit - base) in
    let div = div-add-mod' units base in
    let up = div-add-mod' (units + limit - 1) limit in
    let up' = mod-lt (units + limit - 1) {m = limit} h in
    rw m (elim (Bool-cases (units == 0)) [
      | inl z ↦ rw z (ground arith)
      | inr nz ↦ rw nz (elim (Bool-cases (base == 0)) [
        | inl b ↦ rw b (omega arith)
        | inr nb ↦
            let r = mod-lt units {m = base} (ground arith) in
            rw nb (elim (Bool-cases (units % base == 0)) [
              | inl e ↦ let none_left : units % base ≡ 0 = ground arith in rw e (omega arith)
              | inr ne ↦ rw ne (elim (Bool-cases (leb (units % base) (q * (limit - base)))) [
                | inl fits ↦ let room = leb→le _ _ fits in rw fits (omega arith)
                | inr over ↦ rw over (omega arith)
              ])
            ])
      ])
    ])
