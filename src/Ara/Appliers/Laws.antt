-- ===== src/Ara/Appliers/Laws.antt =====
-- The guests of an allocation through an edit.
use mathlib.Core.Option.{some-injective}
use vaketta_backend.Prelude.{
  ℕ, zero, suc, ◌+◌, ◌-◌, ◌≤◌, ◌≡◌, refl, ◌∙◌, arith, false, ◌&&◌, Option, none, some, List, [],
  ◌∷◌, ◌==◌, get_elem?, sum_by, Bool-cases, inl, inr,
}
use vaketta_backend.Js.{JsNumber}
use vaketta_backend.Ara.Types.{AllocationRoom}
use vaketta_backend.Ara.Appliers.{
  ApplyResult, applied, refused, RoomConfigResolver, map_at, remove_at, apply_move_guest,
  move_guest_of, move_guest_between, moved_rooms, moved_count, reprice_for_move,
}

-- A sum over the rooms, before and after one of them is changed or taken out.
pub sum_by-map_at :
    (f : AllocationRoom → ℕ) (g : AllocationRoom → AllocationRoom) (i : ℕ)
    (rooms : List AllocationRoom) (r : AllocationRoom)
    → get_elem? rooms i ≡ some r
    → sum_by f (map_at i g rooms) + f r ≡ sum_by f rooms + f (g r)
unfolding map_at
sum_by-map_at f g i [] r e = cc
sum_by-map_at f g zero (x ∷ rs) r e = let i : x ≡ r = some-injective _ _ e in rw i (omega arith)
sum_by-map_at f g (suc i) (x ∷ rs) r e = omega (arith, sum_by-map_at f g i rs r e)

pub sum_by-remove_at :
    (f : AllocationRoom → ℕ) (i : ℕ) (rooms : List AllocationRoom) (r : AllocationRoom)
    → get_elem? rooms i ≡ some r
    → sum_by f (remove_at i rooms) + f r ≡ sum_by f rooms
unfolding remove_at
sum_by-remove_at f i [] r e = cc
sum_by-remove_at f zero (x ∷ rs) r e = let i : x ≡ r = some-injective _ _ e in rw i (omega arith)
sum_by-remove_at f (suc i) (x ∷ rs) r e = omega (arith, sum_by-remove_at f i rs r e)

-- Another room is not touched.
get_elem?-map_at :
    (g : AllocationRoom → AllocationRoom) (i j : ℕ) (rooms : List AllocationRoom)
    → (i == j) ≡ false
    → get_elem? (map_at i g rooms) j ≡ get_elem? rooms j
unfolding map_at
get_elem?-map_at g i j [] h = refl
get_elem?-map_at g zero zero (x ∷ rs) h = absurd (ground arith)
get_elem?-map_at g zero (suc j) (x ∷ rs) h = refl
get_elem?-map_at g (suc i) zero (x ∷ rs) h = refl
get_elem?-map_at g (suc i) (suc j) (x ∷ rs) h = get_elem?-map_at g i j rs (ground arith)

-- The guests of the rooms stay as many.
abbrev pub SameGuests : List AllocationRoom → List AllocationRoom → Type 0
SameGuests rooms out =
    (sum_by (λ r. r.adults) out ≡ sum_by (λ r. r.adults) rooms)
    × (sum_by (λ r. r.children) out ≡ sum_by (λ r. r.children) rooms)

-- A change of two rooms in one quantity: what one loses the other gains.
moved_sum :
    (f : AllocationRoom → ℕ) (rooms : List AllocationRoom) (from to to' from' : AllocationRoom)
    (i j n : ℕ)
    → get_elem? rooms i ≡ some from
    → get_elem? rooms j ≡ some to
    → (j == i) ≡ false
    → f to' ≡ f to + n
    → let placed = map_at j (λ r. to') rooms in
      (f from ≡ n → sum_by f (remove_at i placed) ≡ sum_by f rooms)
      × (f from ≡ f from' + n → sum_by f (map_at i (λ r. from') placed) ≡ sum_by f rooms)
moved_sum f rooms from to to' from' i j n ei ej ne gain =
    let placed = map_at j (λ r. to') rooms in
    let still : get_elem? placed i ≡ some from = get_elem?-map_at (λ r. to') j i rooms ne ∙ ei in
    let put = sum_by-map_at f (λ r. to') j rooms to ej in
    let out = sum_by-remove_at f i placed from still in
    let swapped = sum_by-map_at f (λ r. from') i placed from still in
    ((λ h. omega arith), (λ h. omega arith))

moved_rooms-SameGuests :
    (rooms : List AllocationRoom) (from to : AllocationRoom) (i j a c : ℕ)
    (resolve_cfg : RoomConfigResolver)
    → get_elem? rooms i ≡ some from
    → get_elem? rooms j ≡ some to
    → (j == i) ≡ false
    → a ≤ from.adults
    → c ≤ from.children
    → SameGuests rooms (moved_rooms rooms from to i j a c resolve_cfg)
unfolding moved_rooms reprice_for_move
moved_rooms-SameGuests rooms from to i j a c resolve_cfg ei ej ne ha hc =
    let to' = reprice_for_move to (to.adults + a) (to.children + c) (resolve_cfg to) in
    let from' = reprice_for_move from (from.adults - a) (from.children - c) (resolve_cfg from) in
    let adults = moved_sum (λ r. r.adults) rooms from to to' from' i j a ei ej ne refl in
    let children = moved_sum (λ r. r.children) rooms from to to' from' i j c ei ej ne refl in
    elim (Bool-cases (from.adults - a == 0 && from.children - c == 0)) [
      | inl emptied ↦ rw emptied (adults.0 (ground arith), children.0 (ground arith))
      | inr stays ↦ rw stays (adults.1 (omega arith), children.1 (omega arith))
    ]

-- What a successful edit is to keep; a refused one returns no rooms.
abbrev pub KeepsGuests : List AllocationRoom → ApplyResult → Type 0
KeepsGuests rooms (applied out returned) = SameGuests rooms out
KeepsGuests rooms (refused reason) = Unit

move_guest_of-KeepsGuests :
    (source target : Option AllocationRoom) (rooms : List AllocationRoom) (i j a c : ℕ)
    (resolve_cfg : RoomConfigResolver)
    → get_elem? rooms i ≡ source
    → get_elem? rooms j ≡ target
    → KeepsGuests rooms (move_guest_of source target rooms i j a c resolve_cfg)
unfolding move_guest_of move_guest_between
move_guest_of-KeepsGuests none target rooms i j a c resolve_cfg ei ej = tt
move_guest_of-KeepsGuests (some from) none rooms i j a c resolve_cfg ei ej = tt
move_guest_of-KeepsGuests (some from) (some to) rooms i j a c resolve_cfg ei ej =
    elim (Bool-cases (i == j)) [
      | inl same ↦ rw same tt
      | inr ne ↦
          let ne' : (j == i) ≡ false = ground arith in
          rw ne (ground (arith, moved_rooms-SameGuests rooms from to i j a c resolve_cfg ei ej ne'))
    ]

-- Moving guests between rooms neither loses nor adds a guest: after a successful move the rooms hold
-- as many adults and as many children as before, also where the emptied source room is dropped.
pub apply_move_guest-KeepsGuests :
    (rooms : List AllocationRoom) (i j : ℕ) (adults children : JsNumber)
    (resolve_cfg : RoomConfigResolver)
    → KeepsGuests rooms (apply_move_guest rooms i j adults children resolve_cfg)
unfolding apply_move_guest
apply_move_guest-KeepsGuests rooms i j adults children resolve_cfg =
    move_guest_of-KeepsGuests (get_elem? rooms i) (get_elem? rooms j) rooms i j (moved_count adults)
      (moved_count children) resolve_cfg refl refl
