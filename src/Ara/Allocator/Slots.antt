-- ===== src/Ara/Allocator/Slots.antt =====
-- Filling the slots: what the rooms take over from the shapes, and what they take of the inventory.
use Prim.Native.String.{String}
use text.Mathlib.Text.{◌==◌ as str_eq}
use vaketta_backend.Prelude.{
  ℕ, zero, suc, ◌+◌, ◌*◌, ◌≤◌, ◌≡◌, refl, ◌∙◌, arith, false, List, [], ◌∷◌, if◌then◌else◌, length,
  replicate, take, sum_by, sum_by-append, sum_by-sort, length-sort, All-sort, sort, All,
  length-append, length-replicate, length-take,
}
use vaketta_backend.Prelude.Int.{pos_part}
use vaketta_backend.Ara.Types.{AllocationConfig, AllocationRoomInput, AllocationRoom}
use vaketta_backend.Ara.Pricing.{compute_room_pricing}
use vaketta_backend.Ara.Allocator.{
  Shape, slots_of, fill_slots, make_room, place, cheaper, heavier, avail_total, max_a,
}
use vaketta_backend.Ara.Allocator.Shapes.{FitsIn}

length-slots_of :
    (rooms : List AllocationRoomInput)
    → length (slots_of rooms) ≡ sum_by (λ r. pos_part r.available_count) rooms
unfolding slots_of
length-slots_of [] = refl
length-slots_of (t ∷ ts) =
    let here = replicate (pos_part t.available_count) t in
    omega (
      arith,
      length-append here (slots_of ts),
      length-replicate (pos_part t.available_count) t,
      length-slots_of ts,
    )

-- A sum of the guests over the rooms is that over the shapes, where there is a slot for each.
sum_by-fill_slots :
    (f : AllocationRoom → ℕ) (g : Shape → ℕ) (config : AllocationConfig) (nights : ℕ)
    → ((slot : AllocationRoomInput) (shape : Shape)
        → f (make_room config nights slot shape) ≡ g shape)
    → (slots : List AllocationRoomInput) (shapes : List Shape) → length shapes ≤ length slots
    → sum_by f (fill_slots config nights slots shapes) ≡ sum_by g shapes
unfolding fill_slots
sum_by-fill_slots f g config nights same [] [] h = refl
sum_by-fill_slots f g config nights same [] (s ∷ ss) h = absurd (omega arith)
sum_by-fill_slots f g config nights same (t ∷ ts) [] h = refl
sum_by-fill_slots f g config nights same (t ∷ ts) (s ∷ ss) h =
    omega (arith, same t s, sum_by-fill_slots f g config nights same ts ss (omega arith))

-- A sum over the slots that the rooms take bounds what it counts of the rooms.
sum_by-fill_slots-le :
    (f : AllocationRoom → ℕ) (g : AllocationRoomInput → ℕ) (config : AllocationConfig) (nights : ℕ)
    → ((slot : AllocationRoomInput) (shape : Shape)
        → f (make_room config nights slot shape) ≡ g slot)
    → (n : ℕ) (slots : List AllocationRoomInput) (shapes : List Shape)
    → sum_by f (fill_slots config nights (take n slots) shapes) ≤ sum_by g slots
unfolding fill_slots
sum_by-fill_slots-le f g config nights same zero slots shapes = omega arith
sum_by-fill_slots-le f g config nights same (suc n) [] shapes = omega arith
sum_by-fill_slots-le f g config nights same (suc n) (t ∷ ts) [] = omega arith
sum_by-fill_slots-le f g config nights same (suc n) (t ∷ ts) (s ∷ ss) =
    omega (arith, same t s, sum_by-fill_slots-le f g config nights same n ts ss)

-- How many of a room are of a type; how many rooms of a type an inventory entry has.
abbrev pub of_type : String → AllocationRoom → ℕ
of_type id r = if str_eq r.room_type_id id then 1 else 0

abbrev pub available_of : String → AllocationRoomInput → ℕ
available_of id t = if str_eq t.room_type_id id then pos_part t.available_count else 0

abbrev slot_of_type : String → AllocationRoomInput → ℕ
slot_of_type id t = if str_eq t.room_type_id id then 1 else 0

sum_by-replicate {ℓ} : {A : Type ℓ} (f : A → ℕ) (n : ℕ) (x : A) → sum_by f (replicate n x) ≡ n * f x
sum_by-replicate f zero x = omega arith
sum_by-replicate f (suc n) x = omega (arith, sum_by-replicate f n x)

slots_of-type :
    (id : String) (rooms : List AllocationRoomInput)
    → sum_by (slot_of_type id) (slots_of rooms) ≡ sum_by (available_of id) rooms
unfolding slots_of
slots_of-type id [] = refl
slots_of-type id (t ∷ ts) =
    let n = pos_part t.available_count in
    let here = replicate n t in
    let split = sum_by-append (slot_of_type id) here (slots_of ts) in
    let same = sum_by-replicate (slot_of_type id) n t in
    ground (arith, split, same, slots_of-type id ts)

All-fill_slots {κ} :
    (P : AllocationRoom → Type κ) (config : AllocationConfig) (nights : ℕ)
    → ((slot : AllocationRoomInput) (shape : Shape)
        → FitsIn config shape
        → P (make_room config nights slot shape))
    → (slots : List AllocationRoomInput) (shapes : List Shape) → All (FitsIn config) shapes
    → All P (fill_slots config nights slots shapes)
unfolding fill_slots
All-fill_slots P config nights each [] ss h = tt
All-fill_slots P config nights each (t ∷ ts) [] h = tt
All-fill_slots P config nights each (t ∷ ts) (s ∷ ss) h =
    (each t s h.0, All-fill_slots P config nights each ts ss h.1)

-- A room that the allocator may hand out: within the node's limits, and its prices fit together.
pub record IsGoodRoom (config : AllocationConfig) (nights : ℕ) (r : AllocationRoom) : Type 0 where
  pub adults_le : r.adults ≤ max_a config
  pub children_le : r.children ≤ config.max_children
  pub stays : r.nights ≡ nights
  pub night : r.price_per_night ≡ r.base_price + r.extra_adult_cost + r.extra_bed_cost
  pub total : r.total_price ≡ r.price_per_night * nights
  pub no_bed : r.extra_bed ≡ false → r.extra_bed_cost ≡ 0

make_room-IsGoodRoom :
    (config : AllocationConfig) (nights : ℕ) (slot : AllocationRoomInput) (shape : Shape)
    → FitsIn config shape
    → IsGoodRoom config nights (make_room config nights slot shape)
unfolding make_room compute_room_pricing
make_room-IsGoodRoom config nights slot shape h = ground arith

module _ (config : AllocationConfig) (nights : ℕ) (rooms : List AllocationRoomInput)
    (shapes : List Shape) where
  -- There is a slot for each shape.
  enough_slots :
      length shapes ≤ avail_total rooms
      → length (sort heavier shapes) ≤ length (take (length shapes) (slots_of (sort cheaper rooms)))
  unfolding avail_total
  enough_slots h =
      let slots = slots_of (sort cheaper rooms) in
      omega (
        arith,
        length-sort heavier shapes,
        length-take (length shapes) slots,
        length-slots_of (sort cheaper rooms),
        sum_by-sort cheaper (λ r. pos_part r.available_count) rooms,
      )

  pub place-sum :
      (f : AllocationRoom → ℕ) (g : Shape → ℕ)
      → ((slot : AllocationRoomInput) (shape : Shape)
          → f (make_room config nights slot shape) ≡ g shape)
      → length shapes ≤ avail_total rooms
      → sum_by f (place config nights rooms shapes) ≡ sum_by g shapes
  unfolding place
  place-sum f g same h =
      sum_by-fill_slots f g config nights same
        (take (length shapes) (slots_of (sort cheaper rooms))) (sort heavier shapes)
        (enough_slots h)
      ∙ sum_by-sort heavier g shapes

  pub place-IsGoodRoom :
      All (FitsIn config) shapes → All (IsGoodRoom config nights) (place config nights rooms shapes)
  unfolding place
  place-IsGoodRoom h =
      All-fill_slots (IsGoodRoom config nights) config nights (make_room-IsGoodRoom config nights)
        (take (length shapes) (slots_of (sort cheaper rooms))) (sort heavier shapes)
        (All-sort heavier (FitsIn config) shapes h)

  -- No type gets more rooms than the inventory has of it.
  pub place-inventory :
      (id : String)
      → sum_by (of_type id) (place config nights rooms shapes) ≤ sum_by (available_of id) rooms
  unfolding place make_room
  place-inventory id = omega (
    arith,
    sum_by-fill_slots-le (of_type id) (slot_of_type id) config nights (λ slot shape. refl)
        (length shapes) (slots_of (sort cheaper rooms)) (sort heavier shapes),
    slots_of-type id (sort cheaper rooms),
    sum_by-sort cheaper (available_of id) rooms,
  )
