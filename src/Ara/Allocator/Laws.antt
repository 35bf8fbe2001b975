-- ===== src/Ara/Allocator/Laws.antt =====
-- The rooms that `allocateRooms` hands out, and when it hands out rooms at all.
use Prim.Native.String.{String}
use vaketta_backend.Prelude.{
  ℕ, ◌*◌, ◌≤◌, ◌<◌, ◌≡◌, refl, arith, false, ◌&&◌, ◌||◌, Option, none, some, List, [], ◌∷◌, ltb,
  ◌==◌, length, sum_by, All, Bool-cases, inl, inr,
}
use vaketta_backend.Ara.Types.{AllocationConfig, AllocationRoomInput, AllocationRoom, max_rooms}
use vaketta_backend.Ara.Allocator.{
  Strategy, Shape, max_a, avail_total, adult_room_count, fill_children, overflow_rooms, room_shapes,
  place, make_room, allocate_shapes, allocate_overflow, allocate_counted, allocate_rooms,
}
use vaketta_backend.Ara.Allocator.Shapes.{
  FitsIn, Overflows, overflow_rooms-Overflows, room_shapes_lem, adult_room_count-enough,
  adult_room_count_total, fill_children_lem,
}
use vaketta_backend.Ara.Allocator.Slots.{
  of_type, available_of, IsGoodRoom, place-sum, place-IsGoodRoom, place-inventory,
}

-- The rooms house the party: every adult and every child has a place, every room is within the
-- node's limits and priced, and the inventory and the ceiling on rooms are kept.
pub record Houses (adults children nights : ℕ) (config : AllocationConfig)
    (rooms : List AllocationRoomInput) (out : List AllocationRoom) : Type 0 where
  pub all_adults : sum_by (λ r. r.adults) out ≡ adults
  pub all_children : sum_by (λ r. r.children) out ≡ children
  pub good : All (IsGoodRoom config nights) out
  pub few : sum_by (λ r. 1) out ≤ max_rooms
  pub in_stock : (id : String) → sum_by (of_type id) out ≤ sum_by (available_of id) rooms

-- What a result is to be: nothing is asked of `none`.
abbrev pub Sound :
    ℕ → ℕ → ℕ → AllocationConfig → List AllocationRoomInput → Option (List AllocationRoom) → Type 0
Sound adults children nights config rooms none = Unit
Sound adults children nights config rooms (some out) =
    Houses adults children nights config rooms out

sum_by-one {ℓ} : {A : Type ℓ} (xs : List A) → sum_by (λ x. 1) xs ≡ length xs
sum_by-one [] = refl
sum_by-one (x ∷ xs) = omega (arith, sum_by-one xs)

empty-Houses :
    (nights : ℕ) (config : AllocationConfig) (rooms : List AllocationRoomInput)
    → Houses 0 0 nights config rooms []
empty-Houses nights config rooms = record {
  all_adults = refl;
  all_children = refl;
  good = tt;
  few = omega arith;
  in_stock = λ id. omega arith;
}

allocate_shapes-Sound :
    (config : AllocationConfig) (nights : ℕ) (rooms : List AllocationRoomInput)
    (shapes : List Shape)
    → All (FitsIn config) shapes
    → Sound
        (sum_by (λ s. s.adults) shapes)
        (sum_by (λ s. s.children) shapes)
        nights
        config
        rooms
        (allocate_shapes config nights rooms shapes)
unfolding allocate_shapes
allocate_shapes-Sound config nights rooms [] fits = empty-Houses nights config rooms
allocate_shapes-Sound config nights rooms (s ∷ ss) fits =
    let shapes = s ∷ ss in
    let some_room : (length shapes == 0) ≡ false = ground arith in
    elim (Bool-cases (ltb (avail_total rooms) (length shapes) || ltb max_rooms (length shapes))) [
      | inl over ↦ rw (some_room, over) tt
      | inr ok ↦
          let slots : length shapes ≤ avail_total rooms = ground arith in
          let cap : length shapes ≤ max_rooms = ground arith in
          rw (some_room, ok)
            (record {
              all_adults =
                  place-sum config nights rooms shapes (λ r. r.adults) (λ s. s.adults)
                    (unfold make_room in λ slot shape. refl) slots;
              all_children =
                  place-sum config nights rooms shapes (λ r. r.children) (λ s. s.children)
                    (unfold make_room in λ slot shape. refl) slots;
              good = place-IsGoodRoom config nights rooms shapes fits;
              few = omega (
                arith,
                place-sum config nights rooms shapes (λ r. 1) (λ s. 1) (λ slot shape. refl) slots,
                sum_by-one shapes,
              );
              in_stock = place-inventory config nights rooms shapes;
            })
    ]

allocate_overflow-Sound :
    (overflow : Option (List ℕ)) (r adults children left : ℕ) (counts : List ℕ)
    (rooms : List AllocationRoomInput) (config : AllocationConfig) (nights : ℕ)
    → adults ≤ r * max_a config
    → fill_children r config.max_children children ≡ (counts, left)
    → Overflows left config overflow
    → Sound adults children nights config rooms
        (allocate_overflow overflow adults r counts rooms config nights)
unfolding allocate_overflow
allocate_overflow-Sound none r adults children left counts rooms config nights enough filled fits =
    tt
allocate_overflow-Sound (some overflow) r adults children left counts rooms config nights enough
      filled fits =
    let (a, c, l, f) =
      room_shapes_lem adults r children left config counts overflow enough filled fits in
    rw (a, c) at
      (allocate_shapes-Sound config nights rooms (room_shapes adults r config counts overflow) f)

allocate_counted-Sound :
    (count : Option ℕ) (adults children : ℕ) (rooms : List AllocationRoomInput)
    (config : AllocationConfig) (nights : ℕ)
    → config.base_children ≤ config.max_children
    → ((r : ℕ) → count ≡ some r → adults ≤ r * max_a config)
    → Sound adults children nights config rooms
        (allocate_counted count adults children rooms config nights)
unfolding allocate_counted
allocate_counted-Sound none adults children rooms config nights h enough = tt
allocate_counted-Sound (some r) adults children rooms config nights h enough =
    let filled = fill_children r config.max_children children in
    allocate_overflow-Sound (overflow_rooms filled.1 config) r adults children filled.1 filled.0
      rooms config nights (enough r refl) refl (overflow_rooms-Overflows filled.1 config h)

allocate_rooms-Sound :
    (adults children : ℕ) (rooms : List AllocationRoomInput) (config : AllocationConfig)
    (nights : ℕ) (strategy : Strategy)
    → config.base_children ≤ config.max_children
    → Sound adults children nights config rooms
        (allocate_rooms adults children rooms config nights strategy)
unfolding allocate_rooms
allocate_rooms-Sound adults children rooms config nights strategy h =
    let available = avail_total rooms in
    elim (Bool-cases (adults == 0 && children == 0)) [
      | inl nobody ↦
          let a : adults ≡ 0 = ground arith in
          let c : children ≡ 0 = ground arith in rw (a, c) (empty-Houses nights config rooms)
      | inr party ↦ rw party (elim (Bool-cases (nights == 0)) [
        | inl no_stay ↦ rw no_stay tt
        | inr stay ↦ rw stay (elim (Bool-cases (available == 0)) [
          | inl full ↦ rw full tt
          | inr free ↦ rw free (
              allocate_counted-Sound (adult_room_count strategy adults available config) adults
                children rooms config nights h
                (adult_room_count-enough strategy adults available config))
        ])
      ])
    ]

-- Whatever rooms `allocateRooms` returns house the party, where the node's base number of children is
-- within its limit: the adults and the children of the rooms add up to those of the party, no room
-- is over the adults' or the children's limit, each is priced as the sum of its parts for each of
-- the nights, there are at most 50, and of no type more than the inventory has.
pub allocate_rooms-Houses :
    (adults children : ℕ) (rooms : List AllocationRoomInput) (config : AllocationConfig)
    (nights : ℕ) (strategy : Strategy) (out : List AllocationRoom)
    → config.base_children ≤ config.max_children
    → allocate_rooms adults children rooms config nights strategy ≡ some out
    → Houses adults children nights config rooms out
allocate_rooms-Houses adults children rooms config nights strategy out h e =
    rw e at (allocate_rooms-Sound adults children rooms config nights strategy h)

-- An allocation that returns rooms.
abbrev pub Returns : Option (List AllocationRoom) → Type 0
Returns o = (out : List AllocationRoom) × (o ≡ some out)

allocate_shapes-Returns :
    (config : AllocationConfig) (nights : ℕ) (rooms : List AllocationRoomInput)
    (shapes : List Shape)
    → length shapes ≤ avail_total rooms
    → length shapes ≤ max_rooms
    → Returns (allocate_shapes config nights rooms shapes)
unfolding allocate_shapes
allocate_shapes-Returns config nights rooms [] h k = ([], refl)
allocate_shapes-Returns config nights rooms (s ∷ ss) h k =
    (place config nights rooms (s ∷ ss), ground arith)

overflow_rooms-zero : (config : AllocationConfig) → overflow_rooms 0 config ≡ some []
unfolding overflow_rooms
overflow_rooms-zero config = refl

allocate_counted-Returns :
    (r adults : ℕ) (rooms : List AllocationRoomInput) (config : AllocationConfig) (nights : ℕ)
    → adults ≤ r * max_a config
    → r ≤ avail_total rooms
    → avail_total rooms ≤ max_rooms
    → Returns (allocate_counted (some r) adults 0 rooms config nights)
unfolding allocate_counted allocate_overflow
allocate_counted-Returns r adults rooms config nights enough h cap =
    let filled = fill_children r config.max_children 0 in
    let (len, total, caps) = fill_children_lem r config.max_children 0 in
    let none_left : filled.1 ≡ 0 = omega arith in
    let shapes = room_shapes adults r config filled.0 [] in
    let count =
      (room_shapes_lem adults r 0 filled.1 config filled.0 [] enough refl (omega arith)).2 in
    rw (none_left, overflow_rooms-zero config)
      (allocate_shapes-Returns config nights rooms shapes (omega arith) (omega arith))

-- A party of adults alone finds rooms whenever the rooms that are free could hold it at the limit:
-- with a night to stay, at least one free room and at most 50 of them, `allocateRooms` returns rooms.
pub allocate_rooms_total :
    (adults : ℕ) (rooms : List AllocationRoomInput) (config : AllocationConfig) (nights : ℕ)
    (strategy : Strategy)
    → 0 < nights
    → 0 < avail_total rooms
    → avail_total rooms ≤ max_rooms
    → adults ≤ avail_total rooms * max_a config
    → Returns (allocate_rooms adults 0 rooms config nights strategy)
unfolding allocate_rooms
allocate_rooms_total adults rooms config nights strategy stay free cap fits =
    let available = avail_total rooms in
    elim (Bool-cases (adults == 0 && 0 == 0)) [
      | inl nobody ↦ rw nobody ([], refl)
      | inr party ↦
          let stay' : (nights == 0) ≡ false = ground arith in
          let free' : (available == 0) ≡ false = ground arith in
          let (r, e, few) = adult_room_count_total strategy adults available config fits in
          rw (party, stay', free', e)
            (allocate_counted-Returns r adults rooms config nights
              (adult_room_count-enough strategy adults available config r e) few cap)
    ]
