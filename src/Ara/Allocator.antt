-- ===== src/Ara/Allocator.antt =====
-- `allocateRooms` of src/automation/nodes/ara/allocator.ts. A party's numbers of guests and nights
-- are not negative; `none` is the `null` of an allocation that cannot house everyone.
pub mod Shapes
pub mod Slots
pub mod Laws
use Prim.Native.String.{String}
use vaketta_backend.Prelude.{
  ℕ, zero, suc, ◌+◌, ◌-◌, ◌*◌, Bool, true, false, ◌&&◌, ◌||◌, Option, none, some, List, [], ◌∷◌,
  ◌++◌, map, ltb, leb, ◌==◌, if◌then◌else◌, min, max, length, replicate, take, sum_by, sort,
}
use vaketta_backend.Prelude.Int.{pos_part}
use vaketta_backend.Ara.Types.{AllocationConfig, AllocationRoomInput, AllocationRoom, max_rooms}
use vaketta_backend.Ara.Pricing.{resolve_room_config, compute_room_pricing}
use vaketta_backend.Ara.Distribute.{base_first_room_count, distribute_into_rooms, ceil_div}

pub data Strategy : Type 0 where
  base_first max_fill : Strategy

-- The guests of one room.
pub record Shape : Type 0 where
  pub adults : ℕ
  pub children : ℕ

-- `baseA`, `maxA` and `maxC`.
abbrev pub base_a : AllocationConfig → ℕ
base_a config = max 1 config.base_adults

abbrev pub max_a : AllocationConfig → ℕ
max_a config = max (base_a config) config.max_adults

unfoldable pub avail_total : List AllocationRoomInput → ℕ
avail_total rooms = sum_by (λ r. pos_part r.available_count) rooms

unfoldable pub wanted_rooms : Strategy → ℕ → AllocationConfig → ℕ
wanted_rooms max_fill adults config = ceil_div adults (max_a config)
wanted_rooms base_first adults config = base_first_room_count adults (base_a config) (max_a config)

-- The number of rooms for the adults: as many as wanted, or all there are if that is fewer and they
-- can hold everyone.
unfoldable pub adult_room_count : Strategy → ℕ → ℕ → AllocationConfig → Option ℕ
adult_room_count strategy adults available config =
    let wanted = wanted_rooms strategy adults config in
    if adults == 0
    then some 0
    else (if leb wanted available
        then some wanted
        else (if ltb (available * max_a config) adults then none else some available))

-- The loop that fills children into the adult rooms: the children of each room, and those left over.
unfoldable pub fill_children : ℕ → ℕ → ℕ → List ℕ × ℕ
fill_children zero max_c remaining = ([], remaining)
fill_children (suc rooms) max_c remaining =
    let give = min max_c remaining in
    let (counts, left) = fill_children rooms max_c (remaining - give) in
    if ltb 0 remaining && ltb 0 max_c
    then (give ∷ counts, left)
    else (0 ∷ replicate rooms 0, remaining)

-- The rooms that hold children only: none if all found a place; `none` if rooms hold no children.
unfoldable pub overflow_rooms : ℕ → AllocationConfig → Option (List ℕ)
overflow_rooms left config =
    let cb = if ltb 0 config.base_children then config.base_children else config.max_children in
    if left == 0
    then some []
    else (if config.max_children == 0
        then none
        else some (
            distribute_into_rooms left (base_first_room_count left cb config.max_children) cb
              config.max_children))

-- Adult rooms with their children first, then the rooms with children only.
unfoldable pub zip_shapes : List ℕ → List ℕ → List Shape
zip_shapes [] cs = []
zip_shapes (a ∷ as_) [] = []
zip_shapes (a ∷ as_) (c ∷ cs) = record { adults = a; children = c } ∷ zip_shapes as_ cs

unfoldable pub child_shape : ℕ → Shape
child_shape c = record { adults = 0; children = c }

unfoldable pub room_shapes : ℕ → ℕ → AllocationConfig → List ℕ → List ℕ → List Shape
unfolding zip_shapes child_shape
room_shapes adults rooms config child_counts overflow =
    zip_shapes (distribute_into_rooms adults rooms (base_a config) (max_a config)) child_counts
    ++ map child_shape overflow

-- The comparators of the two sorts.
abbrev pub cheaper : AllocationRoomInput → AllocationRoomInput → Bool
cheaper a b = ltb a.base_price b.base_price

abbrev pub heavier : Shape → Shape → Bool
heavier a b = ltb b.adults a.adults || (a.adults == b.adults && ltb b.children a.children)

-- One slot for each available room, in the order of the types.
unfoldable pub slots_of : List AllocationRoomInput → List AllocationRoomInput
slots_of [] = []
slots_of (t ∷ ts) = replicate (pos_part t.available_count) t ++ slots_of ts

unfoldable pub make_room : AllocationConfig → ℕ → AllocationRoomInput → Shape → AllocationRoom
make_room config nights slot shape =
    let rc = resolve_room_config slot config in
    let extra_bed = ltb rc.base_adults shape.adults && rc.allow_extra_bed in
    let p = compute_room_pricing slot.base_price shape.adults extra_bed nights rc in
    record {
      room_type_id = slot.room_type_id;
      room_type_name = slot.name;
      adults = shape.adults;
      children = shape.children;
      extra_bed = extra_bed;
      base_price = slot.base_price;
      extra_adult_cost = p.extra_adult_cost;
      extra_bed_cost = p.extra_bed_cost;
      child_age_limit = rc.child_age_limit;
      price_per_night = p.price_per_night;
      nights = nights;
      total_price = p.total_price;
    }

-- The last loop: the i-th shape goes to the i-th slot.
unfoldable pub fill_slots :
    AllocationConfig → ℕ → List AllocationRoomInput → List Shape → List AllocationRoom
fill_slots config nights [] shapes = []
fill_slots config nights (slot ∷ slots) [] = []
fill_slots config nights (slot ∷ slots) (shape ∷ shapes) =
    make_room config nights slot shape ∷ fill_slots config nights slots shapes

unfoldable pub place :
    AllocationConfig → ℕ → List AllocationRoomInput → List Shape → List AllocationRoom
unfolding slots_of fill_slots
place config nights rooms shapes =
    fill_slots config nights (take (length shapes) (slots_of (sort cheaper rooms)))
      (sort heavier shapes)

-- The guards on the number of rooms, which is that of the shapes.
unfoldable pub allocate_shapes :
    AllocationConfig → ℕ → List AllocationRoomInput → List Shape → Option (List AllocationRoom)
allocate_shapes config nights rooms shapes =
    let total = length shapes in
    if total == 0
    then some []
    else (if ltb (avail_total rooms) total || ltb max_rooms total
        then none
        else some (place config nights rooms shapes))

unfoldable pub allocate_overflow :
    Option (List ℕ)
    → ℕ
    → ℕ
    → List ℕ
    → List AllocationRoomInput
    → AllocationConfig
    → ℕ
    → Option (List AllocationRoom)
allocate_overflow none adults r child_counts rooms config nights = none
allocate_overflow (some overflow) adults r child_counts rooms config nights =
    allocate_shapes config nights rooms (room_shapes adults r config child_counts overflow)

unfoldable pub allocate_counted :
    Option ℕ
    → ℕ
    → ℕ
    → List AllocationRoomInput
    → AllocationConfig
    → ℕ
    → Option (List AllocationRoom)
allocate_counted none adults children rooms config nights = none
allocate_counted (some r) adults children rooms config nights =
    let (child_counts, left) = fill_children r config.max_children children in
    allocate_overflow (overflow_rooms left config) adults r child_counts rooms config nights

unfoldable pub allocate_rooms :
    ℕ
    → ℕ
    → List AllocationRoomInput
    → AllocationConfig
    → ℕ
    → Strategy
    → Option (List AllocationRoom)
allocate_rooms adults children rooms config nights strategy =
    let available = avail_total rooms in
    if adults == 0 && children == 0
    then some []
    else (if nights == 0
        then none
        else (if available == 0
            then none
            else allocate_counted (adult_room_count strategy adults available config) adults
                children rooms config nights))
