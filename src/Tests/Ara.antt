-- ===== src/Tests/Ara.antt =====
-- A hotel with two room types, and parties that its rooms are allocated to.
use vaketta_backend.Prelude.{
  ◌≤◌, ◌≡◌, refl, arith, true, false, none, some, List, [], ◌∷◌, length, All, sort, insert_sorted,
}
use vaketta_backend.Prelude.Int.{pos}
use vaketta_backend.Js.{of_ℕ}
use vaketta_backend.Ara.Types.{AllocationConfig, AllocationRoomInput, AllocationRoom}
use vaketta_backend.Ara.Distribute.{
  base_first_room_count, distribute_into_rooms, lay_base, absorb, sum, distribute_into_rooms_lem,
}
use vaketta_backend.Ara.Allocator.{
  allocate_rooms, allocate_counted, allocate_overflow, allocate_shapes, avail_total, wanted_rooms,
  adult_room_count, fill_children, overflow_rooms, room_shapes, zip_shapes, child_shape, place,
  slots_of, fill_slots, make_room, base_first,
}
use vaketta_backend.Ara.Pricing.{resolve_room_config, compute_room_pricing}
use vaketta_backend.Ara.Allocator.Laws.{
  Houses, Returns, allocate_rooms-Houses, allocate_rooms_total,
}
use vaketta_backend.Ara.Appliers.{apply_move_guest, apply_change_room_type}
use vaketta_backend.Ara.Appliers.Laws.{KeepsGuests, apply_move_guest-KeepsGuests}
use vaketta_backend.Ara.Appliers.Inventory.{Changes, apply_change_room_type-Changes}

abbrev config : AllocationConfig
config = record {
  base_adults = 2;
  base_children = 1;
  max_adults = 3;
  max_children = 2;
  extra_adult_charge = 500;
  allow_extra_bed = true;
  extra_bed_charge = 800;
  child_age_limit = some 12;
}

abbrev deluxe : AllocationRoomInput
deluxe = record {
  room_type_id = "deluxe";
  name = "Deluxe";
  base_price = 4000;
  max_adults = none;
  max_children = none;
  available_count = pos 3;
  base_adults = none;
  base_children = none;
  extra_adult_charge = none;
  allow_extra_bed = none;
  extra_bed_charge = none;
}

abbrev standard : AllocationRoomInput
standard = record deluxe {
  room_type_id = "standard";
  name = "Standard";
  base_price = 2500;
  available_count = pos 2;
}

abbrev deluxe_room : AllocationRoom
deluxe_room = record {
  room_type_id = "deluxe";
  room_type_name = "Deluxe";
  adults = 3;
  children = 1;
  extra_bed = true;
  base_price = 4000;
  extra_adult_cost = 500;
  extra_bed_cost = 800;
  child_age_limit = some 12;
  price_per_night = 5300;
  nights = 2;
  total_price = 10_600;
}

abbrev standard_room : AllocationRoom
standard_room = record deluxe_room {
  room_type_id = "standard";
  room_type_name = "Standard";
  adults = 2;
  children = 2;
  extra_bed = false;
  base_price = 2500;
  extra_adult_cost = 0;
  extra_bed_cost = 0;
  price_per_night = 2500;
  total_price = 5000;
}

abbrev full_room : AllocationRoom
full_room = record standard_room {
  adults = 3;
  extra_bed = true;
  extra_adult_cost = 500;
  extra_bed_cost = 800;
  price_per_night = 3800;
  total_price = 7600;
}

abbrev hotel : List AllocationRoomInput
hotel = deluxe ∷ standard ∷ []

-- Five adults and three children for two nights get the two cheaper rooms.
allocate_rooms_family :
    allocate_rooms 5 3 hotel config 2 base_first
    ≡ some (full_room ∷ record standard_room { children = 1 } ∷ [])
unfolding allocate_rooms allocate_counted allocate_overflow allocate_shapes avail_total wanted_rooms
    adult_room_count base_first_room_count fill_children overflow_rooms room_shapes zip_shapes
    child_shape distribute_into_rooms lay_base absorb place slots_of fill_slots make_room
    resolve_room_config compute_room_pricing sort insert_sorted
allocate_rooms_family = refl

allocate_rooms-Houses_example :
    Houses 5 3 2 config hotel (full_room ∷ record standard_room { children = 1 } ∷ [])
allocate_rooms-Houses_example =
    allocate_rooms-Houses 5 3 hotel config 2 base_first
      (full_room ∷ record standard_room { children = 1 } ∷ []) (omega arith) allocate_rooms_family

avail_total-hotel : avail_total hotel ≡ 5
unfolding avail_total
avail_total-hotel = refl

-- Twelve adults, where base occupancy would take six rooms and only five are free.
allocate_rooms_total_example : Returns (allocate_rooms 12 0 hotel config 1 base_first)
allocate_rooms_total_example =
    allocate_rooms_total 12 hotel config 1 base_first (omega arith)
      (rw avail_total-hotel (omega arith)) (rw avail_total-hotel (omega arith))
      (rw avail_total-hotel (omega arith))

distribute_into_rooms_lem_example :
    let out = distribute_into_rooms 8 3 2 3 in
    (length out ≡ 3) × (sum out ≡ 8) × All (λ p. p ≤ 3) out
distribute_into_rooms_lem_example = distribute_into_rooms_lem 8 3 2 3 (omega arith) (omega arith)

apply_move_guest-KeepsGuests_example :
    KeepsGuests
      (deluxe_room ∷ standard_room ∷ [])
      (apply_move_guest (deluxe_room ∷ standard_room ∷ []) 0 1 (of_ℕ 1) (of_ℕ 0) (λ r. config))
apply_move_guest-KeepsGuests_example =
    apply_move_guest-KeepsGuests (deluxe_room ∷ standard_room ∷ []) 0 1 (of_ℕ 1) (of_ℕ 0)
      (λ r. config)

apply_change_room_type-Changes_example :
    Changes
      (deluxe_room ∷ standard_room ∷ [])
      deluxe
      (apply_change_room_type (deluxe_room ∷ standard_room ∷ []) 1 deluxe (λ r. config))
apply_change_room_type-Changes_example =
    apply_change_room_type-Changes (deluxe_room ∷ standard_room ∷ []) 1 deluxe (λ r. config)
