-- ===== src/Tests/Availability.antt =====
-- Two rooms of a type, one booking of three nights, and an override that closes a night.
use vaketta_backend.Prelude.{◌≡◌, refl, arith, true, false, none, some, List, [], ◌∷◌}
use vaketta_backend.Billing.Ledger.{select}
use vaketta_backend.Availability.{
  RoomType, RoomInventory, Booking, hold, awaiting, find_room, find_override,
  check_room_availability, bulk_upsert_inventory, bulk_upsert_found, nights_from, night_range,
  booked_on, min_available, available_count, get_calendar_cell, calendar_cell,
  upsert_inventory_cell, inventory_threw, rooms_out_of_range,
}
use vaketta_backend.Availability.Cells.{HasValues, bulk_upsert_inventory-HasValues}

abbrev deluxe : RoomType
deluxe = record { id = 4; hotel_id = 7; base_price = 3_000; total_rooms = 2 }

abbrev bookings : List Booking
bookings =
    record { hotel_id = 7; room_type_id = 4; check_in = 101; check_out = 104; status = hold }
    ∷ record { hotel_id = 7; room_type_id = 4; check_in = 101; check_out = 104; status = awaiting }
    ∷ []

abbrev closed : List RoomInventory
closed = record { room_type_id = 4; date = 106; available_rooms = 0; price = none } ∷ []

-- A booking that waits for the hotel takes no room; a closed night makes the stay impossible; the
-- calendar shows a night with an override without its bookings.
availability :
    (check_room_availability 7 4 100 105 (deluxe ∷ []) closed bookings ≡ (true, 1))
    × (check_room_availability 7 4 100 107 (deluxe ∷ []) closed bookings ≡ (false, 0))
    × (check_room_availability 7 4 100 100 (deluxe ∷ []) closed bookings ≡ (false, 0))
    × ((get_calendar_cell 100 110 deluxe 102 closed bookings).available_rooms ≡ 1)
    × ((upsert_inventory_cell 7 4 102 3 none (deluxe ∷ []) closed).1
        ≡ inventory_threw rooms_out_of_range)
unfolding check_room_availability find_room find_override night_range nights_from booked_on
    min_available available_count get_calendar_cell calendar_cell upsert_inventory_cell
    bulk_upsert_found select
availability = (refl, refl, refl, refl, refl)

bulk_upsert_inventory-HasValues_example :
    HasValues 4 103 1
      (some 4_000)
      (bulk_upsert_inventory 7 4 102 104 1 (some 4_000) (deluxe ∷ []) closed).0
unfolding find_room bulk_upsert_inventory bulk_upsert_found night_range nights_from
bulk_upsert_inventory-HasValues_example =
    bulk_upsert_inventory-HasValues 7 4 102 104 1 2 (some 4_000) (deluxe ∷ []) closed deluxe refl
      (omega arith) refl 103 (omega arith) (omega arith)
