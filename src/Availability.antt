-- ===== src/Availability.antt =====
-- The rooms that are free: src/services/availability.service.ts. A day is counted as a whole number, and
-- the tables of a hotel are lists of rows. The dates of stays and rows are taken as midnights of UTC,
-- on a server whose clock runs in UTC: there `toUtcDate`, which reads a date by local getters, keeps them.
pub mod Nights
pub mod Laws
pub mod Cells
use vaketta_backend.Prelude.{
  ℕ, zero, suc, ◌+◌, ◌-◌, Bool, true, false, ◌&&◌, ◌||◌, Option, none, some, List, [], ◌∷◌, ltb,
  leb, ◌==◌, if◌then◌else◌, min, sum_by, length,
}
use vaketta_backend.Billing.Ledger.{select}

abbrev pub hard_max_stay_nights : ℕ
hard_max_stay_nights = 3_650

-- `awaiting` is PENDING.
pub data BookingStatus : Type 0 where
  enquiry awaiting hold confirmed cancelled : BookingStatus

pub record RoomType : Type 0 where
  pub id : ℕ
  pub hotel_id : ℕ
  pub base_price : ℕ
  pub total_rooms : ℕ

-- The override of one night.
pub record RoomInventory : Type 0 where
  pub room_type_id : ℕ
  pub date : ℕ
  pub available_rooms : ℕ
  pub price : Option ℕ

pub record Booking : Type 0 where
  pub hotel_id : ℕ
  pub room_type_id : ℕ
  pub check_in : ℕ
  pub check_out : ℕ
  pub status : BookingStatus

-- The loop of `nightRange`, with the nights that may still be pushed.
unfoldable pub nights_from : ℕ → ℕ → ℕ → List ℕ
nights_from zero cur end = []
nights_from (suc n) cur end =
    let rest = nights_from n (cur + 1) end in if ltb cur end then cur ∷ rest else []

unfoldable pub night_range : ℕ → ℕ → List ℕ
night_range = nights_from hard_max_stay_nights

abbrev pub is_taken : BookingStatus → Bool
is_taken hold = true
is_taken confirmed = true
is_taken enquiry = false
is_taken awaiting = false
is_taken cancelled = false

-- The query for the bookings of a room type that touch a stay.
abbrev pub touches : ℕ → ℕ → ℕ → ℕ → Booking → Bool
touches hotel_id room_type_id check_in check_out b =
    b.hotel_id == hotel_id
    && (b.room_type_id == room_type_id
        && (is_taken b.status && (ltb b.check_in check_out && ltb check_in b.check_out)))

abbrev pub occurrences : ℕ → List ℕ → ℕ
occurrences night nights = sum_by (λ n. if n == night then 1 else 0) nights

-- How often the loop over the bookings counts a night.
unfoldable pub booked_on : ℕ → List Booking → ℕ
booked_on night bookings =
    sum_by (λ b. occurrences night (night_range b.check_in b.check_out)) bookings

unfoldable pub find_override : ℕ → ℕ → List RoomInventory → Option RoomInventory
find_override room_type_id date [] = none
find_override room_type_id date (row ∷ rows) =
    if row.room_type_id == room_type_id && row.date == date
    then some row
    else find_override room_type_id date rows

abbrev pub rooms_or : Option RoomInventory → ℕ → ℕ
rooms_or (some row) total = row.available_rooms
rooms_or none total = total

-- The rooms of a type that a night has, before the bookings.
abbrev pub capacity : RoomType → ℕ → List RoomInventory → ℕ
capacity room night inventory = rooms_or (find_override room.id night inventory) room.total_rooms

abbrev pub min_or : Option ℕ → ℕ → Option ℕ
min_or none n = some n
min_or (some m) n = some (min m n)

-- The loop for the night with the fewest rooms; nothing stands for the infinite start.
unfoldable pub min_available :
    RoomType → List RoomInventory → List Booking → List ℕ → Option ℕ → Option ℕ
min_available room inventory bookings [] least = least
min_available room inventory bookings (night ∷ nights) least =
    min_available room inventory bookings nights
      (min_or least (capacity room night inventory - booked_on night bookings))

abbrev pub or_total : Option ℕ → ℕ → ℕ
or_total none total = total
or_total (some n) total = n

unfoldable pub available_count : Option RoomType → List RoomInventory → List Booking → List ℕ → ℕ
available_count room inventory bookings [] = 0
available_count none inventory bookings (night ∷ nights) = 0
available_count (some room) inventory bookings (night ∷ nights) =
    or_total (min_available room inventory bookings (night ∷ nights) none) room.total_rooms

unfoldable pub find_room : ℕ → List RoomType → Option RoomType
find_room id [] = none
find_room id (room ∷ rooms) = if room.id == id then some room else find_room id rooms

-- `checkRoomAvailability`: whether a room is free for the whole stay, and how many are.
unfoldable pub check_room_availability :
    ℕ → ℕ → ℕ → ℕ → List RoomType → List RoomInventory → List Booking → Bool × ℕ
check_room_availability hotel_id room_type_id check_in check_out rooms inventory bookings =
    let count =
      available_count (find_room room_type_id rooms) inventory
        (select (touches hotel_id room_type_id check_in check_out) bookings)
        (night_range check_in check_out) in
    (ltb 0 count, count)

-- One cell of the calendar: the override as it is, or what the bookings leave.
pub record CalendarCell : Type 0 where
  pub available_rooms : ℕ
  pub total_rooms : ℕ
  pub booked_rooms : ℕ
  pub price : ℕ
  pub is_overridden : Bool

abbrev pub or_price : Option ℕ → ℕ → ℕ
or_price none base = base
or_price (some price) base = price

unfoldable pub calendar_cell : Option RoomInventory → RoomType → ℕ → CalendarCell
calendar_cell none room booked = record {
  available_rooms = room.total_rooms - booked;
  total_rooms = room.total_rooms;
  booked_rooms = booked;
  price = room.base_price;
  is_overridden = false;
}
calendar_cell (some row) room booked = record {
  available_rooms = row.available_rooms;
  total_rooms = room.total_rooms;
  booked_rooms = booked;
  price = or_price row.price room.base_price;
  is_overridden = true;
}

-- The cell of `getCalendarData` for a room type and a night of the range.
unfoldable pub get_calendar_cell :
    ℕ → ℕ → RoomType → ℕ → List RoomInventory → List Booking → CalendarCell
get_calendar_cell start end room night inventory bookings =
    calendar_cell (find_override room.id night inventory) room
      (booked_on night (select (touches room.hotel_id room.id start end) bookings))

-- An upsert by room type and date: `update` where the row is there, and else `create`.
unfoldable pub upsert_row : RoomInventory → List RoomInventory → List RoomInventory
upsert_row row [] = row ∷ []
upsert_row row (old ∷ rows) =
    let rest = upsert_row row rows in
    if old.room_type_id == row.room_type_id && old.date == row.date
    then record old { available_rooms = row.available_rooms; price = row.price } ∷ rows
    else old ∷ rest

pub data InventoryError : Type 0 where
  room_type_not_found rooms_out_of_range range_too_long : InventoryError

pub data InventoryResult : Type 0 where
  inventory_threw : InventoryError → InventoryResult
  updated : ℕ → InventoryResult

unfoldable pub upsert_each : ℕ → List ℕ → ℕ → Option ℕ → List RoomInventory → List RoomInventory
upsert_each room_type_id [] available price inventory = inventory
upsert_each room_type_id (date ∷ dates) available price inventory =
    upsert_each room_type_id dates available price (
      upsert_row
        (record {
          room_type_id = room_type_id;
          date = date;
          available_rooms = available;
          price = price;
        })
        inventory)

unfoldable pub bulk_upsert_found :
    Option RoomType
    → ℕ
    → List ℕ
    → ℕ
    → Option ℕ
    → List RoomInventory
    → List RoomInventory × InventoryResult
bulk_upsert_found none hotel_id nights available price inventory =
    (inventory, inventory_threw room_type_not_found)
bulk_upsert_found (some room) hotel_id nights available price inventory =
    let written = upsert_each room.id nights available price inventory in
    if room.hotel_id == hotel_id
    then (if ltb room.total_rooms available
        then (inventory, inventory_threw rooms_out_of_range)
        else (if ltb 365 (length nights)
            then (inventory, inventory_threw range_too_long)
            else (written, updated (length nights))))
    else (inventory, inventory_threw room_type_not_found)

-- `bulkUpsertInventory`, for a count of rooms that is no negative number.
unfoldable pub bulk_upsert_inventory :
    ℕ
    → ℕ
    → ℕ
    → ℕ
    → ℕ
    → Option ℕ
    → List RoomType
    → List RoomInventory
    → List RoomInventory × InventoryResult
unfolding bulk_upsert_found
bulk_upsert_inventory hotel_id room_type_id start end available price rooms inventory =
    bulk_upsert_found (find_room room_type_id rooms) hotel_id (night_range start end) available
      price inventory

unfoldable pub upsert_inventory_cell :
    ℕ
    → ℕ
    → ℕ
    → ℕ
    → Option ℕ
    → List RoomType
    → List RoomInventory
    → List RoomInventory × InventoryResult
unfolding bulk_upsert_found
upsert_inventory_cell hotel_id room_type_id date available price rooms inventory =
    bulk_upsert_found (find_room room_type_id rooms) hotel_id (date ∷ []) available price inventory
