-- ===== src/Availability/Cells.antt =====
-- The overrides that are written, read again.
use mathlib.Core.Option.{some-injective}
use vaketta_backend.Prelude.{
  ℕ, ◌+◌, ◌≤◌, ◌<◌, ◌≡◌, refl, ap, ◌∙◌, arith, ◌&&◌, Option, some, List, [], ◌∷◌, ltb, ◌==◌, inl,
  inr, Bool-cases, ==_iff, All, length,
}
use vaketta_backend.Availability.{
  RoomType, RoomInventory, find_override, upsert_row, upsert_each, nights_from, night_range,
  hard_max_stay_nights, find_room, bulk_upsert_found, bulk_upsert_inventory, updated,
}
use vaketta_backend.Availability.Laws.{All-nights_from}

-- A night has an override with these values.
pub record HasValues (room_type_id date available : ℕ) (price : Option ℕ)
    (inventory : List RoomInventory) : Type 0 where
  pub row : RoomInventory
  pub found : find_override room_type_id date inventory ≡ some row
  pub rooms : row.available_rooms ≡ available
  pub cost : row.price ≡ price

abbrev row_of : ℕ → ℕ → ℕ → Option ℕ → RoomInventory
row_of room_type_id date available price = record {
  room_type_id = room_type_id;
  date = date;
  available_rooms = available;
  price = price;
}

upsert_row-HasValues :
    (room_type_id date available : ℕ) (price : Option ℕ) (inventory : List RoomInventory)
    → HasValues room_type_id date available price
        (upsert_row (row_of room_type_id date available price) inventory)
unfolding upsert_row find_override
upsert_row-HasValues room_type_id date available price [] = record {
  row = row_of room_type_id date available price;
  found = rw ((==_iff room_type_id room_type_id).1 refl, (==_iff date date).1 refl) refl;
  rooms = refl;
  cost = refl;
}
upsert_row-HasValues room_type_id date available price (old ∷ rows) =
    let rest = upsert_row-HasValues room_type_id date available price rows in
    elim (Bool-cases (old.room_type_id == room_type_id && old.date == date)) [
      | inl here ↦ rw here (record {
        row = record old { available_rooms = available; price = price };
        found = rw here refl;
        rooms = refl;
        cost = refl;
      })
      | inr there ↦ rw there (record {
        row = rest.row;
        found = rw there rest.found;
        rooms = rest.rooms;
        cost = rest.cost;
      })
    ]

-- Another write of the same values leaves it set.
upsert_row_kept :
    (room_type_id date other available : ℕ) (price : Option ℕ) (inventory : List RoomInventory)
    → HasValues room_type_id date available price inventory
    → HasValues room_type_id date available price
        (upsert_row (row_of room_type_id other available price) inventory)
unfolding upsert_row find_override
upsert_row_kept room_type_id date other available price [] s = absurd (ground (arith, s.found))
upsert_row_kept room_type_id date other available price (old ∷ rows) s =
    elim (Bool-cases (old.room_type_id == room_type_id && old.date == date)) [
      | inl here ↦
          let path : old ≡ s.row = some-injective _ _ (rw here at s.found) in
          elim (Bool-cases (old.room_type_id == room_type_id && old.date == other)) [
            | inl written ↦ rw written (record {
              row = record old { available_rooms = available; price = price };
              found = rw here refl;
              rooms = refl;
              cost = refl;
            })
            | inr left ↦ rw left (record {
              row = old;
              found = rw here refl;
              rooms = ap (λ r. r.available_rooms) path ∙ s.rooms;
              cost = ap (λ r. r.price) path ∙ s.cost;
            })
          ]
      | inr there ↦
          let rest =
            upsert_row_kept room_type_id date other available price rows (record {
              row = s.row;
              found = rw there at s.found;
              rooms = s.rooms;
              cost = s.cost;
            }) in
          elim (Bool-cases (old.room_type_id == room_type_id && old.date == other)) [
            | inl written ↦ rw written (record {
              row = s.row;
              found = rw there (rw there at s.found);
              rooms = s.rooms;
              cost = s.cost;
            })
            | inr left ↦ rw left (record {
              row = rest.row;
              found = rw there rest.found;
              rooms = rest.rooms;
              cost = rest.cost;
            })
          ]
    ]

upsert_each_kept :
    (room_type_id date available : ℕ) (price : Option ℕ) (dates : List ℕ)
    (inventory : List RoomInventory)
    → HasValues room_type_id date available price inventory
    → HasValues room_type_id date available price
        (upsert_each room_type_id dates available price inventory)
unfolding upsert_each
upsert_each_kept room_type_id date available price [] inventory s = s
upsert_each_kept room_type_id date available price (d ∷ dates) inventory s =
    upsert_each_kept room_type_id date available price dates _
      (upsert_row_kept room_type_id date d available price inventory s)

upsert_each-HasValues :
    (room_type_id available : ℕ) (price : Option ℕ) (dates : List ℕ)
    (inventory : List RoomInventory)
    → All
        (λ date.
          HasValues room_type_id date available price
            (upsert_each room_type_id dates available price inventory))
        dates
unfolding upsert_each
upsert_each-HasValues room_type_id available price [] inventory = tt
upsert_each-HasValues room_type_id available price (d ∷ dates) inventory = (
  upsert_each_kept room_type_id d available price dates _
      (upsert_row-HasValues room_type_id d available price inventory),
  upsert_each-HasValues room_type_id available price dates _,
)

-- After a write of a range of nights that is accepted, a read of any night of the range finds the rooms
-- and the price that were written, for a range of at most ten years.
pub bulk_upsert_inventory-HasValues :
    (hotel_id room_type_id start end available n : ℕ) (price : Option ℕ) (rooms : List RoomType)
    (inventory : List RoomInventory) (room : RoomType)
    → find_room room_type_id rooms ≡ some room
    → end ≤ start + hard_max_stay_nights
    → (bulk_upsert_inventory hotel_id room_type_id start end available price rooms inventory).1
      ≡ updated n
    → (night : ℕ) → start ≤ night
    → night < end
    → HasValues room.id night available price
        (bulk_upsert_inventory hotel_id room_type_id start end available price rooms inventory).0
unfolding bulk_upsert_inventory bulk_upsert_found night_range
bulk_upsert_inventory-HasValues hotel_id room_type_id start end available n price rooms inventory
      room found short accepted night lo hi =
    let nights = nights_from 3_650 start end in
    let written = upsert_each room.id nights available price inventory in
    let all = upsert_each-HasValues room.id available price nights inventory in
    let here : HasValues room.id night available price written =
      (All-nights_from (λ date. HasValues room.id date available price written) 3_650 start end
          short).0
        all night lo hi in
    let e = rw found at accepted in
    rw found (elim (Bool-cases (room.hotel_id == hotel_id)) [
      | inl own ↦ rw own (elim (Bool-cases (ltb room.total_rooms available)) [
        | inl over ↦ absurd (ground (arith, rw (own, over) at e))
        | inr within ↦ rw within (elim (Bool-cases (ltb 365 (length nights))) [
          | inl long ↦ absurd (ground (arith, rw (own, within, long) at e))
          | inr fits ↦ rw fits here
        ])
      ])
      | inr foreign ↦ absurd (ground (arith, rw foreign at e))
    ])
