-- ===== src/Ara/Appliers/Inventory.antt =====
-- Taking a room out and changing its type: the guests handed back, and the inventory of the new type.
use text.Mathlib.TextPositions.{eq_refl}
use vaketta_backend.Prelude.{
  ℕ, ◌+◌, ◌≤◌, ◌<◌, ◌≡◌, refl, arith, Option, none, some, List, get_elem?, sum_by, length,
}
use vaketta_backend.Prelude.Int.{pos_part}
use vaketta_backend.Ara.Types.{AllocationConfig, AllocationRoom, AllocationRoomInput}
use vaketta_backend.Ara.Allocator.Slots.{of_type}
use vaketta_backend.Ara.Appliers.{
  ApplyResult, applied, refused, RoomConfigResolver, map_at, out_of_range, apply_change_room_type,
  change_type_of, changed_room, used_of_target,
}
use vaketta_backend.Ara.Appliers.Laws.{sum_by-map_at, sum_by-remove_at, SameGuests}

-- The room at the index is handed back with its guests, and one room fewer is left; a refusal is of an
-- index at or past the end.
abbrev pub HandsBack : List AllocationRoom → ℕ → ApplyResult → Type 0
HandsBack rooms i (applied out (some returned)) =
    ((r : AllocationRoom) × (get_elem? rooms i ≡ some r)
      × (returned.adults ≡ r.adults)
      × (returned.children ≡ r.children))
    × (sum_by (λ r. r.adults) out + returned.adults ≡ sum_by (λ r. r.adults) rooms)
    × (sum_by (λ r. r.children) out + returned.children ≡ sum_by (λ r. r.children) rooms)
    × (sum_by (λ r. 1) out + 1 ≡ sum_by (λ r. 1) rooms)
HandsBack rooms i (applied out none) = ⊥
HandsBack rooms i (refused reason) = (reason ≡ out_of_range) × (length rooms ≤ i)

-- After a change of type the guests are the same, and no more rooms are of the new type than the
-- inventory has of it.
abbrev pub Changes : List AllocationRoom → AllocationRoomInput → ApplyResult → Type 0
Changes rooms target (applied out returned) =
    SameGuests rooms out
    × (sum_by (of_type target.room_type_id) out ≤ pos_part target.available_count)
Changes rooms target (refused reason) = Unit

changed_room-Changes :
    (room : AllocationRoom) (rooms : List AllocationRoom) (i : ℕ) (target : AllocationRoomInput)
    (cfg : AllocationConfig)
    → get_elem? rooms i ≡ some room
    → used_of_target rooms i target.room_type_id < pos_part target.available_count
    → Changes rooms target (applied (map_at i (λ r. changed_room room target cfg) rooms) none)
unfolding changed_room used_of_target
changed_room-Changes room rooms i target cfg e free =
    let id = target.room_type_id in
    let new = changed_room room target cfg in
    let adults = sum_by-map_at (λ r. r.adults) (λ r. new) i rooms room e in
    let children = sum_by-map_at (λ r. r.children) (λ r. new) i rooms room e in
    let typed = sum_by-map_at (of_type id) (λ r. new) i rooms room e in
    let others = sum_by-remove_at (of_type id) i rooms room e in
    let one : of_type id new ≡ 1 = rw (eq_refl id) in ((omega arith, omega arith), omega arith)

change_type_of-Changes :
    (source : Option AllocationRoom) (rooms : List AllocationRoom) (i : ℕ)
    (target : AllocationRoomInput) (resolve_cfg : RoomConfigResolver)
    → get_elem? rooms i ≡ source
    → Changes rooms target (change_type_of source rooms i target resolve_cfg)
unfolding change_type_of
change_type_of-Changes none rooms i target resolve_cfg e = tt
change_type_of-Changes (some room) rooms i target resolve_cfg e =
    let probe : AllocationRoom = record room {
      room_type_id = target.room_type_id;
      room_type_name = target.name;
      base_price = target.base_price;
    } in
    ground (arith, changed_room-Changes room rooms i target (resolve_cfg probe) e)

-- A successful change of a room's type keeps the guests, and leaves no more rooms of the new type
-- than the inventory has of it.
pub apply_change_room_type-Changes :
    (rooms : List AllocationRoom) (i : ℕ) (target : AllocationRoomInput)
    (resolve_cfg : RoomConfigResolver)
    → Changes rooms target (apply_change_room_type rooms i target resolve_cfg)
unfolding apply_change_room_type
apply_change_room_type-Changes rooms i target resolve_cfg =
    change_type_of-Changes (get_elem? rooms i) rooms i target resolve_cfg refl
