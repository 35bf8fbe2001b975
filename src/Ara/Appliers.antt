-- ===== src/Ara/Appliers.antt =====
-- Structured edits of an allocation: src/automation/nodes/ara/appliers.ts. An index is the whole
-- number that the callers pass; `outOfRange` results carry no reason and the others are told apart by
-- their case, in place of the message to the guest.
pub mod Laws
pub mod Inventory
use Prim.Native.String.{String}
use text.Mathlib.Text.{◌==◌ as str_eq}
use vaketta_backend.Prelude.{
  ℕ, zero, suc, ◌+◌, ◌-◌, ◌*◌, Bool, true, false, ◌&&◌, ◌||◌, not, Option, none, some, List, [],
  ◌∷◌, ltb, leb, ◌==◌, if◌then◌else◌, length, get_elem?, sum_by,
}
use vaketta_backend.Prelude.Int.{pos_part}
use vaketta_backend.Js.{JsNumber, nan, infinite, finite}
use vaketta_backend.Ara.Types.{AllocationConfig, AllocationRoomInput, AllocationRoom}
use vaketta_backend.Ara.Pricing.{compute_room_pricing}

pub data Refusal : Type 0 where
  out_of_range no_extra_bed nothing_to_move too_few_guests too_many_adults too_many_children
        no_availability :
      Refusal

-- The guests of a removed room.
pub record Guests : Type 0 where
  pub adults : ℕ
  pub children : ℕ

pub data ApplyResult : Type 0 where
  applied : List AllocationRoom → Option Guests → ApplyResult
  refused : Refusal → ApplyResult

-- How the resolver injected by the handler sees a room.
abbrev pub RoomConfigResolver : Type 0
RoomConfigResolver = AllocationRoom → AllocationConfig

unfoldable pub reprice_room : AllocationRoom → Bool → AllocationConfig → AllocationRoom
reprice_room room extra_bed cfg =
    let p = compute_room_pricing room.base_price room.adults extra_bed room.nights cfg in
    record room {
      extra_bed = extra_bed;
      extra_adult_cost = p.extra_adult_cost;
      extra_bed_cost = p.extra_bed_cost;
      price_per_night = p.price_per_night;
      total_price = p.total_price;
    }

unfoldable pub strip_extra_bed : AllocationRoom → AllocationRoom
strip_extra_bed room =
    let price_per_night = room.base_price + room.extra_adult_cost in
    record room {
      extra_bed = false;
      extra_bed_cost = 0;
      price_per_night = price_per_night;
      total_price = price_per_night * room.nights;
    }

-- `rooms.map((r, i) => (i === index ? f(r) : r))`.
unfoldable pub map_at :
    ℕ → (AllocationRoom → AllocationRoom) → List AllocationRoom → List AllocationRoom
map_at i f [] = []
map_at zero f (r ∷ rs) = f r ∷ rs
map_at (suc i) f (r ∷ rs) = r ∷ map_at i f rs

-- `rooms.filter((_, i) => i !== index)`.
unfoldable pub remove_at : ℕ → List AllocationRoom → List AllocationRoom
remove_at i [] = []
remove_at zero (r ∷ rs) = rs
remove_at (suc i) (r ∷ rs) = r ∷ remove_at i rs

add_extra_bed_to :
    Option AllocationRoom → List AllocationRoom → ℕ → RoomConfigResolver → ApplyResult
add_extra_bed_to none rooms room_index resolve_cfg = refused out_of_range
add_extra_bed_to (some room) rooms room_index resolve_cfg =
    let cfg = resolve_cfg room in
    if not cfg.allow_extra_bed
    then refused no_extra_bed
    else applied (map_at room_index (λ r. reprice_room room true cfg) rooms) none

unfoldable pub apply_add_extra_bed : List AllocationRoom → ℕ → RoomConfigResolver → ApplyResult
unfolding add_extra_bed_to
apply_add_extra_bed rooms room_index resolve_cfg =
    add_extra_bed_to (get_elem? rooms room_index) rooms room_index resolve_cfg

unfoldable pub apply_remove_extra_bed : List AllocationRoom → ℕ → ApplyResult
apply_remove_extra_bed rooms room_index =
    if not (ltb room_index (length rooms))
    then refused out_of_range
    else applied (map_at room_index strip_extra_bed rooms) none

move_extra_bed_to :
    Option AllocationRoom → List AllocationRoom → ℕ → ℕ → RoomConfigResolver → ApplyResult
move_extra_bed_to none rooms from_index to_index resolve_cfg = refused out_of_range
move_extra_bed_to (some to_room) rooms from_index to_index resolve_cfg =
    let to_cfg = resolve_cfg to_room in
    if not to_cfg.allow_extra_bed
    then refused no_extra_bed
    else applied
        (map_at to_index (λ r. reprice_room r true to_cfg)
          (map_at from_index strip_extra_bed rooms))
        none

unfoldable pub apply_move_extra_bed : List AllocationRoom → ℕ → ℕ → RoomConfigResolver → ApplyResult
unfolding move_extra_bed_to
apply_move_extra_bed rooms from_index to_index resolve_cfg =
    if not (ltb from_index (length rooms)) || from_index == to_index
    then refused out_of_range
    else move_extra_bed_to (get_elem? rooms to_index) rooms from_index to_index resolve_cfg

remove_room_of : Option AllocationRoom → List AllocationRoom → ℕ → ApplyResult
remove_room_of none rooms room_index = refused out_of_range
remove_room_of (some removed) rooms room_index =
    applied (remove_at room_index rooms)
      (some (record { adults = removed.adults; children = removed.children }))

unfoldable pub apply_remove_room : List AllocationRoom → ℕ → ApplyResult
unfolding remove_room_of
apply_remove_room rooms room_index = remove_room_of (get_elem? rooms room_index) rooms room_index

unfoldable pub reprice_for_move : AllocationRoom → ℕ → ℕ → AllocationConfig → AllocationRoom
reprice_for_move room adults children cfg =
    let extra_bed = ltb cfg.base_adults adults && cfg.allow_extra_bed in
    let p = compute_room_pricing room.base_price adults extra_bed room.nights cfg in
    record room {
      adults = adults;
      children = children;
      extra_bed = extra_bed;
      extra_adult_cost = p.extra_adult_cost;
      extra_bed_cost = p.extra_bed_cost;
      price_per_night = p.price_per_night;
      total_price = p.total_price;
    }

-- `Number.isFinite(n) ? Math.max(0, Math.trunc(n)) : 0`.
unfoldable pub moved_count : JsNumber → ℕ
moved_count (finite false whole _) = whole
moved_count (finite true _ _) = 0
moved_count nan = 0
moved_count (infinite _) = 0

-- The rooms after a move that passed its checks: an emptied source room is dropped.
unfoldable pub moved_rooms :
    List AllocationRoom
    → AllocationRoom
    → AllocationRoom
    → ℕ
    → ℕ
    → ℕ
    → ℕ
    → RoomConfigResolver
    → List AllocationRoom
moved_rooms rooms from to from_index to_index a c resolve_cfg =
    let to_priced = reprice_for_move to (to.adults + a) (to.children + c) (resolve_cfg to) in
    let adults = from.adults - a in
    let children = from.children - c in
    let placed = map_at to_index (λ r. to_priced) rooms in
    if adults == 0 && children == 0
    then remove_at from_index placed
    else map_at from_index (λ r. reprice_for_move from adults children (resolve_cfg from)) placed

-- The checks of a move between two rooms.
unfoldable pub move_guest_between :
    List AllocationRoom
    → AllocationRoom
    → AllocationRoom
    → ℕ
    → ℕ
    → ℕ
    → ℕ
    → RoomConfigResolver
    → ApplyResult
move_guest_between rooms from to from_index to_index a c resolve_cfg =
    let to_cfg = resolve_cfg to in
    if ltb from.adults a || ltb from.children c
    then refused too_few_guests
    else (if ltb to_cfg.max_adults (to.adults + a)
        then refused too_many_adults
        else (if ltb to_cfg.max_children (to.children + c)
            then refused too_many_children
            else applied (moved_rooms rooms from to from_index to_index a c resolve_cfg) none))

move_guest_of :
    Option AllocationRoom
    → Option AllocationRoom
    → List AllocationRoom
    → ℕ
    → ℕ
    → ℕ
    → ℕ
    → RoomConfigResolver
    → ApplyResult
move_guest_of none to rooms from_index to_index a c resolve_cfg = refused out_of_range
move_guest_of (some from) none rooms from_index to_index a c resolve_cfg = refused out_of_range
move_guest_of (some from) (some to) rooms from_index to_index a c resolve_cfg =
    if from_index == to_index
    then refused out_of_range
    else (if a == 0 && c == 0
        then refused nothing_to_move
        else move_guest_between rooms from to from_index to_index a c resolve_cfg)

unfoldable pub apply_move_guest :
    List AllocationRoom → ℕ → ℕ → JsNumber → JsNumber → RoomConfigResolver → ApplyResult
unfolding move_guest_of
apply_move_guest rooms from_index to_index adults children resolve_cfg =
    move_guest_of (get_elem? rooms from_index) (get_elem? rooms to_index) rooms from_index to_index
      (moved_count adults) (moved_count children) resolve_cfg

-- `rooms.filter((r, i) => i !== roomIndex && r.roomTypeId === id).length`.
unfoldable pub used_of_target : List AllocationRoom → ℕ → String → ℕ
used_of_target rooms room_index id =
    sum_by (λ r. if str_eq r.room_type_id id then 1 else 0) (remove_at room_index rooms)

unfoldable pub changed_room :
    AllocationRoom → AllocationRoomInput → AllocationConfig → AllocationRoom
changed_room room target cfg =
    let extra_bed = ltb cfg.base_adults room.adults && cfg.allow_extra_bed in
    let p = compute_room_pricing target.base_price room.adults extra_bed room.nights cfg in
    record room {
      room_type_id = target.room_type_id;
      room_type_name = target.name;
      base_price = target.base_price;
      extra_bed = extra_bed;
      extra_adult_cost = p.extra_adult_cost;
      extra_bed_cost = p.extra_bed_cost;
      child_age_limit = cfg.child_age_limit;
      price_per_night = p.price_per_night;
      total_price = p.total_price;
    }

change_type_of :
    Option AllocationRoom
    → List AllocationRoom
    → ℕ
    → AllocationRoomInput
    → RoomConfigResolver
    → ApplyResult
change_type_of none rooms room_index target resolve_cfg = refused out_of_range
change_type_of (some room) rooms room_index target resolve_cfg =
    let probe = record room {
      room_type_id = target.room_type_id;
      room_type_name = target.name;
      base_price = target.base_price;
    } in
    let cfg = resolve_cfg probe in
    if str_eq target.room_type_id room.room_type_id
    then refused out_of_range
    else (if leb (pos_part target.available_count)
          (used_of_target rooms room_index target.room_type_id)
        then refused no_availability
        else (if ltb cfg.max_adults room.adults
            then refused too_many_adults
            else (if ltb cfg.max_children room.children
                then refused too_many_children
                else applied (map_at room_index (λ r. changed_room room target cfg) rooms) none)))

unfoldable pub apply_change_room_type :
    List AllocationRoom → ℕ → AllocationRoomInput → RoomConfigResolver → ApplyResult
unfolding change_type_of
apply_change_room_type rooms room_index target resolve_cfg =
    change_type_of (get_elem? rooms room_index) rooms room_index target resolve_cfg
