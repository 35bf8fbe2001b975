-- ===== src/Ara/Types.antt =====
-- The allocation model of src/automation/nodes/ara/types.ts. Prices are whole numbers of the
-- currency's unit; `null` and `undefined` are `none`; a count of available rooms may be negative.
use Prim.Native.String.{String}
use vaketta_backend.Prelude.{ℕ, Bool, Option}
use vaketta_backend.Prelude.Int.{ℤ}

pub record AllocationConfig : Type 0 where
  pub base_adults : ℕ
  pub base_children : ℕ
  pub max_adults : ℕ
  pub max_children : ℕ
  pub extra_adult_charge : ℕ
  pub allow_extra_bed : Bool
  pub extra_bed_charge : ℕ
  pub child_age_limit : Option ℕ

pub record AllocationRoomInput : Type 0 where
  pub room_type_id : String
  pub name : String
  pub base_price : ℕ
  pub max_adults : Option ℕ
  pub max_children : Option ℕ
  pub available_count : ℤ
  pub base_adults : Option ℕ
  pub base_children : Option ℕ
  pub extra_adult_charge : Option ℕ
  pub allow_extra_bed : Option Bool
  pub extra_bed_charge : Option ℕ

pub record AllocationRoom : Type 0 where
  pub room_type_id : String
  pub room_type_name : String
  pub adults : ℕ
  pub children : ℕ
  pub extra_bed : Bool
  pub base_price : ℕ
  pub extra_adult_cost : ℕ
  pub extra_bed_cost : ℕ
  pub child_age_limit : Option ℕ
  pub price_per_night : ℕ
  pub nights : ℕ
  pub total_price : ℕ

-- The absolute cap on rooms of src/automation/nodes/ara/constants.ts.
abbrev pub max_rooms : ℕ
max_rooms = 50
