-- ===== src/Ara/Pricing.antt =====
-- Per-room configuration and pricing: the first part of src/automation/nodes/ara/allocator.ts.
use vaketta_backend.Prelude.{ℕ, ◌+◌, ◌-◌, ◌*◌, Bool, ◌&&◌, Option, none, some, if◌then◌else◌}
use vaketta_backend.Ara.Types.{AllocationConfig, AllocationRoomInput}

-- The operator `??`.
abbrev pub or_default {ℓ} : {A : Type ℓ} → Option A → A → A
or_default (some x) d = x
or_default none d = d

unfoldable pub resolve_room_config : AllocationRoomInput → AllocationConfig → AllocationConfig
resolve_room_config room base = record {
  base_adults = or_default room.base_adults base.base_adults;
  base_children = or_default room.base_children base.base_children;
  max_adults = or_default room.max_adults base.max_adults;
  max_children = or_default room.max_children base.max_children;
  extra_adult_charge = or_default room.extra_adult_charge base.extra_adult_charge;
  allow_extra_bed = or_default room.allow_extra_bed base.allow_extra_bed;
  extra_bed_charge = or_default room.extra_bed_charge base.extra_bed_charge;
  child_age_limit = base.child_age_limit;
}

pub record RoomPricing : Type 0 where
  pub extra_adult_cost : ℕ
  pub extra_bed_cost : ℕ
  pub price_per_night : ℕ
  pub total_price : ℕ

unfoldable pub compute_room_pricing : ℕ → ℕ → Bool → ℕ → AllocationConfig → RoomPricing
compute_room_pricing base_price adults extra_bed nights cfg =
    let extra_adult_cost = (adults - cfg.base_adults) * cfg.extra_adult_charge in
    let extra_bed_cost = if cfg.allow_extra_bed && extra_bed then cfg.extra_bed_charge else 0 in
    let price_per_night = base_price + extra_adult_cost + extra_bed_cost in
    record {
      extra_adult_cost = extra_adult_cost;
      extra_bed_cost = extra_bed_cost;
      price_per_night = price_per_night;
      total_price = price_per_night * nights;
    }
