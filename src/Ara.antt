-- ===== src/Ara.antt =====
-- Advanced room allocation (src/automation/nodes/ara): the pure core that houses a party of guests.
pub mod Types
pub mod Pricing
pub mod Distribute
pub mod Allocator
pub mod Appliers
pub mod Ages
