-- ===== src/Demand.antt =====
-- The demand-only registrations of unfunded buyers (state_buy.go, state_accessors.go, engine_buy.go).
pub mod Fold
pub mod Filter
pub mod Reference
pub mod Eviction
pub mod Pruning
pub mod Bounds
pub mod Register
pub mod Caps
mod Tests
pub mod Held
pub mod Dedup
