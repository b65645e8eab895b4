-- ===== src/Trust.antt =====
-- pkg/exchange/trust.go, the trust gate of the engine's dispatch (engine_core.go) and open admission
-- (engine_admission.go): who may perform which operation.
pub mod Types
pub mod KeySet
pub mod Checker
pub mod Gate
pub mod Admission
pub mod Authority
mod Tests
