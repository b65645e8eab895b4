-- ===== src/Settlement.antt =====
-- pkg/exchange/state_settle.go, and applyMatch of state_buy.go: how a match is sold.
pub mod Types
pub mod Fold
pub mod Repeat
pub mod Strangers
pub mod Links
pub mod Totals
pub mod Preserved
pub mod Sales
mod Tests
