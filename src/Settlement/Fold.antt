-- ===== src/Settlement/Fold.antt =====
-- The handlers of pkg/exchange/state_settle.go, and applyMatch of state_buy.go.
pub mod Stock
pub mod Buyer
pub mod Operator
pub mod Complete
