-- ===== src/Assign.antt =====
-- pkg/exchange/state_assign.go: the task market, a fold of assign messages with no clock.
pub mod Types
pub mod Payloads
pub mod Auction
pub mod Fold
pub mod Queries
pub mod Lifecycle
pub mod Diagram
pub mod Payment
pub mod Sorting
pub mod Vickrey
pub mod Reopened
pub mod Holders
pub mod Deadlines
mod Tests
