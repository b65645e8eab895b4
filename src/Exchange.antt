-- ===== src/Exchange.antt =====
-- pkg/exchange: how a message names the operation that it performs.
pub mod Op
pub mod Smuggling
pub mod Matches
pub mod Settled
pub mod Redelivery
mod Tests
