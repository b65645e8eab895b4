-- ===== src/Settlement/Repeat.antt =====
-- Settle messages that are folded twice.
pub mod Basics
pub mod Operator
pub mod Gate
pub mod Buyer
pub mod Complete
pub mod Dispute
