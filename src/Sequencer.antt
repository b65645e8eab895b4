-- ===== src/Sequencer.antt =====
-- pkg/exchange/sequencer.go: the causal order in which the messages of several relays are folded.
pub mod Types
pub mod Order
pub mod Ingest
pub mod Drain
pub mod Heap
pub mod Awaited
pub mod Graph
pub mod Waking
pub mod Canonical
pub mod Cascade
pub mod Rounds
pub mod Refinement
pub mod Loading
pub mod Batch
pub mod Fold
pub mod Delivery
pub mod Closure
pub mod Live
pub mod Reachable
mod Tests
