-- ===== src/Scrip.antt =====
-- pkg/scrip: the scrip ledger, a view of the message log that is folded message by message.
pub mod Types
pub mod Balance
pub mod Budget
pub mod Reservations
pub mod Loans
pub mod Ledger
pub mod Rules
pub mod Supply
pub mod LoanBook
pub mod Escrow
pub mod Conservation
pub mod Frame
pub mod Idempotence
pub mod NonNegative
pub mod LiveFold
pub mod LiveLog
pub mod Etags
pub mod Resync
pub mod StaleEtags
pub mod Holds
mod Tests
pub mod LoanTotals
pub mod LoanIndex
