-- ===== src/Credit.antt =====
-- pkg/exchange/engine_credit.go: buyers who are short are lent the difference, and earnings of a
-- borrower are withheld to repay it.
pub mod Rail
pub mod Cap
pub mod Loans
mod Tests
pub mod Repayment
