-- ===== src/Scrip/LoanTotals.antt =====
-- The running total of the open principals (totalLoanPrincipal) against the loan book.
use dontguess.Base.{
  ℕ, ◌≡◌, refl, Option, none, some, inl, inr, lookup, insert, if◌then◌else◌, arith, Option-cases,
  Bool-cases,
}
use dontguess.Base.Int64.{add64, sub64}
use dontguess.Base.Sums.{sum_by, sum_by-insert, sum_by-lt}
use dontguess.Json.{Object}
use dontguess.Proto.{Message, ScripOp, loan_mint, loan_repay, loan_vig_accrue}
use dontguess.Scrip.Types.{Config, LoanRecord, active, Store, given-keeps}
use dontguess.Scrip.Balance.{add_to_balance}
use dontguess.Scrip.Loans.{
  decode_loan_mint, decode_loan_amount, is_active, open_loan, active_loan, repay, credit_loan,
  debit, mint_loan, repay_loan, accrue, apply_loan_mint, apply_loan_repay, apply_loan_vig_accrue,
}
use dontguess.Scrip.Ledger.{dispatch, apply_message}
use dontguess.Scrip.Rules.{apply_message-keeps}
use dontguess.Scrip.LoanBook.{
  LoansAreValid, active_loan-eq_some, is_loan_op, dispatch-loans, dispatch-LoansAreValid,
  debit-loans,
}

-- What a record adds to the principal that is outstanding.
abbrev pub open_principal : LoanRecord → ℕ
open_principal r = if is_active r.status then r.principal else 0

-- The counter is the sum of the principals of the active loans.
abbrev pub TotalMatches : Store → Type 0
TotalMatches s = s.total_loan_principal ≡ sum_by open_principal s.loans

mint_loan-TotalMatches :
    (r : LoanRecord) (s : Store)
    → r.status ≡ active
    → TotalMatches s
    → TotalMatches (mint_loan r (lookup r.loan_id s.loans) s)
unfolding mint_loan open_loan add_to_balance add64
mint_loan-TotalMatches r s a h = elim (Option-cases (lookup r.loan_id s.loans)) [
  | inl e ↦ rw e (
      ground (
        arith,
        sum_by-insert open_principal r.loan_id r s.loans,
        sum_by-lt open_principal (insert r.loan_id r s.loans),
      ))
  | inr (q, e) ↦ rw e h
]

credit_loan-TotalMatches :
    (id x : ℕ) (s : Store)
    → LoansAreValid s.loans
    → TotalMatches s
    → TotalMatches (credit_loan id x (active_loan id s) s)
unfolding credit_loan add64 sub64 repay
credit_loan-TotalMatches id x s v h = elim (Option-cases (active_loan id s)) [
  | inl e ↦ rw e h
  | inr (r, e) ↦
      let (at, live) = active_loan-eq_some id r s e in
      rw e (
        ground (
          arith,
          at,
          live,
          v id r at,
          sum_by-insert open_principal id (repay x r) s.loans,
          sum_by-lt open_principal s.loans,
          sum_by-lt open_principal (insert id (repay x r) s.loans),
        ))
]

repay_loan-TotalMatches :
    (id x : ℕ) (o : Option LoanRecord) (s : Store)
    → LoansAreValid s.loans
    → TotalMatches s
    → TotalMatches (repay_loan id x o s)
unfolding repay_loan
repay_loan-TotalMatches id x none s v h = h
repay_loan-TotalMatches id x (some r) s v h =
    let t = (debit r.borrower_key x s).0 in
    let same = debit-loans r.borrower_key x s in
    let vt : LoansAreValid t.loans = rw same.0 v in
    let ht : TotalMatches t = cc in
    elim (Bool-cases (debit r.borrower_key x s).1) [
      | inl e ↦ rw e (credit_loan-TotalMatches id x t vt ht)
      | inr e ↦ rw e ht
    ]

accrue-TotalMatches :
    (id x : ℕ) (s : Store) → TotalMatches s → TotalMatches (accrue id x (active_loan id s) s)
unfolding accrue add64
accrue-TotalMatches id x s h = elim (Option-cases (active_loan id s)) [
  | inl e ↦ rw e h
  | inr (r, e) ↦
      let (at, live) = active_loan-eq_some id r s e in
      let r' : LoanRecord = record r { outstanding = add64 r.outstanding x } in
      rw e (
        ground (
          arith,
          at,
          live,
          sum_by-insert open_principal id r' s.loans,
          sum_by-lt open_principal s.loans,
          sum_by-lt open_principal (insert id r' s.loans),
        ))
]

-- A minted record is active.
decode_loan_mint-active :
    (c : Config) (o : Option Object) (r : LoanRecord)
    → decode_loan_mint c o ≡ some r
    → r.status ≡ active
unfolding decode_loan_mint
decode_loan_mint-active c o r e = ground arith

-- The loan book with its counter.
abbrev pub BookIsValid : Store → Type 0
BookIsValid s = LoansAreValid s.loans × TotalMatches s

dispatch-TotalMatches :
    (c : Config) (op : ScripOp) (m : Message) (s : Store)
    → BookIsValid s
    → TotalMatches (dispatch c op m s)
unfolding dispatch is_loan_op apply_loan_mint apply_loan_repay apply_loan_vig_accrue
dispatch-TotalMatches c loan_mint m s h =
    given-keeps TotalMatches (decode_loan_mint c m.payload) s
      (λ r. mint_loan r (lookup r.loan_id s.loans) s) h.1
      (λ r e. mint_loan-TotalMatches r s (decode_loan_mint-active c m.payload r e) h.1)
dispatch-TotalMatches c loan_repay m s h =
    given-keeps TotalMatches (decode_loan_amount m.payload) s
      (λ (id, x). repay_loan id x (active_loan id s) s) h.1
      (λ (id, x) e. repay_loan-TotalMatches id x (active_loan id s) s h.0 h.1)
dispatch-TotalMatches c loan_vig_accrue m s h =
    given-keeps TotalMatches (decode_loan_amount m.payload) s
      (λ (id, x). accrue id x (active_loan id s) s) h.1
      (λ (id, x) e. accrue-TotalMatches id x s h.1)
dispatch-TotalMatches c op m s h =
    let same = dispatch-loans c op m s refl in rw (same.0, same.2) h.1

-- Where the loan records are valid and the counter is the sum of the principals of the active
-- loans, both are so after any message.
pub apply_message-BookIsValid :
    (c : Config) (m : Message) (s : Store) → BookIsValid s → BookIsValid (apply_message c m s)
apply_message-BookIsValid c m s h =
    apply_message-keeps BookIsValid c m s
      (λ op t b. (dispatch-LoansAreValid c op m t b.0, dispatch-TotalMatches c op m t b))
      (λ seen. h)
