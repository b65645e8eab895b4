-- ===== src/Scrip/LoanIndex.antt =====
-- The index of loans by borrower (loansByBorrower) against the loan book.
use dontguess.Base.{
  ℕ, ◌≡◌, refl, Bool, false, Option, none, some, [], ◌∷◌, ◌++◌, ◌==◌, inl, inr, lookup, insert,
  arith, get_or, Option-cases, Bool-cases, lookup-insert, contains, contains-append,
}
use dontguess.Base.Int64.{add64}
use dontguess.Proto.{Message, ScripOp, loan_mint, loan_repay, loan_vig_accrue}
use dontguess.Scrip.Types.{Config, LoanRecord, Store, given-keeps}
use dontguess.Scrip.Balance.{add_to_balance}
use dontguess.Scrip.Loans.{
  decode_loan_mint, decode_loan_amount, open_loan, active_loan, repay, credit_loan, debit,
  mint_loan, repay_loan, accrue, apply_loan_mint, apply_loan_repay, apply_loan_vig_accrue,
  borrower_loans,
}
use dontguess.Scrip.Ledger.{dispatch, apply_message}
use dontguess.Scrip.Rules.{apply_message-keeps}
use dontguess.Scrip.LoanBook.{active_loan-eq_some, is_loan_op, dispatch-loans, debit-loans}

abbrev pub owed_by : ℕ → Option LoanRecord → Bool
owed_by k none = false
owed_by k (some r) = k == r.borrower_key

-- A loan id is listed under a borrower exactly when the record names that borrower.
abbrev pub IndexMatches : Store → Type 0
IndexMatches s = (k id : ℕ) → contains id (borrower_loans k s) ≡ owed_by k (lookup id s.loans)

mint_loan-IndexMatches :
    (r : LoanRecord) (s : Store)
    → IndexMatches s
    → IndexMatches (mint_loan r (lookup r.loan_id s.loans) s)
unfolding mint_loan open_loan add_to_balance borrower_loans contains
mint_loan-IndexMatches r s h k id = elim (Option-cases (lookup r.loan_id s.loans)) [
  | inl e ↦
      let old = get_or [] (lookup r.borrower_key s.loans_by_borrower) in
      rw e (
        ground (
          arith,
          e,
          h k id,
          h r.borrower_key id,
          lookup-insert id r.loan_id r s.loans,
          lookup-insert k r.borrower_key (old ++ r.loan_id ∷ []) s.loans_by_borrower,
          contains-append id old (r.loan_id ∷ []),
        ))
  | inr (q, e) ↦ rw e (h k id)
]

-- A write that keeps the borrower of a record keeps the index.
rewrite-IndexMatches :
    (id : ℕ) (r r' : LoanRecord) (s : Store)
    → lookup id s.loans ≡ some r
    → r'.borrower_key ≡ r.borrower_key
    → IndexMatches s
    → (k j : ℕ) → contains j (borrower_loans k s) ≡ owed_by k (lookup j (insert id r' s.loans))
rewrite-IndexMatches id r r' s at same h k j = ground (arith, h k j, lookup-insert j id r' s.loans)

credit_loan-IndexMatches :
    (id x : ℕ) (s : Store) → IndexMatches s → IndexMatches (credit_loan id x (active_loan id s) s)
unfolding credit_loan borrower_loans repay
credit_loan-IndexMatches id x s h = elim (Option-cases (active_loan id s)) [
  | inl e ↦ rw e h
  | inr (r, e) ↦
      let at = (active_loan-eq_some id r s e).0 in
      rw e (rewrite-IndexMatches id r (repay x r) s at (ground arith) h)
]

repay_loan-IndexMatches :
    (id x : ℕ) (o : Option LoanRecord) (s : Store)
    → IndexMatches s
    → IndexMatches (repay_loan id x o s)
unfolding repay_loan borrower_loans
repay_loan-IndexMatches id x none s h = h
repay_loan-IndexMatches id x (some r) s h =
    let t = (debit r.borrower_key x s).0 in
    let same = debit-loans r.borrower_key x s in
    let ht : IndexMatches t = rw (same.0, same.1) h in
    elim (Bool-cases (debit r.borrower_key x s).1) [
      | inl e ↦ rw e (credit_loan-IndexMatches id x t ht)
      | inr e ↦ rw e ht
    ]

accrue-IndexMatches :
    (id x : ℕ) (s : Store) → IndexMatches s → IndexMatches (accrue id x (active_loan id s) s)
unfolding accrue borrower_loans
accrue-IndexMatches id x s h = elim (Option-cases (active_loan id s)) [
  | inl e ↦ rw e h
  | inr (r, e) ↦
      let at = (active_loan-eq_some id r s e).0 in
      rw e
        (rewrite-IndexMatches id r (record r { outstanding = add64 r.outstanding x }) s at refl h)
]

dispatch-IndexMatches :
    (c : Config) (op : ScripOp) (m : Message) (s : Store)
    → IndexMatches s
    → IndexMatches (dispatch c op m s)
unfolding dispatch is_loan_op apply_loan_mint apply_loan_repay apply_loan_vig_accrue borrower_loans
dispatch-IndexMatches c loan_mint m s h =
    given-keeps IndexMatches (decode_loan_mint c m.payload) s
      (λ r. mint_loan r (lookup r.loan_id s.loans) s) h (λ r e. mint_loan-IndexMatches r s h)
dispatch-IndexMatches c loan_repay m s h =
    given-keeps IndexMatches (decode_loan_amount m.payload) s
      (λ (id, x). repay_loan id x (active_loan id s) s) h
      (λ (id, x) e. repay_loan-IndexMatches id x (active_loan id s) s h)
dispatch-IndexMatches c loan_vig_accrue m s h =
    given-keeps IndexMatches (decode_loan_amount m.payload) s
      (λ (id, x). accrue id x (active_loan id s) s) h (λ (id, x) e. accrue-IndexMatches id x s h)
dispatch-IndexMatches c op m s h = let same = dispatch-loans c op m s refl in rw (same.0, same.1) h

-- Where LoansByBorrower lists exactly the loans whose record names the borrower, it does so after
-- any message.
pub apply_message-IndexMatches :
    (c : Config) (m : Message) (s : Store) → IndexMatches s → IndexMatches (apply_message c m s)
unfolding borrower_loans
apply_message-IndexMatches c m s h =
    apply_message-keeps IndexMatches c m s (λ op t. dispatch-IndexMatches c op m t) (λ seen. h)
