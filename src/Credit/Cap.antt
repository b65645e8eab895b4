-- ===== src/Credit/Cap.antt =====
-- What a loan of ensureCreditForShortfall does to the borrower's balance and debt, and the ceiling
-- on one buyer's debt (engine_credit.go).
use dontguess.Base.{
  ℕ, ◌≡◌, ◌≢◌, refl, ◌∙◌, true, false, none, some, List, [], ◌∷◌, ◌++◌, arith, lookup, insert,
  get_or, lookup-insert, lookup-insert_self, contains,
}
use dontguess.Base.Int64.{add64, is_pos}
use dontguess.Json.{text_field, number_field, same_name}
use dontguess.Proto.{Message, Tag, loan_mint}
use dontguess.Scrip.Types.{Config, Store, BalanceEntry, LoanRecord, active}
use dontguess.Scrip.Budget.{balance}
use dontguess.Scrip.Balance.{add_to_balance, put_entry, entry_of, bump}
use dontguess.Scrip.Loans.{
  get_loan, borrower_loans, mint_loan, open_loan, decode_loan_mint, apply_loan_mint,
}
use dontguess.Scrip.Ledger.{apply_message, apply_new, dispatch, scrip_op, is_authorized}
use dontguess.Scrip.Rules.{with_seen}
use dontguess.Scrip.LoanIndex.{IndexMatches}
use dontguess.Credit.Rail.{
  Outside, unpaid, unpaid_sum, borrower_outstanding_principal, loan_payload,
}

unpaid_sum-append :
    (xs : List ℕ) (id : ℕ) (s : Store)
    → unpaid_sum (xs ++ id ∷ []) s ≡ add64 (unpaid_sum xs s) (unpaid (get_loan id s))
unfolding unpaid_sum add64
unpaid_sum-append [] id s = omega arith
unpaid_sum-append (j ∷ xs) id s = omega (arith, unpaid_sum-append xs id s)

-- Loans that read the same have the same sum.
unpaid_sum-same :
    (ids : List ℕ) (id : ℕ) (r : LoanRecord) (s t : Store)
    → contains id ids ≡ false
    → t.loans ≡ insert id r s.loans
    → unpaid_sum ids t ≡ unpaid_sum ids s
unfolding unpaid_sum contains get_loan
unpaid_sum-same [] id r s t h e = refl
unpaid_sum-same (j ∷ ids) id r s t h e =
    ground (arith, e, lookup-insert j id r s.loans, unpaid_sum-same ids id r s t)

-- The record that a loan of the rail opens.
abbrev pub loan_of : Outside → ℕ → ℕ → ℕ → ℕ → ℕ → LoanRecord
loan_of x buyer shortfall loan accept matched = record {
  loan_id = loan;
  borrower_key = buyer;
  principal = shortfall;
  vig_rate_bps = 0;
  due_at = 0;
  repaid_so_far = 0;
  outstanding = 0;
  settlement_msg_id = accept;
  commitment_id = x.auto_credit matched;
  status = active;
}

pub decode_loan_mint-loan_payload :
    (x : Outside) (buyer shortfall loan accept matched : ℕ)
    → buyer ≢ 0
    → loan ≢ 0
    → is_pos shortfall ≡ true
    → decode_loan_mint x.config (some (loan_payload x buyer shortfall loan accept matched))
      ≡ some (loan_of x buyer shortfall loan accept matched)
unfolding decode_loan_mint text_field number_field same_name
decode_loan_mint-loan_payload x buyer shortfall loan accept matched b l p = ground arith

pub mint_loan-debt :
    (r : LoanRecord) (s : Store)
    → IndexMatches s
    → lookup r.loan_id s.loans ≡ none
    → borrower_outstanding_principal r.borrower_key (mint_loan r none s)
      ≡ add64 (borrower_outstanding_principal r.borrower_key s) (unpaid (some r))
unfolding borrower_outstanding_principal mint_loan open_loan add_to_balance put_entry borrower_loans
mint_loan-debt r s i new =
    let ids = get_or [] (lookup r.borrower_key s.loans_by_borrower) in
    let t = mint_loan r none s in
    let fresh : contains r.loan_id ids ≡ false = i r.borrower_key r.loan_id ∙ rw new refl in
    let same = unpaid_sum-same ids r.loan_id r s t fresh refl in
    let at : get_loan r.loan_id t ≡ some r = lookup-insert_self r.loan_id r s.loans in
    rw (lookup-insert_self r.borrower_key (ids ++ r.loan_id ∷ []) s.loans_by_borrower)
      (unpaid_sum-append ids r.loan_id t ∙ rw (same, at) refl)

pub balance_found :
    (k : ℕ) (s : Store) {e : BalanceEntry} → lookup k s.balances ≡ some e → balance k s ≡ e.value
unfolding balance
balance_found k s h = ground arith

pub balance-entry_of : (k : ℕ) (s : Store) → balance k s ≡ (entry_of k s).value
unfolding balance entry_of
balance-entry_of k s = ground arith

pub mint_loan-balance :
    (r : LoanRecord) (s : Store)
    → balance r.borrower_key (mint_loan r none s) ≡ add64 (balance r.borrower_key s) r.principal
unfolding mint_loan open_loan add_to_balance put_entry entry_of
mint_loan-balance r s =
    let e = entry_of r.borrower_key (open_loan r s) in
    let e' = bump (add64 e.value r.principal) e in
    balance_found r.borrower_key (mint_loan r none s)
      (lookup-insert_self r.borrower_key e' s.balances)
    ∙ rw (balance-entry_of r.borrower_key s) refl

-- A loan message of the operator, under a new id, opens the loan.
pub fold_loan :
    (c : Config) (m : Message) (s : Store) (r : LoanRecord) (tags : List Tag)
    → m.sender ≡ c.operator_key
    → m.tags ≡ Tag.scrip loan_mint ∷ tags
    → contains m.id s.seen_msg_ids ≡ false
    → decode_loan_mint c m.payload ≡ some r
    → lookup r.loan_id s.loans ≡ none
    → apply_message c m s ≡ mint_loan r none (with_seen (m.id ∷ s.seen_msg_ids) s)
unfolding apply_message apply_new is_authorized dispatch apply_loan_mint scrip_op
fold_loan c m s r tags own tagged new payload fresh =
    rw (new, tagged, payload, fresh) (ground (arith, own))
