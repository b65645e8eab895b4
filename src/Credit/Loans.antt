-- ===== src/Credit/Loans.antt =====
-- ensureCreditForShortfall: what a granted loan and a refused one do (engine_credit.go).
use dontguess.Base.{
  ℕ, ◌≡◌, ◌≢◌, ◌<◌, ◌≤◌, ◌*◌, refl, ap, ◌∙◌, true, false, none, some, List, [], ◌∷◌, arith, lookup,
  contains,
}
use dontguess.Base.Int64.{add64, sub64, is_pos, is_neg, slt, two63, two64}
use dontguess.Proto.{Message, Tag, loan_mint}
use dontguess.Scrip.Types.{Store, LoanRecord, active}
use dontguess.Scrip.Budget.{get_budget, balance}
use dontguess.Scrip.Loans.{get_loan, borrower_loans, mint_loan}
use dontguess.Scrip.Rules.{with_seen}
use dontguess.Scrip.LoanIndex.{IndexMatches}
use dontguess.Credit.Cap.{
  loan_of, decode_loan_mint-loan_payload, mint_loan-debt, mint_loan-balance, fold_loan,
}
use dontguess.Credit.Rail.{
  Outside, Engine, unpaid_sum, borrower_outstanding_principal, credit_max_outstanding_per_buyer,
  credit_tier_eligible, emit, loan_payload, lend, ensure_credit_for_shortfall, nil,
  repayment_amount,
}

-- The balance and the debt of a borrower once a loan of `shortfall` is folded.
abbrev Lent : ℕ → ℕ → Store → Store → Type 0
Lent buyer shortfall s t =
    (balance buyer t ≡ add64 (balance buyer s) shortfall)
    × (borrower_outstanding_principal buyer t
        ≡ add64 (borrower_outstanding_principal buyer s) shortfall)

sub64-zero : (a : ℕ) → a < two64 → sub64 a 0 ≡ a
unfolding sub64
sub64-zero a h = omega arith

unpaid_sum-with_seen :
    (ids seen : List ℕ) (s : Store) → unpaid_sum ids (with_seen seen s) ≡ unpaid_sum ids s
unfolding unpaid_sum get_loan
unpaid_sum-with_seen [] seen s = refl
unpaid_sum-with_seen (id ∷ ids) seen s = rw (unpaid_sum-with_seen ids seen s) refl

minted-Lent :
    (r : LoanRecord) (s : Store) (seen : List ℕ)
    → IndexMatches s
    → lookup r.loan_id s.loans ≡ none
    → r.status ≡ active
    → r.repaid_so_far ≡ 0
    → r.principal < two64
    → Lent r.borrower_key r.principal s (mint_loan r none (with_seen seen s))
unfolding balance borrower_outstanding_principal unpaid_sum get_loan borrower_loans
minted-Lent r s seen i new is un lt = (
  mint_loan-balance r (with_seen seen s),
  mint_loan-debt r (with_seen seen s) i new
      ∙ rw (unpaid_sum-with_seen (borrower_loans r.borrower_key s) seen s, is, un)
          (ap (add64 (borrower_outstanding_principal r.borrower_key s))
            (sub64-zero r.principal lt)),
)

-- What a loan that is emitted does.
lend-Lent :
    (x : Outside) (buyer shortfall loan accept matched : ℕ) (e : Engine)
    → buyer ≢ 0
    → loan ≢ 0
    → is_pos shortfall ≡ true
    → x.emit_fails e.sent ≡ false
    → contains (x.record_id e.sent) e.store.seen_msg_ids ≡ false
    → lookup loan e.store.loans ≡ none
    → IndexMatches e.store
    → let (e', r) = lend x buyer shortfall loan accept matched e in
      (r ≡ nil) × Lent buyer shortfall e.store e'.store
unfolding emit
lend-Lent x buyer shortfall loan accept matched e b l pos sent new fresh i =
    let r = loan_of x buyer shortfall loan accept matched in
    let payload = decode_loan_mint-loan_payload x buyer shortfall loan accept matched b l pos in
    let m : Message = record {
      id = x.record_id e.sent;
      sender = x.config.operator_key;
      payload = some (loan_payload x buyer shortfall loan accept matched);
      tags = Tag.scrip loan_mint ∷ [];
      antecedents = accept ∷ [];
      timestamp = x.record_time e.sent;
    } in
    let folded = fold_loan x.config m e.store r [] refl refl new payload fresh in
    let (a, d) =
      minted-Lent r e.store (m.id ∷ e.store.seen_msg_ids) i fresh refl refl (ground arith) in
    rw (sent, folded) (refl, (a, d))

shortfall_positive :
    (bal hold : ℕ)
    → is_neg bal ≡ false
    → is_pos hold ≡ true
    → slt bal hold ≡ true
    → is_pos (sub64 hold bal) ≡ true
unfolding sub64 slt
shortfall_positive bal hold live pos short = ground arith

shortfall_covers :
    (bal hold : ℕ) → is_neg bal ≡ false → is_pos hold ≡ true → add64 bal (sub64 hold bal) ≡ hold
unfolding add64 sub64
shortfall_covers bal hold live pos = ground arith

-- On an eligible deployment, where the loan index matches the book, the loan and the record have
-- new ids, the record can be emitted, and the buyer is named and has no negative balance: a buyer
-- who is short of a hold, and whose debt with the shortfall stays within the ceiling, is lent exactly
-- the shortfall. The balance is then the hold amount, and the debt has grown by the shortfall.
pub ensure_credit_for_shortfall-covers :
    (x : Outside) (buyer hold accept matched loan : ℕ) (e : Engine)
    → buyer ≢ 0
    → loan ≢ 0
    → x.emit_fails e.sent ≡ false
    → contains (x.record_id e.sent) e.store.seen_msg_ids ≡ false
    → lookup loan e.store.loans ≡ none
    → IndexMatches e.store
    → credit_tier_eligible e ≡ true
    → is_pos hold ≡ true
    → is_neg (balance buyer e.store) ≡ false
    → slt (balance buyer e.store) hold ≡ true
    → let shortfall = sub64 hold (balance buyer e.store) in
      slt credit_max_outstanding_per_buyer
          (add64 (borrower_outstanding_principal buyer e.store) shortfall)
        ≡ false
      → let (e', r) = ensure_credit_for_shortfall x buyer hold accept matched loan e in
        (r ≡ nil)
        × (balance buyer e'.store ≡ hold)
        × (borrower_outstanding_principal buyer e'.store
            ≡ add64
                (borrower_outstanding_principal buyer e.store)
                (sub64 hold (balance buyer e.store)))
unfolding ensure_credit_for_shortfall get_budget balance
ensure_credit_for_shortfall-covers x buyer hold accept matched loan e b l sent new fresh i tier pos
      live short within =
    let bal = balance buyer e.store in
    let shortfall = sub64 hold bal in
    let (done, (credited, owed)) =
      lend-Lent x buyer shortfall loan accept matched e b l
        (shortfall_positive bal hold live pos short) sent new fresh i in
    rw (tier, pos, short, within) (done, credited ∙ shortfall_covers bal hold live pos, owed)

-- The debt of a buyer is not above the ceiling.
abbrev pub WithinCeiling : ℕ → Store → Type 0
WithinCeiling buyer s =
    slt credit_max_outstanding_per_buyer (borrower_outstanding_principal buyer s) ≡ false

-- Where fifty times a credit is an int64 and the debt is not negative, what is withheld is at most
-- half of the credit and at most the debt.
repayment_amount-bounds :
    (k gross : ℕ) (e : Engine)
    → gross * 50 < two63
    → is_neg (borrower_outstanding_principal k e.store) ≡ false
    → (2 * repayment_amount k gross e ≤ gross)
      × (repayment_amount k gross e ≤ borrower_outstanding_principal k e.store)
unfolding repayment_amount slt
repayment_amount-bounds k gross e h owed = ground arith
