-- ===== src/Credit/Repayment.antt =====
-- One round of applyRepayment: what a repayment does to the loan and to the borrower's balance
-- (engine_credit.go).
use dontguess.Base.{
  ℕ, ◌≡◌, ◌≢◌, ◌<◌, refl, sym, ap, ◌∙◌, true, false, ◌==◌, some, [], ◌∷◌, inl, inr, arith, lookup,
  lookup-insert_self, Bool-cases, contains,
}
use dontguess.Base.Int64.{add64, sub64, is_pos, is_neg, slt, two64}
use dontguess.Json.{text, number, loan_id, amount, text_field, number_field, same_name}
use dontguess.Proto.{Message, Tag, loan_repay}
use dontguess.Scrip.Types.{Config, Store, LoanRecord}
use dontguess.Scrip.Budget.{balance}
use dontguess.Scrip.Balance.{subtract_from_balance, put_entry, entry_of, bump}
use dontguess.Scrip.Loans.{
  get_loan, active_loan, is_active, decode_loan_amount, apply_loan_repay, repay_loan, credit_loan,
  debit, repay,
}
use dontguess.Scrip.Ledger.{apply_message, apply_new, dispatch, scrip_op, is_authorized}
use dontguess.Scrip.Rules.{with_seen}
use dontguess.Credit.Cap.{balance_found, balance-entry_of}
use dontguess.Credit.Rail.{Outside, Engine, unpaid, at_most, emit, repay_one}

fold_repayment :
    (c : Config) (m : Message) (s : Store) (id x : ℕ)
    → m.sender ≡ c.operator_key
    → m.tags ≡ Tag.scrip loan_repay ∷ []
    → contains m.id s.seen_msg_ids ≡ false
    → decode_loan_amount m.payload ≡ some (id, x)
    → apply_message c m s
      ≡ (let t = with_seen (m.id ∷ s.seen_msg_ids) s in repay_loan id x (active_loan id t) t)
unfolding apply_message apply_new is_authorized dispatch apply_loan_repay scrip_op
fold_repayment c m s id x own tagged new payload = rw (new, tagged, payload) (ground (arith, own))

decode_repayment :
    (id x : ℕ)
    → id ≢ 0
    → is_pos x ≡ true
    → decode_loan_amount (some ((loan_id, text id) ∷ (amount, number x) ∷ [])) ≡ some (id, x)
unfolding decode_loan_amount text_field number_field same_name
decode_repayment id x n p = ground arith

-- A debit that leaves the balance at 0 or more goes through.
subtract_from_balance-eq :
    (k x : ℕ) (s : Store)
    → is_neg (sub64 (entry_of k s).value x) ≡ false
    → subtract_from_balance k x s
      ≡ (put_entry k (bump (sub64 (entry_of k s).value x) (entry_of k s)) s, true)
unfolding subtract_from_balance
subtract_from_balance-eq k x s h = elim (Bool-cases s.replaying) [
  | inl r ↦ rw r refl
  | inr r ↦ rw (r, h) refl
]

-- A repayment that the borrower's balance covers.
repay_loan-covered :
    (id x : ℕ) (r : LoanRecord) (s : Store)
    → lookup id s.loans ≡ some r
    → is_active r.status ≡ true
    → r.borrower_key ≢ 0
    → is_neg (sub64 (balance r.borrower_key s) x) ≡ false
    → let t = repay_loan id x (active_loan id s) s in
      (lookup id t.loans ≡ some (repay x r))
      × (balance r.borrower_key t ≡ sub64 (balance r.borrower_key s) x)
unfolding repay_loan debit credit_loan active_loan put_entry
repay_loan-covered id x r s at live named covered =
    let k = r.borrower_key in
    let e = entry_of k s in
    let e' = bump (sub64 e.value x) e in
    let h : is_neg (sub64 e.value x) ≡ false = rw⁻¹ (balance-entry_of k s) covered in
    let debited = subtract_from_balance-eq k x s h in
    let someone : (k == 0) ≡ false = ground arith in
    rw (at, live, someone, debited, at, live)
      (
        lookup-insert_self id (repay x r) s.loans,
        balance_found k _ (lookup-insert_self k e' s.balances)
            ∙ ap (λ v. sub64 v x) (sym (balance-entry_of k s)),
      )

-- What is unpaid falls by what is paid, also when that closes the loan.
unpaid-repay :
    (x : ℕ) (r : LoanRecord)
    → is_active r.status ≡ true
    → is_pos r.principal ≡ true
    → r.repaid_so_far < two64
    → is_pos x ≡ true
    → slt (unpaid (some r)) x ≡ false
    → is_pos (unpaid (some r)) ≡ true
    → unpaid (some (repay x r)) ≡ sub64 (unpaid (some r)) x
unfolding repay slt add64 sub64
unpaid-repay x r live principal repaid pos within owed = ground arith

-- One round of applyRepayment for an active loan of a named borrower, while something remains, the
-- record can be emitted under a new id, the principal is positive and the balance covers what is
-- applied: the smaller of what remains and what is unpaid is applied. It leaves what remains, it
-- leaves the borrower's balance, and it leaves what is unpaid.
repay_one-pays :
    (x : Outside) (cause id remaining : ℕ) (r : LoanRecord) (e : Engine)
    → id ≢ 0
    → lookup id e.store.loans ≡ some r
    → is_active r.status ≡ true
    → r.borrower_key ≢ 0
    → is_pos r.principal ≡ true
    → r.repaid_so_far < two64
    → is_pos remaining ≡ true
    → is_pos (unpaid (some r)) ≡ true
    → x.emit_fails e.sent ≡ false
    → contains (x.record_id e.sent) e.store.seen_msg_ids ≡ false
    → is_neg (sub64 (balance r.borrower_key e.store) (at_most (unpaid (some r)) remaining)) ≡ false
    → let paid = at_most (unpaid (some r)) remaining in
      let (rest, e') = repay_one x cause id (remaining, e) in
      (rest ≡ sub64 remaining paid)
      × (balance r.borrower_key e'.store ≡ sub64 (balance r.borrower_key e.store) paid)
      × (unpaid (get_loan id e'.store) ≡ sub64 (unpaid (some r)) paid)
unfolding repay_one emit get_loan balance
repay_one-pays x cause id remaining r e n at live named principal repaid pos owed sent new covered =
    let paid = at_most (unpaid (some r)) remaining in
    let is_paid : is_pos paid ≡ true = unfold slt in ground arith in
    let within : slt (unpaid (some r)) paid ≡ false = unfold slt in ground arith in
    let m : Message = record {
      id = x.record_id e.sent;
      sender = x.config.operator_key;
      payload = some ((loan_id, text id) ∷ (amount, number paid) ∷ []);
      tags = Tag.scrip loan_repay ∷ [];
      antecedents = cause ∷ [];
      timestamp = x.record_time e.sent;
    } in
    let t = with_seen (m.id ∷ e.store.seen_msg_ids) e.store in
    let folded =
      fold_repayment x.config m e.store id paid refl refl new
        (decode_repayment id paid n is_paid) in
    let (found, debited) = repay_loan-covered id paid r t at live named covered in
    let falls = unpaid-repay paid r live principal repaid is_paid within owed in
    rw (at, pos, owed, sent, folded) (refl, debited, ap unpaid found ∙ falls)
