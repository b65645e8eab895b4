-- ===== src/Credit/Rail.antt =====
-- The functions of engine_credit.go on an engine whose ScripStore, if it has one, is the
-- LocalScripStore, which answers the loan queries and folds messages.
use dontguess.Base.{
  ℕ, suc, ◌-◌, ◌*◌, ◌/◌, ◌%◌, Bool, true, false, not, ◌&&◌, ◌||◌, Option, none, some, List, [], ◌∷◌,
  if◌then◌else◌,
}
use dontguess.Base.Int64.{add64, sub64, is_pos, is_neg, slt, two64}
use dontguess.Json.{
  Object, text, number, borrower, principal, vig_rate_bps, due_at, loan_id, settlement_msg_id,
  commitment_token_id, amount,
}
use dontguess.Proto.{Message, Tag, ScripOp, loan_mint, loan_repay}
use dontguess.Scrip.Types.{Config, Store, LoanRecord}
use dontguess.Scrip.Budget.{get_budget}
use dontguess.Scrip.Loans.{is_active, get_loan, borrower_loans}
use dontguess.Scrip.Ledger.{apply_message}

-- What the engine takes from outside: the configuration of the ledger; the id and the time of its
-- n-th record; whether marshalling or appending it fails; and the text "auto-credit:" + id.
pub record Outside : Type 0 where
  pub config : Config
  pub record_id : ℕ → ℕ
  pub record_time : ℕ → ℕ
  pub emit_fails : ℕ → Bool
  pub auto_credit : ℕ → ℕ

-- `log` holds the records that the engine emitted, the last one first; `sent` counts the attempts.
pub record Engine : Type 0 where
  pub has_store : Bool
  pub store : Store
  pub federation_guard_enabled : Bool
  pub sent : ℕ
  pub log : List Message
  pub credit_cap_refused : ℕ

abbrev pub credit_max_outstanding_per_buyer : ℕ
credit_max_outstanding_per_buyer = 300000

abbrev pub credit_repayment_withhold_pct : ℕ
credit_repayment_withhold_pct = 50

unfoldable pub credit_tier_eligible : Engine → Bool
credit_tier_eligible e = e.has_store && not e.federation_guard_enabled

abbrev pub unpaid : Option LoanRecord → ℕ
unpaid none = 0
unpaid (some r) = if is_active r.status then sub64 r.principal r.repaid_so_far else 0

unfoldable pub unpaid_sum : List ℕ → Store → ℕ
unpaid_sum [] s = 0
unpaid_sum (id ∷ ids) s = add64 (unpaid (get_loan id s)) (unpaid_sum ids s)

-- The loop adds from the left; the sum modulo 2 ^ 64 is the same.
unfoldable pub borrower_outstanding_principal : ℕ → Store → ℕ
unfolding unpaid_sum get_loan borrower_loans
borrower_outstanding_principal k s = unpaid_sum (borrower_loans k s) s

-- `w / 100`, which truncates towards 0.
abbrev pub hundredth : ℕ → ℕ
hundredth w = if is_neg w then (two64 - (two64 - w) / 100) % two64 else w / 100

abbrev pub at_most : ℕ → ℕ → ℕ
at_most limit w = if slt limit w then limit else w

unfoldable pub repayment_amount : ℕ → ℕ → Engine → ℕ
unfolding borrower_outstanding_principal
repayment_amount k gross e =
    let outstanding = borrower_outstanding_principal k e.store in
    if not (is_pos gross) || not e.has_store || not (is_pos outstanding)
    then 0
    else at_most gross
        (at_most outstanding (hundredth (gross * credit_repayment_withhold_pct % two64)))

-- marshal, sendOperatorMessage and the live fold; `false` is an error of the first two.
unfoldable pub emit : Outside → ScripOp → Object → ℕ → Engine → Engine × Bool
unfolding apply_message
emit x op payload cause e =
    let m : Message = record {
      id = x.record_id e.sent;
      sender = x.config.operator_key;
      payload = some payload;
      tags = Tag.scrip op ∷ [];
      antecedents = cause ∷ [];
      timestamp = x.record_time e.sent;
    } in
    if x.emit_fails e.sent then (record e { sent = suc e.sent }, false) else (
      record e { sent = suc e.sent; log = m ∷ e.log; store = apply_message x.config m e.store },
      true,
    )

-- One round of the loop of applyRepayment, with what remains to be applied.
unfoldable pub repay_one : Outside → ℕ → ℕ → ℕ × Engine → ℕ × Engine
unfolding emit get_loan
repay_one x cause id (remaining, e) =
    let owed = unpaid (get_loan id e.store) in
    let apply = at_most owed remaining in
    let (e', done) = emit x loan_repay ((loan_id, text id) ∷ (amount, number apply) ∷ []) cause e in
    if not (is_pos remaining) || not (is_pos owed)
    then (remaining, e)
    else ((if done then sub64 remaining apply else remaining), e')

unfoldable pub repay_loans : Outside → ℕ → List ℕ → ℕ × Engine → ℕ × Engine
unfolding repay_one
repay_loans x cause [] p = p
repay_loans x cause (id ∷ ids) p = repay_loans x cause ids (repay_one x cause id p)

unfoldable pub apply_repayment : Outside → ℕ → ℕ → ℕ → Engine → Engine
unfolding repay_loans borrower_loans
apply_repayment x k total cause e =
    if not (is_pos total) || not e.has_store
    then e
    else (repay_loans x cause (borrower_loans k e.store) (total, e)).1

pub data CreditResult : Type 0 where
  nil cap_exceeded emission_failed : CreditResult

-- The loan for a shortfall; the rate and the due date are not recorded.
abbrev pub loan_payload : Outside → ℕ → ℕ → ℕ → ℕ → ℕ → Object
loan_payload x buyer shortfall loan accept matched =
    (borrower, text buyer)
    ∷ (principal, number shortfall)
    ∷ (vig_rate_bps, number 0)
    ∷ (due_at, text 0)
    ∷ (loan_id, text loan)
    ∷ (settlement_msg_id, text accept)
    ∷ (commitment_token_id, text (x.auto_credit matched))
    ∷ []

abbrev pub lend : Outside → ℕ → ℕ → ℕ → ℕ → ℕ → Engine → Engine × CreditResult
lend x buyer shortfall loan accept matched e =
    let (e', done) =
      emit x loan_mint (loan_payload x buyer shortfall loan accept matched) accept e in
    (e', if done then nil else emission_failed)

-- ensureCreditForShortfall; `loan` is the new loan id, and the error of a GetBudget does not occur.
unfoldable pub ensure_credit_for_shortfall :
    Outside → ℕ → ℕ → ℕ → ℕ → ℕ → Engine → Engine × CreditResult
unfolding credit_tier_eligible borrower_outstanding_principal emit get_budget
ensure_credit_for_shortfall x buyer hold accept matched loan e =
    let bal = (get_budget buyer e.store).0 in
    let shortfall = sub64 hold bal in
    let outstanding = borrower_outstanding_principal buyer e.store in
    if not (credit_tier_eligible e) || not (is_pos hold) || not (slt bal hold)
    then (e, nil)
    else (if slt credit_max_outstanding_per_buyer (add64 outstanding shortfall)
        then (record e { credit_cap_refused = add64 e.credit_cap_refused 1 }, cap_exceeded)
        else lend x buyer shortfall loan accept matched e)
