-- ===== src/Scrip/Loans.antt =====
-- applyLoanMint, applyLoanRepay and applyLoanVigAccrue of relay_store.go, and the loan accessors.
use dontguess.Base.{
  ℕ, Bool, true, false, Option, none, some, List, [], ◌∷◌, ◌++◌, ◌==◌, ◌||◌, not, lookup, insert,
  get_or, if◌then◌else◌, ◌>>=◌,
}
use dontguess.Base.Int64.{add64, sub64, is_pos, slt}
use dontguess.Base.Sums.{sum_by}
use dontguess.Json.{
  Object, text_field, number_field, borrower, principal, vig_rate_bps, due_at, loan_id,
  settlement_msg_id, commitment_token_id, amount,
}
use dontguess.Scrip.Types.{Config, LoanRecord, LoanStatus, active, repaid, defaulted, Store, given}
use dontguess.Scrip.Balance.{add_to_balance, subtract_from_balance}

abbrev pub is_active : LoanStatus → Bool
is_active active = true
is_active repaid = false
is_active defaulted = false

-- Missing or invalid is the zero time.
abbrev parse_due : Config → ℕ → ℕ
parse_due c due = if due == 0 then 0 else get_or 0 (c.parse_time due)

-- LoanMintPayload, decoded and validated: `none` is an early return.
unfoldable pub decode_loan_mint : Config → Option Object → Option LoanRecord
decode_loan_mint c payload = do
  o ← payload
  borrower_key ← text_field borrower o
  loan_principal ← number_field principal o
  rate ← number_field vig_rate_bps o
  due ← text_field due_at o
  id ← text_field loan_id o
  settlement ← text_field settlement_msg_id o
  commitment ← text_field commitment_token_id o
  if borrower_key == 0 || id == 0 || not (is_pos loan_principal)
      then none
      else some (record {
        loan_id = id;
        borrower_key = borrower_key;
        principal = loan_principal;
        vig_rate_bps = rate;
        due_at = parse_due c due;
        repaid_so_far = 0;
        outstanding = 0;
        settlement_msg_id = settlement;
        commitment_id = commitment;
        status = active;
      })

-- LoanRepayPayload and LoanVigAccruePayload have the same two fields and the same checks.
unfoldable pub decode_loan_amount : Option Object → Option (ℕ × ℕ)
decode_loan_amount payload = do
  o ← payload
  id ← text_field loan_id o
  x ← number_field amount o
  if id == 0 || not (is_pos x) then none else some (id, x)

unfoldable pub open_loan : LoanRecord → Store → Store
open_loan r s = record s {
  loans = insert r.loan_id r s.loans;
  loans_by_borrower =
      insert r.borrower_key
        (get_or [] (lookup r.borrower_key s.loans_by_borrower) ++ r.loan_id ∷ [])
        s.loans_by_borrower;
}

-- The part of applyLoanMint below the check that the loan id is new.
unfoldable pub mint_loan : LoanRecord → Option LoanRecord → Store → Store
mint_loan r (some _) s = s
mint_loan r none s =
    let t = add_to_balance r.borrower_key r.principal (open_loan r s) in
    record t {
      total_supply = add64 t.total_supply r.principal;
      total_loan_principal = add64 t.total_loan_principal r.principal;
    }

unfoldable pub apply_loan_mint : Config → Option Object → Store → Store
unfolding mint_loan
apply_loan_mint c payload s =
    given (decode_loan_mint c payload) s λ r. mint_loan r (lookup r.loan_id s.loans) s

-- The record of a loan that exists and is active.
abbrev pub only_active : Option LoanRecord → Option LoanRecord
only_active none = none
only_active (some r) = if is_active r.status then some r else none

unfoldable pub active_loan : ℕ → Store → Option LoanRecord
active_loan id s = only_active (lookup id s.loans)

-- A repayment on the record: paid in full when `Repaid >= Principal`.
unfoldable pub repay : ℕ → LoanRecord → LoanRecord
repay x r =
    let paid = add64 r.repaid_so_far x in
    if slt paid r.principal
    then record r { repaid_so_far = paid }
    else record r { repaid_so_far = paid; outstanding = 0; status = repaid }

-- After the debit: the record is looked up again, as the code does under its second lock.
unfoldable pub credit_loan : ℕ → ℕ → Option LoanRecord → Store → Store
unfolding repay
credit_loan id x none s = s
credit_loan id x (some r) s =
    let r' = repay x r in
    record s {
      loans = insert id r' s.loans;
      total_supply = sub64 s.total_supply x;
      total_loan_principal =
          if is_active r'.status
          then s.total_loan_principal
          else sub64 s.total_loan_principal r.principal;
    }

-- The debit of the borrower; an empty borrower key is not debited.
unfoldable pub debit : ℕ → ℕ → Store → Store × Bool
debit k x s = if k == 0 then (s, true) else subtract_from_balance k x s

unfoldable pub repay_loan : ℕ → ℕ → Option LoanRecord → Store → Store
unfolding credit_loan debit
repay_loan id x none s = s
repay_loan id x (some r) s =
    let (t, covered) = debit r.borrower_key x s in
    if covered then credit_loan id x (active_loan id t) t else t

unfoldable pub apply_loan_repay : Option Object → Store → Store
unfolding repay_loan
apply_loan_repay payload s =
    given (decode_loan_amount payload) s λ (id, x). repay_loan id x (active_loan id s) s

unfoldable pub accrue : ℕ → ℕ → Option LoanRecord → Store → Store
accrue id x none s = s
accrue id x (some r) s = record s {
  loans = insert id (record r { outstanding = add64 r.outstanding x }) s.loans;
}

unfoldable pub apply_loan_vig_accrue : Option Object → Store → Store
unfolding accrue
apply_loan_vig_accrue payload s =
    given (decode_loan_amount payload) s λ (id, x). accrue id x (active_loan id s) s

-- TotalOutstandingVig ranges over the map; the sum does not depend on the order.
abbrev pub open_vig : LoanRecord → ℕ
open_vig r = if is_active r.status then r.outstanding else 0

unfoldable pub total_outstanding_vig : Store → ℕ
unfolding sum_by
total_outstanding_vig s = sum_by open_vig s.loans

-- GetLoan and LoansByBorrower.
unfoldable pub get_loan : ℕ → Store → Option LoanRecord
get_loan id s = lookup id s.loans

unfoldable pub borrower_loans : ℕ → Store → List ℕ
borrower_loans k s = get_or [] (lookup k s.loans_by_borrower)
