-- ===== src/Credit/Tests.antt =====
-- A buyer with 100 who needs 600, and the theorems at it.
use dontguess.Base.{◌≡◌, refl, true, false, some, [], ◌∷◌, arith, contains, lookup}
use dontguess.Base.Int64.{add64, sub64, slt}
use dontguess.Scrip.Types.{empty_store}
use dontguess.Scrip.Budget.{balance}
use dontguess.Scrip.Loans.{borrower_loans}
use dontguess.Credit.Rail.{
  Outside, Engine, credit_tier_eligible, borrower_outstanding_principal, unpaid_sum,
  ensure_credit_for_shortfall, nil,
}
use dontguess.Scrip.Types.{LoanRecord, active}
use dontguess.Credit.Loans.{ensure_credit_for_shortfall-covers}

abbrev outside : Outside
outside = record {
  config = record { operator_key = 1; parse_time = λ t. some t };
  record_id = λ n. 90;
  record_time = λ n. 5;
  emit_fails = λ n. false;
  auto_credit = λ id. id;
}

abbrev fleet : Engine
fleet = record {
  has_store = true;
  store = record empty_store { balances = (2, record { value = 100; gen = 1; epoch = 0 }) ∷ [] };
  federation_guard_enabled = false;
  sent = 0;
  log = [];
  credit_cap_refused = 0;
}

ensure_credit_for_shortfall-covers_example :
    let (e', r) = ensure_credit_for_shortfall outside 2 600 30 31 77 fleet in
    (r ≡ nil) × (balance 2 e'.store ≡ 600) × (borrower_outstanding_principal 2 e'.store ≡ 500)
unfolding lookup borrower_loans contains balance credit_tier_eligible borrower_outstanding_principal
    unpaid_sum add64 sub64 slt
ensure_credit_for_shortfall-covers_example =
    ensure_credit_for_shortfall-covers outside 2 600 30 31 77 fleet (omega arith) (omega arith) refl
      refl refl (λ k id. refl) refl refl refl refl refl

-- Buyer 2 owes 300 of a loan of 500, and has 400.
abbrev owed_loan : LoanRecord
owed_loan = record {
  loan_id = 77;
  borrower_key = 2;
  principal = 500;
  vig_rate_bps = 0;
  due_at = 0;
  repaid_so_far = 200;
  outstanding = 0;
  settlement_msg_id = 30;
  commitment_id = 31;
  status = active;
}

abbrev indebted : Engine
indebted = record fleet {
  store = record empty_store {
    balances = (2, record { value = 400; gen = 1; epoch = 0 }) ∷ [];
    loans = (77, owed_loan) ∷ [];
    loans_by_borrower = (2, 77 ∷ []) ∷ [];
  };
}
