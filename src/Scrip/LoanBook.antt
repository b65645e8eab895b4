-- ===== src/Scrip/LoanBook.antt =====
-- The loan book: what holds of every record, the total of open principals, and who may change it.
use dontguess.Base.{
  ℕ, ◌≡◌, refl, ◌≢◌, inl, inr, Bool, true, false, Option, none, some, Dict, lookup, insert, arith,
  Option-cases, Bool-cases, lookup-insert,
}
use dontguess.Base.Int64.{add64, is_pos, slt}
use dontguess.Json.{Object}
use dontguess.Proto.{Message, ScripOp, loan_mint, loan_repay, loan_vig_accrue}
use dontguess.Scrip.Types.{Config, LoanRecord, active, repaid, defaulted, Store, given-keeps}
use dontguess.Scrip.Balance.{add_to_balance, subtract_from_balance}
use dontguess.Scrip.Loans.{
  decode_loan_mint, decode_loan_amount, open_loan, active_loan, repay, credit_loan, debit,
  mint_loan, repay_loan, accrue, apply_loan_mint, apply_loan_repay, apply_loan_vig_accrue,
}
use dontguess.Scrip.Rules.{apply_message-keeps}
use dontguess.Scrip.Ledger.{
  apply_mint, apply_burn, apply_put_pay, apply_buy_hold, apply_settle, apply_assign_pay,
  apply_dispute_refund, dispatch, apply_message,
}

pub record LoanIsValid (id : ℕ) (r : LoanRecord) : Type 0 where
  pub named : r.loan_id ≡ id
  pub owed_by_someone : r.borrower_key ≢ 0
  pub positive : is_pos r.principal ≡ true
  pub open_until_paid : r.status ≡ active → slt r.repaid_so_far r.principal ≡ true
  pub closed_when_paid :
      r.status ≡ repaid → (slt r.repaid_so_far r.principal ≡ false) × (r.outstanding ≡ 0)
  pub not_defaulted : r.status ≢ defaulted

abbrev pub LoansAreValid : Dict LoanRecord → Type 0
LoansAreValid d = (id : ℕ) (r : LoanRecord) → lookup id d ≡ some r → LoanIsValid id r

pub LoansAreValid-insert :
    (id : ℕ) (r : LoanRecord) (d : Dict LoanRecord)
    → LoansAreValid d
    → LoanIsValid id r
    → LoansAreValid (insert id r d)
LoansAreValid-insert id r d h v j q e = ground (arith, lookup-insert j id r d, h j q)

slt_irrelevant : (x : ℕ) → is_pos x ≡ true → slt 0 x ≡ true
unfolding slt
slt_irrelevant x h = ground arith

pub decode_loan_mint-LoanIsValid :
    (c : Config) (o : Option Object) (r : LoanRecord)
    → decode_loan_mint c o ≡ some r
    → LoanIsValid r.loan_id r
unfolding decode_loan_mint
decode_loan_mint-LoanIsValid c o r e = ground (arith, slt_irrelevant r.principal)

repay-LoanIsValid :
    (x id : ℕ) (r : LoanRecord) → r.status ≡ active → LoanIsValid id r → LoanIsValid id (repay x r)
unfolding repay
repay-LoanIsValid x id r a h = ground arith

-- The debit touches balances only.
pub debit-loans :
    (k x : ℕ) (s : Store)
    → let t = (debit k x s).0 in
      (t.loans ≡ s.loans)
      × (t.loans_by_borrower ≡ s.loans_by_borrower)
      × (t.total_loan_principal ≡ s.total_loan_principal)
      × (t.total_supply ≡ s.total_supply)
unfolding debit subtract_from_balance
debit-loans k x s = ground arith

-- What active_loan finds is in the map, and active.
pub active_loan-eq_some :
    (id : ℕ) (r : LoanRecord) (s : Store)
    → active_loan id s ≡ some r
    → (lookup id s.loans ≡ some r) × (r.status ≡ active)
unfolding active_loan
active_loan-eq_some id r s e = ground arith

mint_loan-LoansAreValid :
    (r : LoanRecord) (o : Option LoanRecord) (s : Store)
    → LoanIsValid r.loan_id r
    → LoansAreValid s.loans
    → LoansAreValid (mint_loan r o s).loans
unfolding mint_loan open_loan add_to_balance
mint_loan-LoansAreValid r none s v h = LoansAreValid-insert r.loan_id r s.loans h v
mint_loan-LoansAreValid r (some q) s v h = h

credit_loan-LoansAreValid :
    (id x : ℕ) (s : Store)
    → LoansAreValid s.loans
    → LoansAreValid (credit_loan id x (active_loan id s) s).loans
unfolding credit_loan
credit_loan-LoansAreValid id x s h = elim (Option-cases (active_loan id s)) [
  | inl e ↦ rw e h
  | inr (r, e) ↦
      let (at, live) = active_loan-eq_some id r s e in
      rw e
        (LoansAreValid-insert id (repay x r) s.loans h (repay-LoanIsValid x id r live (h id r at)))
]

repay_loan-LoansAreValid :
    (id x : ℕ) (o : Option LoanRecord) (s : Store)
    → LoansAreValid s.loans
    → LoansAreValid (repay_loan id x o s).loans
unfolding repay_loan
repay_loan-LoansAreValid id x none s h = h
repay_loan-LoansAreValid id x (some r) s h =
    let t = (debit r.borrower_key x s).0 in
    let ht : LoansAreValid t.loans = rw (debit-loans r.borrower_key x s).0 h in
    elim (Bool-cases (debit r.borrower_key x s).1) [
      | inl e ↦ rw e (credit_loan-LoansAreValid id x t ht)
      | inr e ↦ rw e ht
    ]

accrue-LoansAreValid :
    (id x : ℕ) (s : Store)
    → LoansAreValid s.loans
    → LoansAreValid (accrue id x (active_loan id s) s).loans
unfolding accrue
accrue-LoansAreValid id x s h = elim (Option-cases (active_loan id s)) [
  | inl e ↦ rw e h
  | inr (r, e) ↦
      let (at, live) = active_loan-eq_some id r s e in
      let v = h id r at in
      rw e (
        LoansAreValid-insert id (record r { outstanding = add64 r.outstanding x }) s.loans h
          (ground arith))
]

-- The seven operations that are not about loans leave the loan book and its total alone.
unfoldable pub is_loan_op : ScripOp → Bool
is_loan_op loan_mint = true
is_loan_op loan_repay = true
is_loan_op loan_vig_accrue = true
is_loan_op _ = false

pub dispatch-loans :
    (c : Config) (op : ScripOp) (m : Message) (s : Store)
    → is_loan_op op ≡ false
    → let t = dispatch c op m s in
      (t.loans ≡ s.loans)
      × (t.loans_by_borrower ≡ s.loans_by_borrower)
      × (t.total_loan_principal ≡ s.total_loan_principal)
unfolding dispatch is_loan_op apply_mint apply_burn apply_put_pay apply_buy_hold apply_settle
    apply_assign_pay apply_dispute_refund add_to_balance subtract_from_balance
dispatch-loans c loan_mint m s e = cc
dispatch-loans c loan_repay m s e = cc
dispatch-loans c loan_vig_accrue m s e = cc
dispatch-loans c _ m s e = ground arith

pub dispatch-LoansAreValid :
    (c : Config) (op : ScripOp) (m : Message) (s : Store)
    → LoansAreValid s.loans
    → LoansAreValid (dispatch c op m s).loans
unfolding dispatch is_loan_op apply_loan_mint apply_loan_repay apply_loan_vig_accrue
dispatch-LoansAreValid c loan_mint m s h =
    given-keeps (λ t. LoansAreValid t.loans) (decode_loan_mint c m.payload) s
      (λ r. mint_loan r (lookup r.loan_id s.loans) s) h
      (λ r e.
        mint_loan-LoansAreValid r (lookup r.loan_id s.loans) s
          (decode_loan_mint-LoanIsValid c m.payload r e) h)
dispatch-LoansAreValid c loan_repay m s h =
    given-keeps (λ t. LoansAreValid t.loans) (decode_loan_amount m.payload) s
      (λ (id, x). repay_loan id x (active_loan id s) s) h
      (λ (id, x) e. repay_loan-LoansAreValid id x (active_loan id s) s h)
dispatch-LoansAreValid c loan_vig_accrue m s h =
    given-keeps (λ t. LoansAreValid t.loans) (decode_loan_amount m.payload) s
      (λ (id, x). accrue id x (active_loan id s) s) h (λ (id, x) e. accrue-LoansAreValid id x s h)
dispatch-LoansAreValid c op m s h = rw (dispatch-loans c op m s refl).0 h

-- Any message keeps the loan book valid, whoever sent it.
pub apply_message-LoansAreValid :
    (c : Config) (m : Message) (s : Store)
    → LoansAreValid s.loans
    → LoansAreValid (apply_message c m s).loans
apply_message-LoansAreValid c m s h =
    apply_message-keeps (λ t. LoansAreValid t.loans) c m s (λ op t. dispatch-LoansAreValid c op m t)
      (λ seen. h)
