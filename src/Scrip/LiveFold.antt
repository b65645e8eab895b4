-- ===== src/Scrip/LiveFold.antt =====
-- Constraint A12 over messages and logs.
use dontguess.Base.{
  ℕ, ◌+◌, ◌<◌, ◌≡◌, refl, ◌∙◌, ◌==◌, not, ◌&&◌, Option, none, some, inl, inr, lookup, arith,
  Bool-cases, Option-cases,
}
use dontguess.Base.Int64.{add64, is_pos, two63}
use dontguess.Json.{Object, Name, buyer, recipient, seller, worker}
use dontguess.Proto.{
  Message, ScripOp, mint, burn, put_pay, buy_hold, settle, assign_pay, dispute_refund, loan_mint,
  loan_repay, loan_vig_accrue,
}
use dontguess.Scrip.Types.{Config, LoanRecord, Store}
use dontguess.Scrip.Balance.{add_to_balance, subtract_from_balance}
use dontguess.Scrip.Loans.{
  decode_loan_mint, decode_loan_amount, open_loan, active_loan, credit_loan, debit, mint_loan,
  repay_loan, accrue, apply_loan_mint, apply_loan_repay, apply_loan_vig_accrue,
}
use dontguess.Scrip.Ledger.{
  decode_party, decode_settle, decode_burn, dispatch, credit_if, apply_mint, apply_burn,
  apply_put_pay, apply_buy_hold, apply_settle, apply_assign_pay, apply_dispute_refund,
}
use dontguess.Scrip.NonNegative.{
  IsLive, IsLive-le, add_to_balance-IsLive, subtract_from_balance-IsLive, debit-IsLive,
  transfer-IsLive, credited, pos_or_zero,
}

credit_if-IsLive :
    (k x b : ℕ) (s : Store)
    → b + pos_or_zero x < two63
    → IsLive b s
    → IsLive (b + pos_or_zero x) (credit_if k x s)
unfolding credit_if
credit_if-IsLive k x b s h v = elim (Bool-cases (not (k == 0) && is_pos x)) [
  | inl made ↦
      let same : pos_or_zero x ≡ x = ground arith in
      rw (made, same) (add_to_balance-IsLive k x b s (rw same at h) v)
  | inr skipped ↦ rw skipped (IsLive-le b (b + pos_or_zero x) s (omega arith) v)
]

decode_party-lt63 :
    (n : Name) (o : Option Object) (k x : ℕ) → decode_party n o ≡ some (k, x) → x < two63
unfolding decode_party
decode_party-lt63 n o k x e = ground arith

decode_loan_amount-lt63 :
    (o : Option Object) (id x : ℕ) → decode_loan_amount o ≡ some (id, x) → x < two63
unfolding decode_loan_amount
decode_loan_amount-lt63 o id x e = ground arith

-- A change of fields that are no balances and not the mode.
pub IsLive-same :
    (b : ℕ) (s t : Store)
    → t.balances ≡ s.balances
    → t.replaying ≡ s.replaying
    → IsLive b s
    → IsLive b t
IsLive-same b s t p q v = record { bounded = rw p v.bounded; live = q ∙ v.live }

repay_loan-IsLive :
    (id x b : ℕ) (o : Option LoanRecord) (s : Store)
    → b < two63
    → x < two63
    → IsLive b s
    → IsLive b (repay_loan id x o s)
unfolding repay_loan
repay_loan-IsLive id x b none s h p v = v
repay_loan-IsLive id x b (some r) s h p v =
    let t = (debit r.borrower_key x s).0 in
    let vt = debit-IsLive r.borrower_key x b s h p v in
    elim (Bool-cases (debit r.borrower_key x s).1) [
      | inl e ↦ rw e (go (active_loan id t) t vt)
      | inr e ↦ rw e vt
    ]
  where
    go : (q : Option LoanRecord) (t : Store) → IsLive b t → IsLive b (credit_loan id x q t)
    go none t vt = unfold credit_loan in vt
    go (some q) t vt =
        unfold credit_loan in IsLive-same b t (credit_loan id x (some q) t) refl refl vt

mint_loan-IsLive :
    (r : LoanRecord) (b : ℕ) (o : Option LoanRecord) (s : Store)
    → b + r.principal < two63
    → IsLive b s
    → IsLive (b + r.principal) (mint_loan r o s)
unfolding mint_loan open_loan
mint_loan-IsLive r b (some q) s h v = IsLive-le b (b + r.principal) s (omega arith) v
mint_loan-IsLive r b none s h v =
    let t = open_loan r s in
    let paid =
      add_to_balance-IsLive r.borrower_key r.principal b t h (IsLive-same b s t refl refl v) in
    IsLive-same (b + r.principal) (add_to_balance r.borrower_key r.principal t) (mint_loan r none s)
      refl refl paid

-- One handler raises the bound on the balances by what it credits, and no balance goes below zero.
pub dispatch-IsLive :
    (c : Config) (op : ScripOp) (m : Message) (b : ℕ) (s : Store)
    → b + credited c op m.payload < two63
    → IsLive b s
    → IsLive (b + credited c op m.payload) (dispatch c op m s)
unfolding dispatch credited apply_mint apply_burn apply_put_pay apply_buy_hold apply_settle
    apply_assign_pay apply_dispute_refund apply_loan_mint apply_loan_repay apply_loan_vig_accrue
dispatch-IsLive c mint m b s h v = elim (Option-cases (decode_party recipient m.payload)) [
  | inl e ↦ rw e (IsLive-le b (b + 0) s (omega arith) v)
  | inr ((k, x), e) ↦
      let t = add_to_balance k x s in
      rw e (
        IsLive-same (b + x) t (record t { total_supply = add64 t.total_supply x }) refl refl
          (add_to_balance-IsLive k x b s (rw e at h) v))
]
dispatch-IsLive c burn m b s h v = elim (Option-cases (decode_burn m.payload)) [
  | inl e ↦ rw e (IsLive-le b (b + 0) s (omega arith) v)
  | inr (x, e) ↦ rw e (
      IsLive-le b (b + 0) (record s { total_burned = add64 s.total_burned x }) (omega arith)
        (IsLive-same b s (record s { total_burned = add64 s.total_burned x }) refl refl v))
]
dispatch-IsLive c put_pay m b s h v = elim (Option-cases (decode_party seller m.payload)) [
  | inl e ↦ rw e (IsLive-le b (b + 0) s (omega arith) v)
  | inr ((k, x), e) ↦ rw e (transfer-IsLive m.sender k x b s (rw e at h) v)
]
dispatch-IsLive c assign_pay m b s h v = elim (Option-cases (decode_party worker m.payload)) [
  | inl e ↦ rw e (IsLive-le b (b + 0) s (omega arith) v)
  | inr ((k, x), e) ↦ rw e (transfer-IsLive m.sender k x b s (rw e at h) v)
]
dispatch-IsLive c buy_hold m b s h v = elim (Option-cases (decode_party buyer m.payload)) [
  | inl e ↦ rw e (IsLive-le b (b + 0) s (omega arith) v)
  | inr ((k, x), e) ↦
      let t = (subtract_from_balance k x s).0 in
      rw e (
        IsLive-le b (b + 0) t (omega arith) (
          subtract_from_balance-IsLive k x b s (omega arith)
            (decode_party-lt63 buyer m.payload k x e) v))
]
dispatch-IsLive c settle m b s h v = elim (Option-cases (decode_settle m.payload)) [
  | inl e ↦ rw e (IsLive-le b (b + 0) s (omega arith) v)
  | inr ((k, x, y), e) ↦
      let t = credit_if k x s in
      let fits = rw e at h in
      let vt = credit_if-IsLive k x b s (omega arith) v in
      rw e (
        IsLive-le (b + pos_or_zero x + pos_or_zero y) (b + (pos_or_zero x + pos_or_zero y))
          (credit_if m.sender y t) (omega arith)
          (credit_if-IsLive m.sender y (b + pos_or_zero x) t (omega arith) vt))
]
dispatch-IsLive c dispute_refund m b s h v = elim (Option-cases (decode_party buyer m.payload)) [
  | inl e ↦ rw e (IsLive-le b (b + 0) s (omega arith) v)
  | inr ((k, x), e) ↦ rw e (add_to_balance-IsLive k x b s (rw e at h) v)
]
dispatch-IsLive c loan_mint m b s h v = elim (Option-cases (decode_loan_mint c m.payload)) [
  | inl e ↦ rw e (IsLive-le b (b + 0) s (omega arith) v)
  | inr (r, e) ↦ rw e (mint_loan-IsLive r b (lookup r.loan_id s.loans) s (rw e at h) v)
]
dispatch-IsLive c loan_repay m b s h v = elim (Option-cases (decode_loan_amount m.payload)) [
  | inl e ↦ rw e (IsLive-le b (b + 0) s (omega arith) v)
  | inr ((id, x), e) ↦
      let t = repay_loan id x (active_loan id s) s in
      rw e (
        IsLive-le b (b + 0) t (omega arith) (
          repay_loan-IsLive id x b (active_loan id s) s (omega arith)
            (decode_loan_amount-lt63 m.payload id x e) v))
]
dispatch-IsLive c loan_vig_accrue m b s h v = elim (Option-cases (decode_loan_amount m.payload)) [
  | inl e ↦ rw e (IsLive-le b (b + 0) s (omega arith) v)
  | inr ((id, x), e) ↦ rw e (go id x (active_loan id s))
]
  where
    go : (id x : ℕ) (q : Option LoanRecord) → IsLive (b + 0) (accrue id x q s)
    go id x none = unfold accrue in IsLive-le b (b + 0) s (omega arith) v
    go id x (some r) =
        unfold accrue in
        IsLive-le b (b + 0) (accrue id x (some r) s) (omega arith)
          (IsLive-same b s (accrue id x (some r) s) refl refl v)
