-- ===== src/Scrip/Conservation.antt =====
-- The balance sheet of the whole fold: each message moves escrow by what it holds and releases.
use dontguess.Base.{
  ℕ, ◌<◌, ◌≡◌, refl, ◌≢◌, inl, inr, not, ◌&&◌, Option, none, some, List, [], ◌∷◌, lookup,
  if◌then◌else◌, arith, Option-cases, Bool-cases, contains,
}
use dontguess.Base.Int64.{add64, sub64, two64}
use dontguess.Base.Sums.{sum_by, sum_by-lt}
use dontguess.Json.{Object, buyer, recipient, seller, worker}
use dontguess.Proto.{
  Message, ScripOp, mint, burn, put_pay, buy_hold, settle, assign_pay, dispute_refund, loan_mint,
  loan_repay, loan_vig_accrue,
}
use dontguess.Scrip.Types.{Config, Store, LoanRecord, given-keeps}
use dontguess.Scrip.Balance.{add_to_balance, subtract_from_balance}
use dontguess.Scrip.Loans.{
  decode_loan_mint, decode_loan_amount, open_loan, active_loan, credit_loan, debit, mint_loan,
  repay_loan, accrue, apply_loan_mint, apply_loan_repay, apply_loan_vig_accrue,
}
use dontguess.Scrip.Ledger.{
  decode_party, decode_settle, decode_burn, dispatch, apply_new, scrip_op, is_authorized,
  apply_message, fold_messages, reset, replay, transfer, apply_mint, apply_burn, apply_put_pay,
  apply_buy_hold, apply_settle, apply_assign_pay, apply_dispute_refund,
}
use dontguess.Scrip.Supply.{value, sum_balances-add_to_balance, sum_balances-debit}
use dontguess.Scrip.LoanBook.{
  LoansAreValid, active_loan-eq_some, debit-loans, apply_message-LoansAreValid,
}
use dontguess.Scrip.Rules.{with_seen}
use dontguess.Scrip.Escrow.{
  escrow, taken, released, Accounts, escrow_step, same-Accounts, decode_party-lt,
  decode_loan_amount-lt, mint-Accounts, transfer-Accounts, hold-Accounts, refund-Accounts,
  settle-Accounts,
}

-- A loan is paid out to the borrower as new scrip.
loan_mint-Accounts :
    (r : LoanRecord) (o : Option LoanRecord) (s : Store) → Accounts 0 0 s (mint_loan r o s)
unfolding mint_loan open_loan add_to_balance add64
loan_mint-Accounts r (some q) s = same-Accounts s s refl refl
loan_mint-Accounts r none s =
    escrow_step s (mint_loan r none s) 0 0
      (omega (arith, sum_balances-add_to_balance r.borrower_key r.principal (open_loan r s)))

-- A repayment takes scrip out of the borrower's balance and out of the supply.
loan_repay-Accounts :
    (id x : ℕ) (s : Store)
    → x < two64
    → LoansAreValid s.loans
    → Accounts 0 0 s (repay_loan id x (active_loan id s) s)
unfolding repay_loan credit_loan active_loan add64 sub64
loan_repay-Accounts id x s h v = elim (Option-cases (active_loan id s)) [
  | inl e ↦ rw e (same-Accounts s s refl refl)
  | inr (r, e) ↦
      let (at, live) = active_loan-eq_some id r s e in
      let k = r.borrower_key in
      let t = (debit k x s).0 in
      rw e (
        escrow_step s (repay_loan id x (some r) s) 0 0 (
          ground (
            arith,
            v id r at,
            debit-loans k x s,
            sum_balances-debit k x s (v id r at).owed_by_someone h,
            sum_by-lt value s.balances,
          )))
]

vig-Accounts : (id x : ℕ) (o : Option LoanRecord) (s : Store) → Accounts 0 0 s (accrue id x o s)
unfolding accrue
vig-Accounts id x none s = same-Accounts s s refl refl
vig-Accounts id x (some r) s = same-Accounts s (accrue id x (some r) s) refl refl

-- One handler, run for the operator.
dispatch-Accounts :
    (c : Config) (op : ScripOp) (m : Message) (s : Store)
    → m.sender ≢ 0
    → LoansAreValid s.loans
    → Accounts (taken op m.payload s) (released op m.payload) s (dispatch c op m s)
unfolding dispatch taken released apply_mint apply_burn apply_put_pay apply_buy_hold apply_settle
    apply_assign_pay apply_dispute_refund apply_loan_mint apply_loan_repay apply_loan_vig_accrue
dispatch-Accounts c mint m s n v =
    given-keeps (Accounts 0 0 s) (decode_party recipient m.payload) s
      (λ (k, x). let t = add_to_balance k x s in record t { total_supply = add64 t.total_supply x })
      (same-Accounts s s refl refl) (λ (k, x) e. mint-Accounts k x s)
dispatch-Accounts c burn m s n v =
    given-keeps (Accounts 0 0 s) (decode_burn m.payload) s
      (λ x. record s { total_burned = add64 s.total_burned x }) (same-Accounts s s refl refl)
      (λ x e. same-Accounts s (record s { total_burned = add64 s.total_burned x }) refl refl)
dispatch-Accounts c put_pay m s n v =
    given-keeps (Accounts 0 0 s) (decode_party seller m.payload) s
      (λ (k, x). transfer m.sender k x s) (same-Accounts s s refl refl)
      (λ (k, x) e. transfer-Accounts m.sender k x s n (decode_party-lt seller m.payload k x e))
dispatch-Accounts c assign_pay m s n v =
    given-keeps (Accounts 0 0 s) (decode_party worker m.payload) s
      (λ (k, x). transfer m.sender k x s) (same-Accounts s s refl refl)
      (λ (k, x) e. transfer-Accounts m.sender k x s n (decode_party-lt worker m.payload k x e))
dispatch-Accounts c buy_hold m s n v = elim (Option-cases (decode_party buyer m.payload)) [
  | inl e ↦ rw e (same-Accounts s s refl refl)
  | inr ((k, x), e) ↦ rw e (hold-Accounts k x s (decode_party-lt buyer m.payload k x e))
]
dispatch-Accounts c settle m s n v = elim (Option-cases (decode_settle m.payload)) [
  | inl e ↦ rw e (same-Accounts s s refl refl)
  | inr ((k, x, y), e) ↦ rw e (settle-Accounts m.sender k x y s n)
]
dispatch-Accounts c dispute_refund m s n v = elim (Option-cases (decode_party buyer m.payload)) [
  | inl e ↦ rw e (same-Accounts s s refl refl)
  | inr ((k, x), e) ↦ rw e (refund-Accounts k x s)
]
dispatch-Accounts c loan_mint m s n v =
    given-keeps (Accounts 0 0 s) (decode_loan_mint c m.payload) s
      (λ r. mint_loan r (lookup r.loan_id s.loans) s) (same-Accounts s s refl refl)
      (λ r e. loan_mint-Accounts r (lookup r.loan_id s.loans) s)
dispatch-Accounts c loan_repay m s n v =
    given-keeps (Accounts 0 0 s) (decode_loan_amount m.payload) s
      (λ (id, x). repay_loan id x (active_loan id s) s) (same-Accounts s s refl refl)
      (λ (id, x) e. loan_repay-Accounts id x s (decode_loan_amount-lt m.payload id x e) v)
dispatch-Accounts c loan_vig_accrue m s n v =
    given-keeps (Accounts 0 0 s) (decode_loan_amount m.payload) s
      (λ (id, x). accrue id x (active_loan id s) s) (same-Accounts s s refl refl)
      (λ (id, x) e. vig-Accounts id x (active_loan id s) s)

-- The operation that a message performs, if it is new, carries a scrip tag and is the operator's.
unfoldable pub effective : Config → Message → Store → Option ScripOp
unfolding contains is_authorized scrip_op
effective c m s =
    if not (contains m.id s.seen_msg_ids) && is_authorized c m.sender then scrip_op m.tags else none

abbrev pub flow_in : Option ScripOp → Message → Store → ℕ
flow_in none m s = 0
flow_in (some op) m s = taken op m.payload s

abbrev pub flow_out : Option ScripOp → Message → ℕ
flow_out none m = 0
flow_out (some op) m = released op m.payload

-- The seen ids matter to no balance.
taken-with_seen :
    (seen : List ℕ) (op : ScripOp) (o : Option Object) (s : Store)
    → taken op o (with_seen seen s) ≡ taken op o s
unfolding taken subtract_from_balance
taken-with_seen seen buy_hold o s = ground arith
taken-with_seen seen _ o s = refl

apply_new-Accounts :
    (c : Config) (o : Option ScripOp) (m : Message) (s : Store)
    → c.operator_key ≢ 0
    → LoansAreValid s.loans
    → let op = if is_authorized c m.sender then o else none in
      Accounts (flow_in op m s) (flow_out op m) s (apply_new c o m s)
unfolding apply_new is_authorized
apply_new-Accounts c none m s n v = elim (Bool-cases (is_authorized c m.sender)) [
  | inl e ↦ rw e (same-Accounts s s refl refl)
  | inr e ↦ rw e (same-Accounts s s refl refl)
]
apply_new-Accounts c (some op) m s n v = elim (Bool-cases (is_authorized c m.sender)) [
  | inl e ↦ rw e (dispatch-Accounts c op m s (ground arith) v)
  | inr e ↦ rw e (same-Accounts s s refl refl)
]

flow_in-with_seen :
    (seen : List ℕ) (o : Option ScripOp) (m : Message) (s : Store)
    → flow_in o m (with_seen seen s) ≡ flow_in o m s
flow_in-with_seen seen none m s = refl
flow_in-with_seen seen (some op) m s = taken-with_seen seen op m.payload s

-- With an operator key configured, a message changes escrow by exactly what it holds and releases:
-- nothing else makes or loses scrip.
pub apply_message-Accounts :
    (c : Config) (m : Message) (s : Store)
    → c.operator_key ≢ 0
    → LoansAreValid s.loans
    → let op = effective c m s in Accounts (flow_in op m s) (flow_out op m) s (apply_message c m s)
unfolding apply_message effective escrow
apply_message-Accounts c m s n v = elim (Bool-cases (contains m.id s.seen_msg_ids)) [
  | inl e ↦ rw e (same-Accounts s s refl refl)
  | inr e ↦
      let seen = m.id ∷ s.seen_msg_ids in
      let op = if is_authorized c m.sender then scrip_op m.tags else none in
      rw e (
        rw (flow_in-with_seen seen op m s) at
          (apply_new-Accounts c (scrip_op m.tags) m (with_seen seen s) n v))
]

-- What a log holds and releases in all, message by message.
unfoldable pub total_in : Config → List Message → Store → ℕ
unfolding add64
total_in c [] s = 0
total_in c (m ∷ log) s =
    add64 (flow_in (effective c m s) m s) (total_in c log (apply_message c m s))

unfoldable pub total_out : Config → List Message → Store → ℕ
unfolding add64
total_out c [] s = 0
total_out c (m ∷ log) s =
    add64 (flow_out (effective c m s) m) (total_out c log (apply_message c m s))

pub fold_messages-Accounts :
    (c : Config) (log : List Message) (s : Store)
    → c.operator_key ≢ 0
    → LoansAreValid s.loans
    → Accounts (total_in c log s) (total_out c log s) s (fold_messages c log s)
unfolding fold_messages total_in total_out add64
fold_messages-Accounts c [] s n v = same-Accounts s s refl refl
fold_messages-Accounts c (m ∷ log) s n v =
    let t = apply_message c m s in
    omega (
      arith,
      apply_message-Accounts c m s n v,
      fold_messages-Accounts c log t n (apply_message-LoansAreValid c m s v),
    )

total_in-lt : (c : Config) (log : List Message) (s : Store) → total_in c log s < two64
unfolding total_in add64
total_in-lt c [] s = omega arith
total_in-lt c (m ∷ log) s = omega arith

-- With an operator key configured, a replay rebuilds the books from nothing: the scrip in escrow at
-- its end is what the log put there, less what it released.
pub replay-Accounts :
    (c : Config) (log : List Message) (s : Store)
    → c.operator_key ≢ 0
    → let t = (replay c (some log) s).0 in
      add64 (escrow t) (total_out c log (reset s)) ≡ total_in c log (reset s)
unfolding replay reset escrow sum_by add64 sub64
replay-Accounts c log s n = omega (
  arith,
  fold_messages-Accounts c log (reset s) n (λ id r e. absurd (unfold lookup in cc)),
  total_in-lt c log (reset s),
)
