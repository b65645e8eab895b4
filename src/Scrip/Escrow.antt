-- ===== src/Scrip/Escrow.antt =====
-- Conservation: scrip that was minted and not repaid is in a balance or in escrow.
use dontguess.Base.{ℕ, ◌<◌, ◌≡◌, ◌≢◌, not, ◌&&◌, Option, none, some, ◌==◌, if◌then◌else◌, arith}
use dontguess.Base.Int64.{add64, sub64, is_pos, two64}
use dontguess.Base.Sums.{sum_by, sum_by-lt}
use dontguess.Json.{Object, Name, buyer}
use dontguess.Proto.{ScripOp, buy_hold, settle, dispute_refund}
use dontguess.Scrip.Types.{Store}
use dontguess.Scrip.Balance.{add_to_balance, subtract_from_balance}
use dontguess.Scrip.Loans.{decode_loan_amount, debit}
use dontguess.Scrip.Ledger.{decode_party, decode_settle, transfer, credit_if}
use dontguess.Scrip.Supply.{
  value, sum_balances, sum_balances-add_to_balance, sum_balances-subtract_from_balance,
  sum_balances-transfer, sum_balances-credit_if,
}

-- The scrip in circulation that no balance holds.
unfoldable pub escrow : Store → ℕ
unfolding sub64 sum_by
escrow s = sub64 s.total_supply (sum_balances s.balances)

abbrev pub hold_amount : Option (ℕ × ℕ) → Store → ℕ
hold_amount none s = 0
hold_amount (some (k, x)) s = if (subtract_from_balance k x s).1 then x else 0

-- What a message puts into escrow: a hold that the buyer's balance covers.
unfoldable pub taken : ScripOp → Option Object → Store → ℕ
unfolding subtract_from_balance
taken buy_hold payload s = hold_amount (decode_party buyer payload) s
taken _ payload s = 0

abbrev pub settle_amount : Option (ℕ × ℕ × ℕ) → ℕ
settle_amount none = 0
settle_amount (some (k, x, y)) =
    add64 (if not (k == 0) && is_pos x then x else 0) (if is_pos y then y else 0)

abbrev pub refund_amount : Option (ℕ × ℕ) → ℕ
refund_amount none = 0
refund_amount (some (k, x)) = x

-- What a message takes out of escrow: the residual and the revenue of a settlement, or a refund.
unfoldable pub released : ScripOp → Option Object → ℕ
unfolding add64
released settle payload = settle_amount (decode_settle payload)
released dispute_refund payload = refund_amount (decode_party buyer payload)
released _ payload = 0

-- Both sides of the balance sheet after a step.
abbrev pub Accounts : ℕ → ℕ → Store → Store → Type 0
Accounts inflow outflow s t = add64 (escrow t) outflow ≡ add64 (escrow s) inflow

pub escrow_step :
    (s t : Store) (inflow outflow : ℕ)
    → add64 (add64 t.total_supply (sum_balances s.balances)) outflow
      ≡ add64 (add64 s.total_supply (sum_balances t.balances)) inflow
    → Accounts inflow outflow s t
unfolding escrow add64 sub64
escrow_step s t inflow outflow h =
    omega (arith, sum_by-lt value s.balances, sum_by-lt value t.balances)

pub same-Accounts :
    (s t : Store)
    → t.total_supply ≡ s.total_supply
    → sum_balances t.balances ≡ sum_balances s.balances
    → Accounts 0 0 s t
unfolding add64
same-Accounts s t p q = escrow_step s t 0 0 (rw (p, q))

-- Decoded amounts are positive int64s.
pub decode_party-lt :
    (n : Name) (o : Option Object) (k x : ℕ) → decode_party n o ≡ some (k, x) → x < two64
unfolding decode_party
decode_party-lt n o k x e = ground arith

pub decode_loan_amount-lt :
    (o : Option Object) (id x : ℕ) → decode_loan_amount o ≡ some (id, x) → x < two64
unfolding decode_loan_amount
decode_loan_amount-lt o id x e = ground arith

pub mint-Accounts :
    (k x : ℕ) (s : Store)
    → let t = add_to_balance k x s in
      Accounts 0 0 s (record t { total_supply = add64 t.total_supply x })
unfolding add64 add_to_balance
mint-Accounts k x s =
    let t = add_to_balance k x s in
    escrow_step s (record t { total_supply = add64 t.total_supply x }) 0 0
      (omega (arith, sum_balances-add_to_balance k x s))

transfer-supply :
    (sender k x : ℕ) (s : Store) → (transfer sender k x s).total_supply ≡ s.total_supply
unfolding transfer debit subtract_from_balance add_to_balance
transfer-supply sender k x s = ground arith

pub transfer-Accounts :
    (sender k x : ℕ) (s : Store) → sender ≢ 0 → x < two64 → Accounts 0 0 s (transfer sender k x s)
transfer-Accounts sender k x s n h =
    same-Accounts s (transfer sender k x s) (transfer-supply sender k x s)
      (sum_balances-transfer sender k x s n h)

pub hold-Accounts :
    (k x : ℕ) (s : Store)
    → x < two64
    → Accounts (hold_amount (some (k, x)) s) 0 s (subtract_from_balance k x s).0
unfolding add64 subtract_from_balance
hold-Accounts k x s h =
    let (t, covered) = subtract_from_balance k x s in
    escrow_step s t (if covered then x else 0) 0
      (ground (arith, sum_balances-subtract_from_balance k x s h))

pub refund-Accounts : (k x : ℕ) (s : Store) → Accounts 0 x s (add_to_balance k x s)
unfolding add64 add_to_balance
refund-Accounts k x s =
    escrow_step s (add_to_balance k x s) 0 x (omega (arith, sum_balances-add_to_balance k x s))

pub settle-Accounts :
    (sender k x y : ℕ) (s : Store)
    → sender ≢ 0
    → Accounts 0 (settle_amount (some (k, x, y))) s (credit_if sender y (credit_if k x s))
unfolding add64 credit_if add_to_balance
settle-Accounts sender k x y s n =
    let t = credit_if k x s in
    escrow_step s (credit_if sender y t) 0 (settle_amount (some (k, x, y)))
      (ground (arith, sum_balances-credit_if k x s, sum_balances-credit_if sender y t))
