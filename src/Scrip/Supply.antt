-- ===== src/Scrip/Supply.antt =====
-- The sum of all balances under the two writers of a balance, and under the fold's transfers.
use dontguess.Base.{ℕ, ◌<◌, ◌≡◌, ◌≢◌, not, ◌&&◌, ◌==◌, Dict, lookup, insert, if◌then◌else◌, arith}
use dontguess.Base.Int64.{add64, sub64, is_pos, two64}
use dontguess.Base.Sums.{measure_of, sum_by, sum_by-lt, sum_by-insert}
use dontguess.Scrip.Types.{BalanceEntry, Store}
use dontguess.Scrip.Loans.{debit}
use dontguess.Scrip.Ledger.{transfer, credit_if}
use dontguess.Scrip.Balance.{add_to_balance, subtract_from_balance, entry_of, bump}

abbrev pub value : BalanceEntry → ℕ
value e = e.value

-- The sum of all balances.
abbrev pub sum_balances : Dict BalanceEntry → ℕ
sum_balances = sum_by value

abbrev value_at : ℕ → Store → ℕ
value_at k s = measure_of value (lookup k s.balances)

-- An entry that is not there counts as 0.
entry_of-value : (k : ℕ) (s : Store) → (entry_of k s).value ≡ value_at k s
unfolding entry_of
entry_of-value k s = ground arith

pub sum_balances-add_to_balance :
    (k x : ℕ) (s : Store)
    → sum_balances (add_to_balance k x s).balances ≡ add64 (sum_balances s.balances) x
unfolding add_to_balance add64
sum_balances-add_to_balance k x s =
    let e = entry_of k s in
    let e' = bump (add64 e.value x) e in
    ground (
      arith,
      sum_by-insert value k e' s.balances,
      entry_of-value k s,
      sum_by-lt value s.balances,
      sum_by-lt value (insert k e' s.balances),
    )

-- A subtraction that is refused leaves the sum; one that is not lowers it by its amount.
pub sum_balances-subtract_from_balance :
    (k x : ℕ) (s : Store)
    → x < two64
    → let (t, covered) = subtract_from_balance k x s in
      add64 (sum_balances t.balances) (if covered then x else 0) ≡ sum_balances s.balances
unfolding subtract_from_balance add64 sub64
sum_balances-subtract_from_balance k x s h =
    let e = entry_of k s in
    let e' = bump (sub64 e.value x) e in
    ground (
      arith,
      sum_by-insert value k e' s.balances,
      sum_by-insert value k e s.balances,
      entry_of-value k s,
      sum_by-lt value s.balances,
      sum_by-lt value (insert k e' s.balances),
      sum_by-lt value (insert k e s.balances),
    )

-- A debit that goes through lowers the sum; one that is refused, or made on no key, does not.
pub sum_balances-debit :
    (k x : ℕ) (s : Store)
    → k ≢ 0
    → x < two64
    → let (t, covered) = debit k x s in
      add64 (sum_balances t.balances) (if covered then x else 0) ≡ sum_balances s.balances
unfolding debit
sum_balances-debit k x s n h = ground (arith, sum_balances-subtract_from_balance k x s h)

-- A payment from a named sender moves scrip and makes none.
pub sum_balances-transfer :
    (sender k x : ℕ) (s : Store)
    → sender ≢ 0
    → x < two64
    → sum_balances (transfer sender k x s).balances ≡ sum_balances s.balances
unfolding transfer add64
sum_balances-transfer sender k x s n h = ground (
  arith,
  sum_balances-debit sender x s n h,
  sum_balances-add_to_balance k x (debit sender x s).0,
  sum_by-lt value s.balances,
  sum_by-lt value (debit sender x s).0.balances,
)

pub sum_balances-credit_if :
    (k x : ℕ) (s : Store)
    → sum_balances (credit_if k x s).balances
      ≡ add64 (sum_balances s.balances) (if not (k == 0) && is_pos x then x else 0)
unfolding credit_if add64
sum_balances-credit_if k x s =
    ground (arith, sum_balances-add_to_balance k x s, sum_by-lt value s.balances)
