-- ===== src/Scrip/Balance.antt =====
-- addToBalance and subtractFromBalance of relay_store.go, the only writers of balances in a fold.
use dontguess.Base.{ℕ, Bool, true, false, not, ◌&&◌, lookup, insert, get_or, if◌then◌else◌}
use dontguess.Base.Int64.{add64, sub64, is_neg}
use dontguess.Scrip.Types.{BalanceEntry, Store}

-- `&balanceEntry{epoch: s.replayEpoch.Load()}`
abbrev pub new_entry : Store → BalanceEntry
new_entry s = record { value = 0; gen = 0; epoch = s.replay_epoch }

-- The entry of a key, made if it is not there.
unfoldable pub entry_of : ℕ → Store → BalanceEntry
entry_of k s = get_or (new_entry s) (lookup k s.balances)

-- A new value under the next generation.
abbrev pub bump : ℕ → BalanceEntry → BalanceEntry
bump v e = record e { value = v; gen = add64 e.gen 1 }

unfoldable pub put_entry : ℕ → BalanceEntry → Store → Store
put_entry k e s = record s { balances = insert k e s.balances }

unfoldable pub add_to_balance : ℕ → ℕ → Store → Store
unfolding put_entry entry_of
add_to_balance k amount s = let e = entry_of k s in put_entry k (bump (add64 e.value amount) e) s

-- `false` is ErrBudgetExceeded. A refused subtraction still leaves the new, empty entry behind.
unfoldable pub subtract_from_balance : ℕ → ℕ → Store → Store × Bool
unfolding put_entry entry_of
subtract_from_balance k amount s =
    let e = entry_of k s in
    let new_val = sub64 e.value amount in
    if not s.replaying && is_neg new_val
    then (put_entry k e s, false)
    else (put_entry k (bump new_val e) s, true)
