-- ===== src/Scrip/Budget.antt =====
-- GetBudget, DecrementBudget, AddBudget and Balance of relay_store.go. The row key and the context
-- are not used by the code.
use dontguess.Base.{ℕ, Bool, true, false, Option, none, some, ◌&&◌, ◌==◌, lookup, if◌then◌else◌}
use dontguess.Base.Int64.{add64, sub64, is_neg}
use dontguess.Scrip.Types.{BalanceEntry, Etag, no_etag, stamp, foreign, Store}
use dontguess.Scrip.Balance.{bump, put_entry}

-- The sentinel errors of spending_store.go.
pub data StoreError : Type 0 where
  budget_exceeded conflict reservation_not_found : StoreError

pub data Result (A : Type 0) : Type 0 where
  ok : A → Result A
  err : StoreError → Result A

abbrev pub etag_of : BalanceEntry → Etag
etag_of e = stamp e.epoch e.gen

-- `e.etag() == etag`
abbrev pub has_etag : BalanceEntry → Etag → Bool
has_etag e no_etag = false
has_etag e (stamp epoch gen) = epoch == e.epoch && gen == e.gen
has_etag e (foreign _) = false

abbrev read_entry : Option BalanceEntry → ℕ × Etag
read_entry none = (0, no_etag)
read_entry (some e) = (e.value, etag_of e)

unfoldable pub get_budget : ℕ → Store → ℕ × Etag
get_budget pk s = read_entry (lookup pk s.balances)

-- The rest of DecrementBudget once the entry is found.
decrement_entry : ℕ → ℕ → Etag → Store → BalanceEntry → Store × Result (ℕ × Etag)
unfolding put_entry
decrement_entry pk amount etag s e =
    let new_value = sub64 e.value amount in
    let e' = bump new_value e in
    if has_etag e etag
    then (if is_neg new_value
        then (s, err budget_exceeded)
        else (put_entry pk e' s, ok (new_value, etag_of e')))
    else (s, err conflict)

decrement_found : ℕ → ℕ → Etag → Store → Option BalanceEntry → Store × Result (ℕ × Etag)
decrement_found pk amount etag s none = (s, err conflict)
decrement_found pk amount etag s (some e) = decrement_entry pk amount etag s e

unfoldable pub decrement_budget : ℕ → ℕ → Etag → Store → Store × Result (ℕ × Etag)
unfolding decrement_found decrement_entry
decrement_budget pk amount no_etag s = (s, err conflict)
decrement_budget pk amount etag s = decrement_found pk amount etag s (lookup pk s.balances)

-- `etag != "" && e.etag() != etag`
abbrev pub is_stale : BalanceEntry → Etag → Bool
is_stale e no_etag = false
is_stale e (stamp epoch gen) = if has_etag e (stamp epoch gen) then false else true
is_stale e (foreign _) = true

add_found : ℕ → ℕ → Etag → Store → Option BalanceEntry → Store × Result (ℕ × Etag)
unfolding put_entry
add_found pk amount etag s none =
    let e : BalanceEntry = record { value = amount; gen = 1; epoch = s.replay_epoch } in
    (put_entry pk e s, ok (amount, etag_of e))
add_found pk amount etag s (some e) =
    let e' = bump (add64 e.value amount) e in
    if is_stale e etag then (s, err conflict) else (put_entry pk e' s, ok (e'.value, etag_of e'))

unfoldable pub add_budget : ℕ → ℕ → Etag → Store → Store × Result (ℕ × Etag)
unfolding add_found
add_budget pk amount etag s = add_found pk amount etag s (lookup pk s.balances)

-- Balance: 0 for unknown agents.
unfoldable pub balance : ℕ → Store → ℕ
balance k s = (read_entry (lookup k s.balances)).0
