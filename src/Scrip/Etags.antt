-- ===== src/Scrip/Etags.antt =====
-- The optimistic lock of the spending methods: no etag is accepted twice, none survives a resync.
use dontguess.Base.{
  ℕ, Bool-cases, inl, inr, ◌≡◌, refl, sym, ap, true, false, ◌==◌, some, lookup, if◌then◌else◌,
  arith, lookup-insert_self, lookup-insert,
}
use dontguess.Base.Int64.{add64, sub64, is_neg}
use dontguess.Scrip.Types.{BalanceEntry, Etag, no_etag, stamp, foreign, Store}
use dontguess.Scrip.Balance.{bump, put_entry}
use dontguess.Scrip.Budget.{
  Result, ok, err, conflict, budget_exceeded, etag_of, has_etag, get_budget, decrement_budget,
  balance,
}

add64-one_moves : (a : ℕ) → (add64 a 1 == a) ≡ false
unfolding add64
add64-one_moves a = ground arith

-- DecrementBudget on a key that has an entry, on every branch.
pub decrement_budget_found :
    (pk x : ℕ) (tag : Etag) (s : Store) {e : BalanceEntry}
    → lookup pk s.balances ≡ some e
    → let e' = bump (sub64 e.value x) e in
      decrement_budget pk x tag s ≡ (
        if has_etag e tag
        then (if is_neg (sub64 e.value x)
            then (s, err budget_exceeded)
            else (put_entry pk e' s, ok (e'.value, etag_of e')))
        else (s, err conflict))
unfolding decrement_budget
decrement_budget_found pk x no_etag s h = refl
decrement_budget_found pk x (stamp ep g) s h = ground arith
decrement_budget_found pk x (foreign n) s h = ground arith

-- A decrement goes through only on an entry that carries the etag and covers the amount.
pub decrement_budget_ok :
    (pk x : ℕ) (tag : Etag) (s : Store) (r : ℕ × Etag)
    → (decrement_budget pk x tag s).1 ≡ ok r
    → (e : BalanceEntry) × (lookup pk s.balances ≡ some e)
      × (has_etag e tag ≡ true)
      × (is_neg (sub64 e.value x) ≡ false)
unfolding decrement_budget
decrement_budget_ok pk x no_etag s r h = cc
decrement_budget_ok pk x (stamp ep g) s r h = ground arith
decrement_budget_ok pk x (foreign n) s r h = ground arith

has_etag-bump :
    (v : ℕ) (e : BalanceEntry) (tag : Etag)
    → has_etag e tag ≡ true
    → has_etag (bump v e) tag ≡ false
has_etag-bump v e no_etag h = refl
has_etag-bump v e (stamp ep g) h = ground (arith, add64-one_moves g)
has_etag-bump v e (foreign n) h = refl

-- An etag buys one decrement: right after it went through, another one of the same key with the
-- same etag is a conflict and changes nothing, whatever its amount.
pub decrement_budget_once :
    (pk x y : ℕ) (tag : Etag) (s : Store) (r : ℕ × Etag)
    → (decrement_budget pk x tag s).1 ≡ ok r
    → let t = (decrement_budget pk x tag s).0 in decrement_budget pk y tag t ≡ (t, err conflict)
unfolding put_entry
decrement_budget_once pk x y tag s r h =
    let (e, at, fresh, covered) = decrement_budget_ok pk x tag s r h in
    let e' = bump (sub64 e.value x) e in
    let t = put_entry pk e' s in
    let found = decrement_budget_found pk y tag t (lookup-insert_self pk e' s.balances) in
    let stale = has_etag-bump (sub64 e.value x) e tag fresh in
    rw (decrement_budget_found pk x tag s at, fresh, covered, found, stale)

get_budget-found :
    (pk : ℕ) (s : Store) {e : BalanceEntry}
    → lookup pk s.balances ≡ some e
    → get_budget pk s ≡ (e.value, etag_of e)
unfolding get_budget
get_budget-found pk s h = ground arith

decrement_budget-current :
    (pk x : ℕ) (s : Store) {e : BalanceEntry}
    → lookup pk s.balances ≡ some e
    → let e' = bump (sub64 e.value x) e in
      decrement_budget pk x (get_budget pk s).1 s ≡ (
        if is_neg (sub64 e.value x)
        then (s, err budget_exceeded)
        else (put_entry pk e' s, ok (e'.value, etag_of e')))
decrement_budget-current pk x s {e} h =
    let own : has_etag e (etag_of e) ≡ true = ground arith in
    rw (get_budget-found pk s h, decrement_budget_found pk x (etag_of e) s h, own)

eq_self : (n : ℕ) → (n == n) ≡ true
eq_self n = ground arith

if_same_key :
    (j pk : ℕ) (s : Store) → get_budget j s ≡ (if j == pk then get_budget pk s else get_budget j s)
if_same_key j pk s = elim (Bool-cases (j == pk)) [
  | inl e ↦ let same : j ≡ pk = ground arith in rw same (rw (eq_self pk) refl)
  | inr e ↦ rw e refl
]

decrement_budget_covered :
    (pk x : ℕ) (s : Store) {e : BalanceEntry}
    → lookup pk s.balances ≡ some e
    → is_neg (sub64 e.value x) ≡ false
    → let (t, r) = decrement_budget pk x (get_budget pk s).1 s in
      (r ≡ ok (get_budget pk t))
      × (balance pk t ≡ sub64 (balance pk s) x)
      × ((j : ℕ) → get_budget j t ≡ (if j == pk then get_budget pk t else get_budget j s))
unfolding balance put_entry
decrement_budget_covered pk x s {e} h covered =
    let e' = bump (sub64 e.value x) e in
    let t = put_entry pk e' s in
    let now = decrement_budget-current pk x s h in
    rw (now, covered)
      (
        ap {B = Result (ℕ × Etag)} ok
            (sym (get_budget-found pk t (lookup-insert_self pk e' s.balances))),
        ground (arith, lookup-insert_self pk e' s.balances),
        λ j.
            unfold get_budget in
            ground (arith, lookup-insert j pk e' s.balances, lookup-insert_self pk e' s.balances),
      )

-- With the etag that GetBudget returned for a known key, a decrement that would leave the balance
-- below 0 is refused with ErrBudgetExceeded and leaves the balance; any other takes the amount and
-- returns what GetBudget returns for the key from then on. No other key changes in either case.
pub decrement_budget_fresh :
    (pk x : ℕ) (s : Store) {e : BalanceEntry}
    → lookup pk s.balances ≡ some e
    → let short = is_neg (sub64 e.value x) in
      let (t, r) = decrement_budget pk x (get_budget pk s).1 s in
      (r ≡ (if short then err budget_exceeded else ok (get_budget pk t)))
      × (balance pk t ≡ (if short then balance pk s else sub64 (balance pk s) x))
      × ((j : ℕ) → get_budget j t ≡ (if j == pk then get_budget pk t else get_budget j s))
decrement_budget_fresh pk x s {e} h = elim (Bool-cases (is_neg (sub64 e.value x))) [
  | inl short ↦ rw (decrement_budget-current pk x s h, short) (refl, refl, λ j. if_same_key j pk s)
  | inr covered ↦ rw covered (decrement_budget_covered pk x s h covered)
]
