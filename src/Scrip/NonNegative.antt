-- ===== src/Scrip/NonNegative.antt =====
-- Constraint A12: no live message takes a balance below zero.
use dontguess.Base.{
  ℕ, ◌+◌, ◌≤◌, ◌<◌, ◌≡◌, false, Option, none, some, [], ◌∷◌, inl, inr, Dict, lookup, if◌then◌else◌,
  arith, Bool-cases, Option-cases, All, All-insert, All-lookup,
}
use dontguess.Base.Int64.{add64, sub64, is_pos, two63}
use dontguess.Json.{Object, buyer, recipient, seller, worker}
use dontguess.Proto.{
  ScripOp, mint, burn, put_pay, buy_hold, settle, assign_pay, dispute_refund, loan_mint, loan_repay,
  loan_vig_accrue,
}
use dontguess.Scrip.Types.{Config, BalanceEntry, LoanRecord, Store}
use dontguess.Scrip.Balance.{add_to_balance, subtract_from_balance, entry_of, bump}
use dontguess.Scrip.Loans.{decode_loan_mint, debit}
use dontguess.Scrip.Ledger.{decode_party, decode_settle, transfer}

abbrev pub IsBelow : ℕ → BalanceEntry → Type 0
IsBelow b e = e.value ≤ b

-- Every balance is between 0 and b, and the store is in live mode.
pub record IsLive (b : ℕ) (s : Store) : Type 0 where
  pub bounded : All (IsBelow b) s.balances
  pub live : s.replaying ≡ false

pub entry_of-le : (k b : ℕ) (s : Store) → All (IsBelow b) s.balances → (entry_of k s).value ≤ b
unfolding entry_of
entry_of-le k b s h = elim (Option-cases (lookup k s.balances)) [
  | inl e ↦ rw e (omega arith)
  | inr (v, e) ↦ rw e (All-lookup (IsBelow b) k v s.balances h e)
]

All-le : (b d : ℕ) (l : Dict BalanceEntry) → b ≤ d → All (IsBelow b) l → All (IsBelow d) l
All-le b d [] h a = tt
All-le b d ((k, e) ∷ l) h a = (omega arith, All-le b d l h a.1)

pub IsLive-le : (b d : ℕ) (s : Store) → b ≤ d → IsLive b s → IsLive d s
IsLive-le b d s h v = record { bounded = All-le b d s.balances h v.bounded; live = v.live }

-- A credit raises the bound by its amount, as long as the sum is an int64.
pub add_to_balance-IsLive :
    (k x b : ℕ) (s : Store) → b + x < two63 → IsLive b s → IsLive (b + x) (add_to_balance k x s)
unfolding add_to_balance add64
add_to_balance-IsLive k x b s h v =
    let e = entry_of k s in
    let le = entry_of-le k b s v.bounded in
    record {
      bounded =
          All-insert (IsBelow (b + x)) k (bump (add64 e.value x) e) s.balances
            (All-le b (b + x) s.balances (omega arith) v.bounded) (omega arith);
      live = v.live;
    }

-- A debit in live mode is refused where it would end below zero.
pub subtract_from_balance-IsLive :
    (k x b : ℕ) (s : Store)
    → b < two63
    → x < two63
    → IsLive b s
    → IsLive b (subtract_from_balance k x s).0
unfolding subtract_from_balance sub64
subtract_from_balance-IsLive k x b s h p v =
    let e = entry_of k s in
    let le = entry_of-le k b s v.bounded in
    ground (
      arith,
      le,
      All-insert (IsBelow b) k e s.balances v.bounded,
      All-insert (IsBelow b) k (bump (sub64 e.value x) e) s.balances v.bounded,
    )

pub debit-IsLive :
    (k x b : ℕ) (s : Store) → b < two63 → x < two63 → IsLive b s → IsLive b (debit k x s).0
unfolding debit
debit-IsLive k x b s h p v = ground (arith, subtract_from_balance-IsLive k x b s h p v)

pub transfer-IsLive :
    (sender k x b : ℕ) (s : Store)
    → b + x < two63
    → IsLive b s
    → IsLive (b + x) (transfer sender k x s)
unfolding transfer
transfer-IsLive sender k x b s h v =
    let t = (debit sender x s).0 in
    let vt = debit-IsLive sender x b s (omega arith) (omega arith) v in
    elim (Bool-cases (debit sender x s).1) [
      | inl e ↦ rw e (add_to_balance-IsLive k x b t h vt)
      | inr e ↦ rw e (IsLive-le b (b + x) t (omega arith) vt)
    ]

-- What a message can credit in all, as a plain number; negative amounts are never credited.
abbrev pub paid : Option (ℕ × ℕ) → ℕ
paid none = 0
paid (some (k, x)) = x

abbrev pub pos_or_zero : ℕ → ℕ
pos_or_zero x = if is_pos x then x else 0

abbrev pub paid_out : Option (ℕ × ℕ × ℕ) → ℕ
paid_out none = 0
paid_out (some (k, x, y)) = pos_or_zero x + pos_or_zero y

abbrev pub lent : Option LoanRecord → ℕ
lent none = 0
lent (some r) = r.principal

unfoldable pub credited : Config → ScripOp → Option Object → ℕ
credited c mint o = paid (decode_party recipient o)
credited c burn o = 0
credited c put_pay o = paid (decode_party seller o)
credited c buy_hold o = 0
credited c settle o = paid_out (decode_settle o)
credited c assign_pay o = paid (decode_party worker o)
credited c dispute_refund o = paid (decode_party buyer o)
credited c loan_mint o = lent (decode_loan_mint c o)
credited c loan_repay o = 0
credited c loan_vig_accrue o = 0
