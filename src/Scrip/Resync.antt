-- ===== src/Scrip/Resync.antt =====
-- Etags across Replay: every entry that a replay builds carries the new epoch.
use dontguess.Base.{
  ℕ, ◌≡◌, refl, ◌∙◌, Option, none, some, inl, inr, lookup, arith, Option-cases, All, All-insert,
  All-lookup,
}
use dontguess.Base.Int64.{add64, sub64}
use dontguess.Scrip.Types.{BalanceEntry, LoanRecord, Store}
use dontguess.Scrip.Balance.{add_to_balance, subtract_from_balance, entry_of, bump}
use dontguess.Scrip.Loans.{
  open_loan, active_loan, credit_loan, debit, mint_loan, repay_loan, accrue,
}
use dontguess.Scrip.Ledger.{transfer, credit_if}

abbrev pub HasEpoch : ℕ → BalanceEntry → Type 0
HasEpoch n e = e.epoch ≡ n

-- The store and each of its entries carry the epoch n.
pub record InEpoch (n : ℕ) (s : Store) : Type 0 where
  pub stamped : All (HasEpoch n) s.balances
  pub current : s.replay_epoch ≡ n

entry_of-epoch : (k n : ℕ) (s : Store) → InEpoch n s → (entry_of k s).epoch ≡ n
unfolding entry_of
entry_of-epoch k n s v = elim (Option-cases (lookup k s.balances)) [
  | inl e ↦ ground arith
  | inr (q, e) ↦ let same = All-lookup (HasEpoch n) k q s.balances v.stamped e in ground arith
]

pub add_to_balance-InEpoch :
    (k x n : ℕ) (s : Store) → InEpoch n s → InEpoch n (add_to_balance k x s)
unfolding add_to_balance
add_to_balance-InEpoch k x n s v =
    let e = entry_of k s in
    record {
      stamped =
          All-insert (HasEpoch n) k (bump (add64 e.value x) e) s.balances v.stamped
            (entry_of-epoch k n s v);
      current = v.current;
    }

pub subtract_from_balance-InEpoch :
    (k x n : ℕ) (s : Store) → InEpoch n s → InEpoch n (subtract_from_balance k x s).0
unfolding subtract_from_balance
subtract_from_balance-InEpoch k x n s v =
    let e = entry_of k s in
    let same = entry_of-epoch k n s v in
    ground (
      arith,
      All-insert (HasEpoch n) k e s.balances v.stamped same,
      All-insert (HasEpoch n) k (bump (sub64 e.value x) e) s.balances v.stamped same,
    )

pub debit-InEpoch : (k x n : ℕ) (s : Store) → InEpoch n s → InEpoch n (debit k x s).0
unfolding debit
debit-InEpoch k x n s v = ground (arith, subtract_from_balance-InEpoch k x n s v)

pub transfer-InEpoch : (from k x n : ℕ) (s : Store) → InEpoch n s → InEpoch n (transfer from k x s)
unfolding transfer
transfer-InEpoch from k x n s v =
    let t = (debit from x s).0 in
    let vt = debit-InEpoch from x n s v in ground (arith, vt, add_to_balance-InEpoch k x n t vt)

pub credit_if-InEpoch : (k x n : ℕ) (s : Store) → InEpoch n s → InEpoch n (credit_if k x s)
unfolding credit_if
credit_if-InEpoch k x n s v = ground (arith, add_to_balance-InEpoch k x n s v)

-- A change of fields that are neither the balances nor the epoch.
pub InEpoch-same :
    (n : ℕ) (s t : Store)
    → t.balances ≡ s.balances
    → t.replay_epoch ≡ s.replay_epoch
    → InEpoch n s
    → InEpoch n t
InEpoch-same n s t p q v = record { stamped = rw p v.stamped; current = q ∙ v.current }

pub mint_loan-InEpoch :
    (r : LoanRecord) (n : ℕ) (o : Option LoanRecord) (s : Store)
    → InEpoch n s
    → InEpoch n (mint_loan r o s)
unfolding mint_loan open_loan
mint_loan-InEpoch r n (some q) s v = v
mint_loan-InEpoch r n none s v =
    let t = open_loan r s in
    InEpoch-same n (add_to_balance r.borrower_key r.principal t) (mint_loan r none s) refl refl
      (add_to_balance-InEpoch r.borrower_key r.principal n t (InEpoch-same n s t refl refl v))

pub credit_loan-InEpoch :
    (id x n : ℕ) (o : Option LoanRecord) (s : Store)
    → InEpoch n s
    → InEpoch n (credit_loan id x o s)
unfolding credit_loan
credit_loan-InEpoch id x n none s v = v
credit_loan-InEpoch id x n (some r) s v = InEpoch-same n s (credit_loan id x (some r) s) refl refl v

pub repay_loan-InEpoch :
    (id x n : ℕ) (o : Option LoanRecord) (s : Store) → InEpoch n s → InEpoch n (repay_loan id x o s)
unfolding repay_loan
repay_loan-InEpoch id x n none s v = v
repay_loan-InEpoch id x n (some r) s v =
    let t = (debit r.borrower_key x s).0 in
    let vt = debit-InEpoch r.borrower_key x n s v in
    ground (arith, vt, credit_loan-InEpoch id x n (active_loan id t) t vt)

pub accrue-InEpoch :
    (id x n : ℕ) (o : Option LoanRecord) (s : Store) → InEpoch n s → InEpoch n (accrue id x o s)
unfolding accrue
accrue-InEpoch id x n none s v = v
accrue-InEpoch id x n (some r) s v = InEpoch-same n s (accrue id x (some r) s) refl refl v
