-- ===== src/Scrip/StaleEtags.antt =====
-- No etag survives a resync.
use dontguess.Base.{
  ℕ, ◌≡◌, refl, ◌≢◌, some, List, inl, inr, lookup, arith, Option-cases, All-lookup,
}
use dontguess.Base.Int64.{add64}
use dontguess.Json.{buyer, recipient, seller, worker}
use dontguess.Proto.{
  Message, ScripOp, mint, burn, put_pay, buy_hold, settle, assign_pay, dispute_refund, loan_mint,
  loan_repay, loan_vig_accrue,
}
use dontguess.Scrip.Types.{Config, Store, given-keeps}
use dontguess.Scrip.Balance.{add_to_balance, subtract_from_balance}
use dontguess.Scrip.Budget.{err, conflict, get_budget, decrement_budget}
use dontguess.Scrip.Loans.{
  decode_loan_mint, decode_loan_amount, active_loan, mint_loan, repay_loan, accrue, apply_loan_mint,
  apply_loan_repay, apply_loan_vig_accrue,
}
use dontguess.Scrip.Ledger.{
  decode_party, decode_settle, decode_burn, dispatch, apply_message, fold_messages, reset, replay,
  transfer, credit_if, apply_mint, apply_burn, apply_put_pay, apply_buy_hold, apply_settle,
  apply_assign_pay, apply_dispute_refund,
}
use dontguess.Scrip.Rules.{with_seen, apply_message-keeps, fold_messages-keeps}
use dontguess.Scrip.Resync.{
  HasEpoch, InEpoch, InEpoch-same, add_to_balance-InEpoch, subtract_from_balance-InEpoch,
  transfer-InEpoch, credit_if-InEpoch, mint_loan-InEpoch, repay_loan-InEpoch, accrue-InEpoch,
}

dispatch-InEpoch :
    (c : Config) (op : ScripOp) (m : Message) (n : ℕ) (s : Store)
    → InEpoch n s
    → InEpoch n (dispatch c op m s)
unfolding dispatch apply_mint apply_burn apply_put_pay apply_buy_hold apply_settle apply_assign_pay
    apply_dispute_refund apply_loan_mint apply_loan_repay apply_loan_vig_accrue
dispatch-InEpoch c mint m n s v =
    given-keeps (InEpoch n) (decode_party recipient m.payload) s
      (λ (k, x). let t = add_to_balance k x s in record t { total_supply = add64 t.total_supply x })
      v
      (λ (k, x) e.
        let t = add_to_balance k x s in
        InEpoch-same n t (record t { total_supply = add64 t.total_supply x }) refl refl
          (add_to_balance-InEpoch k x n s v))
dispatch-InEpoch c burn m n s v =
    given-keeps (InEpoch n) (decode_burn m.payload) s
      (λ x. record s { total_burned = add64 s.total_burned x }) v
      (λ x e. InEpoch-same n s (record s { total_burned = add64 s.total_burned x }) refl refl v)
dispatch-InEpoch c put_pay m n s v =
    given-keeps (InEpoch n) (decode_party seller m.payload) s (λ (k, x). transfer m.sender k x s) v
      (λ (k, x) e. transfer-InEpoch m.sender k x n s v)
dispatch-InEpoch c assign_pay m n s v =
    given-keeps (InEpoch n) (decode_party worker m.payload) s (λ (k, x). transfer m.sender k x s) v
      (λ (k, x) e. transfer-InEpoch m.sender k x n s v)
dispatch-InEpoch c buy_hold m n s v =
    given-keeps (InEpoch n) (decode_party buyer m.payload) s
      (λ (k, x). (subtract_from_balance k x s).0) v
      (λ (k, x) e. subtract_from_balance-InEpoch k x n s v)
dispatch-InEpoch c settle m n s v =
    given-keeps (InEpoch n) (decode_settle m.payload) s
      (λ (k, x, y). credit_if m.sender y (credit_if k x s)) v
      (λ (k, x, y) e.
        credit_if-InEpoch m.sender y n (credit_if k x s) (credit_if-InEpoch k x n s v))
dispatch-InEpoch c dispute_refund m n s v =
    given-keeps (InEpoch n) (decode_party buyer m.payload) s (λ (k, x). add_to_balance k x s) v
      (λ (k, x) e. add_to_balance-InEpoch k x n s v)
dispatch-InEpoch c loan_mint m n s v =
    given-keeps (InEpoch n) (decode_loan_mint c m.payload) s
      (λ r. mint_loan r (lookup r.loan_id s.loans) s) v
      (λ r e. mint_loan-InEpoch r n (lookup r.loan_id s.loans) s v)
dispatch-InEpoch c loan_repay m n s v =
    given-keeps (InEpoch n) (decode_loan_amount m.payload) s
      (λ (id, x). repay_loan id x (active_loan id s) s) v
      (λ (id, x) e. repay_loan-InEpoch id x n (active_loan id s) s v)
dispatch-InEpoch c loan_vig_accrue m n s v =
    given-keeps (InEpoch n) (decode_loan_amount m.payload) s
      (λ (id, x). accrue id x (active_loan id s) s) v
      (λ (id, x) e. accrue-InEpoch id x n (active_loan id s) s v)

apply_message-InEpoch :
    (c : Config) (n : ℕ) (m : Message) (s : Store) → InEpoch n s → InEpoch n (apply_message c m s)
apply_message-InEpoch c n m s v =
    apply_message-keeps (InEpoch n) c m s (λ op t. dispatch-InEpoch c op m n t)
      (λ seen. InEpoch-same n s (with_seen seen s) refl refl v)

-- Every entry of a store that was replayed carries the epoch after the one before.
pub replay-InEpoch :
    (c : Config) (log : List Message) (s : Store)
    → InEpoch (add64 s.replay_epoch 1) (replay c (some log) s).0
unfolding replay reset
replay-InEpoch c log s =
    let n = add64 s.replay_epoch 1 in
    let t = fold_messages c log (reset s) in
    InEpoch-same n t (replay c (some log) s).0 refl refl (
      fold_messages-keeps (InEpoch n) c log (reset s) (λ m u. apply_message-InEpoch c n m u)
        (record { stamped = tt; current = refl }))

-- An etag of one epoch is a conflict in every other.
decrement_budget-epoch :
    (pk j x n k : ℕ) (s t : Store)
    → n ≢ k
    → InEpoch n s
    → InEpoch k t
    → decrement_budget j x (get_budget pk s).1 t ≡ (t, err conflict)
unfolding get_budget decrement_budget
decrement_budget-epoch pk j x n k s t ne v w = elim (Option-cases (lookup pk s.balances)) [
  | inl absent ↦ ground arith
  | inr (e, at) ↦
      let mine = All-lookup (HasEpoch n) pk e s.balances v.stamped at in
      elim (Option-cases (lookup j t.balances)) [
        | inl absent ↦ ground arith
        | inr (f, there) ↦
            let theirs = All-lookup (HasEpoch k) j f t.balances w.stamped there in ground arith
      ]
]

add64-one_differs : (n : ℕ) → n ≢ add64 n 1
unfolding add64
add64-one_differs n e = omega arith

-- An etag read before a replay, from a store whose entries all carry its epoch, never passes again:
-- after the replay and any messages folded live since, a decrement with it is a conflict on every
-- key, and changes nothing.
pub decrement_budget_after_replay :
    (c : Config) (log later : List Message) (pk j x : ℕ) (s : Store)
    → InEpoch s.replay_epoch s
    → let t = fold_messages c later (replay c (some log) s).0 in
      decrement_budget j x (get_budget pk s).1 t ≡ (t, err conflict)
decrement_budget_after_replay c log later pk j x s v =
    let n = s.replay_epoch in
    let k = add64 n 1 in
    let t = (replay c (some log) s).0 in
    decrement_budget-epoch pk j x n k s (fold_messages c later t) (add64-one_differs n) v (
      fold_messages-keeps (InEpoch k) c later t (λ m u. apply_message-InEpoch c k m u)
        (replay-InEpoch c log s))
