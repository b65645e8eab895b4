-- ===== src/Scrip/LiveLog.antt =====
-- No negative balance over a live run of messages.
use dontguess.Base.{
  ℕ, ◌+◌, ◌<◌, ◌≡◌, refl, false, Option, none, some, List, [], ◌∷◌, inl, inr, lookup, arith,
  Bool-cases, Option-cases, All-lookup, contains,
}
use dontguess.Base.Int64.{is_neg, two63}
use dontguess.Proto.{Message, ScripOp}
use dontguess.Scrip.Types.{Config, Store}
use dontguess.Scrip.Budget.{balance}
use dontguess.Scrip.Ledger.{scrip_op, apply_new, is_authorized, apply_message, fold_messages}
use dontguess.Scrip.Rules.{with_seen}
use dontguess.Scrip.NonNegative.{IsBelow, IsLive, IsLive-le, credited}
use dontguess.Scrip.LiveFold.{dispatch-IsLive, IsLive-same}

-- What a message can credit in all.
abbrev pub credit_of : Config → Option ScripOp → Message → ℕ
credit_of c none m = 0
credit_of c (some op) m = credited c op m.payload

apply_new-IsLive :
    (c : Config) (o : Option ScripOp) (m : Message) (b : ℕ) (s : Store)
    → b + credit_of c o m < two63
    → IsLive b s
    → IsLive (b + credit_of c o m) (apply_new c o m s)
unfolding apply_new
apply_new-IsLive c none m b s h v = IsLive-le b (b + 0) s (omega arith) v
apply_new-IsLive c (some op) m b s h v = elim (Bool-cases (is_authorized c m.sender)) [
  | inl e ↦ rw e (dispatch-IsLive c op m b s h v)
  | inr e ↦ rw e (IsLive-le b (b + credited c op m.payload) s (omega arith) v)
]

pub apply_message-IsLive :
    (c : Config) (m : Message) (b : ℕ) (s : Store)
    → b + credit_of c (scrip_op m.tags) m < two63
    → IsLive b s
    → IsLive (b + credit_of c (scrip_op m.tags) m) (apply_message c m s)
unfolding apply_message
apply_message-IsLive c m b s h v = elim (Bool-cases (contains m.id s.seen_msg_ids)) [
  | inl e ↦ rw e (IsLive-le b (b + credit_of c (scrip_op m.tags) m) s (omega arith) v)
  | inr e ↦
      let t = with_seen (m.id ∷ s.seen_msg_ids) s in
      rw e (apply_new-IsLive c (scrip_op m.tags) m b t h (IsLive-same b s t refl refl v))
]

-- The credits of a log, as a plain number.
unfoldable pub credit_total : Config → List Message → ℕ
unfolding credited scrip_op
credit_total c [] = 0
credit_total c (m ∷ log) = credit_of c (scrip_op m.tags) m + credit_total c log

fold_messages-IsLive :
    (c : Config) (log : List Message) (b : ℕ) (s : Store)
    → b + credit_total c log < two63
    → IsLive b s
    → IsLive (b + credit_total c log) (fold_messages c log s)
unfolding fold_messages credit_total
fold_messages-IsLive c [] b s h v = IsLive-le b (b + 0) s (omega arith) v
fold_messages-IsLive c (m ∷ log) b s h v =
    let x = credit_of c (scrip_op m.tags) m in
    let t = apply_message c m s in
    IsLive-le (b + x + credit_total c log) (b + (x + credit_total c log)) (fold_messages c log t)
      (omega arith)
      (fold_messages-IsLive c log (b + x) t (omega arith)
        (apply_message-IsLive c m b s (omega arith) v))

IsLive-balance : (k b : ℕ) (s : Store) → b < two63 → IsLive b s → is_neg (balance k s) ≡ false
unfolding balance
IsLive-balance k b s h v = elim (Option-cases (lookup k s.balances)) [
  | inl e ↦ ground arith
  | inr (q, e) ↦ let le = All-lookup (IsBelow b) k q s.balances v.bounded e in ground arith
]

-- A live store whose balances lie between 0 and b has no negative balance after any log whose
-- credits, added to b, stay an int64.
pub fold_messages_nonnegative :
    (c : Config) (log : List Message) (b : ℕ) (s : Store) (k : ℕ)
    → IsLive b s
    → b + credit_total c log < two63
    → is_neg (balance k (fold_messages c log s)) ≡ false
fold_messages_nonnegative c log b s k v h =
    IsLive-balance k (b + credit_total c log) (fold_messages c log s) h
      (fold_messages-IsLive c log b s h v)
