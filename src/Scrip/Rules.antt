-- ===== src/Scrip/Rules.antt =====
-- Invariant rules for the fold: from one handler to a message, a log and a replay.
use dontguess.Base.{ℕ, Option, none, some, List, [], ◌∷◌, inl, inr, Bool-cases, contains}
use dontguess.Proto.{Message, ScripOp}
use dontguess.Scrip.Types.{Config, Store}
use dontguess.Scrip.Ledger.{
  dispatch, scrip_op, is_authorized, apply_new, apply_message, fold_messages,
}

-- Two stores that differ in the seen ids only.
abbrev pub with_seen : List ℕ → Store → Store
with_seen seen s = record s { seen_msg_ids = seen }

module _ {ℓ} (P : Store → Type ℓ) (c : Config) where
  apply_new-keeps :
      (o : Option ScripOp) (m : Message) (s : Store)
      → ((op : ScripOp) (t : Store) → P t → P (dispatch c op m t))
      → P s
      → P (apply_new c o m s)
  unfolding apply_new
  apply_new-keeps none m s k h = h
  apply_new-keeps (some op) m s k h = elim (Bool-cases (is_authorized c m.sender)) [
    | inl e ↦ rw e (k op s h)
    | inr e ↦ rw e h
  ]

  -- A property that no handler breaks, and that does not read the seen ids, outlives a message.
  pub apply_message-keeps :
      (m : Message) (s : Store)
      → ((op : ScripOp) (t : Store) → P t → P (dispatch c op m t))
      → ((seen : List ℕ) → P (with_seen seen s))
      → P (apply_message c m s)
  unfolding apply_message
  apply_message-keeps m s k h = elim (Bool-cases (contains m.id s.seen_msg_ids)) [
    | inl e ↦ rw e (h s.seen_msg_ids)
    | inr e ↦ rw e (
        apply_new-keeps (scrip_op m.tags) m (with_seen (m.id ∷ s.seen_msg_ids) s) k
          (h (m.id ∷ s.seen_msg_ids)))
  ]

  pub fold_messages-keeps :
      (log : List Message) (s : Store)
      → ((m : Message) (t : Store) → P t → P (apply_message c m t))
      → P s
      → P (fold_messages c log s)
  unfolding fold_messages
  fold_messages-keeps [] s k h = h
  fold_messages-keeps (m ∷ log) s k h = fold_messages-keeps log (apply_message c m s) k (k m s h)
