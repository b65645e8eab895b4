-- ===== src/Scrip/Idempotence.antt =====
-- Redelivery and authorship: a message counts once, and only when the operator sent it.
use dontguess.Base.{
  ℕ, ◌≡◌, refl, ◌≢◌, true, ◌||◌, ◌==◌, Option, none, some, List, [], ◌∷◌, ◌++◌, if◌then◌else◌,
  arith, contains,
}
use dontguess.Proto.{Message, ScripOp}
use dontguess.Scrip.Types.{Config, Store}
use dontguess.Scrip.Ledger.{apply_new, scrip_op, is_authorized, apply_message, fold_messages}
use dontguess.Scrip.Rules.{with_seen}
use dontguess.Scrip.Frame.{dispatch-SameFrame}

apply_new-seen :
    (c : Config) (o : Option ScripOp) (m : Message) (s : Store)
    → (apply_new c o m s).seen_msg_ids ≡ s.seen_msg_ids
unfolding apply_new
apply_new-seen c none m s = refl
apply_new-seen c (some op) m s = ground (arith, dispatch-SameFrame c op m s)

-- A message adds its id to the seen ids, unless it is there.
pub apply_message-seen :
    (c : Config) (m : Message) (s : Store) (id : ℕ)
    → contains id (apply_message c m s).seen_msg_ids ≡ (id == m.id || contains id s.seen_msg_ids)
unfolding apply_message contains
apply_message-seen c m s id =
    ground (arith, apply_new-seen c (scrip_op m.tags) m (with_seen (m.id ∷ s.seen_msg_ids) s))

pub apply_message_seen :
    (c : Config) (m : Message) (s : Store)
    → contains m.id s.seen_msg_ids ≡ true
    → apply_message c m s ≡ s
unfolding apply_message
apply_message_seen c m s h = rw h

abbrev pub ids : List Message → List ℕ
ids [] = []
ids (m ∷ log) = m.id ∷ ids log

fold_messages-seen :
    (c : Config) (log : List Message) (s : Store) (id : ℕ)
    → contains id s.seen_msg_ids ≡ true
    → contains id (fold_messages c log s).seen_msg_ids ≡ true
unfolding fold_messages
fold_messages-seen c [] s id h = h
fold_messages-seen c (m ∷ log) s id h =
    fold_messages-seen c log (apply_message c m s) id (ground (arith, apply_message-seen c m s id))

fold_messages-ids :
    (c : Config) (log : List Message) (s : Store) (id : ℕ)
    → contains id (ids log) ≡ true
    → contains id (fold_messages c log s).seen_msg_ids ≡ true
unfolding fold_messages contains
fold_messages-ids c [] s id h = cc
fold_messages-ids c (m ∷ log) s id h = ground (
  arith,
  apply_message-seen c m s id,
  fold_messages-seen c log (apply_message c m s) id,
  fold_messages-ids c log (apply_message c m s) id,
)

fold_messages-append :
    (c : Config) (xs ys : List Message) (s : Store)
    → fold_messages c (xs ++ ys) s ≡ fold_messages c ys (fold_messages c xs s)
unfolding fold_messages
fold_messages-append c [] ys s = refl
fold_messages-append c (m ∷ xs) ys s = fold_messages-append c xs ys (apply_message c m s)

-- A message whose id came earlier in the log changes nothing, whatever it carries and whatever
-- was folded in between.
pub fold_messages_redelivery :
    (c : Config) (xs ys : List Message) (m : Message) (s : Store)
    → contains m.id (ids xs) ≡ true
    → fold_messages c (xs ++ m ∷ ys) s ≡ fold_messages c (xs ++ ys) s
unfolding fold_messages
fold_messages_redelivery c xs ys m s h = rw (
  fold_messages-append c xs (m ∷ ys) s,
  fold_messages-append c xs ys s,
  apply_message_seen c m (fold_messages c xs s) (fold_messages-ids c xs s m.id h),
)

-- With an operator key configured, a message from anyone else is recorded as seen and does
-- nothing else.
apply_message_unauthorized :
    (c : Config) (m : Message) (s : Store)
    → c.operator_key ≢ 0
    → m.sender ≢ c.operator_key
    → apply_message c m s
      ≡ (if contains m.id s.seen_msg_ids then s else with_seen (m.id ∷ s.seen_msg_ids) s)
unfolding apply_message apply_new is_authorized
apply_message_unauthorized c m s n h = ground arith
