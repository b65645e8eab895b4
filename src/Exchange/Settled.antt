-- ===== src/Exchange/Settled.antt =====
-- Settled matches and buy holds over a run of messages (state_core.go).
use dontguess.Base.{
  ℕ, ◌≡◌, ◌≢◌, refl, true, ◌==◌, Option, none, some, List, [], ◌∷◌, inl, inr, lookup, is_some,
  contains, if◌then◌else◌, arith, Bool-cases, Option-cases, lookup-insert, lookup-erase,
}
use dontguess.Proto.{Message, Tag, buy_hold, settle, consume}
use dontguess.Exchange.Op.{exchange_op}
use dontguess.Assign.Types.{Config}
use dontguess.Assign.Fold.{is_operator, canonical}
use dontguess.Exchange.Matches.{
  Matches, decode_buy_hold, apply_scrip_buy_hold, get_buy_hold_reservation, get_buy_hold_amount,
  mark_match_settled, is_match_settled, decode_settled_match, apply_scrip_settle, decode_consume,
  apply_consume, index_op, index_message, index_log, include,
}

-- A match has a reservation in the index exactly when it has an amount.
abbrev pub HoldsMatch : Matches → Type 0
HoldsMatch s =
    (k : ℕ) → is_some (lookup k s.match_to_buy_hold) ≡ is_some (lookup k s.match_to_buy_hold_amount)

apply_scrip_buy_hold-HoldsMatch :
    (m : Message) (s : Matches) → HoldsMatch s → HoldsMatch (apply_scrip_buy_hold m s)
unfolding apply_scrip_buy_hold
apply_scrip_buy_hold-HoldsMatch m s h k = elim (Option-cases (decode_buy_hold m.payload)) [
  | inl e ↦ rw e (h k)
  | inr ((j, r, x), e) ↦ rw e (
      ground (
        arith,
        h k,
        lookup-insert k j r s.match_to_buy_hold,
        lookup-insert k j x s.match_to_buy_hold_amount,
      ))
]

mark_match_settled-HoldsMatch :
    (j : ℕ) (s : Matches) → HoldsMatch s → HoldsMatch (mark_match_settled j s)
unfolding mark_match_settled
mark_match_settled-HoldsMatch j s h k =
    ground (
      arith,
      h k,
      lookup-erase k j s.match_to_buy_hold,
      lookup-erase k j s.match_to_buy_hold_amount,
    )

apply_scrip_settle-HoldsMatch :
    (c : Config) (m : Message) (s : Matches) → HoldsMatch s → HoldsMatch (apply_scrip_settle c m s)
unfolding apply_scrip_settle
apply_scrip_settle-HoldsMatch c m s h k = elim (Bool-cases (is_operator c m)) [
  | inl o ↦ elim (Option-cases (decode_settled_match m.payload)) [
    | inl e ↦ rw (o, e) (h k)
    | inr (j, e) ↦ rw (o, e) (mark_match_settled-HoldsMatch j s h k)
  ]
  | inr o ↦ rw o (h k)
]

apply_consume-holds :
    (c : Config) (m : Message) (s : Matches)
    → ((apply_consume c m s).match_to_buy_hold ≡ s.match_to_buy_hold)
      × ((apply_consume c m s).match_to_buy_hold_amount ≡ s.match_to_buy_hold_amount)
      × ((apply_consume c m s).settled_matches ≡ s.settled_matches)
unfolding apply_consume
apply_consume-holds c m s = elim (Bool-cases (is_operator c m)) [
  | inl o ↦ elim (Bool-cases (contains m.id s.consume_counted)) [
    | inl d ↦ rw (o, d) (refl, refl, refl)
    | inr d ↦ elim (Option-cases (decode_consume m.payload)) [
      | inl e ↦ rw (o, d, e) (refl, refl, refl)
      | inr (entry, e) ↦ rw (o, d, e) (refl, refl, refl)
    ]
  ]
  | inr o ↦ rw o (refl, refl, refl)
]

-- What the three handlers keep, a message keeps.
module _ {ℓ} (P : Matches → Type ℓ) (c : Config)
    (held : (m : Message) (s : Matches) → P s → P (apply_scrip_buy_hold m s))
    (sold : (m : Message) (s : Matches) → P s → P (apply_scrip_settle c m s))
    (used : (m : Message) (s : Matches) → P s → P (apply_consume c m s)) where
  index_op-keeps : (o : Option Tag) (m : Message) (s : Matches) → P s → P (index_op c o m s)
  unfolding index_op
  index_op-keeps none m s h = h
  index_op-keeps (some (Tag.scrip buy_hold)) m s h = held m s h
  index_op-keeps (some (Tag.scrip settle)) m s h = sold m s h
  index_op-keeps (some (Tag.scrip _)) m s h = h
  index_op-keeps (some (Tag.exchange consume)) m s h = used m s h
  index_op-keeps (some (Tag.exchange _)) m s h = h
  index_op-keeps (some (Tag.other _)) m s h = h

  index_log-keeps : (log : List Message) (s : Matches) → P s → P (index_log c log s)
  unfolding index_log index_message
  index_log-keeps [] s h = h
  index_log-keeps (m ∷ log) s h =
      index_log-keeps log (index_message c m s)
        (index_op-keeps (exchange_op m.tags) (canonical m s.base) s h)

apply_consume-HoldsMatch :
    (c : Config) (m : Message) (s : Matches) → HoldsMatch s → HoldsMatch (apply_consume c m s)
apply_consume-HoldsMatch c m s h k = let (a, b, _) = apply_consume-holds c m s in rw (a, b) (h k)

-- Where a match has a reservation in the index exactly when it has a held amount, that is so after
-- any log.
pub index_log-HoldsMatch :
    (c : Config) (log : List Message) (s : Matches) → HoldsMatch s → HoldsMatch (index_log c log s)
index_log-HoldsMatch c log s h =
    index_log-keeps HoldsMatch c apply_scrip_buy_hold-HoldsMatch (apply_scrip_settle-HoldsMatch c)
      (apply_consume-HoldsMatch c) log s h

abbrev IsSettled : ℕ → Matches → Type 0
IsSettled k s = is_match_settled k s ≡ true

contains-include : (k j : ℕ) (l : List ℕ) → contains k l ≡ true → contains k (include j l) ≡ true
unfolding contains
contains-include k j l h = ground arith

apply_scrip_buy_hold-IsSettled :
    (k : ℕ) (m : Message) (s : Matches) → IsSettled k s → IsSettled k (apply_scrip_buy_hold m s)
unfolding apply_scrip_buy_hold is_match_settled
apply_scrip_buy_hold-IsSettled k m s h = elim (Option-cases (decode_buy_hold m.payload)) [
  | inl e ↦ rw e h
  | inr (p, e) ↦ rw e h
]

apply_scrip_settle-IsSettled :
    (k : ℕ) (c : Config) (m : Message) (s : Matches)
    → IsSettled k s
    → IsSettled k (apply_scrip_settle c m s)
unfolding apply_scrip_settle mark_match_settled is_match_settled
apply_scrip_settle-IsSettled k c m s h = elim (Bool-cases (is_operator c m)) [
  | inl o ↦ elim (Option-cases (decode_settled_match m.payload)) [
    | inl e ↦ rw (o, e) h
    | inr (j, e) ↦ rw (o, e) (ground (arith, contains-include k j s.settled_matches))
  ]
  | inr o ↦ rw o h
]

apply_consume-IsSettled :
    (k : ℕ) (c : Config) (m : Message) (s : Matches)
    → IsSettled k s
    → IsSettled k (apply_consume c m s)
unfolding is_match_settled
apply_consume-IsSettled k c m s h = let (_, _, e) = apply_consume-holds c m s in rw e h

-- A match that is settled stays settled, whatever messages are folded after.
pub index_log-IsSettled :
    (c : Config) (log : List Message) (s : Matches) (k : ℕ)
    → is_match_settled k s ≡ true
    → is_match_settled k (index_log c log s) ≡ true
index_log-IsSettled c log s k h =
    index_log-keeps (IsSettled k) c (apply_scrip_buy_hold-IsSettled k)
      (apply_scrip_settle-IsSettled k c) (apply_consume-IsSettled k c) log s h

-- Once a match, named by a text that is not empty, is marked settled, it has no buy hold,
-- and the held amounts of all other matches are as they were.
mark_match_settled-retires :
    (k : ℕ) (s : Matches)
    → k ≢ 0
    → let t = mark_match_settled k s in
      (is_match_settled k t ≡ true)
      × (get_buy_hold_reservation k t ≡ 0)
      × (get_buy_hold_amount k t ≡ none)
      × ((j : ℕ) → get_buy_hold_amount j t ≡ (if j == k then none else get_buy_hold_amount j s))
unfolding mark_match_settled is_match_settled get_buy_hold_reservation get_buy_hold_amount contains
mark_match_settled-retires k s n = (
  ground arith,
  ground (arith, lookup-erase k k s.match_to_buy_hold),
  ground (arith, lookup-erase k k s.match_to_buy_hold_amount),
  λ j. ground (arith, lookup-erase j k s.match_to_buy_hold_amount),
)
