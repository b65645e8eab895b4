-- ===== src/Exchange/Matches.antt =====
-- The match index of the exchange state: applyScripBuyHold, applyScripSettle, markMatchSettledLocked,
-- applyConsume and their queries (state_core.go), and RegisterWireAlias (state_wire_alias.go).
use dontguess.Base.{
  ℕ, Bool, ◌||◌, ◌==◌, Option, none, some, List, [], ◌∷◌, Dict, lookup, insert, erase, get_or,
  is_some, contains, if◌then◌else◌, ◌>>=◌,
}
use dontguess.Base.Int64.{add64}
use dontguess.Json.{
  Object, text_field, number_field, buyer, amount, price, fee, reservation_id, buy_msg, expires_at,
  seller, residual, fee_burned, exchange_revenue, match_msg, result_hash, entry_id,
}
use dontguess.Proto.{Message, Tag, buy_hold, settle, consume}
use dontguess.Exchange.Op.{exchange_op}
use dontguess.Assign.Types.{State, Config, record_fold_denial, not_operator}
use dontguess.Assign.Fold.{is_operator, canonical}

-- `base` is the part of State that the assign handlers use too: the aliases and the alarm.
pub record Matches : Type 0 where
  pub base : State
  pub settled_matches : List ℕ
  pub match_to_buy_hold : Dict ℕ
  pub match_to_buy_hold_amount : Dict ℕ
  pub consume_counted : List ℕ
  pub entry_consume_count : Dict ℕ

abbrev pub given : {A : Type 0} → Option A → Matches → (A → Matches) → Matches
given none s f = s
given (some a) s f = f a

-- BuyHoldPayload: the match, the reservation and the amount; the other members are decoded too.
unfoldable pub decode_buy_hold : Option Object → Option (ℕ × ℕ × ℕ)
decode_buy_hold payload = do
  o ← payload
  k ← text_field buyer o
  x ← number_field amount o
  p ← number_field price o
  f ← number_field fee o
  reservation ← text_field reservation_id o
  matched ← text_field buy_msg o
  expiry ← text_field expires_at o
  if matched == 0 || reservation == 0 then none else some (matched, reservation, x)

unfoldable pub apply_scrip_buy_hold : Message → Matches → Matches
apply_scrip_buy_hold m s = given (decode_buy_hold m.payload) s λ (matched, reservation, x).
    record s {
      match_to_buy_hold = insert matched reservation s.match_to_buy_hold;
      match_to_buy_hold_amount = insert matched x s.match_to_buy_hold_amount;
    }

unfoldable pub get_buy_hold_reservation : ℕ → Matches → ℕ
get_buy_hold_reservation k s = get_or 0 (lookup k s.match_to_buy_hold)

unfoldable pub get_buy_hold_amount : ℕ → Matches → Option ℕ
get_buy_hold_amount k s = lookup k s.match_to_buy_hold_amount

-- A set that is a Go map to struct{}.
abbrev pub include : ℕ → List ℕ → List ℕ
include k l = if contains k l then l else k ∷ l

-- markMatchSettledLocked, which MarkMatchSettled calls under the lock.
unfoldable pub mark_match_settled : ℕ → Matches → Matches
mark_match_settled k s = if k == 0 then s else record s {
  settled_matches = include k s.settled_matches;
  match_to_buy_hold = erase k s.match_to_buy_hold;
  match_to_buy_hold_amount = erase k s.match_to_buy_hold_amount;
}

unfoldable pub is_match_settled : ℕ → Matches → Bool
is_match_settled k s = contains k s.settled_matches

-- SettlePayload: the match; the other members are decoded too.
unfoldable pub decode_settled_match : Option Object → Option ℕ
decode_settled_match payload = do
  o ← payload
  reservation ← text_field reservation_id o
  k ← text_field seller o
  x ← number_field residual o
  f ← number_field fee_burned o
  y ← number_field exchange_revenue o
  matched ← text_field match_msg o
  hash ← text_field result_hash o
  if matched == 0 then none else some matched

-- The denial of a message whose sender must be the operator.
abbrev pub deny : Message → Matches → Matches
deny m s = record s { base = record_fold_denial not_operator m s.base }

unfoldable pub apply_scrip_settle : Config → Message → Matches → Matches
unfolding mark_match_settled record_fold_denial
apply_scrip_settle c m s =
    if is_operator c m
    then given (decode_settled_match m.payload) s (λ k. mark_match_settled k s)
    else deny m s

unfoldable pub decode_consume : Option Object → Option ℕ
decode_consume payload = do
  o ← payload
  entry ← text_field entry_id o
  if entry == 0 then none else some entry

-- A message is counted once.
unfoldable pub apply_consume : Config → Message → Matches → Matches
unfolding record_fold_denial
apply_consume c m s =
    if is_operator c m
    then (if contains m.id s.consume_counted
        then s
        else given (decode_consume m.payload) s λ entry. record s {
          consume_counted = m.id ∷ s.consume_counted;
          entry_consume_count =
              insert entry (add64 (get_or 0 (lookup entry s.entry_consume_count)) 1)
                s.entry_consume_count;
        })
    else deny m s

-- The default case of the switch of applyLocked, on the operation that exchangeOp names.
unfoldable pub index_op : Config → Option Tag → Message → Matches → Matches
unfolding apply_scrip_buy_hold apply_scrip_settle apply_consume
index_op c none m s = s
index_op c (some (Tag.scrip buy_hold)) m s = apply_scrip_buy_hold m s
index_op c (some (Tag.scrip settle)) m s = apply_scrip_settle c m s
index_op c (some (Tag.scrip _)) m s = s
index_op c (some (Tag.exchange consume)) m s = apply_consume c m s
index_op c (some (Tag.exchange _)) m s = s
index_op c (some (Tag.other _)) m s = s

-- The same, for a whole message, and for a log.
unfoldable pub index_message : Config → Message → Matches → Matches
unfolding index_op exchange_op
index_message c m s = index_op c (exchange_op m.tags) (canonical m s.base) s

unfoldable pub index_log : Config → List Message → Matches → Matches
unfolding index_message
index_log c [] s = s
index_log c (m ∷ log) s = index_log c log (index_message c m s)

-- RegisterWireAlias: the first mapping of a wire id is kept.
unfoldable pub register_wire_alias : ℕ → ℕ → State → State
register_wire_alias wire store s =
    if wire == 0 || store == 0 || wire == store
    then s
    else (if is_some (lookup wire s.wire_to_store)
        then s
        else record s { wire_to_store = insert wire store s.wire_to_store })
