-- ===== src/Exchange/Tests.antt =====
-- Messages with more than one operation tag, and the theorems at them.
use dontguess.Base.{lookup, contains, ◌≡◌, refl, inl, arith, true, false, none, some, List, [], ◌∷◌}
use mathlib.Core.Logic.{◌↔◌}
use dontguess.Proto.{Tag, put, buy, mint}
use dontguess.Exchange.Op.{exchange_op, is_exchange_op_tag}
use dontguess.Exchange.Smuggling.{Names, OnlyOp, exchange_op_iff, scrip_op_smuggled}
use dontguess.Scrip.Ledger.{scrip_op}
use dontguess.Proto.{Message, ExchangeOp, ScripOp}
use dontguess.Json.{text, entry_id, match_msg}
use dontguess.Assign.Types.{State, Config}
use dontguess.Exchange.Matches.{Matches, mark_match_settled, is_match_settled, index_log}
use dontguess.Exchange.Settled.{HoldsMatch, index_log-HoldsMatch, index_log-IsSettled}

abbrev put_twice : List Tag
put_twice = Tag.other 7 ∷ Tag.exchange put ∷ Tag.exchange put ∷ []

exchange_op_iff_example : (exchange_op put_twice ≡ some (Tag.exchange put)) ↔ (
    (is_exchange_op_tag (Tag.exchange put) ≡ true)
    × Names (Tag.exchange put) put_twice
    × OnlyOp (Tag.exchange put) put_twice)
exchange_op_iff_example = exchange_op_iff (Tag.exchange put) put_twice

scrip_op_smuggled_example :
    (exchange_op (Tag.scrip mint ∷ Tag.exchange buy ∷ []) ≡ none)
    × (scrip_op (Tag.scrip mint ∷ Tag.exchange buy ∷ []) ≡ some mint)
scrip_op_smuggled_example =
    scrip_op_smuggled mint (Tag.exchange buy) (Tag.exchange buy ∷ []) refl (λ e. cc) (inl refl)

abbrev exchange : Config
exchange = record { operator_key = 1; brokered_match = 50; parse_time = λ t. some t }

abbrev empty_state : State
empty_state = record {
  assign_by_id = [];
  assigns_by_entry = [];
  claimed_assigns = [];
  claim_msg_to_assign = [];
  complete_msg_to_assign = [];
  pending_assign_results = [];
  broker_assigns = [];
  wire_to_store = [];
  alarm_wired = false;
  replaying = false;
  replay_msg_ids = [];
  fold_denial_counted = [];
  denials = [];
}

abbrev index : Matches
index = record {
  base = empty_state;
  settled_matches = [];
  match_to_buy_hold = (8, 81) ∷ (9, 91) ∷ [];
  match_to_buy_hold_amount = (8, 600) ∷ (9, 700) ∷ [];
  consume_counted = [];
  entry_consume_count = [];
}

abbrev used : Message
used = record {
  id = 40;
  sender = 1;
  payload = some ((entry_id, text 5) ∷ []);
  tags = Tag.exchange ExchangeOp.consume ∷ [];
  antecedents = [];
  timestamp = 0;
}

abbrev sold : Message
sold = record {
  id = 41;
  sender = 1;
  payload = some ((match_msg, text 9) ∷ []);
  tags = Tag.scrip ScripOp.settle ∷ [];
  antecedents = [];
  timestamp = 0;
}

index_log-HoldsMatch_example : HoldsMatch (index_log exchange (used ∷ sold ∷ []) index)
unfolding lookup
index_log-HoldsMatch_example =
    index_log-HoldsMatch exchange (used ∷ sold ∷ []) index (λ k. ground arith)

index_log-IsSettled_example :
    is_match_settled 8 (index_log exchange (used ∷ sold ∷ []) (mark_match_settled 8 index)) ≡ true
unfolding is_match_settled mark_match_settled contains
index_log-IsSettled_example =
    index_log-IsSettled exchange (used ∷ sold ∷ []) (mark_match_settled 8 index) 8 refl
