-- ===== src/Demand/Register.antt =====
-- registerDemandOnly (engine_buy.go): a dropped buy of an unfunded buyer is registered as demand, once
-- per task and within the caps. The clock does not move during a call.
use dontguess.Base.{Bool, ℕ, ◌&&◌, Option, none, some, [], ◌∷◌, leb, if◌then◌else◌}
use dontguess.Base.Int64.{add64}
use dontguess.Json.{text, task_hash, buyer_key, expires_at, buy_msg_id}
use dontguess.Proto.{Message, Tag, match}
use dontguess.Assign.Fold.{is_operator}
use dontguess.Settlement.Types.{Texts}
use dontguess.Settlement.Fold.Operator.{tags_contain}
use dontguess.Demand.Fold.{
  Demand, demand_only_ttl, demand_only_per_sender_window, apply_demand_only, has_demand_only,
  demand_only_total, demand_only_count_for_sender,
}

-- DemandOnlyPerSenderCap and DemandOnlyGlobalCap
abbrev pub demand_only_per_sender_cap : ℕ
demand_only_per_sender_cap = 20

abbrev pub demand_only_global_cap : ℕ
demand_only_global_cap = 10000

-- The counters of the engine, which only grow; they are atomic int64.
pub record Degradation : Type 0 where
  pub demand_only_registered : ℕ
  pub demand_only_deduped : ℕ
  pub demand_only_capped : ℕ

pub record Registry : Type 0 where
  pub demand : Demand
  pub degradation : Degradation

-- Texts that the engine writes and reads back: the tags of a miss and of a synthetic request, and times
-- in RFC 3339. `is_synthetic` tells whether the buy is synthetic, which the caller finds out.
pub record Wording : Type 0 where
  pub texts : Texts
  pub buy_miss : ℕ
  pub synthetic : ℕ
  pub is_synthetic : Message → Bool
  pub format : ℕ → ℕ
  pub parse : ℕ → Option ℕ

-- What a call takes from elsewhere: the clock, and the id and the timestamp of the record that it
-- appends to the log, `none` where that fails.
pub record Call : Type 0 where
  pub now : ℕ
  pub appended : Option (ℕ × ℕ)

-- The message of a registration, with the members of the payload that are read again.
unfoldable pub demand_message : Wording → ℕ → ℕ → Message → ℕ → ℕ → Message
demand_message w now hash m id time = record {
  id = id;
  sender = w.texts.config.operator_key;
  payload = some (
      (task_hash, text hash)
      ∷ (buyer_key, text m.sender)
      ∷ (buy_msg_id, text m.id)
      ∷ (expires_at, text (w.format (add64 now demand_only_ttl)))
      ∷ []);
  tags =
      Tag.other w.buy_miss
      ∷ Tag.exchange match
      ∷ Tag.other w.texts.demand_only
      ∷ (if w.is_synthetic m then Tag.other w.synthetic ∷ [] else []);
  antecedents = m.id ∷ [];
  timestamp = time;
}

-- What applyMatch does with a demand-only message.
unfoldable pub apply_demand_match : Wording → Message → Demand → Demand
apply_demand_match w m s =
    if is_operator w.texts.config m && tags_contain w.texts.demand_only m.tags
    then apply_demand_only w.parse m s
    else s

abbrev pub deduped : Registry → Registry
deduped s = record s {
  degradation = record s.degradation {
    demand_only_deduped = add64 s.degradation.demand_only_deduped 1;
  };
}

abbrev pub capped : Registry → Registry
capped s = record s {
  degradation = record s.degradation {
    demand_only_capped = add64 s.degradation.demand_only_capped 1;
  };
}

-- The state after the message of a registration, appended under an id at a time, is folded.
abbrev pub registered : Wording → ℕ → ℕ → Message → ℕ → ℕ → Registry → Registry
registered w now hash m id time s = record {
  demand = apply_demand_match w (demand_message w now hash m id time) s.demand;
  degradation = record s.degradation {
    demand_only_registered = add64 s.degradation.demand_only_registered 1;
  };
}

-- Append the message and fold it; `none` is the error.
unfoldable pub emit_demand : Wording → Call → ℕ → Message → Registry → Option Registry
emit_demand w call hash m s = elim call.appended [
  | none ↦ none
  | some (id, time) ↦ some (registered w call.now hash m id time s)
]

-- registerDemandOnly, for the hash of a task.
unfoldable pub register_demand_only : Wording → Call → ℕ → Message → Registry → Option Registry
register_demand_only w call hash m s =
    if has_demand_only hash call.now s.demand
    then some (deduped s)
    else (if leb demand_only_global_cap (demand_only_total call.now s.demand)
        then some (capped s)
        else (if leb demand_only_per_sender_cap (
              demand_only_count_for_sender m.sender call.now demand_only_per_sender_window s.demand)
            then some (capped s)
            else emit_demand w call hash m s))
