-- ===== src/Demand/Tests.antt =====
-- A dropped buy that is registered, a second one of the same task, and the reads of a log.
use dontguess.Base.{
  ◌+◌, ◌-◌, insert, erase, keep, ◌==◌, ℕ, suc, ◌-◌, ◌*◌, ◌/◌, ◌≡◌, refl, none, some, List, [], ◌∷◌,
  lookup, contains, arith,
}
use dontguess.Base.Int64.{slt, sub64, add64}
use dontguess.Proto.{Message}
use dontguess.Demand.Fold.{
  no_demand, fold_demand, apply_demand_only, registration_of, register, record_time, store_times,
  drop_idle, drop_expired, newest, prune_demand_window, is_live, count_live, count_since,
  has_demand_only, demand_only_total, demand_only_count_for_sender,
}
use dontguess.Settlement.Fold.Operator.{tags_contain}
use dontguess.Demand.Reference.{remember_all}
use dontguess.Demand.Pruning.{Agree, fold_demand-Agree}
use dontguess.Demand.Register.{
  Registry, Wording, Call, demand_message, apply_demand_match, deduped, registered, emit_demand,
  register_demand_only,
}
use dontguess.Demand.Bounds.{Capped}
use dontguess.Demand.Caps.{Reached, start, called, Reached-Capped}
use dontguess.Json.{text_field, same_name}
use dontguess.Demand.Dedup.{Between, here, then_called, register_demand_only_again}

-- Times are written in seconds.
abbrev wording : Wording
wording = record {
  texts = record {
    config = record { operator_key = 9; brokered_match = 50; parse_time = λ t. none };
    phase_of = λ t. none;
    demand_only = 60;
  };
  buy_miss = 61;
  synthetic = 62;
  is_synthetic = λ m. m.id == 32;
  format = λ t. suc (t / 1000000000);
  parse = λ t. some ((t - 1) * 1000000000);
}

abbrev buy : ℕ → ℕ → Message
buy id sender = record {
  id = id;
  sender = sender;
  payload = none;
  tags = [];
  antecedents = [];
  timestamp = 7200000000000;
}

abbrev call : Call
call = record { now = 7200000000000; appended = some (31, 7200000000001) }

abbrev empty : Registry
empty = record {
  demand = no_demand;
  degradation = record {
    demand_only_registered = 0;
    demand_only_deduped = 0;
    demand_only_capped = 0;
  };
}

abbrev after_call : Registry
after_call = record {
  demand =
      apply_demand_match wording
        (demand_message wording 7200000000000 5 (buy 30 8) 31 7200000000001) no_demand;
  degradation = record {
    demand_only_registered = 1;
    demand_only_deduped = 0;
    demand_only_capped = 0;
  };
}

after_call-Reached : Reached wording 7200000000000 after_call
unfolding register_demand_only emit_demand has_demand_only demand_only_total
    demand_only_count_for_sender count_live count_since lookup add64 is_live
after_call-Reached =
    called {s = empty} call 5 (buy 30 8) refl (start 7200000000000 empty.degradation)

Reached-Capped_example : Capped 7200000000000 after_call.demand
Reached-Capped_example = Reached-Capped wording 7200000000000 after_call after_call-Reached

abbrev log : List Message
log =
    demand_message wording 7200000000000 5 (buy 30 8) 31 7200000000000
    ∷ demand_message wording 7200000000000 6 (buy 32 8) 33 20000000000000
    ∷ []

fold_demand-Agree_example :
    Agree 20000000000000 60000000000
      (fold_demand wording.parse log no_demand)
      (remember_all wording.parse log no_demand)
unfolding demand_message
fold_demand-Agree_example =
    fold_demand-Agree wording.parse 20000000000000 60000000000 log (omega arith) (omega arith)
      (omega arith, omega arith, (omega arith, omega arith, tt))

-- Between the two buys of task 5, a third sender registers task 6.
abbrev other_call : Call
other_call = record { now = 7250000000000; appended = some (35, 7250000000000) }

abbrev after_other : Registry
after_other =
    registered wording 7250000000000 6 (buy 34 12) 35 7250000000000
      (registered wording 7200000000000 5 (buy 30 8) 31 7200000000001 empty)

other_call-Between :
    Between wording
      (7200000000000 + 86400000000000 - 1000000000)
      (registered wording 7200000000000 5 (buy 30 8) 31 7200000000001 empty)
      after_other
unfolding register_demand_only emit_demand has_demand_only demand_only_total
    demand_only_count_for_sender count_live count_since lookup contains add64 is_live demand_message
    apply_demand_match apply_demand_only registration_of register record_time store_times drop_idle
    drop_expired keep newest prune_demand_window text_field same_name tags_contain insert erase
    sub64 slt
other_call-Between = then_called other_call 6 (buy 34 12) (omega arith) (omega arith) refl here

register_demand_only_again_example :
    (register_demand_only wording call 5 (buy 30 8) empty
      ≡ some (registered wording 7200000000000 5 (buy 30 8) 31 7200000000001 empty))
    × (register_demand_only wording
          (record { now = 7300000000000; appended = none })
          5
          (buy 40 7)
          after_other
        ≡ some (deduped after_other))
unfolding has_demand_only demand_only_total demand_only_count_for_sender count_live count_since
    lookup contains add64 is_live
register_demand_only_again_example =
    register_demand_only_again wording call (record { now = 7300000000000; appended = none }) 5 31
      7200000000001 (buy 30 8) (buy 40 7) empty after_other (start 7200000000000 empty.degradation)
      (omega arith) (omega arith) (refl, 93600000000000, refl, omega arith, omega arith) refl
      (omega arith) (omega arith) refl refl other_call-Between (omega arith)
