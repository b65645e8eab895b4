-- ===== src/Sequencer/Tests.antt =====
-- Runs of the sequencer on three messages, of which each waits for the ones before it.
use dontguess.Base.{ℕ, ◌≡◌, refl, none, List, [], ◌∷◌, arith, lookup, insert, erase, contains}
use dontguess.Base.Int64.{slt}
use dontguess.Proto.{Message}
use dontguess.Sequencer.Types.{Sequencer, ok, err, unrecoverable_antecedent, new_sequencer}
use dontguess.Sequencer.Order.{precedes, pop_among, pop_least, message_of}
use dontguess.Sequencer.Canonical.{Canonical, all_released}
use dontguess.Sequencer.Rounds.{cascade-ends}
use dontguess.Sequencer.Delivery.{sequence_for_fold_same_events}
use dontguess.Sequencer.Closure.{
  CausalFrom, sequence_for_fold-CausalFrom, sequence_for_fold_complete,
}
use dontguess.Sequencer.Live.{Enqueues}
use dontguess.Sequencer.Reachable.{
  Reachable, fresh, after, received, Reachable-Canonical, Reachable-Enqueues,
}
use dontguess.Sequencer.Ingest.{
  unknown_of, is_known, missing_antecedents, remove_from, resolve_waiter, resolve_waiters,
  resolve_arrival, add_waiter, count_missing, insert_buffered, mark_emitted, ingest, make_room,
  ingest_live,
}
use dontguess.Sequencer.Drain.{
  awaited, Cascade, dependents_on, add_dependent, add_node, graph_of, wake_one, wake, release,
  release_next, cascade, run_cascade, drain, seal, ingest_all, messages, seal_released,
  release_batch, sequence_for_fold,
}

abbrev event : ℕ → ℕ → List ℕ → Message
event id timestamp antecedents = record {
  id = id;
  sender = 7;
  payload = none;
  tags = [];
  antecedents = antecedents;
  timestamp = timestamp;
}

abbrev first : Message
first = event 1 5 []

abbrev second : Message
second = event 2 3 (1 ∷ [])

abbrev third : Message
third = event 3 4 (1 ∷ 2 ∷ 2 ∷ [])

abbrev reversed : List Message
reversed = third ∷ second ∷ first ∷ second ∷ []

abbrev ordered : List Message
ordered = first ∷ second ∷ third ∷ []

run_reversed : sequence_for_fold reversed 1 ≡ ok ordered
unfolding precedes pop_among pop_least unknown_of is_known missing_antecedents remove_from
    resolve_waiter resolve_waiters resolve_arrival add_waiter count_missing insert_buffered ingest
    awaited dependents_on add_dependent add_node graph_of wake_one wake release release_next cascade
    run_cascade drain seal ingest_all messages seal_released release_batch sequence_for_fold
    new_sequencer lookup insert erase contains slt
run_reversed = refl

-- A message whose antecedent never comes.
run_pruned : sequence_for_fold (second ∷ []) 1 ≡ err (unrecoverable_antecedent 1)
unfolding precedes pop_among pop_least unknown_of is_known missing_antecedents remove_from
    resolve_waiter resolve_waiters resolve_arrival add_waiter count_missing insert_buffered ingest
    awaited dependents_on add_dependent add_node graph_of wake_one wake release release_next cascade
    run_cascade drain seal ingest_all messages seal_released release_batch sequence_for_fold
    new_sequencer lookup insert erase contains slt
run_pruned = refl

sequence_for_fold_same_events_example : sequence_for_fold reversed 1 ≡ sequence_for_fold ordered 50
unfolding message_of
sequence_for_fold_same_events_example =
    sequence_for_fold_same_events reversed ordered 1 50 λ k. ground arith

sequence_for_fold-CausalFrom_example :
    CausalFrom [] ordered × ((k : ℕ) → message_of k ordered ≡ message_of k reversed)
sequence_for_fold-CausalFrom_example = sequence_for_fold-CausalFrom reversed ordered 1 run_reversed

sequence_for_fold_complete_example : (out : List Message) × (sequence_for_fold reversed 1 ≡ ok out)
unfolding message_of contains all_released
sequence_for_fold_complete_example =
    sequence_for_fold_complete reversed ordered 1 refl (λ k. ground arith)
      (refl, refl, (refl, refl, (refl, refl, tt)))

-- An event that is buffered when MarkEmitted names it is released again.
run_marked :
    messages (drain (mark_emitted (1 ∷ []) (insert_buffered first [] (new_sequencer 1)))).0
    ≡ first ∷ []
unfolding precedes pop_among pop_least unknown_of is_known missing_antecedents remove_from
    resolve_waiter resolve_waiters resolve_arrival add_waiter count_missing insert_buffered
    mark_emitted awaited dependents_on add_dependent add_node graph_of wake_one wake release
    release_next cascade run_cascade drain messages new_sequencer lookup insert erase contains slt
run_marked = refl

abbrev one_place : Sequencer
one_place = new_sequencer 1

-- The buffer has one place, and the third message is in it.
abbrev full : Sequencer
full = insert_buffered third (1 ∷ 2 ∷ []) one_place

full-Reachable : Reachable 1 full
unfolding is_known missing_antecedents unknown_of insert_buffered ingest_live make_room
    new_sequencer lookup contains
full-Reachable = after fresh (received third [] refl)

Reachable-Canonical_example : Canonical full.emitted full.buffered (messages (drain full).0)
Reachable-Canonical_example = Reachable-Canonical 1 full full-Reachable

Reachable-Enqueues_example :
    (evicted : List ℕ) × (t : Sequencer) × (ingest_live second full ≡ ok (evicted, t))
    × Enqueues second evicted full t
unfolding is_known insert_buffered resolve_arrival count_missing add_waiter new_sequencer insert
    lookup contains
Reachable-Enqueues_example = Reachable-Enqueues 1 full second full-Reachable refl refl

abbrev at_start : Cascade
at_start = record { pending = (2, 1) ∷ []; heap = first ∷ []; sequencer = one_place; out = [] }

cascade-ends_example : (cascade 2 ((1, 2 ∷ []) ∷ []) at_start).heap ≡ []
cascade-ends_example = cascade-ends 2 ((1, 2 ∷ []) ∷ []) at_start (omega arith)
