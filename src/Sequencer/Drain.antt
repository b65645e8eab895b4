-- ===== src/Sequencer/Drain.antt =====
-- pkg/exchange/sequencer.go: the release of the messages that are causally ready (Drain), the end of
-- a domain (Seal) and the two together on a resident batch (SequenceForFold).
use dontguess.Base.{
  ℕ, zero, suc, ◌-◌, ◌+◌, ◌||◌, Option, none, some, List, [], ◌∷◌, ◌++◌, ltb, leb, ◌==◌,
  if◌then◌else◌, length, contains, get_or, Dict, lookup, insert, erase,
}
use dontguess.Base.Int64.{add64}
use dontguess.Proto.{Message}
use dontguess.Sequencer.Types.{
  Sequencer, Sequenced, SequencerError, Outcome, ok, err, orphan_buffer_overflow,
  unrecoverable_antecedent, new_sequencer,
}
use dontguess.Sequencer.Order.{pop_least}
use dontguess.Sequencer.Ingest.{unknown_of, remove_from, ingest}

-- The antecedents that a message waits for: those that are not released yet.
unfoldable pub awaited : List ℕ → Message → List ℕ
awaited emitted m = unknown_of (λ a. contains a emitted) [] m.antecedents

-- The causal graph of the buffer: `pending`, `dependents` and the heap of the ready messages.
pub record Graph : Type 0 where
  pub pending : Dict ℕ
  pub dependents : Dict (List ℕ)
  pub heap : List Message

unfoldable pub dependents_on : ℕ → Dict (List ℕ) → List ℕ
dependents_on a d = get_or [] (lookup a d)

unfoldable pub add_dependent : ℕ → List ℕ → Dict (List ℕ) → Dict (List ℕ)
add_dependent k [] d = d
add_dependent k (a ∷ ants) d = add_dependent k ants (insert a (dependents_on a d ++ k ∷ []) d)

unfoldable pub add_node : List ℕ → ℕ → Message → Graph → Graph
add_node emitted k m g =
    let ants = awaited emitted m in
    record {
      pending = insert k (length ants) g.pending;
      dependents = add_dependent k ants g.dependents;
      heap = if length ants == 0 then g.heap ++ m ∷ [] else g.heap;
    }

unfoldable pub graph_of : List ℕ → Dict Message → Graph → Graph
graph_of emitted [] g = g
graph_of emitted ((k, m) ∷ buffered) g = graph_of emitted buffered (add_node emitted k m g)

-- One dependent of a released message: its last antecedent moves it from `pending` to the heap.
unfoldable pub wake_one : Dict Message → ℕ → Dict ℕ × List Message → Dict ℕ × List Message
wake_one buffered k (pending, heap) = elim (lookup k pending) [
  | none ↦ (pending, heap)
  | some left ↦
      if leb left 1
      then (erase k pending, elim (lookup k buffered) [ none ↦ heap | some m ↦ heap ++ m ∷ [] ])
      else (insert k (left - 1) pending, heap)
]

unfoldable pub wake : Dict Message → List ℕ → Dict ℕ × List Message → Dict ℕ × List Message
wake buffered [] r = r
wake buffered (k ∷ waiting) r = wake buffered waiting (wake_one buffered k r)

-- The variables of the loop of Drain.
pub record Cascade : Type 0 where
  pub pending : Dict ℕ
  pub heap : List Message
  pub sequencer : Sequencer
  pub out : List Sequenced

-- A message leaves the buffer and takes the next sequence number.
unfoldable pub release : Message → Sequencer → Sequencer
release m s = record s {
  emitted = m.id ∷ s.emitted;
  buffered = erase m.id s.buffered;
  order = remove_from m.id s.order;
  next_seq = add64 s.next_seq 1;
}

-- One round of the loop, for the message that the heap gave.
unfoldable pub release_next : Dict (List ℕ) → Message → List Message → Cascade → Cascade
release_next dependents m heap c =
    let s = release m c.sequencer in
    let woken = wake s.buffered (dependents_on m.id dependents) (erase m.id c.pending, heap) in
    record {
      pending = woken.0;
      heap = woken.1;
      sequencer = s;
      out = c.out ++ record { seq = c.sequencer.next_seq; msg = m } ∷ [];
    }

-- The loop. Each round takes a message from the heap, and puts one there only for an entry that it
-- takes from `pending`.
unfoldable pub cascade : ℕ → Dict (List ℕ) → Cascade → Cascade
cascade zero dependents c = c
cascade (suc n) dependents c = elim (pop_least c.heap) [
  | none ↦ c
  | some (m, heap) ↦ cascade n dependents (release_next dependents m heap c)
]

unfoldable pub run_cascade : Sequencer → Cascade
run_cascade s =
    let g = graph_of s.emitted s.buffered (record { pending = []; dependents = []; heap = [] }) in
    cascade (length g.heap + length g.pending) g.dependents
      (record { pending = g.pending; heap = g.heap; sequencer = s; out = [] })

-- Drain: what is released, an error where too much is left, and the sequencer after it.
unfoldable pub drain : Sequencer → List Sequenced × Option SequencerError × Sequencer
drain s =
    let c = run_cascade s in
    if length s.buffered == 0 then ([], none, s) else (
      c.out,
      (if ltb c.sequencer.max_orphans (length c.sequencer.buffered)
          then some orphan_buffer_overflow
          else none),
      c.sequencer,
    )

-- Seal
unfoldable pub seal : Sequencer → Option SequencerError
seal s =
    if length s.buffered == 0 then none else some (unrecoverable_antecedent (length s.buffered))

unfoldable pub ingest_all : List Message → Sequencer → Outcome Sequencer
ingest_all [] s = ok s
ingest_all (m ∷ msgs) s = elim (ingest m s) [ err e ↦ err e | ok t ↦ ingest_all msgs t ]

unfoldable pub messages : List Sequenced → List Message
messages [] = []
messages (r ∷ released) = r.msg ∷ messages released

-- Drain and Seal, once the whole batch is in the buffer.
unfoldable pub seal_released :
    List Sequenced × Option SequencerError × Sequencer → Outcome (List Message)
seal_released (released, some e, s) = err e
seal_released (released, none, s) = elim (seal s) [ some e ↦ err e | none ↦ ok (messages released) ]

unfoldable pub release_batch : Sequencer → Outcome (List Message)
release_batch s = seal_released (drain s)

-- SequenceForFold
unfoldable pub sequence_for_fold : List Message → ℕ → Outcome (List Message)
sequence_for_fold msgs max_orphans =
    let capacity = if ltb max_orphans (length msgs) then length msgs else max_orphans in
    elim (ingest_all msgs (new_sequencer capacity)) [ err e ↦ err e | ok s ↦ release_batch s ]

-- PendingAntecedents: for each antecedent that is not released, the ids that wait for it.
unfoldable pub add_pending : List ℕ → ℕ → List ℕ → Dict (List ℕ) → Dict (List ℕ)
add_pending emitted k [] out = out
add_pending emitted k (a ∷ ants) out =
    let more = insert a (dependents_on a out ++ k ∷ []) out in
    add_pending emitted k ants (if a == 0 || contains a emitted then out else more)

unfoldable pub pending_antecedents : List ℕ → Dict Message → Dict (List ℕ) → Dict (List ℕ)
pending_antecedents emitted [] out = out
pending_antecedents emitted ((k, m) ∷ buffered) out =
    pending_antecedents emitted buffered (add_pending emitted k m.antecedents out)
