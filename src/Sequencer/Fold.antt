-- ===== src/Sequencer/Fold.antt =====
-- SequenceForFold: what comes out of a batch, and that the order of its delivery does not matter.
use mathlib.Core.Path.{subst}
use dontguess.Base.{
  ℕ, ◌≡◌, refl, true, false, none, some, List, [], arith, ◌==◌, ltb, if◌then◌else◌, length, ◌+◌,
  ◌≤◌, contains, is_some, Dict, lookup,
}
use dontguess.Proto.{Message}
use dontguess.Sequencer.Types.{
  Sequencer, Outcome, ok, err, empty_id, unrecoverable_antecedent, new_sequencer,
}
use dontguess.Sequencer.Order.{message_of}
use dontguess.Sequencer.Graph.{Indexed}
use dontguess.Sequencer.Canonical.{Canonical, is_ready}
use dontguess.Sequencer.Refinement.{WellFormed, run_cascade-Released, ids}
use dontguess.Sequencer.Loading.{Loads, ingest_all-Loads, ingest_all-nameless}
use dontguess.Sequencer.Batch.{left_of, release_batch-cases}
use dontguess.Sequencer.Drain.{run_cascade, release_batch, sequence_for_fold}

-- A batch that is loaded, released and sealed.
pub record Sequences (msgs : List Message) (o : Outcome (List Message)) : Type 0 where
  pub loaded : Dict Message
  pub out : List Message
  pub rest : Dict Message
  pub released : List ℕ
  pub holds : (k : ℕ) → lookup k loaded ≡ message_of k msgs
  pub canonical : Canonical [] loaded out
  pub left : (k : ℕ) → lookup k rest ≡ (if contains k (ids out) then none else message_of k msgs)
  pub known : (k : ℕ) → contains k released ≡ contains k (ids out)
  pub stuck : (k : ℕ) (m : Message) → lookup k rest ≡ some m → is_ready released m ≡ false
  pub indexed : Indexed rest
  pub result :
      o ≡ (if length rest == 0 then ok out else err (unrecoverable_antecedent (length rest)))

abbrev capacity_of : List Message → ℕ → ℕ
capacity_of msgs n = if ltb n (length msgs) then length msgs else n

new_sequencer-room :
    (msgs : List Message) (n : ℕ)
    → let s = new_sequencer (capacity_of msgs n) in length msgs + s.true_orphans ≤ s.max_orphans
unfolding new_sequencer
new_sequencer-room msgs n = ground arith

new_sequencer-emitted : (n : ℕ) → (new_sequencer n).emitted ≡ []
unfolding new_sequencer
new_sequencer-emitted n = refl

new_sequencer-WellFormed : (n : ℕ) → WellFormed (new_sequencer n)
unfolding new_sequencer lookup contains
new_sequencer-WellFormed n = record { indexed = tt; fresh = λ k m e. refl }

loaded-Sequences :
    (msgs : List Message) (n : ℕ) (t : Sequencer)
    → length msgs ≤ n
    → Loads msgs (new_sequencer n) t
    → Sequences msgs (release_batch t)
unfolding new_sequencer lookup contains
loaded-Sequences msgs n t h l =
    let (out, r) = run_cascade-Released t l.valid.indexed in
    record {
      loaded = t.buffered;
      out = out;
      rest = left_of t;
      released = (run_cascade t).sequencer.emitted;
      holds = l.holds;
      canonical = subst (λ e. Canonical e t.buffered out) l.emitted r.canonical;
      left = λ k. ground (arith, r.left k, l.holds k);
      known = λ k. ground (arith, r.known k, l.emitted);
      stuck = r.stuck;
      indexed = r.indexed;
      result = release_batch-cases t out (ground (arith, l.bounded, l.max_orphans)) r;
    }

-- The batch of messages with ids.
pub sequence_for_fold-Sequences :
    (msgs : List Message) (n : ℕ)
    → message_of 0 msgs ≡ none
    → Sequences msgs (sequence_for_fold msgs n)
unfolding sequence_for_fold
sequence_for_fold-Sequences msgs n e =
    let c = capacity_of msgs n in
    let (t, loaded, l) =
      ingest_all-Loads msgs (new_sequencer c) (new_sequencer-WellFormed c) (new_sequencer-emitted c)
        (new_sequencer-room msgs n) e in
    rw (loaded, sequence_for_fold) (loaded-Sequences msgs c t (ground arith) l)

pub sequence_for_fold-nameless :
    (msgs : List Message) (n : ℕ)
    → is_some (message_of 0 msgs) ≡ true
    → sequence_for_fold msgs n ≡ err empty_id
unfolding sequence_for_fold
sequence_for_fold-nameless msgs n e =
    let refused =
      ingest_all-nameless msgs (new_sequencer (capacity_of msgs n)) (new_sequencer-room msgs n) e in
    rw (refused, sequence_for_fold) refl
