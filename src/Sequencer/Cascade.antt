-- ===== src/Sequencer/Cascade.antt =====
-- The loop of Drain keeps its variables in step with the buffer.
use dontguess.Base.{
  ℕ, ◌≡◌, refl, Bool, not, ◌&&◌, true, false, Option, none, some, List, [], ◌∷◌, inl, inr, arith,
  ◌==◌, Bool-cases, Option-cases, length, contains, is_some, Dict, lookup, erase, lookup-erase,
}
use dontguess.Proto.{Message}
use dontguess.Sequencer.Order.{message_of}
use dontguess.Sequencer.Heap.{Popped}
use dontguess.Sequencer.Awaited.{Unique, length-awaited, contains-awaited, contains-length}
use dontguess.Sequencer.Graph.{
  Indexed, awaits, lookup-graph_of, message_of-graph_of, graph_of-Distinct, dependents_on-graph_of,
  graph_of-Unique,
}
use dontguess.Sequencer.Waking.{Tracks, wake-Tracks}
use dontguess.Sequencer.Drain.{awaited, Graph, dependents_on, graph_of, wake}

-- An id that is released and no longer buffered; one may be buffered and released, where
-- MarkEmitted named it.
abbrev gone_from : ℕ → List ℕ → Dict Message → Bool
gone_from a emitted buffered = contains a emitted && not (is_some (lookup a buffered))

-- What the loop's variables are, for a buffer and a set of released ids.
pub record Follows (emitted : List ℕ) (buffered : Dict Message) (dependents : Dict (List ℕ))
    (pending : Dict ℕ) (heap : List Message) : Type 0 where
  pub indexed : Indexed buffered
  pub tracks : Tracks emitted buffered [] pending heap
  pub linked :
      (a k : ℕ)
      → gone_from a emitted buffered ≡ false
      → contains k (dependents_on a dependents) ≡ awaits a emitted (lookup k buffered)
  pub once : (a : ℕ) → Unique (dependents_on a dependents)

pub erase-Indexed :
    (k : ℕ) (buffered : Dict Message) → Indexed buffered → Indexed (erase k buffered)
unfolding erase
erase-Indexed k [] i = tt
erase-Indexed k ((j, m) ∷ buffered) i =
    ground (arith, erase-Indexed k buffered i.2, lookup-erase j k buffered)

module _ (emitted : List ℕ) (buffered : Dict Message) (dependents : Dict (List ℕ))
    (pending : Dict ℕ) (heap rest : List Message) (m : Message)
    (f : Follows emitted buffered dependents pending heap) (p : Popped heap m rest) where
  -- What the heap holds is in the buffer, and waits for nothing.
  pub popped_buffered : lookup m.id buffered ≡ some m
  popped_buffered = elim (Option-cases (lookup m.id buffered)) [
    | inl e ↦ absurd (ground (arith, f.tracks.absent m.id e, p.found))
    | inr (n, e) ↦ ground (arith, f.tracks.ready m.id n e, p.found)
  ]

  pub popped_awaits_none : length (awaited emitted m) ≡ 0
  unfolding contains
  popped_awaits_none = ground (arith, f.tracks.ready m.id m popped_buffered, p.found)

  abbrev left : Dict Message
  left = erase m.id buffered

  popped_present : gone_from m.id emitted buffered ≡ false
  popped_present = ground (arith, popped_buffered)

  waiter_left :
      (k : ℕ) → contains k (dependents_on m.id dependents) ≡ true → is_some (lookup k left) ≡ true
  waiter_left k c =
      let link = f.linked m.id k popped_present in
      elim (Option-cases (lookup k buffered)) [
        | inl e ↦
            absurd (let off : awaits m.id emitted (lookup k buffered) ≡ false = rw e refl in cc)
        | inr (n, e) ↦
            let on : contains m.id (awaited emitted n) ≡ true = rw (← c, link, e) refl in
            let long = contains-length m.id (awaited emitted n) on in
            ground (arith, popped_buffered, popped_awaits_none, lookup-erase k m.id buffered)
      ]

  -- Before the loop over the dependents.
  popped-Tracks :
      Tracks (m.id ∷ emitted) left (dependents_on m.id dependents) (erase m.id pending) rest
  unfolding contains
  popped-Tracks =
      let new = popped_present in
      record {
        absent = λ k e. ground (arith, p.others k, lookup-erase k m.id buffered, f.tracks.absent k);
        ready = λ k n e. ground (
          arith,
          p.others k,
          lookup-erase k m.id buffered,
          f.tracks.ready k n,
          f.linked m.id k new,
          length-awaited m.id emitted n,
        );
        counted = λ k n e c. ground (
          arith,
          lookup-erase k m.id pending,
          lookup-erase k m.id buffered,
          f.tracks.counted k n,
          f.linked m.id k new,
          length-awaited m.id emitted n,
        );
        distinct = p.distinct;
        known = λ k c. waiter_left k c;
        unique = f.once m.id;
      }

  linked_after :
      (a k : ℕ)
      → gone_from a (m.id ∷ emitted) left ≡ false
      → contains k (dependents_on a dependents) ≡ awaits a (m.id ∷ emitted) (lookup k left)
  unfolding contains
  linked_after a k h =
      let past = lookup-erase a m.id buffered in
      let another : (a == m.id) ≡ false = ground (arith, past) in
      let link = f.linked a k (ground (arith, past, another)) in
      let cut = lookup-erase k m.id buffered in
      elim (Bool-cases (k == m.id)) [
        | inl same ↦
            let gone : lookup k left ≡ none = ground arith in
            let it : lookup k buffered ≡ some m = ground (arith, popped_buffered) in
            let off : contains a (awaited emitted m) ≡ false =
              ground (arith, contains-length a (awaited emitted m), popped_awaits_none) in
            rw gone (rw (link, it) off)
        | inr other ↦
            let kept : lookup k left ≡ lookup k buffered = ground arith in
            rw (kept, link) (awaits_after a (lookup k buffered) another)
      ]
    where
      awaits_after :
          (a : ℕ) (o : Option Message)
          → (a == m.id) ≡ false
          → awaits a emitted o ≡ awaits a (m.id ∷ emitted) o
      awaits_after a none h = refl
      awaits_after a (some n) h =
          ground (arith, contains-awaited a emitted n, contains-awaited a (m.id ∷ emitted) n)

  -- One round of the loop.
  pub round-Follows :
      let woken = wake left (dependents_on m.id dependents) (erase m.id pending, rest) in
      Follows (m.id ∷ emitted) left dependents woken.0 woken.1
  unfolding contains
  round-Follows =
      let indexed = erase-Indexed m.id buffered f.indexed in
      record {
        indexed = indexed;
        tracks =
            wake-Tracks (m.id ∷ emitted) left indexed (dependents_on m.id dependents)
              (erase m.id pending, rest) popped-Tracks;
        linked = linked_after;
        once = f.once;
      }

-- The graph of a buffer.
pub graph_of-Follows :
    (emitted : List ℕ) (buffered : Dict Message)
    → Indexed buffered
    → let g = graph_of emitted buffered (record { pending = []; dependents = []; heap = [] }) in
      Follows emitted buffered g.dependents g.pending g.heap
unfolding contains lookup message_of dependents_on
graph_of-Follows emitted buffered i =
    let start : Graph = record { pending = []; dependents = []; heap = [] } in
    record {
      indexed = i;
      tracks = record {
        absent = λ k e. ground (arith, message_of-graph_of k emitted buffered start i);
        ready = λ k m e. ground (arith, message_of-graph_of k emitted buffered start i);
        counted = λ k m e c. ground (arith, lookup-graph_of k emitted buffered start i);
        distinct = graph_of-Distinct emitted buffered start i tt λ k m e. refl;
        known = λ k c. absurd (ground arith);
        unique = tt;
      };
      linked = λ a k h. dependents_on-graph_of a k emitted buffered start i;
      once = λ a. graph_of-Unique a emitted buffered start i tt λ k m e. refl;
    }
