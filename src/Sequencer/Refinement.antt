-- ===== src/Sequencer/Refinement.antt =====
-- Drain releases in the canonical order.
use dontguess.Base.{
  ℕ, zero, suc, ◌≡◌, refl, sym, ◌∙◌, ap, true, false, none, some, List, [], ◌∷◌, ◌++◌, inl, inr,
  arith, ◌==◌, ◌||◌, if◌then◌else◌, Bool-cases, Option-cases, length, ◌+◌, ◌≤◌, contains, Dict,
  lookup, erase, lookup-erase,
}
use mathlib.Core.Path.{subst}
use mathlib.Core.List.{append-nil, append_assoc}
use dontguess.Proto.{Message}
use dontguess.Sequencer.Types.{Sequenced, Sequencer}
use dontguess.Sequencer.Order.{pop_least, message_of}
use dontguess.Sequencer.Heap.{Popped, Pops, pop_least-Pops}
use dontguess.Sequencer.Awaited.{awaited-all_released}
use dontguess.Sequencer.Graph.{Indexed, keys}
use dontguess.Sequencer.Ingest.{remove_from}
use dontguess.Sequencer.Canonical.{Canonical, is_ready}
use dontguess.Sequencer.Cascade.{
  Follows, popped_buffered, popped_awaits_none, round-Follows, graph_of-Follows,
}
use dontguess.Sequencer.Rounds.{length-erase_le, release_next-rounds, cascade-ends, pop_least-empty}
use dontguess.Sequencer.Drain.{
  graph_of, Cascade, release, release_next, cascade, messages, run_cascade, drain,
}

-- The ids of messages.
unfoldable pub ids : List Message → List ℕ
ids [] = []
ids (m ∷ out) = m.id ∷ ids out

messages-append :
    (l : List Sequenced) (r : Sequenced) → messages (l ++ r ∷ []) ≡ messages l ++ r.msg ∷ []
unfolding messages
messages-append [] r = refl
messages-append (x ∷ l) r = ap (λ t. x.msg ∷ t) (messages-append l r)

-- What the loop did from c on, to end as d.
pub record Released (c d : Cascade) (out : List Message) : Type 0 where
  pub grown : messages d.out ≡ messages c.out ++ out
  pub canonical : Canonical c.sequencer.emitted c.sequencer.buffered out
  pub left :
      (k : ℕ)
      → lookup k d.sequencer.buffered
        ≡ (if contains k (ids out) then none else lookup k c.sequencer.buffered)
  pub known :
      (k : ℕ)
      → contains k d.sequencer.emitted ≡ (contains k (ids out) || contains k c.sequencer.emitted)
  pub stuck :
      (k : ℕ) (m : Message)
      → lookup k d.sequencer.buffered ≡ some m
      → is_ready d.sequencer.emitted m ≡ false
  pub bound : d.sequencer.max_orphans ≡ c.sequencer.max_orphans
  pub indexed : Indexed d.sequencer.buffered
  pub in_order :
      c.sequencer.order ≡ keys c.sequencer.buffered → d.sequencer.order ≡ keys d.sequencer.buffered
  pub shrinks : length d.sequencer.buffered ≤ length c.sequencer.buffered

module _ {emitted : List ℕ} {buffered : Dict Message} {dependents : Dict (List ℕ)}
    {pending : Dict ℕ} {heap : List Message}
    (f : Follows emitted buffered dependents pending heap) where
  -- What is ready stands in the heap.
  in_heap :
      (k : ℕ) (m : Message)
      → lookup k buffered ≡ some m
      → is_ready emitted m ≡ true
      → message_of k heap ≡ some m
  unfolding contains
  in_heap k m e r = ground (arith, f.tracks.ready k m e, awaited-all_released emitted m)

  empty-stuck :
      heap ≡ [] → (k : ℕ) (m : Message) → lookup k buffered ≡ some m → is_ready emitted m ≡ false
  unfolding message_of
  empty-stuck h k m e = elim (Bool-cases (is_ready emitted m)) [
    | inl r ↦ absurd (let g = in_heap k m e r in ground (arith, h))
    | inr r ↦ r
  ]

-- The loop ends.
Released-end :
    (dependents : Dict (List ℕ)) (c : Cascade)
    → Follows c.sequencer.emitted c.sequencer.buffered dependents c.pending c.heap
    → c.heap ≡ []
    → Released c c []
unfolding contains ids
Released-end dependents c f h = record {
  grown = sym (append-nil (messages c.out));
  canonical = Canonical.done (empty-stuck f h);
  left = λ k. refl;
  known = λ k. refl;
  stuck = empty-stuck f h;
  bound = refl;
  indexed = f.indexed;
  in_order = λ q. q;
  shrinks = omega arith;
}

keys-erase : (k : ℕ) (d : Dict Message) → keys (erase k d) ≡ remove_from k (keys d)
unfolding erase remove_from
keys-erase k [] = refl
keys-erase k ((j, m) ∷ d) = ground (arith, keys-erase k d)

-- One round, then the rest of the loop.
Released-round :
    (dependents : Dict (List ℕ)) (m : Message) (heap out : List Message) (c d : Cascade)
    → Follows c.sequencer.emitted c.sequencer.buffered dependents c.pending c.heap
    → Popped c.heap m heap
    → Released (release_next dependents m heap c) d out
    → Released c d (m ∷ out)
unfolding release_next release contains ids
Released-round dependents m heap out c d f p r =
    let found = popped_buffered _ _ _ _ _ heap m f p in
    let none_left = popped_awaits_none _ _ _ _ _ heap m f p in
    record {
      grown =
          r.grown
          ∙ rw (messages-append c.out (record { seq = c.sequencer.next_seq; msg = m }))
              (append_assoc (messages c.out) (m ∷ []) out);
      canonical =
          Canonical.next m found (ground (arith, awaited-all_released c.sequencer.emitted m))
            (λ k n e z. p.least k n (in_heap f k n e z)) r.canonical;
      left = λ k. ground (arith, r.left k, lookup-erase k m.id c.sequencer.buffered);
      known = λ k. ground (arith, r.known k);
      stuck = r.stuck;
      bound = r.bound;
      indexed = r.indexed;
      in_order =
          λ q. r.in_order (ap (remove_from m.id) q ∙ sym (keys-erase m.id c.sequencer.buffered));
      shrinks = omega (arith, r.shrinks, length-erase_le m.id c.sequencer.buffered);
    }

cascade-Released :
    (fuel : ℕ) (dependents : Dict (List ℕ)) (c : Cascade)
    → Follows c.sequencer.emitted c.sequencer.buffered dependents c.pending c.heap
    → length c.heap + length c.pending ≤ fuel
    → (out : List Message) × Released c (cascade fuel dependents c) out
unfolding cascade release_next release
cascade-Released zero dependents c f h =
    ([], Released-end dependents c f (cascade-ends zero dependents c h))
cascade-Released (suc n) dependents c f h = elim (Option-cases (pop_least c.heap)) [
  | inl e ↦ rw (e, cascade) ([], Released-end dependents c f (pop_least-empty c.heap e))
  | inr ((m, heap), e) ↦
      let p : Popped c.heap m heap =
        subst (λ o. Pops c.heap o) e (pop_least-Pops c.heap f.tracks.distinct) in
      let next = release_next dependents m heap c in
      let fewer = release_next-rounds dependents m heap c e in
      let g : Follows next.sequencer.emitted next.sequencer.buffered dependents next.pending
          next.heap =
        round-Follows _ _ _ _ _ heap m f p in
      let (out, r) = cascade-Released n dependents next g (omega arith) in
      rw (e, cascade)
        (m ∷ out, Released-round dependents m heap out c (cascade n dependents next) f p r)
]

-- A buffer of messages that are not released, each once and under its id.
pub record WellFormed (s : Sequencer) : Type 0 where
  pub indexed : Indexed s.buffered
  pub fresh : (k : ℕ) (m : Message) → lookup k s.buffered ≡ some m → contains k s.emitted ≡ false

abbrev pub start_of : Sequencer → Cascade
start_of s =
    let g = graph_of s.emitted s.buffered (record { pending = []; dependents = []; heap = [] }) in
    record { pending = g.pending; heap = g.heap; sequencer = s; out = [] }

pub run_cascade-Released :
    (s : Sequencer)
    → Indexed s.buffered
    → (out : List Message) × Released (start_of s) (run_cascade s) out
unfolding run_cascade
run_cascade-Released s v =
    let g = graph_of s.emitted s.buffered (record { pending = []; dependents = []; heap = [] }) in
    cascade-Released (length g.heap + length g.pending) g.dependents (start_of s)
      (graph_of-Follows s.emitted s.buffered v) (omega arith)

pub lookup_nothing : (k : ℕ) (d : Dict Message) → (length d == 0) ≡ true → lookup k d ≡ none
unfolding lookup
lookup_nothing k [] h = refl
lookup_nothing k ((j, m) ∷ d) h = ground arith

-- Drain refines the canonical release order: on a buffer of messages, each once and under its id, what
-- it returns is what the order releases from that buffer.
pub drain-Canonical :
    (s : Sequencer) → Indexed s.buffered → Canonical s.emitted s.buffered (messages (drain s).0)
unfolding drain messages
drain-Canonical s v = elim (Bool-cases (length s.buffered == 0)) [
  | inl e ↦ rw e (Canonical.done λ k m a. ground (arith, lookup_nothing k s.buffered e))
  | inr e ↦ let (out, r) = run_cascade-Released s v in rw e (rw r.grown r.canonical)
]
