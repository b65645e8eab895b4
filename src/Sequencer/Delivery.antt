-- ===== src/Sequencer/Delivery.antt =====
-- SequenceForFold does not depend on how a batch is delivered.
use dontguess.Base.{
  ℕ, suc, ◌≡◌, refl, sym, ◌∙◌, none, some, List, [], ◌∷◌, inl, inr, arith, Option-cases, length,
  Dict, lookup, erase, lookup-erase,
}
use dontguess.Proto.{Message}
use dontguess.Sequencer.Order.{message_of}
use dontguess.Sequencer.Graph.{Indexed}
use dontguess.Sequencer.Canonical.{Canonical_unique, SameBuffer}
use dontguess.Sequencer.Cascade.{erase-Indexed}
use dontguess.Sequencer.Fold.{sequence_for_fold-Sequences, sequence_for_fold-nameless}
use dontguess.Sequencer.Drain.{sequence_for_fold}

pub erase-absent : (k : ℕ) (b : Dict Message) → lookup k b ≡ none → erase k b ≡ b
unfolding erase lookup
erase-absent k [] e = refl
erase-absent k ((j, m) ∷ b) e = ground (arith, erase-absent k b)

length-erase_found :
    (k : ℕ) (m : Message) (b : Dict Message)
    → Indexed b
    → lookup k b ≡ some m
    → suc (length (erase k b)) ≡ length b
unfolding erase lookup
length-erase_found k m [] i e = cc
length-erase_found k m ((j, n) ∷ b) i e =
    ground (arith, length-erase_found k m b i.2, erase-absent k b)

-- Buffers that agree hold as many messages.
length_same : (b c : Dict Message) → Indexed b → Indexed c → SameBuffer b c → length b ≡ length c
unfolding lookup
length_same [] [] i j s = refl
length_same [] ((k, m) ∷ c) i j s = ground (arith, s k)
length_same ((k, m) ∷ b) c i j s =
    let found : lookup k c ≡ some m = ground (arith, s k) in
    let shorter =
      length_same b (erase k c) i.2 (erase-Indexed k c j)
        (λ n. ground (arith, s n, lookup-erase n k c, i.0)) in
    omega (arith, length-erase_found k m c j found)

-- The fold order is a function of the events, not of their delivery: two batches that have the same
-- message under every id, in any order and with any repetitions of an id after its first message,
-- and under any bounds, are sequenced alike, errors included.
pub sequence_for_fold_same_events :
    (msgs others : List Message) (n m : ℕ)
    → ((k : ℕ) → message_of k msgs ≡ message_of k others)
    → sequence_for_fold msgs n ≡ sequence_for_fold others m
sequence_for_fold_same_events msgs others n m same = elim (Option-cases (message_of 0 msgs)) [
  | inl named ↦
      let a = sequence_for_fold-Sequences msgs n named in
      let b = sequence_for_fold-Sequences others m (ground (arith, same 0)) in
      let out : a.out ≡ b.out =
        Canonical_unique (λ k. refl) (λ k. ground (arith, a.holds k, b.holds k, same k)) a.canonical
          b.canonical in
      let size =
        length_same a.rest b.rest a.indexed b.indexed
          (λ k. ground (arith, a.left k, b.left k, same k, out)) in
      a.result ∙ rw (size, out) (sym b.result)
  | inr (x, nameless) ↦
      sequence_for_fold-nameless msgs n (rw nameless refl)
      ∙ sym (sequence_for_fold-nameless others m (rw (← same 0, nameless) refl))
]
