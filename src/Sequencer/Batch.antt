-- ===== src/Sequencer/Batch.antt =====
-- SequenceForFold: what comes out of a batch, and that the order of its delivery does not matter.
use dontguess.Base.{
  ℕ, ◌≡◌, refl, ◌∙◌, true, false, none, some, List, [], inl, inr, arith, ◌==◌, ltb, if◌then◌else◌,
  Bool-cases, length, ◌≤◌, Dict,
}
use dontguess.Proto.{Message}
use dontguess.Sequencer.Types.{Sequencer, Sequenced, ok, err, unrecoverable_antecedent}
use dontguess.Sequencer.Canonical.{Canonical}
use dontguess.Sequencer.Refinement.{Released, start_of, lookup_nothing}
use dontguess.Sequencer.Drain.{run_cascade, drain, seal, messages, seal_released, release_batch}

-- The buffer that is left when nothing more is released.
abbrev pub left_of : Sequencer → Dict Message
left_of s = (run_cascade s).sequencer.buffered

Canonical_nothing :
    {emitted : List ℕ} {buffered : Dict Message} {out : List Message}
    → Canonical emitted buffered out
    → (length buffered == 0) ≡ true
    → out ≡ []
Canonical_nothing (Canonical.done stuck) h = refl
Canonical_nothing {emitted} {buffered} (Canonical.next m found ready least rest) h =
    absurd (ground (arith, lookup_nothing m.id buffered h))

seal-cases :
    (s : Sequencer)
    → seal s ≡ (
        if length s.buffered == 0
        then none
        else some (unrecoverable_antecedent (length s.buffered)))
unfolding seal
seal-cases s = refl

seal_released-cases :
    (released : List Sequenced) (s : Sequencer)
    → seal_released (released, none, s) ≡ (
        if length s.buffered == 0
        then ok (messages released)
        else err (unrecoverable_antecedent (length s.buffered)))
unfolding seal_released
seal_released-cases released s = elim (Bool-cases (length s.buffered == 0)) [
  | inl e ↦
      let closed : seal s ≡ none = seal-cases s ∙ rw e refl in rw (e, closed, seal_released) refl
  | inr e ↦
      let open_chain : seal s ≡ some (unrecoverable_antecedent (length s.buffered)) =
        seal-cases s ∙ rw e refl in
      rw (e, open_chain, seal_released) refl
]

-- Drain and Seal: everything is released, or the rest is named.
pub release_batch-cases :
    (s : Sequencer) (out : List Message)
    → length s.buffered ≤ s.max_orphans
    → Released (start_of s) (run_cascade s) out
    → release_batch s ≡ (
        if length (left_of s) == 0
        then ok out
        else err (unrecoverable_antecedent (length (left_of s))))
unfolding release_batch drain messages
release_batch-cases s out h r =
    let c = run_cascade s in
    elim (Bool-cases (length s.buffered == 0)) [
      | inl e ↦
          let none_left : (length (left_of s) == 0) ≡ true = ground (arith, r.shrinks) in
          let none_out : out ≡ [] = Canonical_nothing r.canonical e in
          rw (none_left, none_out, e) (seal_released-cases [] s ∙ rw e refl)
      | inr e ↦
          let fits : ltb c.sequencer.max_orphans (length c.sequencer.buffered) ≡ false =
            ground (arith, r.shrinks, r.bound) in
          rw (e, fits) (seal_released-cases c.out c.sequencer ∙ rw r.grown refl)
    ]
