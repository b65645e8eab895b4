-- ===== src/Sequencer/Closure.antt =====
-- SequenceForFold returns every event after its antecedents, and it returns where that is possible.
use dontguess.Base.{
  ℕ, ◌≡◌, refl, sym, ◌∙◌, true, false, none, some, List, [], ◌∷◌, inl, inr, arith, ◌==◌,
  if◌then◌else◌, Bool-cases, Option-cases, length, is_some, Dict, lookup, lookup-erase, contains,
}
use dontguess.Proto.{Message}
use dontguess.Sequencer.Types.{Outcome, ok, err, unrecoverable_antecedent}
use dontguess.Sequencer.Order.{message_of}
use dontguess.Sequencer.Canonical.{Canonical, is_ready, all_released}
use dontguess.Sequencer.Refinement.{ids, lookup_nothing}
use dontguess.Sequencer.Fold.{Sequences, sequence_for_fold-Sequences, sequence_for_fold-nameless}
use dontguess.Sequencer.Drain.{sequence_for_fold}

-- Each message comes once, and after all of its antecedents.
abbrev pub CausalFrom : List ℕ → List Message → Type 0
CausalFrom before [] = Unit
CausalFrom before (m ∷ msgs) =
    (contains m.id before ≡ false) × (is_ready before m ≡ true) × CausalFrom (m.id ∷ before) msgs

Canonical-CausalFrom :
    {emitted : List ℕ} {buffered : Dict Message} {out : List Message}
    → ((k : ℕ) (m : Message) → lookup k buffered ≡ some m → contains k emitted ≡ false)
    → Canonical emitted buffered out
    → CausalFrom emitted out
unfolding contains
Canonical-CausalFrom fresh (Canonical.done stuck) = tt
Canonical-CausalFrom {emitted} {buffered} fresh (Canonical.next m found ready least rest) = (
  fresh m.id m found,
  ready,
  Canonical-CausalFrom (λ k n e. ground (arith, fresh k n, lookup-erase k m.id buffered)) rest,
)

-- What is released stood in the buffer.
Canonical-message_of :
    {emitted : List ℕ} {buffered : Dict Message} {out : List Message} (k : ℕ)
    → Canonical emitted buffered out
    → message_of k out ≡ (if contains k (ids out) then lookup k buffered else none)
unfolding contains message_of ids
Canonical-message_of k (Canonical.done stuck) = refl
Canonical-message_of {emitted} {buffered} k (Canonical.next m found ready least rest) =
    ground (arith, found, Canonical-message_of k rest, lookup-erase k m.id buffered)

-- What SequenceForFold returns has the message of every id of the batch, once, and each message comes
-- after all of its antecedents.
pub sequence_for_fold-CausalFrom :
    (msgs out : List Message) (n : ℕ)
    → sequence_for_fold msgs n ≡ ok out
    → CausalFrom [] out × ((k : ℕ) → message_of k out ≡ message_of k msgs)
unfolding contains
sequence_for_fold-CausalFrom msgs out n e = elim (Option-cases (message_of 0 msgs)) [
  | inr (x, nameless) ↦
      absurd (let refused = sequence_for_fold-nameless msgs n (rw nameless refl) in cc)
  | inl named ↦
      let a = sequence_for_fold-Sequences msgs n named in
      elim (Bool-cases (length a.rest == 0)) [
        | inr more ↦ absurd (
            let r : ok out ≡ err (unrecoverable_antecedent (length a.rest)) =
              sym e ∙ a.result ∙ rw more refl in
            cc)
        | inl all ↦
            let r : ok out ≡ ok a.out = sym e ∙ a.result ∙ rw all refl in
            let same : out ≡ a.out = cc in
            rw same (
              Canonical-CausalFrom (λ k m f. refl) a.canonical,
              λ k. ground (
                arith,
                Canonical-message_of k a.canonical,
                a.holds k,
                a.left k,
                lookup_nothing k a.rest all,
              ),
            )
      ]
]

all_released_more :
    (l r ants : List ℕ)
    → ((k : ℕ) → contains k l ≡ true → contains k r ≡ true)
    → all_released l ants ≡ true
    → all_released r ants ≡ true
unfolding all_released
all_released_more l r [] h e = refl
all_released_more l r (a ∷ ants) h e = ground (arith, h a, all_released_more l r ants h)

module _ (msgs order : List Message) (o : Outcome (List Message)) (a : Sequences msgs o)
    (same : (k : ℕ) → message_of k order ≡ message_of k msgs) where
  -- Along a causal order nothing is left behind.
  covers :
      (before : List ℕ) (todo : List Message)
      → ((k : ℕ) → contains k before ≡ true → contains k a.released ≡ true)
      → ((k : ℕ) → contains k before ≡ false → message_of k order ≡ message_of k todo)
      → CausalFrom before todo
      → (k : ℕ) → is_some (message_of k todo) ≡ true
      → contains k a.released ≡ true
  unfolding contains message_of
  covers before [] h c causal k e = cc
  covers before (m ∷ todo) h c causal k e =
      let ready = all_released_more before a.released m.antecedents h causal.1 in
      let gone : contains m.id a.released ≡ true = elim (Bool-cases (contains m.id a.released)) [
        | inl met ↦ met
        | inr unmet ↦
            absurd (
              ground (arith, a.stuck m.id m, a.left m.id, a.known m.id, same m.id, c m.id causal.0))
      ] in
      elim (Bool-cases (k == m.id)) [
        | inl it ↦ ground (arith, gone)
        | inr other ↦
            covers (m.id ∷ before) todo (λ j d. ground (arith, gone, h j))
              (λ j d. ground (arith, c j)) causal.2 k (ground arith)
      ]

  all_covered : CausalFrom [] order → (length a.rest == 0) ≡ true
  unfolding contains lookup
  all_covered causal = none_left a.rest λ k m e.
      let gone = covers [] order (λ j d. absurd (ground arith)) (λ j d. refl) causal k in
      ground (arith, a.left k, a.known k, same k, gone)
    where
      none_left :
          (d : Dict Message)
          → ((k : ℕ) (m : Message) → lookup k d ≡ some m → ⊥)
          → (length d == 0) ≡ true
      none_left [] h = refl
      none_left ((k, m) ∷ d) h = absurd (h k m (ground arith))

-- A batch that can be put in a causal order at all is sequenced: where every message has an id and some
-- list of the same events has each once and after its antecedents, SequenceForFold returns a list.
pub sequence_for_fold_complete :
    (msgs order : List Message) (n : ℕ)
    → message_of 0 msgs ≡ none
    → ((k : ℕ) → message_of k order ≡ message_of k msgs)
    → CausalFrom [] order
    → (out : List Message) × (sequence_for_fold msgs n ≡ ok out)
sequence_for_fold_complete msgs order n named same causal =
    let a = sequence_for_fold-Sequences msgs n named in
    let all = all_covered msgs order (sequence_for_fold msgs n) a same causal in
    (a.out, a.result ∙ rw all refl)
