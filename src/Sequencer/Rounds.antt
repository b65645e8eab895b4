-- ===== src/Sequencer/Rounds.antt =====
-- How long the loop of Drain runs.
use dontguess.Base.{
  ℕ, zero, suc, ◌≡◌, refl, none, some, List, [], ◌∷◌, ◌++◌, inl, inr, arith, Option-cases, length,
  ◌+◌, ◌-◌, ◌≤◌, Dict, lookup, erase, insert,
}
use dontguess.Proto.{Message}
use dontguess.Sequencer.Order.{pop_among, pop_least}
use dontguess.Sequencer.Drain.{
  dependents_on, wake_one, wake, Cascade, release, release_next, cascade,
}

pub length-erase_le {ℓ} : {V : Type ℓ} (k : ℕ) (d : Dict V) → length (erase k d) ≤ length d
unfolding erase
length-erase_le k [] = omega arith
length-erase_le k ((j, v) ∷ d) = ground (arith, length-erase_le k d)

length-erase_lt {ℓ} :
    {V : Type ℓ} (k : ℕ) (v : V) (d : Dict V)
    → lookup k d ≡ some v
    → suc (length (erase k d)) ≤ length d
unfolding erase lookup
length-erase_lt k v [] e = cc
length-erase_lt k v ((j, w) ∷ d) e = ground (arith, length-erase_lt k v d, length-erase_le k d)

length-insert_eq {ℓ} :
    {V : Type ℓ} (k : ℕ) (v w : V) (d : Dict V)
    → lookup k d ≡ some v
    → length (insert k w d) ≡ length d
unfolding insert lookup
length-insert_eq k v w [] e = cc
length-insert_eq k v w ((j, x) ∷ d) e = ground (arith, length-insert_eq k v w d)

pub length-append {ℓ} : {A : Type ℓ} (l : List A) (a : A) → length (l ++ a ∷ []) ≡ suc (length l)
length-append [] a = refl
length-append (b ∷ l) a = omega (arith, length-append l a)

-- The rounds that are left at most.
abbrev pub rounds : Dict ℕ × List Message → ℕ
rounds r = length r.1 + length r.0

wake_one-rounds :
    (buffered : Dict Message) (k : ℕ) (r : Dict ℕ × List Message)
    → rounds (wake_one buffered k r) ≤ rounds r
unfolding wake_one
wake_one-rounds buffered k (pending, heap) = elim (Option-cases (lookup k pending)) [
  | inl e ↦ ground arith
  | inr (left, e) ↦ elim (Option-cases (lookup k buffered)) [
    | inl f ↦
        ground
          (arith, length-erase_lt k left pending e, length-insert_eq k left (left - 1) pending e)
    | inr (m, f) ↦ ground (
      arith,
      length-erase_lt k left pending e,
      length-insert_eq k left (left - 1) pending e,
      length-append heap m,
    )
  ]
]

wake-rounds :
    (buffered : Dict Message) (waiting : List ℕ) (r : Dict ℕ × List Message)
    → rounds (wake buffered waiting r) ≤ rounds r
unfolding wake
wake-rounds buffered [] r = omega arith
wake-rounds buffered (k ∷ waiting) r =
    omega
      (arith, wake_one-rounds buffered k r, wake-rounds buffered waiting (wake_one buffered k r))

pub pop_least-empty : (h : List Message) → pop_least h ≡ none → h ≡ []
unfolding pop_least pop_among
pop_least-empty [] e = refl
pop_least-empty (m ∷ h) e = elim (Option-cases (pop_least h)) [
  | inl f ↦ ground arith
  | inr ((n, rest), f) ↦ ground arith
]

pop_least-shorter :
    (h : List Message) (m : Message) (rest : List Message)
    → pop_least h ≡ some (m, rest)
    → length h ≡ suc (length rest)
unfolding pop_least pop_among
pop_least-shorter [] m rest e = cc
pop_least-shorter (x ∷ h) m rest e = elim (Option-cases (pop_least h)) [
  | inl f ↦ ground arith
  | inr ((n, others), f) ↦ ground (arith, pop_least-shorter h n others f)
]

pub release_next-rounds :
    (dependents : Dict (List ℕ)) (m : Message) (heap : List Message) (c : Cascade)
    → pop_least c.heap ≡ some (m, heap)
    → let d = release_next dependents m heap c in
      suc (rounds (d.pending, d.heap)) ≤ rounds (c.pending, c.heap)
unfolding release_next
release_next-rounds dependents m heap c e =
    let s = release m c.sequencer in
    omega (
      arith,
      pop_least-shorter c.heap m heap e,
      length-erase_le m.id c.pending,
      wake-rounds s.buffered (dependents_on m.id dependents) (erase m.id c.pending, heap),
    )

no_entries {ℓ} : {A : Type ℓ} (l : List A) → length l ≤ 0 → l ≡ []
no_entries [] h = refl
no_entries (a ∷ l) h = absurd (omega arith)

-- The loop ends by its own test: after as many rounds as the heap and the table of pending messages
-- have entries, or more, the heap is empty.
pub cascade-ends :
    (fuel : ℕ) (dependents : Dict (List ℕ)) (c : Cascade)
    → length c.heap + length c.pending ≤ fuel
    → (cascade fuel dependents c).heap ≡ []
unfolding cascade
cascade-ends zero dependents c h = no_entries c.heap (omega arith)
cascade-ends (suc n) dependents c h = elim (Option-cases (pop_least c.heap)) [
  | inl e ↦ rw (e, cascade) (pop_least-empty c.heap e)
  | inr ((m, heap), e) ↦
      let less = release_next-rounds dependents m heap c e in
      rw (e, cascade) (cascade-ends n dependents (release_next dependents m heap c) (omega arith))
]
