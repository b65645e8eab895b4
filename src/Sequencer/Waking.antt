-- ===== src/Sequencer/Waking.antt =====
-- The loop of Drain over the dependents of a released message: `pending` and the heap, with some of
-- the dependents still to be woken.
use dontguess.Base.{
  ℕ, suc, ◌≡◌, Bool, true, false, not, none, some, List, [], ◌∷◌, ◌++◌, inl, inr, arith, ◌==◌, ◌||◌,
  if◌then◌else◌, Bool-cases, Option-cases, length, ◌+◌, contains, is_some, Dict, lookup, insert,
  erase, lookup-insert, lookup-erase,
}
use dontguess.Proto.{Message}
use dontguess.Sequencer.Order.{message_of}
use dontguess.Sequencer.Heap.{Distinct, message_of-append, append-Distinct}
use dontguess.Sequencer.Awaited.{Unique}
use dontguess.Sequencer.Graph.{Indexed, Indexed-id}
use dontguess.Sequencer.Drain.{awaited, wake_one, wake}

abbrev one_if : Bool → ℕ
one_if b = if b then 1 else 0

-- An id that still waits to be woken counts one antecedent too many, and is not in the heap.
pub record Tracks (emitted : List ℕ) (buffered : Dict Message) (waiting : List ℕ) (pending : Dict ℕ)
    (heap : List Message) : Type 0 where
  pub absent : (k : ℕ) → lookup k buffered ≡ none → message_of k heap ≡ none
  pub ready :
      (k : ℕ) (m : Message)
      → lookup k buffered ≡ some m
      → message_of k heap ≡ (
          if contains k waiting
          then none
          else (if length (awaited emitted m) == 0 then some m else none))
  pub counted :
      (k : ℕ) (m : Message)
      → lookup k buffered ≡ some m
      → (contains k waiting || not (length (awaited emitted m) == 0)) ≡ true
      → lookup k pending ≡ some (length (awaited emitted m) + one_if (contains k waiting))
  pub distinct : Distinct heap
  pub known : (k : ℕ) → contains k waiting ≡ true → is_some (lookup k buffered) ≡ true
  pub unique : Unique waiting

module _ (emitted : List ℕ) (buffered : Dict Message) (i : Indexed buffered) where
  -- The last antecedent: the message goes to the heap.
  wake_last :
      (d : ℕ) (m : Message) (waiting : List ℕ) (pending : Dict ℕ) (heap : List Message)
      → lookup d buffered ≡ some m
      → length (awaited emitted m) ≡ 0
      → Tracks emitted buffered (d ∷ waiting) pending heap
      → Tracks emitted buffered waiting (erase d pending) (heap ++ m ∷ [])
  unfolding contains
  wake_last d m waiting pending heap e z t =
      let named = Indexed-id d m buffered i e in
      record {
        absent = λ k a. ground (arith, t.absent k a, message_of-append k heap m);
        ready = λ k n f. ground (arith, t.ready k n f, message_of-append k heap m, t.unique.0);
        counted = λ k n f c. ground (arith, t.counted k n f, lookup-erase k d pending, t.unique.0);
        distinct = append-Distinct heap m t.distinct (ground (arith, t.ready d m e));
        known = λ k c. ground (arith, t.known k);
        unique = t.unique.1;
      }

  -- One antecedent fewer.
  wake_other :
      (d : ℕ) (m : Message) (waiting : List ℕ) (pending : Dict ℕ) (heap : List Message)
      → lookup d buffered ≡ some m
      → (length (awaited emitted m) == 0) ≡ false
      → Tracks emitted buffered (d ∷ waiting) pending heap
      → Tracks emitted buffered waiting (insert d (length (awaited emitted m)) pending) heap
  unfolding contains
  wake_other d m waiting pending heap e z t = record {
    absent = t.absent;
    ready = λ k n f. ground (arith, t.ready k n f, t.unique.0);
    counted = λ k n f c. ground (
      arith,
      t.counted k n f,
      lookup-insert k d (length (awaited emitted m)) pending,
      t.unique.0,
    );
    distinct = t.distinct;
    known = λ k c. ground (arith, t.known k);
    unique = t.unique.1;
  }

  wake_one-Tracks :
      (d : ℕ) (waiting : List ℕ) (r : Dict ℕ × List Message)
      → Tracks emitted buffered (d ∷ waiting) r.0 r.1
      → Tracks emitted buffered waiting (wake_one buffered d r).0 (wake_one buffered d r).1
  unfolding wake_one contains
  wake_one-Tracks d waiting (pending, heap) t = elim (Option-cases (lookup d buffered)) [
    | inl e ↦ absurd (ground (arith, t.known d))
    | inr (m, e) ↦
        let n = length (awaited emitted m) in
        let at : lookup d pending ≡ some (suc n) = ground (arith, t.counted d m e) in
        elim (Bool-cases (n == 0)) [
          | inl z ↦
              let step : wake_one buffered d (pending, heap) ≡ (erase d pending, heap ++ m ∷ []) =
                ground arith in
              rw step (wake_last d m waiting pending heap e (ground arith) t)
          | inr z ↦
              let step : wake_one buffered d (pending, heap) ≡ (insert d n pending, heap) =
                ground arith in
              rw step (wake_other d m waiting pending heap e z t)
        ]
  ]

  pub wake-Tracks :
      (waiting : List ℕ) (r : Dict ℕ × List Message)
      → Tracks emitted buffered waiting r.0 r.1
      → Tracks emitted buffered [] (wake buffered waiting r).0 (wake buffered waiting r).1
  unfolding wake
  wake-Tracks [] r t = t
  wake-Tracks (d ∷ waiting) r t =
      wake-Tracks waiting (wake_one buffered d r) (wake_one-Tracks d waiting r t)
