-- ===== src/Sequencer/Awaited.antt =====
-- What a buffered message waits for, and how a release shortens it.
use dontguess.Base.{
  ℕ, ◌≡◌, refl, Bool, true, false, not, ◌&&◌, List, [], ◌∷◌, inl, inr, arith, ◌==◌, ◌||◌,
  if◌then◌else◌, Bool-cases, length, ◌+◌, contains, ◌∙◌,
}
use dontguess.Proto.{Message}
use dontguess.Sequencer.Ingest.{unknown_of, remove_from}
use dontguess.Sequencer.Drain.{awaited}
use dontguess.Sequencer.Canonical.{all_released, is_ready}

-- No text stands twice in the list.
abbrev pub Unique : List ℕ → Type 0
Unique [] = Unit
Unique (k ∷ l) = (contains k l ≡ false) × Unique l

contains-remove_from :
    (k j : ℕ) (l : List ℕ) → contains k (remove_from j l) ≡ (not (k == j) && contains k l)
unfolding contains remove_from
contains-remove_from k j [] = ground arith
contains-remove_from k j (i ∷ l) = ground (arith, contains-remove_from k j l)

remove_from-Unique : (j : ℕ) (l : List ℕ) → Unique l → Unique (remove_from j l)
unfolding remove_from
remove_from-Unique j [] u = tt
remove_from-Unique j (i ∷ l) u =
    ground (arith, remove_from-Unique j l u.1, contains-remove_from i j l)

remove_from-absent : (j : ℕ) (l : List ℕ) → contains j l ≡ false → remove_from j l ≡ l
unfolding remove_from contains
remove_from-absent j [] h = refl
remove_from-absent j (i ∷ l) h = ground (arith, remove_from-absent j l)

length-remove_from :
    (j : ℕ) (l : List ℕ)
    → Unique l
    → length (remove_from j l) + (if contains j l then 1 else 0) ≡ length l
unfolding remove_from contains
length-remove_from j [] u = refl
length-remove_from j (i ∷ l) u = ground (arith, length-remove_from j l u.1, remove_from-absent j l)

contains-unknown_of :
    (k : ℕ) (known : ℕ → Bool) (seen ants : List ℕ)
    → contains k (unknown_of known seen ants)
      ≡ (contains k ants && not (k == 0) && not (contains k seen) && not (known k))
unfolding unknown_of contains
contains-unknown_of k known seen [] = refl
contains-unknown_of k known seen (a ∷ ants) = elim (Bool-cases (a == 0 || contains a seen)) [
  | inl skipped ↦ rw (skipped, unknown_of) (ground (arith, contains-unknown_of k known seen ants))
  | inr met ↦ rw (met, unknown_of) (ground (arith, contains-unknown_of k known (a ∷ seen) ants))
]

unknown_of-Unique : (known : ℕ → Bool) (seen ants : List ℕ) → Unique (unknown_of known seen ants)
unfolding unknown_of contains
unknown_of-Unique known seen [] = tt
unknown_of-Unique known seen (a ∷ ants) = ground (
  arith,
  unknown_of-Unique known seen ants,
  unknown_of-Unique known (a ∷ seen) ants,
  contains-unknown_of a known (a ∷ seen) ants,
)

-- A text that becomes known leaves the list.
unknown_of-learn :
    (x : ℕ) (emitted seen ants : List ℕ)
    → unknown_of (λ a. contains a (x ∷ emitted)) seen ants
      ≡ remove_from x (unknown_of (λ a. contains a emitted) seen ants)
unfolding unknown_of contains remove_from
unknown_of-learn x emitted seen [] = refl
unknown_of-learn x emitted seen (a ∷ ants) =
    ground (arith, unknown_of-learn x emitted seen ants, unknown_of-learn x emitted (a ∷ seen) ants)

pub contains-awaited :
    (k : ℕ) (emitted : List ℕ) (m : Message)
    → contains k (awaited emitted m)
      ≡ (contains k m.antecedents && not (k == 0) && not (contains k emitted))
unfolding awaited contains
contains-awaited k emitted m =
    ground (arith, contains-unknown_of k (λ a. contains a emitted) [] m.antecedents)

pub awaited-Unique : (emitted : List ℕ) (m : Message) → Unique (awaited emitted m)
unfolding awaited
awaited-Unique emitted m = unknown_of-Unique (λ a. contains a emitted) [] m.antecedents

awaited-learn :
    (x : ℕ) (emitted : List ℕ) (m : Message)
    → awaited (x ∷ emitted) m ≡ remove_from x (awaited emitted m)
unfolding awaited
awaited-learn x emitted m = unknown_of-learn x emitted [] m.antecedents

-- How many antecedents a message waits for, before and after a release.
pub length-awaited :
    (x : ℕ) (emitted : List ℕ) (m : Message)
    → length (awaited (x ∷ emitted) m) + (if contains x (awaited emitted m) then 1 else 0)
      ≡ length (awaited emitted m)
length-awaited x emitted m =
    rw (awaited-learn x emitted m)
      (length-remove_from x (awaited emitted m) (awaited-Unique emitted m))

pub contains-length : (k : ℕ) (l : List ℕ) → contains k l ≡ true → (length l == 0) ≡ false
unfolding contains
contains-length k [] h = cc
contains-length k (j ∷ l) h = ground arith

-- An antecedent that is not released, where there is one.
unreleased_antecedent :
    (emitted ants : List ℕ)
    → all_released emitted ants ≡ false
    → (a : ℕ) × ((contains a ants && not (a == 0) && not (contains a emitted)) ≡ true)
unfolding all_released contains
unreleased_antecedent emitted [] h = cc
unreleased_antecedent emitted (a ∷ ants) h = elim (Bool-cases (a == 0 || contains a emitted)) [
  | inl met ↦
      let (b, open_edge) = unreleased_antecedent emitted ants (ground arith) in (b, ground arith)
  | inr unmet ↦ (a, ground arith)
]

released_antecedent :
    (a : ℕ) (emitted ants : List ℕ)
    → all_released emitted ants ≡ true
    → (contains a ants && not (a == 0) && not (contains a emitted)) ≡ false
unfolding all_released contains
released_antecedent a emitted [] h = refl
released_antecedent a emitted (b ∷ ants) h = ground (arith, released_antecedent a emitted ants)

-- Waiting for nothing is having every antecedent released.
pub awaited-all_released :
    (emitted : List ℕ) (m : Message) → (length (awaited emitted m) == 0) ≡ is_ready emitted m
unfolding contains
awaited-all_released emitted m = elim (Bool-cases (is_ready emitted m)) [
  | inl ready ↦ rw ready (
      none_awaited (awaited emitted m)
        λ a. contains-awaited a emitted m ∙ released_antecedent a emitted m.antecedents ready)
  | inr stuck ↦
      let (a, open_edge) = unreleased_antecedent emitted m.antecedents stuck in
      rw stuck (contains-length a (awaited emitted m) (contains-awaited a emitted m ∙ open_edge))
]
  where
    none_awaited : (l : List ℕ) → ((a : ℕ) → contains a l ≡ false) → (length l == 0) ≡ true
    none_awaited [] h = refl
    none_awaited (a ∷ l) h = ground (arith, h a)
