-- ===== src/Demand/Filter.antt =====
-- What a range over a map that deletes entries leaves (`keep` of Base).
use dontguess.Base.{
  ℕ, ◌≡◌, refl, Bool, Option, none, some, [], ◌∷◌, ◌==◌, Dict, lookup, insert, erase, keep, arith,
  if◌then◌else◌, Bool-cases, inl, inr, lookup-insert, lookup-erase,
}

module _ {V : Type 0} where
  -- No key has two entries.
  abbrev pub NoDup : Dict V → Type 0
  NoDup [] = Unit
  NoDup ((j, v) ∷ d) = (lookup j d ≡ none) × NoDup d

  abbrev pub kept : (V → Bool) → Option V → Option V
  kept p none = none
  kept p (some v) = if p v then some v else none

  -- A key that has no entry gets none.
  lookup-keep-none :
      (p : V → Bool) (k : ℕ) (d : Dict V) → lookup k d ≡ none → lookup k (keep p d) ≡ none
  unfolding lookup keep
  lookup-keep-none p k [] h = refl
  lookup-keep-none p k ((j, v) ∷ d) h = ground (arith, lookup-keep-none p k d)

  pub lookup-keep :
      (p : V → Bool) (k : ℕ) (d : Dict V) → NoDup d → lookup k (keep p d) ≡ kept p (lookup k d)
  unfolding lookup keep
  lookup-keep p k [] n = refl
  lookup-keep p k ((j, v) ∷ d) n =
      ground (arith, n.0, lookup-keep p k d n.1, lookup-keep-none p k d)

  pub keep-NoDup : (p : V → Bool) (d : Dict V) → NoDup d → NoDup (keep p d)
  unfolding keep
  keep-NoDup p [] n = tt
  keep-NoDup p ((j, v) ∷ d) n = elim (Bool-cases (p v)) [
    | inl e ↦ rw e (lookup-keep-none p j d n.0, keep-NoDup p d n.1)
    | inr e ↦ rw e (keep-NoDup p d n.1)
  ]

  pub insert-NoDup : (k : ℕ) (v : V) (d : Dict V) → NoDup d → NoDup (insert k v d)
  unfolding insert lookup
  insert-NoDup k v [] n = (refl, tt)
  insert-NoDup k v ((j, w) ∷ d) n = elim (Bool-cases (k == j)) [
    | inl e ↦ rw e (ground (arith, n.0), n.1)
    | inr e ↦ rw e (ground (arith, n.0, lookup-insert j k v d), insert-NoDup k v d n.1)
  ]

  pub erase-NoDup : (k : ℕ) (d : Dict V) → NoDup d → NoDup (erase k d)
  unfolding erase lookup
  erase-NoDup k [] n = tt
  erase-NoDup k ((j, w) ∷ d) n = elim (Bool-cases (k == j)) [
    | inl e ↦ rw e (erase-NoDup k d n.1)
    | inr e ↦ rw e (ground (arith, n.0, lookup-erase j k d), erase-NoDup k d n.1)
  ]
