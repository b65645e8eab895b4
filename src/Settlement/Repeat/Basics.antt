-- ===== src/Settlement/Repeat/Basics.antt =====
-- Folding a message twice: the steps that every handler shares.
use dontguess.Base.{
  ℕ, ◌≡◌, ◌⊎◌, refl, sym, ap, ◌∙◌, Bool, true, Option, none, some, [], ◌∷◌, inl, inr, arith, Dict,
  insert, erase, contains, if◌then◌else◌, Bool-cases,
}
use dontguess.Proto.{Message}
use dontguess.Assign.Types.{
  State, DenialReason, record_fold_denial, first_antecedent, resolve_alias,
}
use dontguess.Settlement.Types.{Market}
use dontguess.Settlement.Fold.Stock.{given, deny}

pub erase_twice {ℓ} : {V : Type ℓ} (k : ℕ) (d : Dict V) → erase k (erase k d) ≡ erase k d
unfolding erase
erase_twice k [] = refl
erase_twice k ((j, v) ∷ d) = ground (arith, erase_twice k d)

pub insert_twice {ℓ} :
    {V : Type ℓ} (k : ℕ) (v : V) (d : Dict V) → insert k v (insert k v d) ≡ insert k v d
unfolding insert
insert_twice k v [] = ground arith
insert_twice k v ((j, w) ∷ d) = ground (arith, insert_twice k v d)

pub record_fold_denial_twice :
    (r : DenialReason) (m : Message) (s : State)
    → record_fold_denial r m (record_fold_denial r m s) ≡ record_fold_denial r m s
unfolding record_fold_denial contains
record_fold_denial_twice r m s = ground arith

pub first_antecedent-denied :
    (r : DenialReason) (m : Message) (s : State)
    → first_antecedent m (record_fold_denial r m s) ≡ first_antecedent m s
unfolding record_fold_denial first_antecedent resolve_alias
first_antecedent-denied r m s = ground arith

pub deny_twice : (r : DenialReason) (m : Message) (s : Market) → deny r m (deny r m s) ≡ deny r m s
unfolding deny
deny_twice r m s = rw (record_fold_denial_twice r m s.base) refl

pub given-none :
    {A : Type 0} (o : Option A) (s : Market) (f : A → Market) → o ≡ none → given o s f ≡ s
given-none o s f e = ap (λ x. given x s f) e

pub given-some :
    {A : Type 0} (o : Option A) (a : A) (s : Market) (f : A → Market)
    → o ≡ some a
    → given o s f ≡ f a
given-some o a s f e = ap (λ x. given x s f) e

-- A handler that leaves what it made as it is.
pub settles_at : (f : Market → Market) {s t : Market} → f s ≡ t → f t ≡ t → f (f s) ≡ f s
settles_at f h k = ap f h ∙ k ∙ sym h

-- A handler behind a test that its own change makes true.
unfoldable pub once : (Market → Bool) → (Market → Market) → Market → Market
once b t s = if b s then s else t s

pub once_twice :
    (b : Market → Bool) (t : Market → Market) (s : Market)
    → (t s ≡ s) ⊎ (b (t s) ≡ true)
    → once b t (once b t s) ≡ once b t s
unfolding once
once_twice b t s h = elim (Bool-cases (b s)) [
  | inl set ↦ let same : once b t s ≡ s = rw (set, once) refl in settles_at (once b t) same same
  | inr unset ↦
      let moved : once b t s ≡ t s = rw (unset, once) refl in
      elim h [
        | inl idle ↦ settles_at (once b t) (moved ∙ idle) (moved ∙ idle)
        | inr marked ↦
            let same : once b t (t s) ≡ t s = rw (marked, once) refl in
            settles_at (once b t) moved same
      ]
]

-- What the gate of the buyer reads.
pub record GateSame (s t : Market) : Type 0 where
  pub base : t.base ≡ s.base
  pub buyers : t.chain.match_to_buyer ≡ s.chain.match_to_buyer
  pub previews : t.chain.preview_to_match ≡ s.chain.preview_to_match
  pub delivers : t.chain.deliver_to_match ≡ s.chain.deliver_to_match

pub GateSame-refl : (s : Market) → GateSame s s
GateSame-refl s = record { base = refl; buyers = refl; previews = refl; delivers = refl }

-- What holds before a handler and after each run of it holds after `given`.
pub given-keeps {ℓ} :
    {A : Type 0} (P : Market → Type ℓ) (o : Option A) (s : Market) (f : A → Market)
    → P s
    → ((a : A) → o ≡ some a → P (f a))
    → P (given o s f)
given-keeps P none s f h k = h
given-keeps P (some a) s f h k = k a refl
