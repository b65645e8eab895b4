-- ===== src/Settlement/Repeat/Gate.antt =====
-- The gate of the buyer before a handler, folded twice.
use dontguess.Base.{
  ℕ, ◌≡◌, refl, ap, ◌∙◌, Bool, true, false, none, some, inl, inr, ◌==◌, lookup, if◌then◌else◌,
  Bool-cases, Option-cases,
}
use dontguess.Proto.{Message}
use dontguess.Assign.Types.{buyer_identity, first_antecedent}
use dontguess.Settlement.Types.{Market, Chain}
use dontguess.Settlement.Fold.Stock.{given, deny}
use dontguess.Settlement.Fold.Buyer.{buyer_only}
use dontguess.Settlement.Repeat.Basics.{
  first_antecedent-denied, deny_twice, given-none, given-some, settles_at,
}

buyer_only-stale :
    (m : Message) (k : ℕ) (s t : Market)
    → lookup k s.chain.match_to_buyer ≡ none
    → buyer_only m k s t ≡ s
unfolding buyer_only
buyer_only-stale m k s t e = rw (e, buyer_only) refl

buyer_only-owned :
    (m : Message) (k b : ℕ) (s t : Market)
    → lookup k s.chain.match_to_buyer ≡ some b
    → (m.sender == b) ≡ true
    → buyer_only m k s t ≡ t
unfolding buyer_only
buyer_only-owned m k b s t e h = rw (e, h, buyer_only) refl

buyer_only-foreign :
    (m : Message) (k b : ℕ) (s t : Market)
    → lookup k s.chain.match_to_buyer ≡ some b
    → (m.sender == b) ≡ false
    → buyer_only m k s t ≡ deny buyer_identity m s
unfolding buyer_only
buyer_only-foreign m k b s t e h = rw (e, h, buyer_only) refl

-- A handler behind the gate of the buyer, unless it is skipped.
module _ (m : Message) (key : ℕ → Chain → ℕ) (skip : ℕ → Chain → Bool)
    (f : ℕ → Market → Market) where
  unfoldable pub gated : Market → Market
  gated s =
      given (first_antecedent m s.base) s
        λ a. if skip a s.chain then s else buyer_only m (key a s.chain) s (f a s)

  gated-at :
      (a : ℕ) (s : Market)
      → first_antecedent m s.base ≡ some a
      → skip a s.chain ≡ false
      → gated s ≡ buyer_only m (key a s.chain) s (f a s)
  unfolding gated
  gated-at a s e h = given-some _ a s _ e ∙ rw h refl

-- The gate of the buyer before a handler that is the same when it runs again, and that keeps what
-- the gate reads.
module _ (m : Message) (key : ℕ → Chain → ℕ) (skip : ℕ → Chain → Bool) (f : ℕ → Market → Market)
    (same_base : (a : ℕ) (s : Market) → (f a s).base ≡ s.base)
    (same_buyer : (a : ℕ) (s : Market) → (f a s).chain.match_to_buyer ≡ s.chain.match_to_buyer)
    (same_key : (a : ℕ) (s : Market) → key a (f a s).chain ≡ key a s.chain)
    (same_skip : (a : ℕ) (s : Market) → skip a (f a s).chain ≡ skip a s.chain)
    (again : (a : ℕ) (s : Market) → f a (f a s) ≡ f a s) where
  pub gated_twice : (s : Market) → gated m key skip f (gated m key skip f s) ≡ gated m key skip f s
  unfolding gated deny
  gated_twice s = elim (Option-cases (first_antecedent m s.base)) [
    | inl e ↦
        let same : gated m key skip f s ≡ s = given-none _ s _ e in
        settles_at (gated m key skip f) same same
    | inr (a, e) ↦ elim (Bool-cases (skip a s.chain)) [
      | inl skipped ↦
          let same : gated m key skip f s ≡ s = given-some _ a s _ e ∙ rw skipped refl in
          settles_at (gated m key skip f) same same
      | inr met ↦ elim (Option-cases (lookup (key a s.chain) s.chain.match_to_buyer)) [
        | inl stale ↦
            let same : gated m key skip f s ≡ s =
              gated-at m key skip f a s e met ∙ buyer_only-stale m _ s _ stale in
            settles_at (gated m key skip f) same same
        | inr (buyer, known) ↦ elim (Bool-cases (m.sender == buyer)) [
          | inl owned ↦
              let t = f a s in
              let found : lookup (key a t.chain) t.chain.match_to_buyer ≡ some buyer =
                rw (same_key a s, same_buyer a s) known in
              settles_at (gated m key skip f)
                (gated-at m key skip f a s e met ∙ buyer_only-owned m _ buyer s _ known owned)
                (gated-at m key skip f a t (ap (first_antecedent m) (same_base a s) ∙ e)
                    (same_skip a s ∙ met)
                  ∙ buyer_only-owned m _ buyer t _ found owned
                  ∙ again a s)
          | inr foreign ↦
              let t = deny buyer_identity m s in
              settles_at (gated m key skip f)
                (gated-at m key skip f a s e met ∙ buyer_only-foreign m _ buyer s _ known foreign)
                (gated-at m key skip f a t (first_antecedent-denied buyer_identity m s.base ∙ e) met
                  ∙ buyer_only-foreign m _ buyer t _ known foreign
                  ∙ deny_twice buyer_identity m s)
        ]
      ]
    ]
  ]
