-- ===== src/Settlement/Strangers.antt =====
-- Who may change anything: the operator, and the buyer of the match.
use dontguess.Base.{
  ℕ, ◌≡◌, refl, false, ◌||◌, some, inl, inr, ◌==◌, lookup, get_or, contains, Option-cases, if-keeps,
}
use dontguess.Proto.{Message}
use dontguess.Assign.Types.{Config, DenialReason, buyer_identity, first_antecedent}
use dontguess.Assign.Fold.{is_operator}
use dontguess.Trust.Types.{
  SettlePhase, buyer_accept, buyer_reject, put_accept, put_reject, deliver, complete, preview,
  preview_request, small_content_dispute,
}
use dontguess.Settlement.Types.{Market, Texts}
use dontguess.Settlement.Fold.Stock.{
  given, deny, operator_only, apply_settle_put_accept, apply_settle_put_reject,
}
use dontguess.Settlement.Fold.Buyer.{
  buyer_only, match_of, accept_match, reject_match, preview_match, dispute_match,
  apply_settle_buyer_accept, apply_settle_buyer_reject, apply_settle_preview_request,
  apply_settle_small_content_dispute,
}
use dontguess.Settlement.Fold.Operator.{apply_settle_preview, apply_settle_deliver}
use dontguess.Settlement.Fold.Complete.{
  complete_match, complete_deliver, apply_settle_complete, settle_in, apply_settle,
  settle_phase_from_tags,
}
use dontguess.Settlement.Repeat.Basics.{given-keeps}

-- Nothing but the alarm changed.
pub record Untouched (s t : Market) : Type 0 where
  pub stock : t.stock ≡ s.stock
  pub chain : t.chain ≡ s.chain
  pub counts : t.counts ≡ s.counts

-- The sender is the buyer of no match.
abbrev pub BuysNothing : Message → Market → Type 0
BuysNothing m s = (k b : ℕ) → lookup k s.chain.match_to_buyer ≡ some b → (m.sender == b) ≡ false

same : (s : Market) → Untouched s s
same s = record { stock = refl; chain = refl; counts = refl }

deny-Untouched : (r : DenialReason) (m : Message) (s : Market) → Untouched s (deny r m s)
unfolding deny
deny-Untouched r m s = record { stock = refl; chain = refl; counts = refl }

operator_only-Untouched :
    (c : Config) (m : Message) (s t : Market)
    → is_operator c m ≡ false
    → Untouched s (operator_only c m s t)
unfolding operator_only
operator_only-Untouched c m s t h = rw (h, operator_only) (deny-Untouched _ m s)

module _ (m : Message) (s : Market) (h : BuysNothing m s) where
  buyer_only-Untouched : (k : ℕ) (t : Market) → Untouched s (buyer_only m k s t)
  unfolding buyer_only
  buyer_only-Untouched k t = elim (Option-cases (lookup k s.chain.match_to_buyer)) [
    | inl e ↦ rw (e, buyer_only) (same s)
    | inr (b, e) ↦ rw (e, h k b e, buyer_only) (deny-Untouched buyer_identity m s)
  ]

  gate-Untouched :
      (key : ℕ → ℕ) (f : ℕ → Market)
      → Untouched s (given (first_antecedent m s.base) s λ a. buyer_only m (key a) s (f a))
  gate-Untouched key f =
      given-keeps (λ t. Untouched s t) (first_antecedent m s.base) s _ (same s)
        λ a _. buyer_only-Untouched (key a) (f a)

  dispute-Untouched : Untouched s (apply_settle_small_content_dispute m s)
  unfolding apply_settle_small_content_dispute
  dispute-Untouched =
      given-keeps (λ t. Untouched s t) (first_antecedent m s.base) s _ (same s)
        λ a _.
          let k = get_or 0 (lookup a s.chain.deliver_to_match) in
          if-keeps (λ t. Untouched s t) (k == 0) s _ (same s)
            (buyer_only-Untouched k (dispute_match m k s))

  complete_deliver-Untouched : (a : ℕ) → Untouched s (complete_deliver m a s)
  unfolding complete_deliver
  complete_deliver-Untouched a =
      let k = get_or 0 (lookup a s.chain.deliver_to_match) in
      let e = get_or 0 (lookup k s.chain.match_to_entry) in
      if-keeps (λ t. Untouched s t) (k == 0 || e == 0) s _ (same s)
        (buyer_only-Untouched k (complete_match m a k e s))

  complete-Untouched : Untouched s (apply_settle_complete m s)
  unfolding apply_settle_complete
  complete-Untouched =
      if-keeps (λ t. Untouched s t) (contains m.id s.chain.completed_settlements) s _ (same s)
        (given-keeps (λ t. Untouched s t) (first_antecedent m s.base) s _ (same s)
          λ a _. complete_deliver-Untouched a)

  settle_in-Untouched :
      (x : Texts) (p : SettlePhase)
      → is_operator x.config m ≡ false
      → Untouched s (settle_in x p m s)
  unfolding settle_in apply_settle_put_accept apply_settle_put_reject apply_settle_buyer_accept
      apply_settle_buyer_reject apply_settle_preview_request apply_settle_preview
      apply_settle_deliver
  settle_in-Untouched x put_accept o = operator_only-Untouched x.config m s _ o
  settle_in-Untouched x put_reject o = operator_only-Untouched x.config m s _ o
  settle_in-Untouched x buyer_accept o =
      gate-Untouched (λ a. match_of a s.chain) (λ a. accept_match m a s)
  settle_in-Untouched x buyer_reject o = gate-Untouched (λ a. a) (λ a. reject_match a s)
  settle_in-Untouched x deliver o = operator_only-Untouched x.config m s _ o
  settle_in-Untouched x complete o = complete-Untouched
  settle_in-Untouched x preview_request o = gate-Untouched (λ a. a) (λ a. preview_match m a s)
  settle_in-Untouched x preview o = operator_only-Untouched x.config m s _ o
  settle_in-Untouched x small_content_dispute o = dispute-Untouched
  settle_in-Untouched x _ o = same s

-- A settle message of a sender who is not the operator and who is the buyer of no match changes neither
-- the stock nor the chain of the sales nor any counter, whatever its phase, antecedents and payload.
pub apply_settle-Untouched :
    (x : Texts) (m : Message) (s : Market)
    → is_operator x.config m ≡ false
    → BuysNothing m s
    → Untouched s (apply_settle x m s)
unfolding apply_settle
apply_settle-Untouched x m s o h =
    settle_in-Untouched m s h x (settle_phase_from_tags x.phase_of m.tags) o
