-- ===== src/Settlement/Preserved.antt =====
-- What every change of a settle message keeps, the whole fold keeps.
use dontguess.Base.{
  ℕ, ◌≡◌, refl, false, ◌||◌, some, inl, inr, arith, ◌==◌, lookup, get_or, is_some, contains,
  Bool-cases, Option-cases, if-keeps,
}
use dontguess.Proto.{Message}
use dontguess.Assign.Types.{DenialReason, buyer_identity, first_antecedent}
use dontguess.Assign.Fold.{is_operator}
use dontguess.Trust.Types.{
  SettlePhase, buyer_accept, buyer_reject, put_accept, put_reject, deliver, complete, preview,
  preview_request, small_content_dispute,
}
use dontguess.Settlement.Types.{Market, Texts}
use dontguess.Settlement.Fold.Stock.{
  given, antecedent, deny, operator_only, accept_put, reject_put, apply_settle_put_accept,
  apply_settle_put_reject,
}
use dontguess.Settlement.Fold.Buyer.{
  buyer_only, match_of, new_accept, accept_match, reject_match, preview_match, new_dispute,
  dispute_match, apply_settle_buyer_accept, apply_settle_buyer_reject, apply_settle_preview_request,
  apply_settle_small_content_dispute,
}
use dontguess.Settlement.Fold.Operator.{
  record_preview, deliver_match, new_deliver, record_deliver, apply_settle_preview,
  apply_settle_deliver,
}
use dontguess.Settlement.Fold.Complete.{
  complete_match, complete_deliver, apply_settle_complete, settle_in, apply_settle,
  settle_phase_from_tags,
}
use dontguess.Settlement.Repeat.Basics.{given-keeps}

-- The sender is the buyer of the match.
abbrev pub Buys : Message → ℕ → Market → Type 0
Buys m k s = lookup k s.chain.match_to_buyer ≡ some m.sender

-- The changes that a settle message can make, each with what the guards before it make sure of.
pub record Keeps (P : Market → Type 0) (x : Texts) (m : Message) : Type 0 where
  pub denied : (r : DenialReason) (s : Market) → P s → P (deny r m s)
  pub put_accepted : (s : Market) → P s → P (accept_put x.config m s)
  pub put_rejected : (s : Market) → P s → P (reject_put m s)
  pub preview_recorded : (s : Market) → P s → P (record_preview m s)
  pub match_delivered :
      (a k : ℕ) (s : Market)
      → is_some (lookup m.id s.chain.deliver_to_match) ≡ false
      → get_or 0 (lookup a s.chain.buyer_accept_to_match) ≡ k
      → P s
      → P (deliver_match m k s)
  pub match_accepted :
      (a : ℕ) (s : Market) → Buys m (match_of a s.chain) s → P s → P (new_accept m a s)
  pub match_rejected : (k : ℕ) (s : Market) → P s → P (reject_match k s)
  pub match_previewed : (k : ℕ) (s : Market) → P s → P (preview_match m k s)
  pub match_disputed : (k : ℕ) (s : Market) → P s → P (new_dispute m k s)
  pub match_completed :
      (a k e : ℕ) (s : Market)
      → Buys m k s
      → get_or 0 (lookup a s.chain.deliver_to_match) ≡ k
      → (k == 0) ≡ false
      → P s
      → P (complete_match m a k e s)

module _ (P : Market → Type 0) (x : Texts) (m : Message) (q : Keeps P x m) (s : Market)
    (h : P s) where
  operator-keeps : (t : Market) → P t → P (operator_only x.config m s t)
  unfolding operator_only
  operator-keeps t k = elim (Bool-cases (is_operator x.config m)) [
    | inl yes_it_is ↦ rw (yes_it_is, operator_only) k
    | inr denied ↦ rw (denied, operator_only) (q.denied _ s h)
  ]

  buyer-keeps : (k : ℕ) (t : Market) → (Buys m k s → P t) → P (buyer_only m k s t)
  unfolding buyer_only
  buyer-keeps k t f = elim (Option-cases (lookup k s.chain.match_to_buyer)) [
    | inl e ↦ rw (e, buyer_only) h
    | inr (b, e) ↦ elim (Bool-cases (m.sender == b)) [
      | inl owned ↦ rw (e, owned, buyer_only) (f (ground arith))
      | inr foreign ↦ rw (e, foreign, buyer_only) (q.denied buyer_identity s h)
    ]
  ]

  gate-keeps :
      (key : ℕ → ℕ) (f : ℕ → Market)
      → ((a : ℕ) → Buys m (key a) s → P (f a))
      → P (given (first_antecedent m s.base) s λ a. buyer_only m (key a) s (f a))
  gate-keeps key f k =
      given-keeps P (first_antecedent m s.base) s _ h λ a _. buyer-keeps (key a) (f a) (k a)

  accept-keeps : (a : ℕ) → Buys m (match_of a s.chain) s → P (accept_match m a s)
  unfolding accept_match
  accept-keeps a b = if-keeps P _ s (new_accept m a s) h (q.match_accepted a s b h)

  dispute-keeps : (k : ℕ) → P (dispute_match m k s)
  unfolding dispute_match
  dispute-keeps k =
      if-keeps P (contains m.id s.chain.dispute_counted) s (new_dispute m k s) h
        (q.match_disputed k s h)

  dispute-gate-keeps : P (apply_settle_small_content_dispute m s)
  unfolding apply_settle_small_content_dispute
  dispute-gate-keeps = given-keeps P (first_antecedent m s.base) s _ h λ a _.
      let k = get_or 0 (lookup a s.chain.deliver_to_match) in
      if-keeps P (k == 0) s _ h (buyer-keeps k (dispute_match m k s) λ _. dispute-keeps k)

  deliver-keeps : P (record_deliver m s)
  unfolding record_deliver new_deliver
  deliver-keeps = elim (Bool-cases (is_some (lookup m.id s.chain.deliver_to_match))) [
    | inl seen ↦ rw (seen, record_deliver) h
    | inr new ↦
        rw (new, record_deliver)
          (given-keeps P (antecedent m) s _ h λ a _.
            q.match_delivered a (get_or 0 (lookup a s.chain.buyer_accept_to_match)) s new refl h)
  ]

  complete_deliver-keeps : (a : ℕ) → P (complete_deliver m a s)
  unfolding complete_deliver
  complete_deliver-keeps a =
      let k = get_or 0 (lookup a s.chain.deliver_to_match) in
      let e = get_or 0 (lookup k s.chain.match_to_entry) in
      elim (Bool-cases (k == 0 || e == 0)) [
        | inl none_sold ↦ rw (none_sold, complete_deliver) h
        | inr known ↦
            rw (known, complete_deliver)
              (buyer-keeps k (complete_match m a k e s)
                λ b. q.match_completed a k e s b refl (ground arith) h)
      ]

  complete-keeps : P (apply_settle_complete m s)
  unfolding apply_settle_complete
  complete-keeps =
      if-keeps P (contains m.id s.chain.completed_settlements) s _ h
        (given-keeps P (first_antecedent m s.base) s _ h λ a _. complete_deliver-keeps a)

  settle_in-keeps : (p : SettlePhase) → P (settle_in x p m s)
  unfolding settle_in apply_settle_put_accept apply_settle_put_reject apply_settle_buyer_accept
      apply_settle_buyer_reject apply_settle_preview_request apply_settle_preview
      apply_settle_deliver
  settle_in-keeps put_accept = operator-keeps (accept_put x.config m s) (q.put_accepted s h)
  settle_in-keeps put_reject = operator-keeps (reject_put m s) (q.put_rejected s h)
  settle_in-keeps buyer_accept =
      gate-keeps (λ a. match_of a s.chain) (λ a. accept_match m a s) accept-keeps
  settle_in-keeps buyer_reject =
      gate-keeps (λ a. a) (λ a. reject_match a s) λ a _. q.match_rejected a s h
  settle_in-keeps deliver = operator-keeps (record_deliver m s) deliver-keeps
  settle_in-keeps complete = complete-keeps
  settle_in-keeps preview_request =
      gate-keeps (λ a. a) (λ a. preview_match m a s) λ a _. q.match_previewed a s h
  settle_in-keeps preview = operator-keeps (record_preview m s) (q.preview_recorded s h)
  settle_in-keeps small_content_dispute = dispute-gate-keeps
  settle_in-keeps _ = h

  pub apply_settle-keeps : P (apply_settle x m s)
  unfolding apply_settle
  apply_settle-keeps = settle_in-keeps (settle_phase_from_tags x.phase_of m.tags)
