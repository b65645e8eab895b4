-- ===== src/Settlement/Repeat/Complete.antt =====
-- A completion, folded twice; and any settle message, folded twice.
use dontguess.Base.{
  ℕ, ◌≡◌, ◌⊎◌, refl, ap, ◌∙◌, true, false, ◌||◌, ◌∷◌, inl, inr, arith, ◌==◌, lookup, get_or,
  contains, if◌then◌else◌, Bool-cases, Option-cases, if-keeps,
}
use dontguess.Proto.{Message}
use dontguess.Trust.Types.{
  SettlePhase, buyer_accept, buyer_reject, put_accept, put_reject, deliver, complete, preview,
  preview_request, small_content_dispute,
}
use dontguess.Settlement.Types.{Market, Texts, Chain}
use dontguess.Settlement.Fold.Complete.{
  complete_match, complete_deliver, sale_price_of, apply_settle_complete, settle_in, apply_settle,
  settle_phase_from_tags,
}
use dontguess.Settlement.Repeat.Gate.{gated, gated_twice}
use dontguess.Settlement.Repeat.Basics.{
  GateSame, GateSame-refl, given-keeps, given-none, given-some, settles_at, once, once_twice,
}
use dontguess.Settlement.Repeat.Operator.{
  apply_settle_put_accept_twice, apply_settle_put_reject_twice, apply_settle_preview_twice,
  apply_settle_deliver_twice,
}
use dontguess.Settlement.Repeat.Buyer.{
  apply_settle_buyer_accept_twice, apply_settle_buyer_reject_twice,
  apply_settle_preview_request_twice,
}
use dontguess.Settlement.Repeat.Dispute.{apply_settle_small_content_dispute_twice}

-- The match of a deliver and the entry of that match, 0 where there is none.
abbrev delivered : ℕ → Chain → ℕ
delivered a c = get_or 0 (lookup a c.deliver_to_match)

abbrev sold : ℕ → Chain → ℕ
sold a c = get_or 0 (lookup (delivered a c) c.match_to_entry)

-- The sale of a deliver, unless this message is folded already.
unfoldable new_completion : Message → ℕ → Market → Market
new_completion m a s =
    if contains m.id s.chain.completed_settlements
    then s
    else complete_match m a (delivered a s.chain) (sold a s.chain) s

Completes : Message → Market → Market → Type 0
Completes m s t = (t ≡ s) ⊎ (contains m.id t.chain.completed_settlements ≡ true)

complete_match-Completes :
    (m : Message) (a k entry : ℕ) (s : Market) → Completes m s (complete_match m a k entry s)
unfolding Completes complete_match contains
complete_match-Completes m a k entry s = elim (Option-cases (sale_price_of m.payload)) [
  | inl e ↦ inl (given-none _ s _ e)
  | inr (x, e) ↦
      let same : (complete_match m a k entry s).chain.completed_settlements
          ≡ m.id ∷ s.chain.completed_settlements =
        ap (λ t. t.chain.completed_settlements) (given-some _ x s _ e) in
      inr (rw (same, contains) (ground arith))
]

-- A completion leaves the rest of the chain alone.
record ChainSame (s t : Market) : Type 0 where
  gate : GateSame s t
  entries : t.chain.match_to_entry ≡ s.chain.match_to_entry

complete_match-ChainSame :
    (m : Message) (a k entry : ℕ) (s : Market) → ChainSame s (complete_match m a k entry s)
unfolding complete_match
complete_match-ChainSame m a k entry s =
    given-keeps (λ t. ChainSame s t) (sale_price_of m.payload) s _
      (record { gate = GateSame-refl s; entries = refl })
      λ x _. record {
        gate = record { base = refl; buyers = refl; previews = refl; delivers = refl };
        entries = refl;
      }

new_completion-ChainSame : (m : Message) (a : ℕ) (s : Market) → ChainSame s (new_completion m a s)
unfolding new_completion
new_completion-ChainSame m a s =
    if-keeps (λ t. ChainSame s t) (contains m.id s.chain.completed_settlements) s _
      (record { gate = GateSame-refl s; entries = refl })
      (complete_match-ChainSame m a (delivered a s.chain) (sold a s.chain) s)

new_completion_twice :
    (m : Message) (a : ℕ) (s : Market)
    → new_completion m a (new_completion m a s) ≡ new_completion m a s
unfolding new_completion once Completes
new_completion_twice m a s =
    once_twice (λ x. contains m.id x.chain.completed_settlements)
      (λ x. complete_match m a (delivered a x.chain) (sold a x.chain) x) s
      (complete_match-Completes m a (delivered a s.chain) (sold a s.chain) s)

-- The handler behind its gates, with the test for a repetition moved inside.
gated_completion : Message → Market → Market
unfolding gated
gated_completion m =
    gated m delivered (λ a c. delivered a c == 0 || sold a c == 0) (new_completion m)

gated_completion_twice :
    (m : Message) (s : Market) → gated_completion m (gated_completion m s) ≡ gated_completion m s
unfolding gated_completion gated
gated_completion_twice m s =
    let same = λ (a : ℕ) (t : Market). new_completion-ChainSame m a t in
    gated_twice m delivered (λ a c. delivered a c == 0 || sold a c == 0) (new_completion m)
      (λ a t. (same a t).gate.base) (λ a t. (same a t).gate.buyers)
      (λ a t. ap (λ d. get_or 0 (lookup a d)) (same a t).gate.delivers)
      (λ a t. rw ((same a t).gate.delivers, (same a t).entries) refl) (new_completion_twice m) s

-- Where the message is not folded yet, the handler is the gated completion.
apply_settle_complete-new :
    (m : Message) (s : Market)
    → contains m.id s.chain.completed_settlements ≡ false
    → apply_settle_complete m s ≡ gated_completion m s
unfolding apply_settle_complete complete_deliver gated_completion gated new_completion
apply_settle_complete-new m s h = rw h refl

apply_settle_complete-seen :
    (m : Message) (s : Market)
    → contains m.id s.chain.completed_settlements ≡ true
    → apply_settle_complete m s ≡ s
unfolding apply_settle_complete
apply_settle_complete-seen m s h = rw h refl

apply_settle_complete_twice :
    (m : Message) (s : Market)
    → apply_settle_complete m (apply_settle_complete m s) ≡ apply_settle_complete m s
apply_settle_complete_twice m s = elim (Bool-cases (contains m.id s.chain.completed_settlements)) [
  | inl seen ↦
      let same = apply_settle_complete-seen m s seen in
      settles_at (apply_settle_complete m) same same
  | inr new ↦
      let t = gated_completion m s in
      let moved = apply_settle_complete-new m s new in
      elim (Bool-cases (contains m.id t.chain.completed_settlements)) [
        | inl seen ↦
            settles_at (apply_settle_complete m) moved (apply_settle_complete-seen m t seen)
        | inr still ↦
            settles_at (apply_settle_complete m) moved
              (apply_settle_complete-new m t still ∙ gated_completion_twice m s)
      ]
]

settle_in_twice :
    (x : Texts) (p : SettlePhase) (m : Message) (s : Market)
    → settle_in x p m (settle_in x p m s) ≡ settle_in x p m s
unfolding settle_in
settle_in_twice x put_accept m s = apply_settle_put_accept_twice x.config m s
settle_in_twice x put_reject m s = apply_settle_put_reject_twice x.config m s
settle_in_twice x buyer_accept m s = apply_settle_buyer_accept_twice m s
settle_in_twice x buyer_reject m s = apply_settle_buyer_reject_twice m s
settle_in_twice x deliver m s = apply_settle_deliver_twice x.config m s
settle_in_twice x complete m s = apply_settle_complete_twice m s
settle_in_twice x preview_request m s = apply_settle_preview_request_twice m s
settle_in_twice x preview m s = apply_settle_preview_twice x.config m s
settle_in_twice x small_content_dispute m s = apply_settle_small_content_dispute_twice m s
settle_in_twice x _ m s = refl

-- Folding a settle message a second time, right after the first, changes nothing: whatever the phase,
-- the sender, the payload and the state.
pub apply_settle_twice :
    (x : Texts) (m : Message) (s : Market)
    → apply_settle x m (apply_settle x m s) ≡ apply_settle x m s
unfolding apply_settle
apply_settle_twice x m s = settle_in_twice x (settle_phase_from_tags x.phase_of m.tags) m s
