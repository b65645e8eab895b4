-- ===== src/Settlement/Repeat/Dispute.antt =====
-- A small-content dispute, folded twice.
use mathlib.Core.Path.{subst}
use dontguess.Base.{
  ℕ, ◌≡◌, ◌⊎◌, refl, sym, ap, ◌∙◌, true, not, inl, inr, arith, ◌==◌, lookup, get_or, contains,
  Bool-cases, Option-cases, if-keeps,
}
use dontguess.Proto.{Message}
use dontguess.Settlement.Types.{Market, Chain, InventoryEntry}
use dontguess.Settlement.Fold.Buyer.{
  dispute_match, is_small, new_dispute, entry_of, refund, apply_settle_small_content_dispute,
}
use dontguess.Settlement.Repeat.Gate.{gated, gated_twice}
use dontguess.Settlement.Repeat.Basics.{
  GateSame, GateSame-refl, given-keeps, given-none, given-some, once, once_twice,
}

-- What a dispute does is marked.
unfoldable Marked : Message → Market → Market → Type 0
Marked m s t = (t ≡ s) ⊎ (contains m.id t.chain.dispute_counted ≡ true)

refund-Marked :
    (m : Message) (entry : ℕ) (e : InventoryEntry) (s : Market) → Marked m s (refund m entry e s)
unfolding Marked refund contains
refund-Marked m entry e s = elim (Bool-cases (is_small e)) [
  | inl small ↦ rw (small, refund) (inr (ground arith))
  | inr large ↦ rw (large, refund) (inl refl)
]

new_dispute-Marked : (m : Message) (k : ℕ) (s : Market) → Marked m s (new_dispute m k s)
unfolding Marked new_dispute
new_dispute-Marked m k s = elim (Option-cases (entry_of m.payload)) [
  | inl e ↦ inl (given-none _ s _ e)
  | inr (x, e) ↦ elim (Bool-cases (get_or 0 (lookup k s.chain.match_to_entry) == 0)) [
    | inl f ↦ inl (given-some _ x s _ e ∙ rw f refl)
    | inr f ↦
        elim (Option-cases
          (lookup (get_or 0 (lookup k s.chain.match_to_entry)) s.stock.inventory)) [
            | inl g ↦ inl (given-some _ x s _ e ∙ rw f (given-none _ s _ g))
            | inr (y, g) ↦
                let same : new_dispute m k s
                    ≡ refund m (get_or 0 (lookup k s.chain.match_to_entry)) y s =
                  given-some _ x s _ e ∙ rw f (given-some _ y s _ g) in
                subst (λ t. Marked m s t) (sym same) (refund-Marked m _ y s)
          ]
  ]
]

pub dispute_match_twice :
    (m : Message) (k : ℕ) (s : Market)
    → dispute_match m k (dispute_match m k s) ≡ dispute_match m k s
unfolding dispute_match once Marked
dispute_match_twice m k s =
    once_twice (λ x. contains m.id x.chain.dispute_counted) (new_dispute m k) s
      (new_dispute-Marked m k s)

refund-GateSame :
    (m : Message) (entry : ℕ) (e : InventoryEntry) (s : Market) → GateSame s (refund m entry e s)
unfolding refund
refund-GateSame m entry e s =
    if-keeps (λ t. GateSame s t) (not (is_small e)) s _ (GateSame-refl s)
      (record { base = refl; buyers = refl; previews = refl; delivers = refl })

new_dispute-GateSame : (m : Message) (k : ℕ) (s : Market) → GateSame s (new_dispute m k s)
unfolding new_dispute
new_dispute-GateSame m k s =
    given-keeps (λ t. GateSame s t) (entry_of m.payload) s _ (GateSame-refl s)
      λ _ _.
        let entry = get_or 0 (lookup k s.chain.match_to_entry) in
        if-keeps (λ t. GateSame s t) (entry == 0) s _ (GateSame-refl s)
          (given-keeps (λ t. GateSame s t) (lookup entry s.stock.inventory) s _ (GateSame-refl s)
            λ e _. refund-GateSame m entry e s)

dispute_match-GateSame : (m : Message) (k : ℕ) (s : Market) → GateSame s (dispute_match m k s)
unfolding dispute_match
dispute_match-GateSame m k s =
    if-keeps (λ t. GateSame s t) (contains m.id s.chain.dispute_counted) s _ (GateSame-refl s)
      (new_dispute-GateSame m k s)

-- The match of a deliver, 0 where there is none.
abbrev delivered : ℕ → Chain → ℕ
delivered a c = get_or 0 (lookup a c.deliver_to_match)

pub apply_settle_small_content_dispute_twice :
    (m : Message) (s : Market)
    → apply_settle_small_content_dispute m (apply_settle_small_content_dispute m s)
      ≡ apply_settle_small_content_dispute m s
unfolding apply_settle_small_content_dispute gated
apply_settle_small_content_dispute_twice m s =
    let f = λ (a : ℕ) (t : Market). dispute_match m (delivered a t.chain) t in
    gated_twice m delivered (λ a c. delivered a c == 0) f
      (λ a t. (dispute_match-GateSame m (delivered a t.chain) t).base)
      (λ a t. (dispute_match-GateSame m (delivered a t.chain) t).buyers)
      (λ a t.
        ap (λ d. get_or 0 (lookup a d)) (dispute_match-GateSame m (delivered a t.chain) t).delivers)
      (λ a t.
        ap (λ d. get_or 0 (lookup a d) == 0)
          (dispute_match-GateSame m (delivered a t.chain) t).delivers)
      (λ a t.
        let k = delivered a t.chain in
        let u = dispute_match m k t in
        ap (λ j. dispute_match m (get_or 0 (lookup a j)) u) (dispute_match-GateSame m k t).delivers
        ∙ dispute_match_twice m k t)
      s
