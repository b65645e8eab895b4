-- ===== src/Settlement/Repeat/Buyer.antt =====
-- The handlers of the buyer, folded twice.
use dontguess.Base.{
  ℕ, ◌≡◌, refl, ap, ◌∙◌, true, false, [], inl, inr, arith, ◌==◌, lookup, insert, get_or,
  lookup-insert_self, is_some, if◌then◌else◌, Bool-cases, Option-cases, if-keeps,
}
use dontguess.Proto.{Message}
use dontguess.Settlement.Types.{Market, Chain}
use dontguess.Settlement.Fold.Buyer.{
  accept_chain, accept_match, reject_match, match_of, preview_match, apply_settle_buyer_accept,
  apply_settle_buyer_reject, request_preview, new_accept, new_preview, last_preview, selected_entry,
  entry_of, apply_settle_preview_request,
}
use dontguess.Settlement.Repeat.Gate.{gated, gated_twice}
use dontguess.Settlement.Repeat.Basics.{
  GateSame, GateSame-refl, given-keeps, erase_twice, given-none, given-some, settles_at, once,
  once_twice,
}

accept_chain-recorded :
    (msg matched selected : ℕ) (c : Chain)
    → is_some (lookup msg (accept_chain msg matched selected c).buyer_accept_to_match) ≡ true
unfolding accept_chain
accept_chain-recorded msg matched selected c =
    ground (arith, lookup-insert_self msg matched c.buyer_accept_to_match)

pub accept_match_twice :
    (m : Message) (a : ℕ) (s : Market) → accept_match m a (accept_match m a s) ≡ accept_match m a s
unfolding accept_match new_accept once
accept_match_twice m a s =
    let k = match_of a s.chain in
    once_twice (λ x. is_some (lookup m.id x.chain.buyer_accept_to_match)) (new_accept m a) s
      (inr (accept_chain-recorded m.id k (selected_entry m.payload k s.chain) s.chain))

pub reject_match_twice : (a : ℕ) (s : Market) → reject_match a (reject_match a s) ≡ reject_match a s
unfolding reject_match
reject_match_twice a s = rw (erase_twice a s.chain.accepted_orders) refl

accept_match-GateSame : (m : Message) (a : ℕ) (s : Market) → GateSame s (accept_match m a s)
unfolding accept_match new_accept accept_chain
accept_match-GateSame m a s = record {
  base = ground arith;
  buyers = ground arith;
  previews = ground arith;
  delivers = ground arith;
}

pub apply_settle_buyer_accept_twice :
    (m : Message) (s : Market)
    → apply_settle_buyer_accept m (apply_settle_buyer_accept m s) ≡ apply_settle_buyer_accept m s
unfolding apply_settle_buyer_accept gated match_of
apply_settle_buyer_accept_twice m s =
    gated_twice m match_of (λ a c. false) (accept_match m)
      (λ a t. (accept_match-GateSame m a t).base) (λ a t. (accept_match-GateSame m a t).buyers)
      (λ a t. ap (λ d. get_or a (lookup a d)) (accept_match-GateSame m a t).previews) (λ a t. refl)
      (accept_match_twice m) s

pub apply_settle_buyer_reject_twice :
    (m : Message) (s : Market)
    → apply_settle_buyer_reject m (apply_settle_buyer_reject m s) ≡ apply_settle_buyer_reject m s
unfolding apply_settle_buyer_reject gated reject_match
apply_settle_buyer_reject_twice m s =
    gated_twice m (λ a c. a) (λ a c. false) reject_match (λ a t. refl) (λ a t. refl) (λ a t. refl)
      (λ a t. refl) reject_match_twice s

new_preview-GateSame :
    (msg buyer k entry : ℕ) (s : Market) → GateSame s (new_preview msg buyer k entry s)
unfolding new_preview
new_preview-GateSame msg buyer k entry s = record {
  base = refl;
  buyers = refl;
  previews = refl;
  delivers = refl;
}

request_preview-GateSame :
    (msg buyer k entry : ℕ) (s : Market) → GateSame s (request_preview msg buyer k entry s)
unfolding request_preview
request_preview-GateSame msg buyer k entry s =
    if-keeps (λ t. GateSame s t) (last_preview buyer entry s == k) s _ (GateSame-refl s)
      (new_preview-GateSame msg buyer k entry s)

preview_match-GateSame : (m : Message) (k : ℕ) (s : Market) → GateSame s (preview_match m k s)
unfolding preview_match
preview_match-GateSame m k s =
    given-keeps (λ t. GateSame s t) (entry_of m.payload) s _ (GateSame-refl s)
      λ e _.
        if-keeps (λ t. GateSame s t) (e == 0) s _ (GateSame-refl s)
          (request_preview-GateSame m.id m.sender k e s)

new_preview-last :
    (msg buyer k entry : ℕ) (s : Market)
    → (last_preview buyer entry (new_preview msg buyer k entry s) == k) ≡ true
unfolding new_preview last_preview
new_preview-last msg buyer k entry s =
    let previews = get_or [] (lookup entry s.chain.previews_by_entry) in
    rw
      (
        lookup-insert_self entry (insert buyer k previews) s.chain.previews_by_entry,
        lookup-insert_self buyer k previews,
      )
      (ground arith)

request_preview_twice :
    (msg buyer k entry : ℕ) (s : Market)
    → request_preview msg buyer k entry (request_preview msg buyer k entry s)
      ≡ request_preview msg buyer k entry s
unfolding request_preview once
request_preview_twice msg buyer k entry s =
    once_twice (λ x. last_preview buyer entry x == k) (new_preview msg buyer k entry) s
      (inr (new_preview-last msg buyer k entry s))

preview_match_twice :
    (m : Message) (k : ℕ) (s : Market)
    → preview_match m k (preview_match m k s) ≡ preview_match m k s
unfolding preview_match
preview_match_twice m k s = elim (Option-cases (entry_of m.payload)) [
  | inl e ↦
      let same : preview_match m k s ≡ s = given-none _ s _ e in
      settles_at (preview_match m k) same same
  | inr (x, e) ↦ elim (Bool-cases (x == 0)) [
    | inl f ↦
        let same : preview_match m k s ≡ s = given-some _ x s _ e ∙ rw f refl in
        settles_at (preview_match m k) same same
    | inr f ↦
        let at = λ (t : Market).
          given-some (entry_of m.payload) x t
            (λ y. if y == 0 then t else request_preview m.id m.sender k y t) e in
        let r = request_preview m.id m.sender k x s in
        let moved : preview_match m k s ≡ r = at s ∙ rw f refl in
        let same : preview_match m k r ≡ r =
          at r ∙ rw f (request_preview_twice m.id m.sender k x s) in
        settles_at (preview_match m k) moved same
  ]
]

pub apply_settle_preview_request_twice :
    (m : Message) (s : Market)
    → apply_settle_preview_request m (apply_settle_preview_request m s)
      ≡ apply_settle_preview_request m s
unfolding apply_settle_preview_request gated
apply_settle_preview_request_twice m s =
    gated_twice m (λ a c. a) (λ a c. false) (preview_match m)
      (λ a t. (preview_match-GateSame m a t).base) (λ a t. (preview_match-GateSame m a t).buyers)
      (λ a t. refl) (λ a t. refl) (preview_match_twice m) s
