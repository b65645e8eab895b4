-- ===== src/Settlement/Totals.antt =====
-- The sales of all sellers, and the price history.
use dontguess.Base.{
  ℕ, suc, ◌%◌, ◌<◌, ◌≡◌, refl, sym, ◌∙◌, ap, Bool, Option, none, some, inl, inr, arith, ◌==◌, Dict,
  lookup, get_or, is_some, length, Bool-cases, if-keeps,
}
use dontguess.Base.Int64.{add64, two64}
use dontguess.Base.Sums.{measure_of, sum_by, sum_by-lt, sum_by-insert}
use dontguess.Settlement.Types.{
  Texts, Stock, SellerStats, Counts, InventoryEntry, Market, seller_stats,
}
use dontguess.Settlement.Fold.Buyer.{
  with_stats, with_seller_of, new_accept, accept_counts, match_of, selected_entry, entry_of,
  last_preview, request_preview, preview_match, reject_match, new_dispute, new_preview, refund,
  is_small,
}
use dontguess.Proto.{Message}
use dontguess.Settlement.Repeat.Basics.{given-keeps}
use dontguess.Settlement.Preserved.{Keeps, apply_settle-keeps}
use dontguess.Settlement.Fold.Stock.{antecedent, deny, accept_put, reject_put}
use dontguess.Settlement.Fold.Operator.{record_preview, deliver_match, deliver_counts}
use dontguess.Settlement.Fold.Complete.{
  completed_sale, credit_sale, complete_counts, sale_price_of, complete_match, apply_settle,
}

unfoldable pub successes : SellerStats → ℕ
successes t = t.success_count

seller_stats-measure :
    (k : ℕ) (d : Dict SellerStats)
    → measure_of successes (lookup k d) ≡ (seller_stats k d).success_count
unfolding seller_stats successes
seller_stats-measure k d = ground arith

-- The total of the completed sales.
unfoldable pub total_sales : Dict SellerStats → ℕ
total_sales d = sum_by successes d

add64_cancel : (a b x y : ℕ) → a < two64 → b < two64 → add64 a x ≡ add64 b y → x ≡ y → a ≡ b
unfolding add64
add64_cancel a b x y h k e f = omega arith

add64_carry : (a b x y : ℕ) → a < two64 → add64 a x ≡ add64 b y → y ≡ add64 x 1 → a ≡ add64 b 1
unfolding add64
add64_carry a b x y h e f = omega arith

pub with_stats-total_sales :
    (k : ℕ) (f : SellerStats → SellerStats) (d : Dict SellerStats)
    → ((t : SellerStats) → (f t).success_count ≡ t.success_count)
    → total_sales (with_stats k f d) ≡ total_sales d
unfolding total_sales with_stats successes
with_stats-total_sales k f d h =
    add64_cancel _ _ _ _ (sum_by-lt successes _) (sum_by-lt successes d)
      (sum_by-insert successes k (f (seller_stats k d)) d)
      (seller_stats-measure k d ∙ sym (h (seller_stats k d)))

pub with_stats-more_sales :
    (k : ℕ) (f : SellerStats → SellerStats) (d : Dict SellerStats)
    → ((t : SellerStats) → (f t).success_count ≡ add64 t.success_count 1)
    → total_sales (with_stats k f d) ≡ add64 (total_sales d) 1
unfolding total_sales with_stats successes
with_stats-more_sales k f d h =
    add64_carry _ _ _ _ (sum_by-lt successes _) (sum_by-insert successes k (f (seller_stats k d)) d)
      (h (seller_stats k d) ∙ ap (λ n. add64 n 1) (sym (seller_stats-measure k d)))

-- Every completed sale of a seller is one record of the price history; the count wraps around.
pub record Tally (s : Market) : Type 0 where
  pub sales : total_sales s.counts.sellers ≡ length s.counts.price_history % two64

with_seller_of-total_sales :
    (o : Option InventoryEntry) (f : SellerStats → SellerStats) (d : Dict SellerStats)
    → ((t : SellerStats) → (f t).success_count ≡ t.success_count)
    → total_sales (with_seller_of o f d) ≡ total_sales d
unfolding with_seller_of
with_seller_of-total_sales none f d h = refl
with_seller_of-total_sales (some e) f d h = with_stats-total_sales e.seller_key f d h

accept_counts-total_sales :
    (k e : ℕ) (via : Bool) (stock : Stock) (n : Counts)
    → total_sales n.sellers ≡ length n.price_history % two64
    → let r = accept_counts k e via stock n in
      total_sales r.sellers ≡ length r.price_history % two64
unfolding accept_counts
accept_counts-total_sales k e via stock n t = elim (Bool-cases (e == 0)) [
  | inl none_chosen ↦ rw (none_chosen, accept_counts) t
  | inr chosen ↦ elim (Bool-cases via) [
    | inr direct ↦ rw (chosen, direct, accept_counts) t
    | inl viewed ↦
        rw (chosen, viewed, accept_counts)
          (with_seller_of-total_sales (lookup e stock.inventory) _ n.sellers (λ u. refl) ∙ t)
  ]
]

new_accept-Tally : (m : Message) (a : ℕ) (s : Market) → Tally s → Tally (new_accept m a s)
unfolding new_accept
new_accept-Tally m a s t = record {
  sales =
      accept_counts-total_sales (match_of a s.chain)
        (selected_entry m.payload (match_of a s.chain) s.chain)
        (is_some (lookup a s.chain.preview_to_match)) s.stock s.counts t.sales;
}

new_preview-Tally : (msg buyer k e : ℕ) (s : Market) → Tally s → Tally (new_preview msg buyer k e s)
unfolding new_preview
new_preview-Tally msg buyer k e s t = record {
  sales =
      with_seller_of-total_sales (lookup e s.stock.inventory) _ s.counts.sellers (λ u. refl)
      ∙ t.sales;
}

refund-Tally :
    (m : Message) (entry : ℕ) (e : InventoryEntry) (s : Market)
    → Tally s
    → Tally (refund m entry e s)
unfolding refund
refund-Tally m entry e s t = elim (Bool-cases (is_small e)) [
  | inr large ↦ rw (large, refund) t
  | inl small ↦
      rw (small, refund)
        (record {
          sales = with_stats-total_sales e.seller_key _ s.counts.sellers (λ u. refl) ∙ t.sales;
        })
]

complete_counts-Tally :
    (m : Message) (k e price : ℕ) (o : Option InventoryEntry) (n : Counts)
    → total_sales n.sellers ≡ length n.price_history % two64
    → let r = complete_counts m k e price o n in
      total_sales r.sellers ≡ length r.price_history % two64
unfolding complete_counts credit_sale completed_sale add64
complete_counts-Tally m k e price none n t = t
complete_counts-Tally m k e price (some x) n t =
    with_stats-more_sales x.seller_key (completed_sale e m.sender) n.sellers (λ u. refl)
    ∙ ap (λ y. add64 y 1) t
    ∙ suc_mod (length n.price_history)
  where
    suc_mod : (n : ℕ) → add64 (n % two64) 1 ≡ suc n % two64
    suc_mod n = omega arith

preview_match-Tally : (m : Message) (k : ℕ) (s : Market) → Tally s → Tally (preview_match m k s)
unfolding preview_match request_preview
preview_match-Tally m k s t =
    given-keeps (λ u. Tally u) (entry_of m.payload) s _ t
      λ e _.
        if-keeps (λ u. Tally u) (e == 0) s (request_preview m.id m.sender k e s) t
          (if-keeps (λ u. Tally u) (last_preview m.sender e s == k) s
            (new_preview m.id m.sender k e s) t (new_preview-Tally m.id m.sender k e s t))

new_dispute-Tally : (m : Message) (k : ℕ) (s : Market) → Tally s → Tally (new_dispute m k s)
unfolding new_dispute
new_dispute-Tally m k s t =
    given-keeps (λ u. Tally u) (entry_of m.payload) s _ t
      λ _ _.
        let entry = get_or 0 (lookup k s.chain.match_to_entry) in
        if-keeps (λ u. Tally u) (entry == 0) s _ t
          (given-keeps (λ u. Tally u) (lookup entry s.stock.inventory) s _ t
            λ e _. refund-Tally m entry e s t)

deliver_match-Tally : (m : Message) (k : ℕ) (s : Market) → Tally s → Tally (deliver_match m k s)
unfolding deliver_match deliver_counts
deliver_match-Tally m k s t = elim (Bool-cases (k == 0)) [
  | inl e ↦ rw (e, deliver_match) t
  | inr e ↦ elim (Bool-cases (get_or 0 (lookup k s.chain.match_to_entry) == 0)) [
    | inl f ↦ rw (e, deliver_match) (record { sales = rw (f, deliver_counts) t.sales })
    | inr f ↦ rw (e, deliver_match) (record { sales = rw (f, deliver_counts) t.sales })
  ]
]

Tally-Keeps : (x : Texts) (m : Message) → Keeps (λ s. Tally s) x m
unfolding deny accept_put reject_put record_preview reject_match complete_match
Tally-Keeps x m = record {
  denied = λ r s t. record { sales = t.sales };
  put_accepted = λ s t.
      given-keeps (λ u. Tally u) (antecedent m) s _ t
        λ k _.
          given-keeps (λ u. Tally u) (lookup k s.stock.pending_puts) s _ t
            λ e _. record { sales = t.sales };
  put_rejected =
      λ s t. given-keeps (λ u. Tally u) (antecedent m) s _ t λ k _. record { sales = t.sales };
  preview_recorded = λ s t.
      given-keeps (λ u. Tally u) (antecedent m) s _ t
        λ k _.
          given-keeps (λ u. Tally u) (lookup k s.chain.preview_request_to_match) s _ t
            λ e _. record { sales = t.sales };
  match_delivered = λ a k s _ _ t. deliver_match-Tally m k s t;
  match_accepted = λ a s _ t. new_accept-Tally m a s t;
  match_rejected = λ k s t. record { sales = t.sales };
  match_previewed = λ k s t. preview_match-Tally m k s t;
  match_disputed = λ k s t. new_dispute-Tally m k s t;
  match_completed = λ a k e s _ _ _ t.
      given-keeps (λ u. Tally u) (sale_price_of m.payload) s _ t
        λ price _. record {
          sales = complete_counts-Tally m k e price (lookup e s.stock.inventory) s.counts t.sales;
        };
}

-- The sales that the sellers are credited with are those of the price history: where the success counts
-- of all sellers add up to the number of the price records, modulo 2 ^ 64, they do so after any settle
-- message.
pub apply_settle-Tally :
    (x : Texts) (m : Message) (s : Market) → Tally s → Tally (apply_settle x m s)
apply_settle-Tally x m s t = apply_settle-keeps (λ u. Tally u) x m (Tally-Keeps x m) s t
