-- ===== src/Settlement/Fold/Buyer.antt =====
-- The buyer's messages: applySettleBuyerAccept, applySettleBuyerReject, applySettlePreviewRequest and
-- applySettleSmallContentDispute (state_settle.go).
use dontguess.Base.{
  ℕ, Bool, not, ◌&&◌, ◌||◌, Option, none, some, [], ◌∷◌, ◌==◌, ◌*◌, Dict, lookup, insert, erase,
  get_or, is_some, contains, if◌then◌else◌, ◌>>=◌,
}
use dontguess.Base.Int64.{add64, slt}
use dontguess.Json.{Object, text_field, entry_id}
use dontguess.Proto.{Message}
use dontguess.Assign.Types.{buyer_identity, first_antecedent}
use dontguess.Settlement.Types.{
  InventoryEntry, SellerStats, Stock, Chain, Counts, Market, small_content_threshold, bump,
  seller_stats,
}
use dontguess.Settlement.Fold.Stock.{given, deny}

-- The buyer identity gate: an unknown match is dropped, and a sender who is not its buyer is counted.
unfoldable pub buyer_only : Message → ℕ → Market → Market → Market
buyer_only m matched s t = elim (lookup matched s.chain.match_to_buyer) [
  | none ↦ s
  | some buyer ↦ if m.sender == buyer then t else deny buyer_identity m s
]

-- A write through the pointer that sellerStats returns.
unfoldable pub with_stats : ℕ → (SellerStats → SellerStats) → Dict SellerStats → Dict SellerStats
with_stats seller f sellers = insert seller (f (seller_stats seller sellers)) sellers

-- The same, for the seller of an entry of the inventory.
unfoldable pub with_seller_of :
    Option InventoryEntry → (SellerStats → SellerStats) → Dict SellerStats → Dict SellerStats
with_seller_of none f sellers = sellers
with_seller_of (some e) f sellers = with_stats e.seller_key f sellers

abbrev pub entry_of : Option Object → Option ℕ
entry_of payload = payload >>= λ o. text_field entry_id o

-- The match that an antecedent names: the preview's, or itself.
unfoldable pub match_of : ℕ → Chain → ℕ
match_of antecedent c = get_or antecedent (lookup antecedent c.preview_to_match)

-- The entry that the buyer chose of the results, or the first.
unfoldable pub selected_entry : Option Object → ℕ → Chain → ℕ
selected_entry payload matched c =
    let first = get_or 0 (lookup matched c.match_to_entry) in
    elim (entry_of payload) [
      | none ↦ first
      | some e ↦
          if not (e == 0) && contains e (get_or [] (lookup matched c.match_to_results))
          then e
          else first
    ]

unfoldable pub accept_chain : ℕ → ℕ → ℕ → Chain → Chain
accept_chain msg matched selected c =
    let accepted = record c {
      buyer_accept_to_match = insert msg matched c.buyer_accept_to_match;
    } in
    if selected == 0 then accepted else record accepted {
      accepted_orders = insert matched selected c.accepted_orders;
      match_to_entry = insert matched selected c.match_to_entry;
    }

unfoldable pub accept_counts : ℕ → ℕ → Bool → Stock → Counts → Counts
accept_counts matched selected via_preview stock n = if selected == 0 then n else record n {
  brokered_accepted_orders =
      if contains matched n.broker_match_ids
      then add64 n.brokered_accepted_orders 1
      else n.brokered_accepted_orders;
  entry_conversion_count =
      if via_preview then bump selected n.entry_conversion_count else n.entry_conversion_count;
  sellers =
      if via_preview
      then with_seller_of (lookup selected stock.inventory)
          (λ t. record t { conversion_count = add64 t.conversion_count 1 }) n.sellers
      else n.sellers;
}

unfoldable pub new_accept : Message → ℕ → Market → Market
new_accept m antecedent s =
    let matched = match_of antecedent s.chain in
    let selected = selected_entry m.payload matched s.chain in
    let via_preview = is_some (lookup antecedent s.chain.preview_to_match) in
    record s {
      chain = accept_chain m.id matched selected s.chain;
      counts = accept_counts matched selected via_preview s.stock s.counts;
    }

-- An accept is folded once.
unfoldable pub accept_match : Message → ℕ → Market → Market
accept_match m antecedent s =
    if is_some (lookup m.id s.chain.buyer_accept_to_match) then s else new_accept m antecedent s

unfoldable pub apply_settle_buyer_accept : Message → Market → Market
apply_settle_buyer_accept m s =
    given (first_antecedent m s.base) s
      λ antecedent. buyer_only m (match_of antecedent s.chain) s (accept_match m antecedent s)

unfoldable pub reject_match : ℕ → Market → Market
reject_match matched s = record s {
  chain = record s.chain { accepted_orders = erase matched s.chain.accepted_orders };
}

unfoldable pub apply_settle_buyer_reject : Message → Market → Market
apply_settle_buyer_reject m s =
    given (first_antecedent m s.base) s λ matched. buyer_only m matched s (reject_match matched s)

unfoldable pub new_preview : ℕ → ℕ → ℕ → ℕ → Market → Market
new_preview msg buyer matched entry s =
    let previews = get_or [] (lookup entry s.chain.previews_by_entry) in
    record s {
      chain = record s.chain {
        previews_by_entry = insert entry (insert buyer matched previews) s.chain.previews_by_entry;
        preview_request_to_match = insert msg matched s.chain.preview_request_to_match;
      };
      counts = record s.counts {
        preview_count_by_match = bump matched s.counts.preview_count_by_match;
        entry_preview_count = bump entry s.counts.entry_preview_count;
        sellers =
            with_seller_of (lookup entry s.stock.inventory)
              (λ t. record t { preview_count = add64 t.preview_count 1 }) s.counts.sellers;
      };
    }

-- The match of the buyer's last request for an entry.
unfoldable pub last_preview : ℕ → ℕ → Market → ℕ
last_preview buyer entry s =
    get_or 0 (lookup buyer (get_or [] (lookup entry s.chain.previews_by_entry)))

-- The preview request of an entry: one of a buyer for a match that is the last already is ignored.
unfoldable pub request_preview : ℕ → ℕ → ℕ → ℕ → Market → Market
request_preview msg buyer matched entry s =
    if last_preview buyer entry s == matched then s else new_preview msg buyer matched entry s

unfoldable pub preview_match : Message → ℕ → Market → Market
preview_match m matched s =
    given (entry_of m.payload) s
      λ entry. if entry == 0 then s else request_preview m.id m.sender matched entry s

unfoldable pub apply_settle_preview_request : Message → Market → Market
apply_settle_preview_request m s =
    given (first_antecedent m s.base) s
      λ matched. buyer_only m matched s (preview_match m matched s)

-- Small: few tokens, or few bytes.
abbrev pub is_small : InventoryEntry → Bool
is_small e =
    slt e.token_cost small_content_threshold || slt e.content_size (small_content_threshold * 4)

unfoldable pub refund : Message → ℕ → InventoryEntry → Market → Market
refund m entry e s = if not (is_small e) then s else record s {
  chain = record s.chain { dispute_counted = m.id ∷ s.chain.dispute_counted };
  counts = record s.counts {
    small_content_disputes = bump entry s.counts.small_content_disputes;
    sellers =
        with_stats e.seller_key
          (λ t. record t { small_content_refund_count = add64 t.small_content_refund_count 1 })
          s.counts.sellers;
  };
}

-- 0 is no entry.
unfoldable pub new_dispute : Message → ℕ → Market → Market
new_dispute m matched s = given (entry_of m.payload) s λ _.
    let entry = get_or 0 (lookup matched s.chain.match_to_entry) in
    if entry == 0 then s else (given (lookup entry s.stock.inventory) s λ e. refund m entry e s)

-- A dispute is folded once.
unfoldable pub dispute_match : Message → ℕ → Market → Market
dispute_match m matched s =
    if contains m.id s.chain.dispute_counted then s else new_dispute m matched s

unfoldable pub apply_settle_small_content_dispute : Message → Market → Market
apply_settle_small_content_dispute m s = given (first_antecedent m s.base) s λ deliver_msg.
    let matched = get_or 0 (lookup deliver_msg s.chain.deliver_to_match) in
    if matched == 0 then s else buyer_only m matched s (dispute_match m matched s)
