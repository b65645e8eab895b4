-- ===== src/Settlement/Fold/Complete.antt =====
-- applySettleComplete and applySettle (state_settle.go), settlePhaseFromTags (state_put.go) and
-- incrementFederationTransactionCount (state_federation.go).
use dontguess.Base.{
  ℕ, ◌||◌, Option, none, some, List, [], ◌∷◌, ◌==◌, Dict, lookup, insert, get_or, contains, is_some,
  if◌then◌else◌, ◌>>=◌,
}
use dontguess.Base.Int64.{add64}
use dontguess.Json.{Object, number_field, price}
use dontguess.Proto.{Message, Tag}
use dontguess.Assign.Types.{first_antecedent}
use dontguess.Trust.Types.{
  SettlePhase, no_phase, buyer_accept, buyer_reject, put_accept, put_reject, deliver, complete,
  preview, preview_request, small_content_dispute,
}
use dontguess.Settlement.Types.{
  InventoryEntry, SellerStats, Counts, Market, Texts, bump, bump_in, add_to,
}
use dontguess.Settlement.Fold.Stock.{given, apply_settle_put_accept, apply_settle_put_reject}
use dontguess.Settlement.Fold.Buyer.{
  buyer_only, with_stats, apply_settle_buyer_accept, apply_settle_buyer_reject,
  apply_settle_preview_request, apply_settle_small_content_dispute,
}
use dontguess.Settlement.Fold.Operator.{apply_settle_preview, apply_settle_deliver}

-- incrementFederationTransactionCount: only a sender with a profile is counted.
unfoldable pub increment_federation_transaction_count : ℕ → Dict ℕ → Dict ℕ
increment_federation_transaction_count sender d =
    if sender == 0 then d else (if is_some (lookup sender d) then bump sender d else d)

-- What a completed sale adds to the stats of the seller.
unfoldable pub completed_sale : ℕ → ℕ → SellerStats → SellerStats
completed_sale entry buyer t = record t {
  success_count = add64 t.success_count 1;
  repeat_buyers = bump buyer t.repeat_buyers;
  entry_buyers =
      insert entry (add_to buyer (get_or [] (lookup entry t.entry_buyers))) t.entry_buyers;
}

-- The seller is credited, and the price recorded, where the entry is in the inventory.
unfoldable pub credit_sale : Message → ℕ → ℕ → Option InventoryEntry → Counts → Counts
credit_sale m entry sale_price none n = n
credit_sale m entry sale_price (some e) n = record n {
  sellers = with_stats e.seller_key (completed_sale entry m.sender) n.sellers;
  price_history =
      record {
        entry_id = entry;
        content_type = e.content_type;
        domains = e.domains;
        put_price = e.put_price;
        sale_price = sale_price;
        timestamp = m.timestamp;
      }
      ∷ n.price_history;
}

unfoldable pub complete_counts : Message → ℕ → ℕ → ℕ → Option InventoryEntry → Counts → Counts
complete_counts m matched entry sale_price e n = credit_sale m entry sale_price e (record n {
  brokered_completions =
      if contains matched n.broker_match_ids
      then add64 n.brokered_completions 1
      else n.brokered_completions;
  federation_transactions =
      increment_federation_transaction_count m.sender n.federation_transactions;
  buyer_consume_count = bump m.sender n.buyer_consume_count;
  entry_consume_buyer_count = bump_in entry m.sender n.entry_consume_buyer_count;
})

abbrev pub sale_price_of : Option Object → Option ℕ
sale_price_of payload = payload >>= λ o. number_field price o

-- The sale of an entry by a match, after a deliver.
unfoldable pub complete_match : Message → ℕ → ℕ → ℕ → Market → Market
complete_match m deliver_msg matched entry s = given (sale_price_of m.payload) s λ sale_price.
    record s {
      chain = record s.chain {
        completed_settlements = m.id ∷ s.chain.completed_settlements;
        completed_entries = insert deliver_msg m.sender s.chain.completed_entries;
      };
      counts = complete_counts m matched entry sale_price (lookup entry s.stock.inventory) s.counts;
    }

-- A completion is folded once; 0 is no match and no entry.
unfoldable pub complete_deliver : Message → ℕ → Market → Market
complete_deliver m deliver_msg s =
    let matched = get_or 0 (lookup deliver_msg s.chain.deliver_to_match) in
    let entry = get_or 0 (lookup matched s.chain.match_to_entry) in
    if matched == 0 || entry == 0
    then s
    else buyer_only m matched s (complete_match m deliver_msg matched entry s)

unfoldable pub apply_settle_complete : Message → Market → Market
apply_settle_complete m s =
    if contains m.id s.chain.completed_settlements
    then s
    else (given (first_antecedent m s.base) s λ deliver_msg. complete_deliver m deliver_msg s)

-- settlePhaseFromTags: the phase of the first tag with the prefix, or the empty phase.
unfoldable pub settle_phase_from_tags : (ℕ → Option SettlePhase) → List Tag → SettlePhase
settle_phase_from_tags phase_of [] = no_phase
settle_phase_from_tags phase_of (Tag.other t ∷ tags) =
    get_or (settle_phase_from_tags phase_of tags) (phase_of t)
settle_phase_from_tags phase_of (_ ∷ tags) = settle_phase_from_tags phase_of tags

-- The switch of applySettle.
unfoldable pub settle_in : Texts → SettlePhase → Message → Market → Market
settle_in x put_accept m s = apply_settle_put_accept x.config m s
settle_in x put_reject m s = apply_settle_put_reject x.config m s
settle_in x buyer_accept m s = apply_settle_buyer_accept m s
settle_in x buyer_reject m s = apply_settle_buyer_reject m s
settle_in x deliver m s = apply_settle_deliver x.config m s
settle_in x complete m s = apply_settle_complete m s
settle_in x preview_request m s = apply_settle_preview_request m s
settle_in x preview m s = apply_settle_preview x.config m s
settle_in x small_content_dispute m s = apply_settle_small_content_dispute m s
settle_in x _ m s = s

unfoldable pub apply_settle : Texts → Message → Market → Market
apply_settle x m s = settle_in x (settle_phase_from_tags x.phase_of m.tags) m s
