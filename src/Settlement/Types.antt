-- ===== src/Settlement/Types.antt =====
-- The part of State that the match and settle handlers read and write (state_types.go).
use dontguess.Base.{ℕ, Option, List, [], ◌∷◌, Dict, lookup, insert, contains, get_or, if◌then◌else◌}
use dontguess.Base.Int64.{add64}
use dontguess.Assign.Types.{State, Config}
use dontguess.Trust.Types.{SettlePhase}

-- InventoryEntry, with the fields that these handlers use. A time of expiry is what time.Parse gave.
pub record InventoryEntry : Type 0 where
  pub entry_id : ℕ
  pub seller_key : ℕ
  pub content_hash : ℕ
  pub content_type : ℕ
  pub domains : List ℕ
  pub token_cost : ℕ
  pub content_size : ℕ
  pub put_price : ℕ
  pub expires_at : ℕ

-- ActiveOrder, with the fields that applyMatch reads; a deadline that is the zero time is `none`.
pub record ActiveOrder : Type 0 where
  pub buyer_key : ℕ
  pub guarantee_deadline : Option ℕ
  pub insured_amount : ℕ

pub record PriceRecord : Type 0 where
  pub entry_id : ℕ
  pub content_type : ℕ
  pub domains : List ℕ
  pub put_price : ℕ
  pub sale_price : ℕ
  pub timestamp : ℕ

-- A counter is an int, so a 64-bit pattern.
pub record SellerStats : Type 0 where
  pub success_count : ℕ
  pub small_content_refund_count : ℕ
  pub repeat_buyers : Dict ℕ
  pub entry_buyers : Dict (List ℕ)
  pub preview_count : ℕ
  pub conversion_count : ℕ

-- What is for sale, and who asked for it.
pub record Stock : Type 0 where
  pub pending_puts : Dict InventoryEntry
  pub inventory : Dict InventoryEntry
  pub content_hash_index : List ℕ
  pub active_orders : Dict ActiveOrder

-- The chain of messages of a sale: match, preview, accept, deliver, complete.
pub record Chain : Type 0 where
  pub matched_orders : List ℕ
  pub match_to_buy_msg : Dict ℕ
  pub match_to_buyer : Dict ℕ
  pub match_guarantee : Dict (ℕ × ℕ)
  pub match_to_entry : Dict ℕ
  pub match_to_results : Dict (List ℕ)
  pub preview_request_to_match : Dict ℕ
  pub preview_to_match : Dict ℕ
  pub previews_by_entry : Dict (Dict ℕ)
  pub accepted_orders : Dict ℕ
  pub buyer_accept_to_match : Dict ℕ
  pub delivered_orders : List ℕ
  pub deliver_to_match : Dict ℕ
  pub deliver_time_by_match : Dict ℕ
  pub completed_settlements : List ℕ
  pub completed_entries : Dict ℕ
  pub dispute_counted : List ℕ

-- The counters, which the reputation and the pricing read. A federation profile is its number of
-- transactions; `broker_match_ids` is written elsewhere. `price_history` has the last record first.
pub record Counts : Type 0 where
  pub sellers : Dict SellerStats
  pub price_history : List PriceRecord
  pub broker_match_ids : List ℕ
  pub brokered_accepted_orders : ℕ
  pub brokered_completions : ℕ
  pub federation_transactions : Dict ℕ
  pub preview_count_by_match : Dict ℕ
  pub entry_preview_count : Dict ℕ
  pub entry_conversion_count : Dict ℕ
  pub entry_deliver_count : Dict ℕ
  pub buyer_deliver_count : Dict ℕ
  pub entry_deliver_buyer_count : Dict (Dict ℕ)
  pub buyer_consume_count : Dict ℕ
  pub entry_consume_buyer_count : Dict (Dict ℕ)
  pub small_content_disputes : Dict ℕ

-- `base` is the part of State that the assign handlers use too: the aliases and the alarm.
pub record Market : Type 0 where
  pub base : State
  pub stock : Stock
  pub chain : Chain
  pub counts : Counts

-- The texts that the handlers tell apart: the phase of a tag with the phase prefix, and the number of
-- the demand-only tag.
pub record Texts : Type 0 where
  pub config : Config
  pub phase_of : ℕ → Option SettlePhase
  pub demand_only : ℕ

-- SmallContentThreshold
abbrev pub small_content_threshold : ℕ
small_content_threshold = 500

-- `d[k]++`
unfoldable pub bump : ℕ → Dict ℕ → Dict ℕ
bump k d = insert k (add64 (get_or 0 (lookup k d)) 1) d

-- `d[k][j]++`, which makes the inner map where there is none.
unfoldable pub bump_in : ℕ → ℕ → Dict (Dict ℕ) → Dict (Dict ℕ)
bump_in k j d = insert k (bump j (get_or [] (lookup k d))) d

-- A set that is a Go map to struct{}.
unfoldable pub add_to : ℕ → List ℕ → List ℕ
add_to k l = if contains k l then l else k ∷ l

-- sellerStats: the stats of a seller, empty at first.
unfoldable pub seller_stats : ℕ → Dict SellerStats → SellerStats
seller_stats k d =
    get_or
      (record {
        success_count = 0;
        small_content_refund_count = 0;
        repeat_buyers = [];
        entry_buyers = [];
        preview_count = 0;
        conversion_count = 0;
      })
      (lookup k d)
