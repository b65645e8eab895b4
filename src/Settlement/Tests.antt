-- ===== src/Settlement/Tests.antt =====
-- A sale from its match to its completion, and a preview request that is folded twice.
use dontguess.Base.{
  ℕ, ◌≡◌, refl, true, false, Option, none, some, [], ◌∷◌, ◌==◌, if◌then◌else◌, lookup, insert,
  erase, contains, arith,
}
use dontguess.Base.Int64.{add64}
use dontguess.Base.Sums.{sum_by}
use dontguess.Json.{
  Object, number, entries, text_field, number_field, entries_field, same_name, entry_id, text,
  price, results,
}
use dontguess.Proto.{Message, Tag}
use dontguess.Assign.Types.{State, resolve_alias, first_antecedent}
use dontguess.Trust.Types.{SettlePhase, buyer_accept, deliver, complete, preview_request}
use dontguess.Settlement.Types.{Stock, Counts, Market, Texts, bump, bump_in, add_to, seller_stats}
use dontguess.Settlement.Fold.Stock.{operator_only}
use dontguess.Settlement.Fold.Buyer.{
  buyer_only, with_stats, with_seller_of, match_of, selected_entry, accept_chain, accept_counts,
  new_accept, accept_match, apply_settle_buyer_accept, new_preview, last_preview, request_preview,
  preview_match, apply_settle_preview_request,
}
use dontguess.Settlement.Fold.Operator.{
  tags_contain, offer, match_order, apply_match, deliver_counts, deliver_match, new_deliver,
  record_deliver, apply_settle_deliver,
}
use dontguess.Settlement.Fold.Complete.{
  increment_federation_transaction_count, completed_sale, credit_sale, complete_counts,
  complete_match, complete_deliver, apply_settle_complete, settle_phase_from_tags, settle_in,
  apply_settle,
}
use dontguess.Settlement.Repeat.Complete.{apply_settle_twice}
use dontguess.Settlement.Strangers.{Untouched, apply_settle-Untouched}
use dontguess.Settlement.Totals.{Tally, total_sales, apply_settle-Tally}
use dontguess.Settlement.Sales.{
  Reached, start, after, matched, settled, no_sales, Reached-completed,
}

abbrev phases : ℕ → Option SettlePhase
phases t =
    if t == 1
    then some buyer_accept
    else (if t == 2
        then some deliver
        else (if t == 3 then some complete else (if t == 4 then some preview_request else none)))

abbrev texts : Texts
texts = record {
  config = record { operator_key = 9; brokered_match = 50; parse_time = λ t. none };
  phase_of = phases;
  demand_only = 60;
}

abbrev base : State
base = record {
  assign_by_id = [];
  assigns_by_entry = [];
  claimed_assigns = [];
  claim_msg_to_assign = [];
  complete_msg_to_assign = [];
  pending_assign_results = [];
  broker_assigns = [];
  wire_to_store = [];
  alarm_wired = true;
  replaying = false;
  replay_msg_ids = [];
  fold_denial_counted = [];
  denials = [];
}

-- One entry of the seller 7, and the orders 21 and 22 of the buyer 8.
abbrev stock : Stock
stock = record {
  pending_puts = [];
  inventory =
      (
        5,
        record {
          entry_id = 5;
          seller_key = 7;
          content_hash = 70;
          content_type = 71;
          domains = [];
          token_cost = 900;
          content_size = 9000;
          put_price = 40;
          expires_at = 0;
        },
      )
      ∷ [];
  content_hash_index = 70 ∷ [];
  active_orders =
      (21, record { buyer_key = 8; guarantee_deadline = none; insured_amount = 0 })
      ∷ (22, record { buyer_key = 8; guarantee_deadline = none; insured_amount = 0 })
      ∷ [];
}

abbrev counts : Counts
counts = record {
  sellers = [];
  price_history = [];
  broker_match_ids = [];
  brokered_accepted_orders = 0;
  brokered_completions = 0;
  federation_transactions = [];
  preview_count_by_match = [];
  entry_preview_count = [];
  entry_conversion_count = [];
  entry_deliver_count = [];
  buyer_deliver_count = [];
  entry_deliver_buyer_count = [];
  buyer_consume_count = [];
  entry_consume_buyer_count = [];
  small_content_disputes = [];
}

abbrev market : Market
market = record { base = base; stock = stock; chain = no_sales; counts = counts }

abbrev message : ℕ → ℕ → ℕ → ℕ → Object → Message
message id sender antecedent phase payload = record {
  id = id;
  sender = sender;
  payload = some payload;
  tags = Tag.other phase ∷ [];
  antecedents = antecedent ∷ [];
  timestamp = 100;
}

abbrev match_message : ℕ → ℕ → Message
match_message id order = message id 9 order 0 ((results, entries (5 ∷ [])) ∷ [])

abbrev accept_message : Message
accept_message = message 32 8 31 1 []

abbrev deliver_message : Message
deliver_message = message 33 9 32 2 []

abbrev complete_message : Message
complete_message = message 34 8 33 3 ((price, number 55) ∷ [])

abbrev after_match : Market
after_match = apply_match texts (match_message 31 21) market

abbrev after_accept : Market
after_accept = apply_settle texts accept_message after_match

abbrev after_deliver : Market
after_deliver = apply_settle texts deliver_message after_accept

abbrev after_complete : Market
after_complete = apply_settle texts complete_message after_deliver

after_complete-Reached : Reached texts after_complete
unfolding no_sales lookup
after_complete-Reached =
    after
      (after
        (after (after (start base stock counts) (matched (match_message 31 21) refl))
          (settled accept_message))
        (settled deliver_message))
      (settled complete_message)

Reached-completed_example :
    (k : ℕ) × (lookup 33 after_complete.chain.deliver_to_match ≡ some k)
    × (contains k after_complete.chain.delivered_orders ≡ true)
    × (lookup k after_complete.chain.match_to_buyer ≡ some 8)
unfolding text_field number_field entries_field same_name first_antecedent resolve_alias bump
    bump_in add_to seller_stats operator_only buyer_only with_stats with_seller_of match_of
    selected_entry accept_chain accept_counts new_accept accept_match apply_settle_buyer_accept
    tags_contain offer match_order apply_match deliver_counts deliver_match new_deliver
    record_deliver apply_settle_deliver increment_federation_transaction_count completed_sale
    credit_sale complete_counts complete_match complete_deliver apply_settle_complete
    settle_phase_from_tags settle_in apply_settle no_sales lookup insert erase contains add64
Reached-completed_example = Reached-completed texts after_complete 33 8 after_complete-Reached refl

apply_settle_twice_example :
    apply_settle texts complete_message (apply_settle texts complete_message after_deliver)
    ≡ apply_settle texts complete_message after_deliver
apply_settle_twice_example = apply_settle_twice texts complete_message after_deliver

-- A completion by the seller.
abbrev forged : Message
forged = message 34 7 33 3 ((price, number 1) ∷ [])

apply_settle-Untouched_example : Untouched market (apply_settle texts forged market)
unfolding no_sales lookup
apply_settle-Untouched_example =
    apply_settle-Untouched texts forged market refl λ k b e. ground arith

apply_settle-Tally_example : Tally (apply_settle texts complete_message market)
unfolding total_sales sum_by
apply_settle-Tally_example =
    apply_settle-Tally texts complete_message market (record { sales = refl })

-- Two requests of the buyer, through two matches for the same entry, and the first of them again.
abbrev request_message : ℕ → ℕ → Message
request_message id match_id = message id 8 match_id 4 ((entry_id, text 5) ∷ [])

abbrev both_matched : Market
both_matched = apply_match texts (match_message 41 22) after_match

abbrev both_requested : Market
both_requested =
    apply_settle texts (request_message 36 41)
      (apply_settle texts (request_message 35 31) both_matched)

preview_counted_again :
    (lookup 31 both_requested.counts.preview_count_by_match ≡ some 1)
    × (lookup 31
          (apply_settle texts (request_message 35 31) both_requested).counts.preview_count_by_match
        ≡ some 2)
unfolding text_field entries_field same_name first_antecedent resolve_alias bump seller_stats
    buyer_only with_stats with_seller_of tags_contain offer match_order apply_match new_preview
    last_preview request_preview preview_match apply_settle_preview_request settle_phase_from_tags
    settle_in apply_settle no_sales lookup insert add64
preview_counted_again = (refl, refl)
