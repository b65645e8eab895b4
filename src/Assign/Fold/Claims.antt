-- ===== src/Assign/Fold/Claims.antt =====
-- applyAssign, applyAssignClaim and applyAssignAuctionClose of state_assign.go.
use dontguess.Base.{
  ℕ, ◌*◌, ◌%◌, Bool, false, not, ◌&&◌, ◌||◌, ◌==◌, Option, none, some, List, [], ◌∷◌, ◌++◌, lookup,
  insert, get_or, is_some, ltb, if◌then◌else◌,
}
use dontguess.Base.Int64.{is_pos, slt, two64}
use dontguess.Proto.{Message}
use dontguess.Assign.Types.{
  AssignRecord, AuctionBid, open_task, claimed, no_tier, not_operator, assign_exclusive, State,
  Config, record_fold_denial, fold_time, add_duration, times, minute, second, put_record,
  first_antecedent, record_in, given,
}
use dontguess.Assign.Payloads.{AssignPayload, decode_assign, claim_expiry, claim_bid}
use dontguess.Assign.Auction.{place_bid, sort_bids, clearing_price, median_bid, tier_of}

abbrev pub is_operator : Config → Message → Bool
is_operator c m = c.operator_key == 0 || m.sender == c.operator_key

-- The guard of the operator-only handlers.
abbrev pub operator_only : Config → Message → State → State → State
operator_only c m s t = if is_operator c m then t else record_fold_denial not_operator m s

-- The record that an assign message posts.
unfoldable pub new_record : Config → Message → AssignPayload → AssignRecord
unfolding fold_time add_duration
new_record c m p =
    let received = fold_time m in
    record {
      assign_id = m.id;
      entry_id = p.entry_id;
      task_type = p.task_type;
      reward = p.reward;
      status = open_task;
      claimant_key = 0;
      claim_msg_id = 0;
      claim_expires_at = 0;
      complete_msg_id = 0;
      result = none;
      exclusive_sender = p.exclusive_sender;
      claim_timeout_minutes = p.claim_timeout_minutes;
      assign_received_at = received;
      auction_deadline =
          if is_pos p.auction_window_seconds
          then add_duration received (times p.auction_window_seconds second)
          else 0;
      auction_bids = [];
      difficulty_tier = no_tier;
      vickrey_price = 0;
      buy_msg_id = p.buy_msg_id;
      deadline_at = if p.deadline_at == 0 then 0 else get_or 0 (c.parse_time p.deadline_at);
      claimed_at = 0;
      completed_at = 0;
    }

unfoldable pub post : Config → Message → AssignPayload → State → State
unfolding put_record
post c m p s =
    let t = put_record m.id (new_record c m p) s in
    record t {
      assigns_by_entry =
          insert p.entry_id (get_or [] (lookup p.entry_id s.assigns_by_entry) ++ m.id ∷ [])
            s.assigns_by_entry;
      broker_assigns =
          if p.task_type == c.brokered_match && not (p.buy_msg_id == 0)
          then insert p.buy_msg_id m.id s.broker_assigns
          else s.broker_assigns;
    }

unfoldable pub apply_assign : Config → Message → State → State
apply_assign c m s = operator_only c m s (
    if is_some (lookup m.id s.assign_by_id)
    then s
    else given (decode_assign m.payload) s λ p. post c m p s)

-- A bid inside the window, at most ten times the reward, and positive.
unfoldable pub bid_on : ℕ → AssignRecord → Message → State → State
unfolding put_record fold_time
bid_on id r m s =
    let amount = get_or r.reward (claim_bid m.payload) in
    let b : AuctionBid = record {
      worker_key = m.sender;
      bid_amount = amount;
      timestamp = fold_time m;
    } in
    if ltb b.timestamp r.auction_deadline
      && not (is_pos r.reward && slt (r.reward * 10 % two64) amount)
      && is_pos amount
    then put_record id (record r { auction_bids = place_bid b r.auction_bids }) s
    else s

abbrev pub holds_claim : Option ℕ → Bool
holds_claim none = false
holds_claim (some id) = not (id == 0)

unfoldable pub claim_ceiling : AssignRecord → ℕ
unfolding add_duration
claim_ceiling r = add_duration r.assign_received_at (times r.claim_timeout_minutes minute)

abbrev earlier : ℕ → Option ℕ → ℕ
earlier ceiling none = ceiling
earlier ceiling (some t) = if ltb t ceiling then t else ceiling

-- The claimant's expires_at is honoured only below the ceiling.
unfoldable pub claim_deadline : Config → AssignRecord → Message → ℕ
unfolding claim_ceiling
claim_deadline c r m =
    let e = claim_expiry m.payload in
    if e == 0 then claim_ceiling r else earlier (claim_ceiling r) (c.parse_time e)

unfoldable pub take : Config → ℕ → AssignRecord → Message → State → State
unfolding put_record
take c id r m s =
    let r' = record r {
      status = claimed;
      claimant_key = m.sender;
      claim_msg_id = m.id;
      claim_expires_at = claim_deadline c r m;
      claimed_at = fold_time m;
    } in
    if holds_claim (lookup m.sender s.claimed_assigns) then s else record (put_record id r' s) {
      claimed_assigns = insert m.sender id s.claimed_assigns;
      claim_msg_to_assign = insert m.id id s.claim_msg_to_assign;
    }

unfoldable pub claim_open : Config → ℕ → AssignRecord → Message → State → State
claim_open c id r m s =
    if not (r.exclusive_sender == 0) && not (m.sender == r.exclusive_sender)
    then record_fold_denial assign_exclusive m s
    else (if r.auction_deadline == 0 then take c id r m s else bid_on id r m s)

unfoldable pub apply_assign_claim : Config → Message → State → State
apply_assign_claim c m s =
    given (first_antecedent m s) s
      λ id. given (record_in open_task id s) s λ r. claim_open c id r m s

-- The bids in ascending order; with none the task stays open.
unfoldable pub close_auction : ℕ → AssignRecord → Message → State → List AuctionBid → State
unfolding put_record
close_auction id r m s [] = s
close_auction id r m s (winner ∷ others) =
    let r' = record r {
      status = claimed;
      claimant_key = winner.worker_key;
      claim_msg_id = m.id;
      claim_expires_at = claim_ceiling r;
      vickrey_price = clearing_price winner others;
      difficulty_tier = tier_of r.reward (median_bid (winner ∷ others));
      claimed_at = fold_time m;
    } in
    record (put_record id r' s) {
      claimed_assigns = insert winner.worker_key id s.claimed_assigns;
      claim_msg_to_assign = insert m.id id s.claim_msg_to_assign;
    }

unfoldable pub apply_assign_auction_close : Config → Message → State → State
apply_assign_auction_close c m s = operator_only c m s (
    given (first_antecedent m s) s λ id.
      given (record_in open_task id s) s λ r. close_auction id r m s (sort_bids r.auction_bids))
