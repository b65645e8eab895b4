-- ===== src/Assign/Tests.antt =====
-- Tasks, bids and payments at concrete states, and the theorems at them.
use dontguess.Base.{
  ℕ, ◌≡◌, refl, ◌≢◌, false, none, some, List, [], ◌∷◌, arith, lookup, insert, erase,
}
use dontguess.Base.Int64.{slt}
use dontguess.Proto.{Message, Tag, ExchangeOp, assign_auction_close, assign_expire, assign_reject}
use dontguess.Assign.Types.{
  AuctionBid, AssignRecord, State, Config, AssignStatus, open_task, claimed, completed, accepted,
  paid, no_tier, AssignStatus-discrete, first_antecedent, record_in, resolve_alias, put_record,
}
use dontguess.Assign.Auction.{place_bid, sort_bids, sort_onto, sink}
use dontguess.Assign.Fold.{
  apply_locked, apply_assign_auction_close, apply_assign_expire, apply_assign_reject,
  claim_assign_payment, pay,
}
use dontguess.Assign.Diagram.{Advances, apply_locked-Advances}
use dontguess.Assign.Payment.{run, claim_assign_payment_once}
use dontguess.Assign.Vickrey.{
  offer_of, place_bid-offer_of, IsSecondPriceSale, apply_assign_auction_close-IsSecondPriceSale,
}
use dontguess.Assign.Deadlines.{AllOnTime, apply_locked-AllOnTime}
use dontguess.Assign.Holders.{IsHeldBy, apply_assign_auction_close-second_claim}
use dontguess.Assign.Reopened.{IsSoldTo, expired_winner_wins_again, rejected_winner_wins_again}

-- The operator is 1; workers are 2, 3 and 4.
abbrev exchange : Config
exchange = record { operator_key = 1; brokered_match = 50; parse_time = λ t. some t }

abbrev message : ℕ → ℕ → ExchangeOp → ℕ → Message
message id sender op antecedent = record {
  id = id;
  sender = sender;
  payload = none;
  tags = Tag.exchange op ∷ [];
  antecedents = antecedent ∷ [];
  timestamp = 0;
}

abbrev bid_of : ℕ → ℕ → AuctionBid
bid_of worker amount = record { worker_key = worker; bid_amount = amount; timestamp = 0 }

abbrev three_bids : List AuctionBid
three_bids = bid_of 2 90 ∷ bid_of 3 70 ∷ bid_of 4 80 ∷ []

abbrev task : ℕ → AssignStatus → ℕ → AssignRecord
task id status claimant = record {
  assign_id = id;
  entry_id = 5;
  task_type = 6;
  reward = 100;
  status = status;
  claimant_key = claimant;
  claim_msg_id = 0;
  claim_expires_at = 0;
  complete_msg_id = 0;
  result = none;
  exclusive_sender = 0;
  claim_timeout_minutes = 15;
  assign_received_at = 0;
  auction_deadline = 1000;
  auction_bids = three_bids;
  difficulty_tier = no_tier;
  vickrey_price = 0;
  buy_msg_id = 0;
  deadline_at = 0;
  claimed_at = 0;
  completed_at = 0;
}

abbrev empty_state : State
empty_state = record {
  assign_by_id = [];
  assigns_by_entry = [];
  claimed_assigns = [];
  claim_msg_to_assign = [];
  complete_msg_to_assign = [];
  pending_assign_results = [];
  broker_assigns = [];
  wire_to_store = [];
  alarm_wired = false;
  replaying = false;
  replay_msg_ids = [];
  fold_denial_counted = [];
  denials = [];
}

abbrev auctioned : State
auctioned = record empty_state { assign_by_id = (30, task 30 open_task 0) ∷ [] }

abbrev close : Message
close = message 41 1 assign_auction_close 30

sorted : sort_bids three_bids ≡ bid_of 3 70 ∷ bid_of 4 80 ∷ bid_of 2 90 ∷ []
unfolding sort_bids sort_onto sink slt
sorted = refl

apply_locked-Advances_example : Advances auctioned (apply_locked exchange close auctioned)
apply_locked-Advances_example = apply_locked-Advances exchange close auctioned

place_bid-offer_of_example : offer_of 3 (place_bid (bid_of 3 60) three_bids) ≡ some 60
unfolding slt
place_bid-offer_of_example = place_bid-offer_of (bid_of 3 60) three_bids 3

apply_assign_auction_close-IsSecondPriceSale_example :
    (after : AssignRecord) × (lookup 30
        (apply_assign_auction_close exchange close auctioned).assign_by_id
      ≡ some after)
    × IsSecondPriceSale (task 30 open_task 0) after
unfolding first_antecedent record_in lookup resolve_alias AssignStatus-discrete
apply_assign_auction_close-IsSecondPriceSale_example =
    apply_assign_auction_close-IsSecondPriceSale exchange close auctioned 30 (task 30 open_task 0)
      refl refl refl (λ e. cc)

-- The winner 3 holds the task through the close 41 and lets its claim run out.
abbrev sold : State
sold = record empty_state {
  assign_by_id = (30, task 30 claimed 3) ∷ [];
  claim_msg_to_assign = (41, 30) ∷ [];
}

expired_winner_wins_again_example : IsSoldTo (bid_of 3 70) 80 30 (
    apply_assign_auction_close exchange
      (message 43 1 assign_auction_close 30)
      (apply_assign_expire exchange (message 42 1 assign_expire 41) sold))
unfolding first_antecedent record_in lookup resolve_alias AssignStatus-discrete
expired_winner_wins_again_example =
    expired_winner_wins_again exchange (message 42 1 assign_expire 41)
      (message 43 1 assign_auction_close 30) sold 41 30 (task 30 claimed 3) refl refl refl refl refl
      refl sorted

-- The winner's result 44 waits for the operator.
abbrev delivered : State
delivered = record empty_state {
  assign_by_id = (30, task 30 completed 3) ∷ [];
  pending_assign_results = (44, 30) ∷ [];
}

rejected_winner_wins_again_example : IsSoldTo (bid_of 3 70) 80 30 (
    apply_assign_auction_close exchange
      (message 46 1 assign_auction_close 30)
      (apply_assign_reject exchange (message 45 1 assign_reject 44) delivered))
unfolding first_antecedent record_in lookup resolve_alias AssignStatus-discrete
rejected_winner_wins_again_example =
    rejected_winner_wins_again exchange (message 45 1 assign_reject 44)
      (message 46 1 assign_auction_close 30) delivered 44 30 (task 30 completed 3) refl refl refl
      refl refl refl sorted

-- Two accepted tasks, each with its completion.
abbrev owed : State
owed = record empty_state {
  assign_by_id = (30, task 30 accepted 3) ∷ (31, task 31 accepted 2) ∷ [];
  complete_msg_to_assign = (60, 30) ∷ (61, 31) ∷ [];
}

claim_assign_payment_once_example : ◌≢◌ {A = ℕ} 31 30
unfolding claim_assign_payment pay put_record lookup resolve_alias record_in run insert erase
    AssignStatus-discrete
claim_assign_payment_once_example =
    claim_assign_payment_once exchange 60 61 [] owed (task 30 paid 3) (task 31 paid 2)
      (λ id r h. ground arith) refl refl

-- Worker 3 holds task 29 when the auction of task 30 closes.
abbrev busy : State
busy = record empty_state {
  assign_by_id = (30, task 30 open_task 0) ∷ (29, task 29 claimed 3) ∷ [];
  claimed_assigns = (3, 29) ∷ [];
}

apply_assign_auction_close-second_claim_example :
    let t = apply_assign_auction_close exchange close busy in
    IsHeldBy 3 29 t × IsHeldBy 3 30 t × (lookup 3 t.claimed_assigns ≡ some 30)
unfolding first_antecedent record_in lookup resolve_alias AssignStatus-discrete
apply_assign_auction_close-second_claim_example =
    apply_assign_auction_close-second_claim exchange close busy 30 29 (task 30 open_task 0) refl
      refl refl sorted (omega arith) (task 29 claimed 3, refl, refl, refl)

apply_locked-AllOnTime_example : AllOnTime (apply_locked exchange close auctioned)
apply_locked-AllOnTime_example =
    apply_locked-AllOnTime exchange close auctioned (record { each = (omega arith, tt) })
