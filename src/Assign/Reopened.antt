-- ===== src/Assign/Reopened.antt =====
-- An auctioned task that comes back to open: applyAssignExpire and applyAssignReject leave its
-- bids and its deadline, so a second close finds the same winner (state_assign.go).
use dontguess.Base.{
  ℕ, ◌≡◌, refl, true, none, some, List, ◌∷◌, arith, lookup, insert, lookup-insert_self,
}
use dontguess.Proto.{Message}
use dontguess.Assign.Types.{
  AuctionBid, AssignRecord, State, Config, claimed, open_task, completed, put_record,
  first_antecedent, record_in, resolve_alias,
}
use dontguess.Assign.Auction.{sort_bids, clearing_price}
use dontguess.Assign.Fold.{
  apply_assign_auction_close, close_auction, is_operator, apply_assign_expire, expire_antecedent,
  expire_claim, apply_assign_reject, reject_result,
}

-- A task that was won by a worker, at a price, until the operator's next word.
abbrev pub IsSoldTo : AuctionBid → ℕ → ℕ → State → Type 0
IsSoldTo winner price id s =
    (after : AssignRecord) × (lookup id s.assign_by_id ≡ some after)
    × (after.status ≡ claimed)
    × (after.claimant_key ≡ winner.worker_key)
    × (after.vickrey_price ≡ price)

close-IsSoldTo :
    (c : Config) (m : Message) (s : State) (id : ℕ) (r : AssignRecord) {winner : AuctionBid}
    {others : List AuctionBid}
    → is_operator c m ≡ true
    → first_antecedent m s ≡ some id
    → record_in open_task id s ≡ some r
    → sort_bids r.auction_bids ≡ winner ∷ others
    → IsSoldTo winner (clearing_price winner others) id (apply_assign_auction_close c m s)
unfolding apply_assign_auction_close close_auction put_record
close-IsSoldTo c m s id r op ante opened bids =
    rw (op, ante, opened, bids) (_, lookup-insert_self id _ s.assign_by_id, refl, refl, refl)

record_in-put_record :
    (id : ℕ) (r : AssignRecord) (s t : State)
    → t.assign_by_id ≡ insert id r s.assign_by_id
    → r.status ≡ open_task
    → record_in open_task id t ≡ some r
unfolding record_in
record_in-put_record id r s t e is = rw e (ground (arith, lookup-insert_self id r s.assign_by_id))

-- When the operator expires the winner's claim on an auctioned task and then closes the auction
-- once more, the task is sold to the first of the same bids again, at the same price.
pub expired_winner_wins_again :
    (c : Config) (expiry close : Message) (s : State) (claim_id id : ℕ) (r : AssignRecord)
    {winner : AuctionBid} {others : List AuctionBid}
    → is_operator c expiry ≡ true
    → is_operator c close ≡ true
    → first_antecedent expiry s ≡ some claim_id
    → lookup claim_id s.claim_msg_to_assign ≡ some id
    → record_in claimed id s ≡ some r
    → first_antecedent close s ≡ some id
    → sort_bids r.auction_bids ≡ winner ∷ others
    → IsSoldTo winner
        (clearing_price winner others)
        id
        (apply_assign_auction_close c close (apply_assign_expire c expiry s))
unfolding apply_assign_expire expire_antecedent expire_claim put_record first_antecedent
    resolve_alias
expired_winner_wins_again c expiry close s claim_id id r op op2 ante known held ante2 bids =
    close-IsSoldTo c close (apply_assign_expire c expiry s) id
      (record r { claimant_key = 0; claim_msg_id = 0; claim_expires_at = 0; status = open_task })
      op2 (rw (op, ante, known, held) ante2)
      (rw (op, ante, known, held) (record_in-put_record id _ s _ refl refl)) bids

-- When the operator rejects the winner's result and then closes the auction once more, the task
-- is sold to the first of the same bids again, at the same price.
pub rejected_winner_wins_again :
    (c : Config) (rejection close : Message) (s : State) (complete_id id : ℕ) (r : AssignRecord)
    {winner : AuctionBid} {others : List AuctionBid}
    → is_operator c rejection ≡ true
    → is_operator c close ≡ true
    → first_antecedent rejection s ≡ some complete_id
    → lookup complete_id s.pending_assign_results ≡ some id
    → record_in completed id s ≡ some r
    → first_antecedent close s ≡ some id
    → sort_bids r.auction_bids ≡ winner ∷ others
    → IsSoldTo winner
        (clearing_price winner others)
        id
        (apply_assign_auction_close c close (apply_assign_reject c rejection s))
unfolding apply_assign_reject reject_result put_record first_antecedent resolve_alias
rejected_winner_wins_again c rejection close s complete_id id r op op2 ante known held ante2 bids =
    close-IsSoldTo c close (apply_assign_reject c rejection s) id
      (record r {
        claimant_key = 0;
        claim_msg_id = 0;
        complete_msg_id = 0;
        result = none;
        status = open_task;
      })
      op2 (rw (op, ante, known, held) ante2)
      (rw (op, ante, known, held) (record_in-put_record id _ s _ refl refl)) bids
