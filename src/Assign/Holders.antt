-- ===== src/Assign/Holders.antt =====
-- Who holds how many claims: applyAssignClaim asks claimedAssigns, applyAssignAuctionClose does not
-- (state_assign.go).
use dontguess.Base.{
  ℕ, ◌≡◌, ◌≢◌, refl, ◌∙◌, true, some, List, ◌∷◌, lookup, lookup-insert_self, lookup-insert_ne,
}
use dontguess.Proto.{Message}
use dontguess.Assign.Types.{
  AuctionBid, AssignRecord, State, Config, claimed, open_task, put_record, first_antecedent,
  record_in,
}
use dontguess.Assign.Auction.{sort_bids}
use dontguess.Assign.Fold.{apply_assign_auction_close, close_auction, is_operator}

-- The record of an assign is claimed by a worker.
abbrev pub IsHeldBy : ℕ → ℕ → State → Type 0
IsHeldBy worker id s =
    (r : AssignRecord) × (lookup id s.assign_by_id ≡ some r)
    × (r.status ≡ claimed)
    × (r.claimant_key ≡ worker)

-- When the operator closes the auction of an open task, and the first of the sorted bids is of a
-- worker who holds a claim on another task, the worker holds both claims, and claimedAssigns names the
-- new one alone.
pub apply_assign_auction_close-second_claim :
    (c : Config) (m : Message) (s : State) (id other : ℕ) (r : AssignRecord) {winner : AuctionBid}
    {others : List AuctionBid}
    → is_operator c m ≡ true
    → first_antecedent m s ≡ some id
    → record_in open_task id s ≡ some r
    → sort_bids r.auction_bids ≡ winner ∷ others
    → other ≢ id
    → IsHeldBy winner.worker_key other s
    → let t = apply_assign_auction_close c m s in
      IsHeldBy winner.worker_key other t
      × IsHeldBy winner.worker_key id t
      × (lookup winner.worker_key t.claimed_assigns ≡ some id)
unfolding apply_assign_auction_close close_auction put_record
apply_assign_auction_close-second_claim c m s id other r {winner} op ante opened bids ne
      (q, at, is, by) =
    rw (op, ante, opened, bids)
      (
        (q, lookup-insert_ne other id _ s.assign_by_id ne ∙ at, is, by),
        (_, lookup-insert_self id _ s.assign_by_id, refl, refl),
        lookup-insert_self winner.worker_key id s.claimed_assigns,
      )
