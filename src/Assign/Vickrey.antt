-- ===== src/Assign/Vickrey.antt =====
-- The auction of an assign: its sealed bids and its second-price close (applyAssignClaim and
-- applyAssignAuctionClose of state_assign.go).
use dontguess.Base.{
  ℕ, ◌≡◌, refl, sym, ◌≢◌, true, ◌==◌, Option, none, some, List, [], ◌∷◌, if◌then◌else◌, arith,
  contains, lookup, lookup-insert_self,
}
use dontguess.Proto.{Message}
use dontguess.Base.Int64.{slt}
use dontguess.Assign.Types.{
  AuctionBid, AssignRecord, State, Config, claimed, open_task, put_record, first_antecedent,
  record_in,
}
use dontguess.Assign.Auction.{place_bid, sort_bids, clearing_price}
use dontguess.Assign.Fold.{apply_assign_auction_close, close_auction, claim_ceiling, is_operator}
use dontguess.Assign.Sorting.{NoneBelow, Ascending, sort_bids-Ascending, sort_bids-Perm}
use mathlib.Core.List.{Perm}
use mathlib.Core.List.Perm

-- What worker w has on the table.
abbrev pub offer_of : ℕ → List AuctionBid → Option ℕ
offer_of w [] = none
offer_of w (b ∷ bids) = if b.worker_key == w then some b.bid_amount else offer_of w bids

-- The lower of what a worker had offered and a new amount.
abbrev pub lower_offer : ℕ → Option ℕ → ℕ
lower_offer x none = x
lower_offer x (some y) = if slt x y then x else y

-- A bid leaves the offers of all other workers as they are, and of its own worker's offers the
-- lower one stands.
pub place_bid-offer_of :
    (b : AuctionBid) (bids : List AuctionBid) (w : ℕ)
    → offer_of w (place_bid b bids) ≡ (
        if b.worker_key == w
        then some (lower_offer b.bid_amount (offer_of w bids))
        else offer_of w bids)
unfolding place_bid
place_bid-offer_of b [] w = refl
place_bid-offer_of b (c ∷ bids) w = ground (arith, place_bid-offer_of b bids w)

abbrev pub amounts : List AuctionBid → List ℕ
amounts [] = []
amounts (b ∷ bids) = b.bid_amount ∷ amounts bids

-- The price of a winner against the others: the least amount that one of them asks, and the
-- winner's own where there is no other.
abbrev pub IsSecondPrice : ℕ → AuctionBid → List AuctionBid → Type 0
IsSecondPrice price winner [] = price ≡ winner.bid_amount
IsSecondPrice price winner (b ∷ others) =
    (contains price (amounts (b ∷ others)) ≡ true) × NoneBelow price (b ∷ others)

-- The bids are split into a winner, whom nobody undercuts, and the others; the closed record is
-- the winner's, at the second price, until the ceiling of the opened one.
abbrev pub IsSecondPriceSale : AssignRecord → AssignRecord → Type 0
IsSecondPriceSale before after =
    (winner : AuctionBid) × (others : List AuctionBid) × Perm (winner ∷ others) before.auction_bids
    × NoneBelow winner.bid_amount others
    × (after.status ≡ claimed)
    × (after.claimant_key ≡ winner.worker_key)
    × (after.claim_expires_at ≡ claim_ceiling before)
    × IsSecondPrice after.vickrey_price winner others

clearing_price-IsSecondPrice :
    (winner : AuctionBid) (others : List AuctionBid)
    → Ascending others
    → IsSecondPrice (clearing_price winner others) winner others
unfolding contains slt
clearing_price-IsSecondPrice winner [] a = refl
clearing_price-IsSecondPrice winner (b ∷ others) a = (ground arith, (ground arith, a.0))

Stored : ℕ → State → AssignRecord → Type 0
Stored id s r = lookup id s.assign_by_id ≡ some r

close_auction-IsSecondPriceSale :
    (id : ℕ) (r : AssignRecord) (m : Message) (s : State) (bids : List AuctionBid)
    → Perm bids r.auction_bids
    → Ascending bids
    → r.auction_bids ≢ []
    → (after : AssignRecord) × (lookup id (close_auction id r m s bids).assign_by_id ≡ some after)
      × IsSecondPriceSale r after
unfolding close_auction put_record
close_auction-IsSecondPriceSale id r m s [] p a ne = absurd (ne (sym (Perm.nil-eq p)))
close_auction-IsSecondPriceSale id r m s (winner ∷ others) p a ne = (
  _,
  lookup-insert_self id _ s.assign_by_id,
  (winner, others, p, a.0, refl, refl, refl, clearing_price-IsSecondPrice winner others a.1),
)

-- When the operator closes the auction of an open task that has a bid, the task goes to a worker
-- whom no other bid undercuts, until the task's ceiling, at the least price among the other bids, or
-- at the winner's own where there is no other.
pub apply_assign_auction_close-IsSecondPriceSale :
    (c : Config) (m : Message) (s : State) (id : ℕ) (r : AssignRecord)
    → is_operator c m ≡ true
    → first_antecedent m s ≡ some id
    → record_in open_task id s ≡ some r
    → r.auction_bids ≢ []
    → (after : AssignRecord) × (lookup id (apply_assign_auction_close c m s).assign_by_id
        ≡ some after)
      × IsSecondPriceSale r after
unfolding apply_assign_auction_close
apply_assign_auction_close-IsSecondPriceSale c m s id r op ante opened ne = rw op (
    rw ante (
      rw opened (
        close_auction-IsSecondPriceSale id r m s (sort_bids r.auction_bids)
          (sort_bids-Perm r.auction_bids) (sort_bids-Ascending r.auction_bids) ne)))
