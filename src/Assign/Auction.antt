-- ===== src/Assign/Auction.antt =====
-- The sealed bids of an auctioned assign: one bid for each worker, the insertion sort, the price and
-- the difficulty tier (applyAssignClaim and applyAssignAuctionClose of state_assign.go).
use dontguess.Base.{ℕ, zero, suc, ◌*◌, ◌/◌, List, [], ◌∷◌, ◌==◌, leb, if◌then◌else◌, length}
use dontguess.Base.Int64.{slt, is_pos}
use dontguess.Assign.Types.{AuctionBid, DifficultyTier, low, medium, high}
use mathlib.Core.List.{reverse}

-- A worker's second bid replaces the first if it is lower, and is dropped otherwise.
unfoldable pub place_bid : AuctionBid → List AuctionBid → List AuctionBid
place_bid b [] = b ∷ []
place_bid b (c ∷ bids) =
    if c.worker_key == b.worker_key
    then (if slt b.bid_amount c.bid_amount then b ∷ bids else c ∷ bids)
    else c ∷ place_bid b bids

-- The inner loop: the new bid moves left past every bid that is higher. The sorted part of the
-- slice stands in reverse, its right end first.
unfoldable pub sink : AuctionBid → List AuctionBid → List AuctionBid
sink b [] = b ∷ []
sink b (c ∷ done) =
    let further = c ∷ sink b done in if slt b.bid_amount c.bid_amount then further else b ∷ c ∷ done

-- The outer loop.
unfoldable pub sort_onto : List AuctionBid → List AuctionBid → List AuctionBid
unfolding sink
sort_onto done [] = done
sort_onto done (b ∷ bids) = sort_onto (sink b done) bids

unfoldable pub sort_bids : List AuctionBid → List AuctionBid
unfolding sort_onto
sort_bids bids = reverse (sort_onto [] bids)

-- The second-lowest bid; the winner's own where there is no other.
abbrev pub clearing_price : AuctionBid → List AuctionBid → ℕ
clearing_price winner [] = winner.bid_amount
clearing_price winner (second ∷ _) = second.bid_amount

abbrev pub amount_at : ℕ → ℕ → List AuctionBid → ℕ
amount_at d n [] = d
amount_at d zero (b ∷ bids) = b.bid_amount
amount_at d (suc n) (b ∷ bids) = amount_at d n bids

-- `bids[len(bids)/2]`
abbrev pub median_bid : List AuctionBid → ℕ
median_bid bids = amount_at 0 (length bids / 2) bids

-- The code compares median / reward, as float64, with 1.5 and 5.0; these are the same tests for
-- positive amounts below 2 ^ 51, where no rounding reaches a bound.
abbrev pub tier_of : ℕ → ℕ → DifficultyTier
tier_of reward median =
    if is_pos reward
    then (if leb (2 * median) (3 * reward)
        then low
        else (if leb median (5 * reward) then medium else high))
    else low
