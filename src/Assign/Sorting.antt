-- ===== src/Assign/Sorting.antt =====
-- The insertion sort of the sealed bids (applyAssignAuctionClose of state_assign.go).
use dontguess.Base.{ℕ, ◌≡◌, true, false, List, [], ◌∷◌, ◌++◌, inl, inr, arith, Bool-cases}
use mathlib.Core.List.{reverse, reverse-cons, reverse_perm, append-nil, Perm, perm_middle}
use mathlib.Core.List.Perm
use dontguess.Base.Int64.{slt}
use dontguess.Assign.Types.{AuctionBid}
use dontguess.Assign.Auction.{sink, sort_onto, sort_bids}

-- No bid of a list is lower than x; none is higher than x.
abbrev pub NoneBelow : ℕ → List AuctionBid → Type 0
NoneBelow x [] = Unit
NoneBelow x (b ∷ bids) = (slt b.bid_amount x ≡ false) × NoneBelow x bids

abbrev NoneAbove : ℕ → List AuctionBid → Type 0
NoneAbove x [] = Unit
NoneAbove x (b ∷ bids) = (slt x b.bid_amount ≡ false) × NoneAbove x bids

-- Ascending amounts, as signed integers.
abbrev pub Ascending : List AuctionBid → Type 0
Ascending [] = Unit
Ascending (b ∷ bids) = NoneBelow b.bid_amount bids × Ascending bids

abbrev Descending : List AuctionBid → Type 0
Descending [] = Unit
Descending (b ∷ bids) = NoneAbove b.bid_amount bids × Descending bids

slt_chain : (a b c : ℕ) → slt a b ≡ false → slt b c ≡ false → slt a c ≡ false
unfolding slt
slt_chain a b c h k = ground arith

slt_asym : (a b : ℕ) → slt a b ≡ true → slt b a ≡ false
unfolding slt
slt_asym a b h = ground arith

NoneAbove-le :
    (x y : ℕ) (bids : List AuctionBid) → slt y x ≡ false → NoneAbove x bids → NoneAbove y bids
NoneAbove-le x y [] h k = tt
NoneAbove-le x y (b ∷ bids) h k = (slt_chain y x b.bid_amount h k.0, NoneAbove-le x y bids h k.1)

sink-NoneAbove :
    (x : ℕ) (b : AuctionBid) (done : List AuctionBid)
    → slt x b.bid_amount ≡ false
    → NoneAbove x done
    → NoneAbove x (sink b done)
unfolding sink
sink-NoneAbove x b [] h k = (h, tt)
sink-NoneAbove x b (c ∷ done) h k = ground (arith, sink-NoneAbove x b done h k.1)

sink-Descending :
    (b : AuctionBid) (done : List AuctionBid) → Descending done → Descending (sink b done)
unfolding sink
sink-Descending b [] d = (tt, tt)
sink-Descending b (c ∷ done) d = elim (Bool-cases (slt b.bid_amount c.bid_amount)) [
  | inl lower ↦
      let top = sink-NoneAbove c.bid_amount b done (slt_asym b.bid_amount c.bid_amount lower) d.0 in
      rw lower (top, sink-Descending b done d.1)
  | inr higher ↦ rw higher ((higher, NoneAbove-le c.bid_amount b.bid_amount done higher d.0), d)
]

sort_onto-Descending :
    (done bids : List AuctionBid) → Descending done → Descending (sort_onto done bids)
unfolding sort_onto
sort_onto-Descending done [] d = d
sort_onto-Descending done (b ∷ bids) d =
    sort_onto-Descending (sink b done) bids (sink-Descending b done d)

NoneBelow-append :
    (x : ℕ) (xs ys : List AuctionBid) → NoneBelow x xs → NoneBelow x ys → NoneBelow x (xs ++ ys)
NoneBelow-append x [] ys h k = k
NoneBelow-append x (b ∷ xs) ys h k = (h.0, NoneBelow-append x xs ys h.1 k)

Ascending-snoc :
    (xs : List AuctionBid) (b : AuctionBid)
    → Ascending xs
    → NoneAbove b.bid_amount xs
    → Ascending (xs ++ b ∷ [])
Ascending-snoc [] b a h = (tt, tt)
Ascending-snoc (c ∷ xs) b a h =
    (NoneBelow-append c.bid_amount xs (b ∷ []) a.0 (h.0, tt), Ascending-snoc xs b a.1 h.1)

NoneAbove-append :
    (x : ℕ) (xs ys : List AuctionBid) → NoneAbove x xs → NoneAbove x ys → NoneAbove x (xs ++ ys)
NoneAbove-append x [] ys h k = k
NoneAbove-append x (b ∷ xs) ys h k = (h.0, NoneAbove-append x xs ys h.1 k)

NoneAbove-reverse : (x : ℕ) (xs : List AuctionBid) → NoneAbove x xs → NoneAbove x (reverse xs)
NoneAbove-reverse x [] h = tt
NoneAbove-reverse x (b ∷ xs) h =
    rw (reverse-cons b xs)
      (NoneAbove-append x (reverse xs) (b ∷ []) (NoneAbove-reverse x xs h.1) (h.0, tt))

reverse-Ascending : (xs : List AuctionBid) → Descending xs → Ascending (reverse xs)
reverse-Ascending [] d = tt
reverse-Ascending (b ∷ xs) d = rw (reverse-cons b xs) (
    Ascending-snoc (reverse xs) b (reverse-Ascending xs d.1)
      (NoneAbove-reverse b.bid_amount xs d.0))

pub sort_bids-Ascending : (bids : List AuctionBid) → Ascending (sort_bids bids)
unfolding sort_bids
sort_bids-Ascending bids = reverse-Ascending (sort_onto [] bids) (sort_onto-Descending [] bids tt)

sink-Perm : (b : AuctionBid) (done : List AuctionBid) → Perm (sink b done) (b ∷ done)
unfolding sink
sink-Perm b [] = Perm.rfl
sink-Perm b (c ∷ done) = elim (Bool-cases (slt b.bid_amount c.bid_amount)) [
  | inl lower ↦ rw lower (Perm.trans (Perm.cons c (sink-Perm b done)) (Perm.swap b c done))
  | inr higher ↦ rw higher Perm.rfl
]

sort_onto-Perm : (done bids : List AuctionBid) → Perm (sort_onto done bids) (done ++ bids)
unfolding sort_onto
sort_onto-Perm done [] = rw (append-nil done) Perm.rfl
sort_onto-Perm done (b ∷ bids) =
    Perm.trans (sort_onto-Perm (sink b done) bids)
      (Perm.trans (Perm.append_right bids (sink-Perm b done)) (Perm.symm (perm_middle done bids)))

pub sort_bids-Perm : (bids : List AuctionBid) → Perm (sort_bids bids) bids
unfolding sort_bids
sort_bids-Perm bids = Perm.trans (reverse_perm (sort_onto [] bids)) (sort_onto-Perm [] bids)
