-- ===== src/Assign/Fold.antt =====
-- The switch of applyLocked for the assign messages, and ClaimAssignPayment.
mod Claims
mod Outcomes
unfoldable pub use Claims.*
unfoldable pub use Outcomes.*
use dontguess.Base.{
  ℕ, ◌*◌, ◌%◌, Bool, false, not, ◌&&◌, ◌||◌, ◌==◌, Option, none, some, List, [], ◌∷◌, ◌++◌, lookup,
  insert, erase, get_or, is_some, ltb, if◌then◌else◌,
}
use dontguess.Base.Int64.{is_pos, slt, two64}
use dontguess.Exchange.Op.{exchange_op}
use dontguess.Proto.{
  Message, Tag, ExchangeOp, assign, assign_claim, assign_complete, assign_accept, assign_reject,
  assign_expire, assign_auction_close,
}
use dontguess.Assign.Types.{
  AssignRecord, AuctionBid, open_task, claimed, completed, accepted, expired, paid, no_tier,
  not_operator, assign_exclusive, assign_claimant, State, Config, record_fold_denial, resolve_alias,
  fold_time, add_duration, times, minute, second, put_record, first_antecedent, record_in, given,
}
use dontguess.Assign.Payloads.{AssignPayload, decode_assign, claim_expiry, claim_bid}
use dontguess.Assign.Auction.{place_bid, sort_bids, clearing_price, median_bid, tier_of}

-- The assign cases of the switch of applyLocked; the other operations leave these maps alone.
unfoldable pub dispatch : Config → ExchangeOp → Message → State → State
dispatch c assign m s = apply_assign c m s
dispatch c assign_claim m s = apply_assign_claim c m s
dispatch c assign_complete m s = apply_assign_complete m s
dispatch c assign_accept m s = apply_assign_accept c m s
dispatch c assign_reject m s = apply_assign_reject c m s
dispatch c assign_expire m s = apply_assign_expire c m s
dispatch c assign_auction_close m s = apply_assign_auction_close c m s
dispatch c _ m s = s

-- ClaimAssignPayment: the record to pay, at most once.
unfoldable pub pay : ℕ → ℕ → AssignRecord → State → State × Option AssignRecord
unfolding put_record
pay complete_id id r s =
    let r' = record r { status = paid } in
    (
      record (put_record id r' s) {
        complete_msg_to_assign = erase complete_id s.complete_msg_to_assign;
      },
      some r',
    )

abbrev pub given_payment :
    {A : Type 0}
    → Option A
    → State
    → (A → State × Option AssignRecord)
    → State × Option AssignRecord
given_payment none s f = (s, none)
given_payment (some a) s f = f a

unfoldable pub claim_assign_payment : ℕ → State → State × Option AssignRecord
claim_assign_payment wire_id s =
    let complete_id = resolve_alias wire_id s in
    given_payment (lookup complete_id s.complete_msg_to_assign) s
      λ id. given_payment (record_in accepted id s) s λ r. pay complete_id id r s

-- applyLocked: the sender is read through the aliases first, and the operation is the one that
-- exchangeOp names.
abbrev pub canonical : Message → State → Message
canonical m s = record m { sender = resolve_alias m.sender s }

abbrev run_op : Config → Option Tag → Message → State → State
run_op c none m s = s
run_op c (some (Tag.scrip _)) m s = s
run_op c (some (Tag.other _)) m s = s
run_op c (some (Tag.exchange op)) m s = dispatch c op m s

unfoldable pub apply_locked : Config → Message → State → State
unfolding exchange_op resolve_alias
apply_locked c m s = run_op c (exchange_op m.tags) (canonical m s) s
