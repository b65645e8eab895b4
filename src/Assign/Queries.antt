-- ===== src/Assign/Queries.antt =====
-- The read-only queries of state_assign.go. `now` is the clock of the caller's process; a range over
-- a Go map has no order, so only membership in the results means anything.
use dontguess.Base.{
  ℕ, Bool, true, false, not, ◌&&◌, ◌||◌, ◌==◌, Option, none, some, List, [], ◌∷◌, Dict, lookup,
  get_or, ltb, if◌then◌else◌,
}
use dontguess.Assign.Types.{
  AssignRecord, AuctionBid, open_task, claimed, completed, accepted, rejected, paid, expired, State,
  is_status,
}

-- `!t.IsZero() && now.After(t)`
abbrev pub has_passed : ℕ → ℕ → Bool
has_passed t now = not (t == 0) && ltb t now

abbrev pub keep : {A : Type 0} → Bool → A → List A → List A
keep b a l = if b then a ∷ l else l

abbrev pub is_stale : ℕ → AssignRecord → Bool
is_stale now r = is_status claimed r && has_passed r.claim_expires_at now

stale_claims : ℕ → Dict AssignRecord → List ℕ
stale_claims now [] = []
stale_claims now ((id, r) ∷ d) = keep (is_stale now r) r.claim_msg_id (stale_claims now d)

-- ExpireStaleClaims
unfoldable pub expire_stale_claims : ℕ → State → List ℕ
unfolding stale_claims
expire_stale_claims now s = stale_claims now s.assign_by_id

abbrev pub has_bids : List AuctionBid → Bool
has_bids [] = false
has_bids (_ ∷ _) = true

abbrev pub is_closable : ℕ → AssignRecord → Bool
is_closable now r =
    is_status open_task r && has_passed r.auction_deadline now && has_bids r.auction_bids

closable : ℕ → Dict AssignRecord → List ℕ
closable now [] = []
closable now ((id, r) ∷ d) = keep (is_closable now r) r.assign_id (closable now d)

-- PendingAuctionClose
unfoldable pub pending_auction_close : ℕ → State → List ℕ
unfolding closable
pending_auction_close now s = closable now s.assign_by_id

abbrev pub is_terminal : AssignRecord → Bool
is_terminal r =
    is_status accepted r || is_status rejected r || is_status paid r || is_status expired r

-- A claim whose time has passed is shown as open before the operator's expiry message is folded.
unfoldable pub effective : ℕ → AssignRecord → AssignRecord
effective now r =
    if is_stale now r
    then record r { status = open_task; claimant_key = 0; claim_msg_id = 0 }
    else r

unfoldable pub snapshot : ℕ → Dict AssignRecord → List AssignRecord
unfolding effective
snapshot now [] = []
snapshot now ((id, r) ∷ d) = keep (not (is_terminal r)) (effective now r) (snapshot now d)

-- AllActiveAssigns
unfoldable pub all_active_assigns : ℕ → State → List AssignRecord
unfolding snapshot
all_active_assigns now s = snapshot now s.assign_by_id

abbrev keep_found : ℕ → Option AssignRecord → List AssignRecord → List AssignRecord
keep_found now none l = l
keep_found now (some r) l = keep (not (is_terminal r)) (effective now r) l

snapshot_of : ℕ → List ℕ → State → List AssignRecord
snapshot_of now [] s = []
snapshot_of now (id ∷ ids) s = keep_found now (lookup id s.assign_by_id) (snapshot_of now ids s)

-- ActiveAssigns, for the records of one entry.
unfoldable pub active_assigns : ℕ → ℕ → State → List AssignRecord
unfolding snapshot_of effective
active_assigns now entry s = snapshot_of now (get_or [] (lookup entry s.assigns_by_entry)) s

abbrev keep_completed : Option AssignRecord → List AssignRecord → List AssignRecord
keep_completed none l = l
keep_completed (some r) l = keep (is_status completed r) r l

completed_of : Dict ℕ → State → List AssignRecord
completed_of [] s = []
completed_of ((c, id) ∷ d) s = keep_completed (lookup id s.assign_by_id) (completed_of d s)

-- CompletedUnacceptedAssigns
unfoldable pub completed_unaccepted_assigns : State → List AssignRecord
unfolding completed_of
completed_unaccepted_assigns s = completed_of s.pending_assign_results s
