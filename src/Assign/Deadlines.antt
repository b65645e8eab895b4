-- ===== src/Assign/Deadlines.antt =====
-- A claim never outlasts its ceiling (the expires_at of applyAssignClaim, state_assign.go).
use dontguess.Base.{
  ◌≤◌, All, All-insert, All-lookup, ℕ, ◌≡◌, Option, none, some, List, [], ◌∷◌, inl, inr, lookup,
  insert, arith, Bool-cases, Option-cases, if-keeps, is_some,
}
use dontguess.Proto.{
  Message, Tag, ExchangeOp, put, assign, assign_claim, assign_complete, assign_accept,
  assign_reject, assign_expire, assign_auction_close,
}
use dontguess.Exchange.Op.{exchange_op}
use dontguess.Assign.Types.{
  AssignRecord, AssignStatus, open_task, claimed, completed, State, Config, record_fold_denial,
  put_record, first_antecedent, record_in, given, given-keeps, not_operator, assign_exclusive,
  assign_claimant, DenialReason, AuctionBid,
}
use dontguess.Assign.Payloads.{decode_assign}
use dontguess.Assign.Auction.{sort_bids}
use dontguess.Assign.Fold.{
  is_operator, operator_only, new_record, post, apply_assign, bid_on, take, claim_open,
  apply_assign_claim, close_auction, apply_assign_auction_close, complete_claim,
  apply_assign_complete, accept_result, apply_assign_accept, reject_result, apply_assign_reject,
  expire_claim, expire_antecedent, apply_assign_expire, dispatch, canonical, apply_locked,
  claim_deadline, claim_ceiling,
}
use dontguess.Assign.Lifecycle.{record_in-eq_some}
use dontguess.Assign.Diagram.{record_fold_denial-same}

-- A claim on the record ends at its ceiling or before: when it was received, plus its time-out.
abbrev pub IsOnTime : AssignRecord → Type 0
IsOnTime r = r.claim_expires_at ≤ claim_ceiling r

pub record AllOnTime (s : State) : Type 0 where
  pub each : All IsOnTime s.assign_by_id

claim_deadline-le :
    (c : Config) (r : AssignRecord) (m : Message) → claim_deadline c r m ≤ claim_ceiling r
unfolding claim_deadline
claim_deadline-le c r m = ground arith

write-OnTime :
    (w : AssignStatus) (id : ℕ) (r r' : AssignRecord) (s : State)
    → AllOnTime s
    → record_in w id s ≡ some r
    → (IsOnTime r → IsOnTime r')
    → All IsOnTime (insert id r' s.assign_by_id)
write-OnTime w id r r' s v h k =
    let (at, _) = record_in-eq_some w id s r h in
    All-insert IsOnTime id r' s.assign_by_id v.each
      (k (All-lookup IsOnTime id r s.assign_by_id v.each at))

denied-OnTime :
    (reason : DenialReason) (m : Message) (s : State)
    → AllOnTime s
    → AllOnTime (record_fold_denial reason m s)
denied-OnTime reason m s v = record { each = rw (record_fold_denial-same reason m s) v.each }

guarded-OnTime :
    (c : Config) (m : Message) (s t : State)
    → AllOnTime s
    → AllOnTime t
    → AllOnTime (operator_only c m s t)
guarded-OnTime c m s t v h = elim (Bool-cases (is_operator c m)) [
  | inl e ↦ rw e h
  | inr e ↦ rw e (denied-OnTime not_operator m s v)
]

apply_assign-OnTime :
    (c : Config) (m : Message) (s : State) → AllOnTime s → AllOnTime (apply_assign c m s)
unfolding apply_assign post put_record new_record
apply_assign-OnTime c m s v = guarded-OnTime c m s _ v (
    if-keeps AllOnTime (is_some (lookup m.id s.assign_by_id)) s _ v (
      given-keeps AllOnTime (decode_assign m.payload) s (λ p. post c m p s) v
        (λ p e. record {
          each = All-insert IsOnTime m.id (new_record c m p) s.assign_by_id v.each (omega arith);
        })))

take-OnTime :
    (c : Config) (id : ℕ) (r : AssignRecord) (m : Message) (s : State)
    → AllOnTime s
    → record_in open_task id s ≡ some r
    → AllOnTime (take c id r m s)
unfolding take put_record claim_ceiling
take-OnTime c id r m s v h =
    if-keeps AllOnTime _ s _ v
      (record { each = write-OnTime open_task id r _ s v h (λ _. claim_deadline-le c r m) })

bid_on-OnTime :
    (id : ℕ) (r : AssignRecord) (m : Message) (s : State)
    → AllOnTime s
    → record_in open_task id s ≡ some r
    → AllOnTime (bid_on id r m s)
unfolding bid_on put_record claim_ceiling
bid_on-OnTime id r m s v h =
    if-keeps AllOnTime _ _ s (record { each = write-OnTime open_task id r _ s v h (λ k. k) }) v

claim_open-OnTime :
    (c : Config) (id : ℕ) (r : AssignRecord) (m : Message) (s : State)
    → AllOnTime s
    → record_in open_task id s ≡ some r
    → AllOnTime (claim_open c id r m s)
unfolding claim_open
claim_open-OnTime c id r m s v h =
    if-keeps AllOnTime _ _ _ (denied-OnTime assign_exclusive m s v)
      (if-keeps AllOnTime _ _ _ (take-OnTime c id r m s v h) (bid_on-OnTime id r m s v h))

close_auction-OnTime :
    (id : ℕ) (r : AssignRecord) (m : Message) (s : State) (bids : List AuctionBid)
    → AllOnTime s
    → record_in open_task id s ≡ some r
    → AllOnTime (close_auction id r m s bids)
unfolding close_auction put_record claim_ceiling
close_auction-OnTime id r m s [] v h = v
close_auction-OnTime id r m s (winner ∷ others) v h = record {
  each = write-OnTime open_task id r _ s v h (λ _. omega arith);
}

complete_claim-OnTime :
    (claim_id id : ℕ) (r : AssignRecord) (m : Message) (s : State)
    → AllOnTime s
    → record_in claimed id s ≡ some r
    → AllOnTime (complete_claim claim_id id r m s)
unfolding complete_claim put_record claim_ceiling
complete_claim-OnTime claim_id id r m s v h =
    if-keeps AllOnTime _ _ _ (record { each = write-OnTime claimed id r _ s v h (λ k. k) })
      (denied-OnTime assign_claimant m s v)

-- Handlers of shape: look up a record in a status, and write it.
found-OnTime :
    (w : AssignStatus) (id : ℕ) (s : State) (f : AssignRecord → State)
    → AllOnTime s
    → ((r : AssignRecord) → record_in w id s ≡ some r → AllOnTime (f r))
    → AllOnTime (given (record_in w id s) s f)
found-OnTime w id s f v k = given-keeps AllOnTime (record_in w id s) s f v k

looked_up-OnTime :
    (o : Option ℕ) (s : State) (f : ℕ → State)
    → AllOnTime s
    → ((id : ℕ) → AllOnTime (f id))
    → AllOnTime (given o s f)
looked_up-OnTime o s f v k = given-keeps AllOnTime o s f v (λ id e. k id)

expire_antecedent-OnTime :
    (ante : ℕ) (o : Option ℕ) (s : State) → AllOnTime s → AllOnTime (expire_antecedent ante o s)
unfolding expire_antecedent expire_claim put_record claim_ceiling
expire_antecedent-OnTime ante none s v =
    found-OnTime open_task ante s _ v
      (λ r h. record { each = write-OnTime open_task ante r _ s v h (λ k. k) })
expire_antecedent-OnTime ante (some id) s v =
    found-OnTime claimed id s _ v
      (λ r h. record { each = write-OnTime claimed id r _ s v h (λ _. omega arith) })

dispatch-OnTime :
    (c : Config) (op : ExchangeOp) (m : Message) (s : State)
    → AllOnTime s
    → AllOnTime (dispatch c op m s)
unfolding dispatch apply_assign_claim apply_assign_auction_close apply_assign_complete
    apply_assign_accept accept_result apply_assign_reject reject_result apply_assign_expire
    put_record claim_ceiling
dispatch-OnTime c assign m s v = apply_assign-OnTime c m s v
dispatch-OnTime c assign_claim m s v =
    looked_up-OnTime (first_antecedent m s) s _ v
      λ id. found-OnTime open_task id s _ v λ r h. claim_open-OnTime c id r m s v h
dispatch-OnTime c assign_auction_close m s v = guarded-OnTime c m s _ v (
    looked_up-OnTime (first_antecedent m s) s _ v λ id.
      found-OnTime open_task id s _ v
        λ r h. close_auction-OnTime id r m s (sort_bids r.auction_bids) v h)
dispatch-OnTime c assign_complete m s v = looked_up-OnTime (first_antecedent m s) s _ v λ claim_id.
    looked_up-OnTime (lookup claim_id s.claim_msg_to_assign) s _ v
      λ id. found-OnTime claimed id s _ v λ r h. complete_claim-OnTime claim_id id r m s v h
dispatch-OnTime c assign_accept m s v = guarded-OnTime c m s _ v (
    looked_up-OnTime (first_antecedent m s) s _ v λ complete_id.
      looked_up-OnTime (lookup complete_id s.pending_assign_results) s _ v λ id.
        found-OnTime completed id s _ v
          λ r h. record { each = write-OnTime completed id r _ s v h (λ k. k) })
dispatch-OnTime c assign_reject m s v = guarded-OnTime c m s _ v (
    looked_up-OnTime (first_antecedent m s) s _ v λ complete_id.
      looked_up-OnTime (lookup complete_id s.pending_assign_results) s _ v λ id.
        found-OnTime completed id s _ v
          λ r h. record { each = write-OnTime completed id r _ s v h (λ k. k) })
dispatch-OnTime c assign_expire m s v = guarded-OnTime c m s _ v (
    looked_up-OnTime (first_antecedent m s) s _ v
      λ ante. expire_antecedent-OnTime ante (lookup ante s.claim_msg_to_assign) s v)
dispatch-OnTime c put m s v = v
dispatch-OnTime c _ m s v = v

-- Where every claim ends at the ceiling of its task or before, that is so after any message, whatever
-- expiry a claimant asks for.
pub apply_locked-AllOnTime :
    (c : Config) (m : Message) (s : State) → AllOnTime s → AllOnTime (apply_locked c m s)
unfolding apply_locked
apply_locked-AllOnTime c m s v = elim (Option-cases (exchange_op m.tags)) [
  | inl e ↦ rw e v
  | inr (Tag.exchange op, e) ↦ rw e (dispatch-OnTime c op (canonical m s) s v)
  | inr (Tag.scrip op, e) ↦ rw e v
  | inr (Tag.other n, e) ↦ rw e v
]
