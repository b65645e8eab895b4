-- ===== src/Assign/Diagram.antt =====
-- Every handler takes each record at most one step along the diagram.
use dontguess.Base.{
  ℕ, ◌≡◌, refl, sym, Option, none, some, List, [], ◌∷◌, inl, inr, lookup, insert, if◌then◌else◌,
  arith, Bool-cases, Option-cases, if-keeps, is_some,
}
use mathlib.Core.Path.{subst}
use dontguess.Proto.{
  Message, Tag, ExchangeOp, put, assign, assign_claim, assign_complete, assign_accept,
  assign_reject, assign_expire, assign_auction_close,
}
use dontguess.Exchange.Op.{exchange_op}
use dontguess.Assign.Types.{
  AssignRecord, AssignStatus, open_task, claimed, completed, State, Config, record_fold_denial,
  put_record, first_antecedent, record_in, given, given-keeps, not_operator, assign_exclusive,
  assign_claimant, DenialReason, AuctionBid,
}
use dontguess.Assign.Payloads.{decode_assign}
use dontguess.Assign.Auction.{sort_bids}
use dontguess.Assign.Fold.{
  is_operator, operator_only, new_record, post, apply_assign, bid_on, take, claim_open,
  apply_assign_claim, close_auction, apply_assign_auction_close, complete_claim,
  apply_assign_complete, accept_result, apply_assign_accept, reject_result, apply_assign_reject,
  expire_claim, expire_antecedent, apply_assign_expire, dispatch, canonical, apply_locked,
}
use dontguess.Assign.Lifecycle.{
  ◌⟶◌, stay, claim, lapse, reopen, complete, accept, reject, Evolves, Evolves-refl, Evolves-insert,
  Evolves-insert_new, record_in-eq_some,
}

-- One step of the state, on its records.
abbrev pub Advances : State → State → Type 0
Advances s t = Evolves s.assign_by_id t.assign_by_id

-- A write to a record that was found in a status.
write-Advances :
    (w : AssignStatus) (id : ℕ) (r r' : AssignRecord) (s : State)
    → record_in w id s ≡ some r
    → w ⟶ r'.status
    → r'.assign_id ≡ r.assign_id
    → Evolves s.assign_by_id (insert id r' s.assign_by_id)
write-Advances w id r r' s h mv same =
    let (at, is) = record_in-eq_some w id s r h in
    Evolves-insert id r r' s.assign_by_id at (rw is mv) same

pub record_fold_denial-same :
    (reason : DenialReason) (m : Message) (s : State)
    → (record_fold_denial reason m s).assign_by_id ≡ s.assign_by_id
unfolding record_fold_denial
record_fold_denial-same reason m s = ground arith

denied-Advances :
    (reason : DenialReason) (m : Message) (s : State) → Advances s (record_fold_denial reason m s)
denied-Advances reason m s = rw (record_fold_denial-same reason m s) (Evolves-refl s.assign_by_id)

guarded-Advances :
    (c : Config) (m : Message) (s t : State) → Advances s t → Advances s (operator_only c m s t)
guarded-Advances c m s t h = elim (Bool-cases (is_operator c m)) [
  | inl e ↦ rw e h
  | inr e ↦ rw e (denied-Advances not_operator m s)
]

apply_assign-Advances : (c : Config) (m : Message) (s : State) → Advances s (apply_assign c m s)
unfolding apply_assign post put_record new_record
apply_assign-Advances c m s =
    guarded-Advances c m s
      (if is_some (lookup m.id s.assign_by_id)
        then s
        else given (decode_assign m.payload) s λ p. post c m p s)
      (elim (Option-cases (lookup m.id s.assign_by_id)) [
        | inr (r, e) ↦ rw e (Evolves-refl s.assign_by_id)
        | inl new ↦ rw new (
            given-keeps (Advances s) (decode_assign m.payload) s (λ p. post c m p s)
              (Evolves-refl s.assign_by_id)
              (λ p e. Evolves-insert_new m.id (new_record c m p) s.assign_by_id new refl))
      ])

bid_on-Advances :
    (id : ℕ) (r : AssignRecord) (m : Message) (s : State)
    → record_in open_task id s ≡ some r
    → Advances s (bid_on id r m s)
unfolding bid_on put_record
bid_on-Advances id r m s h =
    if-keeps (Advances s) _ _ s
      (write-Advances open_task id r _ s h
        (let (at, is) = record_in-eq_some open_task id s r h in
          subst (λ w. open_task ⟶ w) (sym is) stay)
        refl)
      (Evolves-refl s.assign_by_id)

take-Advances :
    (c : Config) (id : ℕ) (r : AssignRecord) (m : Message) (s : State)
    → record_in open_task id s ≡ some r
    → Advances s (take c id r m s)
unfolding take put_record
take-Advances c id r m s h =
    if-keeps (Advances s) _ s _ (Evolves-refl s.assign_by_id)
      (write-Advances open_task id r _ s h claim refl)

claim_open-Advances :
    (c : Config) (id : ℕ) (r : AssignRecord) (m : Message) (s : State)
    → record_in open_task id s ≡ some r
    → Advances s (claim_open c id r m s)
unfolding claim_open
claim_open-Advances c id r m s h =
    if-keeps (Advances s) _ _ _ (denied-Advances assign_exclusive m s)
      (if-keeps (Advances s) _ _ _ (take-Advances c id r m s h) (bid_on-Advances id r m s h))

close_auction-Advances :
    (id : ℕ) (r : AssignRecord) (m : Message) (s : State) (bids : List AuctionBid)
    → record_in open_task id s ≡ some r
    → Advances s (close_auction id r m s bids)
unfolding close_auction put_record
close_auction-Advances id r m s [] h = Evolves-refl s.assign_by_id
close_auction-Advances id r m s (winner ∷ others) h = write-Advances open_task id r _ s h claim refl

complete_claim-Advances :
    (claim_id id : ℕ) (r : AssignRecord) (m : Message) (s : State)
    → record_in claimed id s ≡ some r
    → Advances s (complete_claim claim_id id r m s)
unfolding complete_claim put_record
complete_claim-Advances claim_id id r m s h =
    if-keeps (Advances s) _ _ _ (write-Advances claimed id r _ s h complete refl)
      (denied-Advances assign_claimant m s)

-- Handlers of shape: look up a record in a status, and write it.
found-Advances :
    (w : AssignStatus) (id : ℕ) (s : State) (f : AssignRecord → State)
    → ((r : AssignRecord) → record_in w id s ≡ some r → Advances s (f r))
    → Advances s (given (record_in w id s) s f)
found-Advances w id s f k =
    given-keeps (Advances s) (record_in w id s) s f (Evolves-refl s.assign_by_id) k

looked_up-Advances :
    (o : Option ℕ) (s : State) (f : ℕ → State)
    → ((id : ℕ) → Advances s (f id))
    → Advances s (given o s f)
looked_up-Advances o s f k =
    given-keeps (Advances s) o s f (Evolves-refl s.assign_by_id) (λ id e. k id)

expire_antecedent-Advances :
    (ante : ℕ) (o : Option ℕ) (s : State) → Advances s (expire_antecedent ante o s)
unfolding expire_antecedent expire_claim put_record
expire_antecedent-Advances ante none s =
    found-Advances open_task ante s _ (λ r h. write-Advances open_task ante r _ s h lapse refl)
expire_antecedent-Advances ante (some id) s =
    found-Advances claimed id s _ (λ r h. write-Advances claimed id r _ s h reopen refl)

dispatch-Advances :
    (c : Config) (op : ExchangeOp) (m : Message) (s : State) → Advances s (dispatch c op m s)
unfolding dispatch apply_assign_claim apply_assign_auction_close apply_assign_complete
    apply_assign_accept accept_result apply_assign_reject reject_result apply_assign_expire
    put_record
dispatch-Advances c assign m s = apply_assign-Advances c m s
dispatch-Advances c assign_claim m s =
    looked_up-Advances (first_antecedent m s) s _
      λ id. found-Advances open_task id s _ λ r h. claim_open-Advances c id r m s h
dispatch-Advances c assign_auction_close m s = guarded-Advances c m s _ (
    looked_up-Advances (first_antecedent m s) s _ λ id.
      found-Advances open_task id s _
        λ r h. close_auction-Advances id r m s (sort_bids r.auction_bids) h)
dispatch-Advances c assign_complete m s = looked_up-Advances (first_antecedent m s) s _ λ claim_id.
    looked_up-Advances (lookup claim_id s.claim_msg_to_assign) s _
      λ id. found-Advances claimed id s _ λ r h. complete_claim-Advances claim_id id r m s h
dispatch-Advances c assign_accept m s = guarded-Advances c m s _ (
    looked_up-Advances (first_antecedent m s) s _ λ complete_id.
      looked_up-Advances (lookup complete_id s.pending_assign_results) s _ λ id.
        found-Advances completed id s _ λ r h. write-Advances completed id r _ s h accept refl)
dispatch-Advances c assign_reject m s = guarded-Advances c m s _ (
    looked_up-Advances (first_antecedent m s) s _ λ complete_id.
      looked_up-Advances (lookup complete_id s.pending_assign_results) s _ λ id.
        found-Advances completed id s _ λ r h. write-Advances completed id r _ s h reject refl)
dispatch-Advances c assign_expire m s = guarded-Advances c m s _ (
    looked_up-Advances (first_antecedent m s) s _
      λ ante. expire_antecedent-Advances ante (lookup ante s.claim_msg_to_assign) s)
dispatch-Advances c put m s = Evolves-refl s.assign_by_id
dispatch-Advances c _ m s = Evolves-refl s.assign_by_id

-- Whatever message is folded, every record stays there under its own assign id, and its status
-- takes at most one step of the diagram.
pub apply_locked-Advances : (c : Config) (m : Message) (s : State) → Advances s (apply_locked c m s)
unfolding apply_locked
apply_locked-Advances c m s = elim (Option-cases (exchange_op m.tags)) [
  | inl e ↦ rw e (Evolves-refl s.assign_by_id)
  | inr (Tag.exchange op, e) ↦ rw e (dispatch-Advances c op (canonical m s) s)
  | inr (Tag.scrip op, e) ↦ rw e (Evolves-refl s.assign_by_id)
  | inr (Tag.other n, e) ↦ rw e (Evolves-refl s.assign_by_id)
]
