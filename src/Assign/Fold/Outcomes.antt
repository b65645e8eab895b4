-- ===== src/Assign/Fold/Outcomes.antt =====
-- applyAssignComplete, applyAssignAccept, applyAssignReject and applyAssignExpire of
-- state_assign.go.
use dontguess.Base.{ℕ, ◌==◌, Option, none, some, lookup, insert, erase, if◌then◌else◌}
use dontguess.Proto.{Message}
use dontguess.Assign.Types.{
  AssignRecord, open_task, claimed, completed, accepted, expired, assign_claimant, State, Config,
  record_fold_denial, fold_time, put_record, first_antecedent, record_in, given,
}
use dontguess.Assign.Fold.Claims.{operator_only}

unfoldable pub complete_claim : ℕ → ℕ → AssignRecord → Message → State → State
unfolding put_record
complete_claim claim_id id r m s =
    let r' = record r {
      status = completed;
      complete_msg_id = m.id;
      result = m.payload;
      completed_at = fold_time m;
    } in
    if m.sender == r.claimant_key
    then record (put_record id r' s) {
      claimed_assigns = erase m.sender s.claimed_assigns;
      claim_msg_to_assign = erase claim_id s.claim_msg_to_assign;
      complete_msg_to_assign = insert m.id id s.complete_msg_to_assign;
      pending_assign_results = insert m.id id s.pending_assign_results;
    }
    else record_fold_denial assign_claimant m s

unfoldable pub apply_assign_complete : Message → State → State
apply_assign_complete m s = given (first_antecedent m s) s λ claim_id.
    given (lookup claim_id s.claim_msg_to_assign) s
      λ id. given (record_in claimed id s) s λ r. complete_claim claim_id id r m s

unfoldable pub accept_result : ℕ → ℕ → AssignRecord → State → State
unfolding put_record
accept_result complete_id id r s = record (put_record id (record r { status = accepted }) s) {
  pending_assign_results = erase complete_id s.pending_assign_results;
}

unfoldable pub apply_assign_accept : Config → Message → State → State
apply_assign_accept c m s = operator_only c m s (
    given (first_antecedent m s) s λ complete_id.
      given (lookup complete_id s.pending_assign_results) s
        λ id. given (record_in completed id s) s λ r. accept_result complete_id id r s)

unfoldable pub reject_result : ℕ → ℕ → AssignRecord → State → State
unfolding put_record
reject_result complete_id id r s =
    let r' = record r {
      claimant_key = 0;
      claim_msg_id = 0;
      complete_msg_id = 0;
      result = none;
      status = open_task;
    } in
    record (put_record id r' s) {
      pending_assign_results = erase complete_id s.pending_assign_results;
      complete_msg_to_assign = erase complete_id s.complete_msg_to_assign;
    }

unfoldable pub apply_assign_reject : Config → Message → State → State
apply_assign_reject c m s = operator_only c m s (
    given (first_antecedent m s) s λ complete_id.
      given (lookup complete_id s.pending_assign_results) s
        λ id. given (record_in completed id s) s λ r. reject_result complete_id id r s)

unfoldable pub expire_claim : ℕ → ℕ → AssignRecord → State → State
unfolding put_record
expire_claim claim_id id r s =
    let r' = record r {
      claimant_key = 0;
      claim_msg_id = 0;
      claim_expires_at = 0;
      status = open_task;
    } in
    record (put_record id r' s) {
      claimed_assigns = erase r.claimant_key s.claimed_assigns;
      claim_msg_to_assign = erase claim_id s.claim_msg_to_assign;
    }

-- The two paths of an expiry: a claim message, or else an open assign.
unfoldable pub expire_antecedent : ℕ → Option ℕ → State → State
unfolding put_record
expire_antecedent ante (some id) s = given (record_in claimed id s) s λ r. expire_claim ante id r s
expire_antecedent ante none s =
    given (record_in open_task ante s) s λ r. put_record ante (record r { status = expired }) s

unfoldable pub apply_assign_expire : Config → Message → State → State
apply_assign_expire c m s = operator_only c m s (
    given (first_antecedent m s) s
      λ ante. expire_antecedent ante (lookup ante s.claim_msg_to_assign) s)
