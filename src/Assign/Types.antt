-- ===== src/Assign/Types.antt =====
-- AssignRecord, AuctionBid and the maps of State that the assign handlers touch (state_types.go).
-- A pointer to a record is the id of its assign: a record is made once, under its own id, and never
-- removed. A time is the nanoseconds since the zero time.
use dontguess.Base.{
  ℕ, ◌+◌, ◌-◌, ◌*◌, ◌%◌, ◌≡◌, refl, Bool, true, false, Option, none, some, List, [], ◌∷◌, Dict,
  lookup, insert, contains, get_or, ◌&&◌, if◌then◌else◌, ◌>>=◌,
}
use dontguess.Base.Int64.{is_neg, is_pos, two64}
use dontguess.Json.{Object}
use dontguess.Proto.{Message}

pub data AssignStatus : Type 0 where
  open_task claimed completed accepted rejected paid expired : AssignStatus

unfoldable pub AssignStatus-discrete : Discrete AssignStatus
AssignStatus-discrete = hlevel

pub data DifficultyTier : Type 0 where
  no_tier low medium high : DifficultyTier

pub record AuctionBid : Type 0 where
  pub worker_key : ℕ
  pub bid_amount : ℕ
  pub timestamp : ℕ

pub record AssignRecord : Type 0 where
  pub assign_id : ℕ
  pub entry_id : ℕ
  pub task_type : ℕ
  pub reward : ℕ
  pub status : AssignStatus
  pub claimant_key : ℕ
  pub claim_msg_id : ℕ
  pub claim_expires_at : ℕ
  pub complete_msg_id : ℕ
  pub result : Option Object
  pub exclusive_sender : ℕ
  pub claim_timeout_minutes : ℕ
  pub assign_received_at : ℕ
  pub auction_deadline : ℕ
  pub auction_bids : List AuctionBid
  pub difficulty_tier : DifficultyTier
  pub vickrey_price : ℕ
  pub buy_msg_id : ℕ
  pub deadline_at : ℕ
  pub claimed_at : ℕ
  pub completed_at : ℕ

pub data DenialReason : Type 0 where
  not_operator assign_exclusive assign_claimant buyer_identity : DenialReason

-- `denials` is what the callback onFoldDenial was called with, the last call first.
pub record State : Type 0 where
  pub assign_by_id : Dict AssignRecord
  pub assigns_by_entry : Dict (List ℕ)
  pub claimed_assigns : Dict ℕ
  pub claim_msg_to_assign : Dict ℕ
  pub complete_msg_to_assign : Dict ℕ
  pub pending_assign_results : Dict ℕ
  pub broker_assigns : Dict ℕ
  pub wire_to_store : Dict ℕ
  pub alarm_wired : Bool
  pub replaying : Bool
  pub replay_msg_ids : List ℕ
  pub fold_denial_counted : List ℕ
  pub denials : List (DenialReason × ℕ)

-- What the state does not compute: the operator key of the deployment, the number that stands for
-- the text "brokered-match", and `time.Parse` at RFC 3339, whose error is `none`.
pub record Config : Type 0 where
  pub operator_key : ℕ
  pub brokered_match : ℕ
  pub parse_time : ℕ → Option ℕ

-- recordFoldDenial
unfoldable pub record_fold_denial : DenialReason → Message → State → State
record_fold_denial reason m s =
    if s.alarm_wired
    then (if s.replaying && contains m.id s.replay_msg_ids
        then s
        else (if contains m.id s.fold_denial_counted then s else record s {
          fold_denial_counted = m.id ∷ s.fold_denial_counted;
          denials = (reason, m.id) ∷ s.denials;
        }))
    else s

-- resolveAlias of state_wire_alias.go
unfoldable pub resolve_alias : ℕ → State → ℕ
resolve_alias id s = get_or id (lookup id s.wire_to_store)

-- 1970-01-01 in nanoseconds since the zero time.
abbrev pub unix_epoch : ℕ
unix_epoch = 62135596800000000000

-- foldTime: the message's own timestamp, an int64; the zero time when it has none.
unfoldable pub fold_time : Message → ℕ
fold_time m = if is_pos m.timestamp then unix_epoch + m.timestamp else 0

-- `t.Add(d)` for a duration d, an int64 of nanoseconds.
unfoldable pub add_duration : ℕ → ℕ → ℕ
add_duration t d = if is_neg d then t - (two64 - d) else t + d

-- `time.Duration(n) * unit`, with wrap-around.
abbrev pub times : ℕ → ℕ → ℕ
times n unit = n * unit % two64

abbrev pub minute : ℕ
minute = 60000000000

abbrev pub second : ℕ
second = 1000000000

-- A write through a pointer to a record.
unfoldable pub put_record : ℕ → AssignRecord → State → State
put_record id r s = record s { assign_by_id = insert id r s.assign_by_id }

abbrev head_id : List ℕ → Option ℕ
head_id [] = none
head_id (id ∷ _) = some id

-- The antecedent that a handler reads, resolved; `none` where there is none.
unfoldable pub first_antecedent : Message → State → Option ℕ
unfolding resolve_alias
first_antecedent m s = head_id m.antecedents >>= λ id. some (resolve_alias id s)

abbrev pub is_status : AssignStatus → AssignRecord → Bool
is_status w r = elim (AssignStatus-discrete r.status w) [ yes _ ↦ true | no _ ↦ false ]

abbrev pub only_if : Bool → AssignRecord → Option AssignRecord
only_if b r = if b then some r else none

-- The record of an assign that is in a given status.
unfoldable pub record_in : AssignStatus → ℕ → State → Option AssignRecord
record_in w id s = lookup id s.assign_by_id >>= λ r. only_if (is_status w r) r

-- Run a handler on what it looked up; `none` is its early return.
abbrev pub given : {A : Type 0} → Option A → State → (A → State) → State
given none s f = s
given (some a) s f = f a

-- What holds before a handler and after each run of it holds after `given`.
pub given-keeps {ℓ} :
    {A : Type 0} (P : State → Type ℓ) (o : Option A) (s : State) (f : A → State)
    → P s
    → ((a : A) → o ≡ some a → P (f a))
    → P (given o s f)
given-keeps P none s f h k = h
given-keeps P (some a) s f h k = k a refl
