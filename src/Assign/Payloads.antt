-- ===== src/Assign/Payloads.antt =====
-- The payloads of exchange:assign and exchange:assign-claim, as state_assign.go decodes them.
use dontguess.Base.{ℕ, ◌&&◌, ◌==◌, Option, none, some, [], ◌∷◌, if◌then◌else◌, ltb, ◌>>=◌}
use dontguess.Base.Int64.{is_pos}
use dontguess.Json.{
  Object, Value, text, number, null, same_name, text_field, number_field, entry_id, task_type,
  reward, bounty, exclusive_sender, claim_timeout_minutes, auction_window_seconds, buy_msg_id,
  deadline_at, expires_at, bid,
}

pub record AssignPayload : Type 0 where
  pub entry_id : ℕ
  pub task_type : ℕ
  pub reward : ℕ
  pub exclusive_sender : ℕ
  pub claim_timeout_minutes : ℕ
  pub auction_window_seconds : ℕ
  pub buy_msg_id : ℕ
  pub deadline_at : ℕ

-- `bounty` stands in for a reward of 0.
abbrev merge_bounty : ℕ → ℕ → ℕ
merge_bounty offered pay = if is_pos offered && pay == 0 then offered else pay

-- DefaultClaimTimeoutMinutes outside the range 1 to 30.
abbrev clamp_timeout : ℕ → ℕ
clamp_timeout n = if ltb 0 n && ltb n 31 then n else 15

-- `none` is an Unmarshal error.
unfoldable pub decode_assign : Option Object → Option AssignPayload
decode_assign payload = do
  o ← payload
  entry ← text_field entry_id o
  task ← text_field task_type o
  pay ← number_field reward o
  offered ← number_field bounty o
  exclusive ← text_field exclusive_sender o
  timeout ← number_field claim_timeout_minutes o
  window ← number_field auction_window_seconds o
  buy ← text_field buy_msg_id o
  deadline ← text_field deadline_at o
  some (record {
    entry_id = entry;
    task_type = task;
    reward = merge_bounty offered pay;
    exclusive_sender = exclusive;
    claim_timeout_minutes = clamp_timeout timeout;
    auction_window_seconds = window;
    buy_msg_id = buy;
    deadline_at = deadline;
  })

-- The claim payload is read as far as it goes: errors are ignored, and a member of the wrong type
-- leaves its field. The pointer `bid` is allocated before a value of the wrong type is refused.
read_expiry : Object → ℕ → ℕ
read_expiry [] old = old
read_expiry ((n, v) ∷ o) old =
    read_expiry o (if same_name n expires_at then (elim v [ text s ↦ s | _ ↦ old ]) else old)

abbrev as_bid : Value → Option ℕ → Option ℕ
as_bid (number n) old = some n
as_bid null old = none
as_bid _ none = some 0
as_bid _ (some n) = some n

read_bid : Object → Option ℕ → Option ℕ
read_bid [] old = old
read_bid ((n, v) ∷ o) old = read_bid o (if same_name n bid then as_bid v old else old)

abbrev members : Option Object → Object
members none = []
members (some o) = o

unfoldable pub claim_expiry : Option Object → ℕ
unfolding read_expiry same_name
claim_expiry payload = read_expiry (members payload) 0

unfoldable pub claim_bid : Option Object → Option ℕ
unfolding read_bid same_name
claim_bid payload = read_bid (members payload) none
