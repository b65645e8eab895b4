-- ===== src/Json.antt =====
-- Message payloads as encoding/json reads them into a struct: an object is the list of its
-- members in text order. Texts are numbers, see Lib.antt; an int64 is its bit pattern.
use dontguess.Base.{ℕ, Bool, false, Option, none, some, List, [], ◌∷◌, if◌then◌else◌, ◌>>=◌}
use mathlib.Core.Bool.{decide}

-- The json tags of the payload structs.
pub data Name : Type 0 where
  recipient amount seller residual fee_burned exchange_revenue buyer worker : Name
  borrower principal vig_rate_bps due_at loan_id settlement_msg_id commitment_token_id : Name
  entry_id task_type reward bounty exclusive_sender claim_timeout_minutes : Name
  auction_window_seconds buy_msg_id deadline_at expires_at bid : Name
  price fee reservation_id buy_msg match_msg result_hash : Name
  purge_content_hash results task_hash buyer_key : Name

Name-discrete : Discrete Name
Name-discrete = hlevel

unfoldable pub same_name : Name → Name → Bool
unfolding Name-discrete decide
same_name n m = decide (Name-discrete n m)

-- `entries` is an array of objects, each given by its entry_id; `other` is a value that fits no
-- field.
pub data Value : Type 0 where
  text : ℕ → Value
  number : ℕ → Value
  flag : Bool → Value
  entries : List ℕ → Value
  null : Value
  other : Value

abbrev pub Object : Type 0
Object = List (Name × Value)

-- What one member does to a string field that holds `old`; `null` leaves it, and `none` is an
-- UnmarshalTypeError.
abbrev as_text : Value → ℕ → Option ℕ
as_text (text s) old = some s
as_text null old = some old
as_text _ old = none

abbrev as_number : Value → ℕ → Option ℕ
as_number (number n) old = some n
as_number null old = some old
as_number _ old = none

abbrev as_flag : Value → Bool → Option Bool
as_flag (flag b) old = some b
as_flag null old = some old
as_flag _ old = none

abbrev as_entries : Value → List ℕ → Option (List ℕ)
as_entries (entries l) old = some l
as_entries null old = some []
as_entries _ old = none

scan : {A : Type 0} → (Value → A → Option A) → Name → Object → A → Option A
scan read n [] old = some old
scan read n ((m, v) ∷ o) old =
    (if same_name n m then read v old else some old) >>= λ new. scan read n o new

-- A string field: "" when absent, the last member when repeated.
unfoldable pub text_field : Name → Object → Option ℕ
unfolding scan same_name
text_field n o = scan as_text n o 0

-- An integer field: 0 when absent.
unfoldable pub number_field : Name → Object → Option ℕ
unfolding scan same_name
number_field n o = scan as_number n o 0

-- A Boolean field: false when absent.
unfoldable pub flag_field : Name → Object → Option Bool
unfolding scan same_name
flag_field n o = scan as_flag n o false

-- An array of objects: nil when absent or null.
unfoldable pub entries_field : Name → Object → Option (List ℕ)
unfolding scan same_name
entries_field n o = scan as_entries n o []
