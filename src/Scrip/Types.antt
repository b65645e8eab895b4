-- ===== src/Scrip/Types.antt =====
-- The state of LocalScripStore (relay_store.go), its loan records (loan.go) and reservations
-- (spending_store.go). The mutexes and the atomics are not modelled: every method is one step.
use dontguess.Base.{ℕ, ◌≡◌, refl, Bool, Option, none, some, Dict, List, [], false}
use native.Mathlib.Decide.{ℕ_discrete}

-- The result of `fmt.Sprintf("%d-%d", epoch, gen)`, or the empty text, or any other text.
pub data Etag : Type 0 where
  no_etag : Etag
  stamp : ℕ → ℕ → Etag
  foreign : ℕ → Etag

pub Etag-discrete : Discrete Etag
Etag-discrete = hlevel ℕ_discrete

-- `value` is an int64, `gen` and `epoch` are uint64.
pub record BalanceEntry : Type 0 where
  pub value : ℕ
  pub gen : ℕ
  pub epoch : ℕ

pub data LoanStatus : Type 0 where
  active repaid defaulted : LoanStatus

-- A time is the nanoseconds since the zero time, so 0 is the zero value.
pub record LoanRecord : Type 0 where
  pub loan_id : ℕ
  pub borrower_key : ℕ
  pub principal : ℕ
  pub vig_rate_bps : ℕ
  pub due_at : ℕ
  pub repaid_so_far : ℕ
  pub outstanding : ℕ
  pub settlement_msg_id : ℕ
  pub commitment_id : ℕ
  pub status : LoanStatus

pub record Reservation : Type 0 where
  pub id : ℕ
  pub agent_key : ℕ
  pub rk : ℕ
  pub etag : Etag
  pub amount : ℕ
  pub created_at : ℕ

-- What the store does not compute itself: the configured operator key, and `time.Parse` at
-- RFC 3339, whose error is `none`.
pub record Config : Type 0 where
  pub operator_key : ℕ
  pub parse_time : ℕ → Option ℕ

pub record Store : Type 0 where
  pub balances : Dict BalanceEntry
  pub reservations : Dict Reservation
  pub seen_msg_ids : List ℕ
  pub replay_epoch : ℕ
  pub replaying : Bool
  pub total_supply : ℕ
  pub total_burned : ℕ
  pub total_loan_principal : ℕ
  pub loans : Dict LoanRecord
  pub loans_by_borrower : Dict (List ℕ)

-- The maps that NewLocalScripStore makes, before its first replay.
abbrev pub empty_store : Store
empty_store = record {
  balances = [];
  reservations = [];
  seen_msg_ids = [];
  replay_epoch = 0;
  replaying = false;
  total_supply = 0;
  total_burned = 0;
  total_loan_principal = 0;
  loans = [];
  loans_by_borrower = [];
}

-- Run a handler on a decoded payload; `none` is the handler's early return.
abbrev pub given : {A : Type 0} → Option A → Store → (A → Store) → Store
given none s f = s
given (some a) s f = f a

-- What holds before a handler and after each run of it holds after `given`.
pub given-keeps {ℓ} :
    {A : Type 0} (P : Store → Type ℓ) (o : Option A) (s : Store) (f : A → Store)
    → P s
    → ((a : A) → o ≡ some a → P (f a))
    → P (given o s f)
given-keeps P none s f h k = h
given-keeps P (some a) s f h k = k a refl
