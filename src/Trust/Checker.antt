-- ===== src/Trust/Checker.antt =====
-- TrustChecker of trust.go: its construction, its members and revocations, Level, RequiredLevel and
-- Check.
use dontguess.Base.{
  ℕ, Bool, true, false, not, ◌&&◌, ◌||◌, ◌==◌, Option, none, some, List, [], ◌∷◌, if◌then◌else◌,
  ltb,
}
use dontguess.Base.Int64.{slt}
use dontguess.Trust.Types.{
  TrustLevel, anonymous, allowlisted, operator, rank, Operation, Operation-discrete, put, buy,
  match, settle, assign, mint, burn, rate_publish, convention_promote, convention_supersede,
  inventory_read, price_history_read, consume, assign_post, assign_claim, assign_complete,
  assign_accept, assign_reject, assign_expire, assign_auction_close, unknown, SettlePhase,
  SettlePhase-discrete, no_phase, buyer_accept, buyer_reject, put_accept, put_reject, deliver,
  complete, dispute, preview, preview_request, small_content_dispute, unknown_phase, Keys,
  Membership, no_members, key_set, fixed, TrustChecker, CheckError, insufficient_trust,
  low_reputation, unknown_level,
}
use dontguess.Trust.KeySet.{add, remove, allowed, replace_all}

unfoldable pub default_operation_levels : Operation → Option TrustLevel
default_operation_levels buy = some anonymous
default_operation_levels inventory_read = some anonymous
default_operation_levels price_history_read = some anonymous
default_operation_levels put = some allowlisted
default_operation_levels assign = some allowlisted
default_operation_levels mint = some operator
default_operation_levels burn = some operator
default_operation_levels rate_publish = some operator
default_operation_levels convention_promote = some operator
default_operation_levels convention_supersede = some operator
default_operation_levels match = some operator
default_operation_levels consume = some operator
default_operation_levels assign_post = some operator
default_operation_levels assign_accept = some operator
default_operation_levels assign_reject = some operator
default_operation_levels assign_expire = some operator
default_operation_levels assign_auction_close = some operator
default_operation_levels assign_claim = some allowlisted
default_operation_levels assign_complete = some allowlisted
default_operation_levels settle = none
default_operation_levels (unknown n) = none

unfoldable pub default_settle_phase_levels : SettlePhase → Option TrustLevel
default_settle_phase_levels buyer_accept = some allowlisted
default_settle_phase_levels buyer_reject = some allowlisted
default_settle_phase_levels complete = some allowlisted
default_settle_phase_levels dispute = some allowlisted
default_settle_phase_levels put_accept = some operator
default_settle_phase_levels put_reject = some operator
default_settle_phase_levels deliver = some operator
default_settle_phase_levels preview = some operator
default_settle_phase_levels preview_request = some allowlisted
default_settle_phase_levels small_content_dispute = some allowlisted
default_settle_phase_levels no_phase = none
default_settle_phase_levels (unknown_phase n) = none

-- A key of the trust_levels section: an operation, or a phase after "settle:".
pub data OverrideKey : Type 0 where
  operation : Operation → OverrideKey
  phase : SettlePhase → OverrideKey

abbrev set_operation :
    Operation → TrustLevel → (Operation → Option TrustLevel) → Operation → Option TrustLevel
set_operation o l levels p = elim (Operation-discrete p o) [ yes _ ↦ some l | no _ ↦ levels p ]

abbrev set_phase :
    SettlePhase → TrustLevel → (SettlePhase → Option TrustLevel) → SettlePhase → Option TrustLevel
set_phase o l levels p = elim (SettlePhase-discrete p o) [ yes _ ↦ some l | no _ ↦ levels p ]

abbrev override : OverrideKey → TrustLevel → TrustChecker → TrustChecker
override (operation o) l c = record c { op_levels = set_operation o l c.op_levels }
override (phase p) l c = record c { settle_levels = set_phase p l c.settle_levels }

-- applyPending; a level name that levelNames does not hold is `none`, and an error.
unfoldable pub apply_pending :
    List (OverrideKey × Option TrustLevel) → TrustChecker → Option TrustChecker
apply_pending [] c = some c
apply_pending ((k, none) ∷ overrides) c = none
apply_pending ((k, some l) ∷ overrides) c = apply_pending overrides (override k l c)

-- NewTrustChecker, with the overrides and the reputation floor of its options.
unfoldable pub new_trust_checker :
    ℕ
    → Membership
    → List (OverrideKey × Option TrustLevel)
    → Option (ℕ → ℕ)
    → ℕ
    → Option TrustChecker
unfolding apply_pending default_operation_levels default_settle_phase_levels
new_trust_checker operator_key members overrides reputation floor =
    apply_pending overrides (record {
      operator_key = operator_key;
      members = members;
      op_levels = default_operation_levels;
      settle_levels = default_settle_phase_levels;
      revoked = [];
      reputation = reputation;
      min_reputation = floor;
    })

-- SetReputationFloor; a nil source is `none`.
abbrev set_reputation_floor : Option (ℕ → ℕ) → ℕ → TrustChecker → TrustChecker
set_reputation_floor source floor c = record c { reputation = source; min_reputation = floor }

abbrev pub is_operator_key : ℕ → TrustChecker → Bool
is_operator_key k c = not (c.operator_key == 0) && k == c.operator_key

-- The type assertion to *KeySet.
abbrev add_member : Keys → ℕ → Membership → Membership
add_member n k (key_set s) = key_set (add n k s)
add_member n k no_members = no_members
add_member n k (fixed f) = fixed f

abbrev drop_member : Keys → ℕ → Membership → Membership
drop_member n k (key_set s) = key_set (remove n k s)
drop_member n k no_members = no_members
drop_member n k (fixed f) = fixed f

unfoldable pub admit_member : Keys → ℕ → TrustChecker → TrustChecker
unfolding add
admit_member n k c =
    if k == 0 || is_operator_key k c then c else record c { members = add_member n k c.members }

unfoldable pub remove_member : Keys → ℕ → TrustChecker → TrustChecker
unfolding remove
remove_member n k c = record c { members = drop_member n k c.members }

unfoldable pub revoke_member : Keys → ℕ → TrustChecker → TrustChecker
unfolding add
revoke_member n k c =
    if k == 0 || is_operator_key k c then c else record c { revoked = add n k c.revoked }

unfoldable pub unrevoke_member : Keys → ℕ → TrustChecker → TrustChecker
unfolding remove
unrevoke_member n k c = record c { revoked = remove n k c.revoked }

unfoldable pub is_revoked : Keys → ℕ → TrustChecker → Bool
unfolding allowed
is_revoked n k c = allowed n k c.revoked

unfoldable pub set_revoked : Keys → List ℕ → TrustChecker → TrustChecker
unfolding replace_all
set_revoked n keys c = record c { revoked = replace_all n keys c.revoked }

abbrev pub is_member : Keys → ℕ → Membership → Bool
is_member n k no_members = false
is_member n k (key_set s) = allowed n k s
is_member n k (fixed f) = f k

unfoldable pub level : Keys → ℕ → TrustChecker → TrustLevel
unfolding allowed
level n k c =
    if is_operator_key k c
    then operator
    else (if is_member n k c.members then allowlisted else anonymous)

abbrev pub required :
    Operation
    → SettlePhase
    → (Operation → Option TrustLevel)
    → (SettlePhase → Option TrustLevel)
    → Option TrustLevel
required settle no_phase ops phases = none
required settle p ops phases = phases p
required o p ops phases = ops o

-- The method RequiredLevel; `none` is its error.
unfoldable pub required_level : Operation → SettlePhase → TrustChecker → Option TrustLevel
required_level o p c = required o p c.op_levels c.settle_levels

-- Only put is gated by reputation.
abbrev pub is_reputation_gated : Operation → Bool
is_reputation_gated put = true
is_reputation_gated _ = false

abbrev pub below_floor : Option (ℕ → ℕ) → ℕ → ℕ → Bool
below_floor none floor k = false
below_floor (some score) floor k = slt (score k) floor

abbrev pub is_operator_level : TrustLevel → Bool
is_operator_level operator = true
is_operator_level _ = false

check_level : Keys → ℕ → Operation → TrustChecker → Option TrustLevel → Option CheckError
check_level n k o c none = some unknown_level
check_level n k o c (some least) =
    if ltb (rank (level n k c)) (rank least)
    then some insufficient_trust
    else (if not (is_operator_level (level n k c))
          && is_reputation_gated o
          && below_floor c.reputation c.min_reputation k
        then some low_reputation
        else none)

-- Check; `none` is the nil error.
unfoldable pub check : Keys → ℕ → Operation → SettlePhase → TrustChecker → Option CheckError
unfolding check_level level required_level
check n k o p c = check_level n k o c (required_level o p c)
