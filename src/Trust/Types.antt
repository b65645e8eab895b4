-- ===== src/Trust/Types.antt =====
-- The trust levels, operations and settle phases of trust.go, and TrustChecker. A key is a number,
-- and the empty key is 0.
use dontguess.Base.{ℕ, Bool, Option, List}
use native.Mathlib.Decide.{ℕ_discrete}

pub data TrustLevel : Type 0 where
  anonymous allowlisted operator : TrustLevel

-- The integer value of a level.
abbrev pub rank : TrustLevel → ℕ
rank anonymous = 0
rank allowlisted = 1
rank operator = 2

-- `unknown` is any other text that a configuration names.
pub data Operation : Type 0 where
  put buy match settle assign mint burn rate_publish : Operation
  convention_promote convention_supersede inventory_read price_history_read consume : Operation
  assign_post assign_claim assign_complete assign_accept assign_reject : Operation
  assign_expire assign_auction_close : Operation
  unknown : ℕ → Operation

unfoldable pub Operation-discrete : Discrete Operation
Operation-discrete = hlevel ℕ_discrete

-- `no_phase` is the empty phase.
pub data SettlePhase : Type 0 where
  no_phase buyer_accept buyer_reject put_accept put_reject deliver complete : SettlePhase
  dispute preview preview_request small_content_dispute : SettlePhase
  unknown_phase : ℕ → SettlePhase

unfoldable pub SettlePhase-discrete : Discrete SettlePhase
SettlePhase-discrete = hlevel ℕ_discrete

-- What `strings.ToLower(strings.TrimSpace(key))` is on keys, and the key test of
-- identity.NormalizeAllowlistEntry, which decodes a point of the secp256k1 curve.
pub record Keys : Type 0 where
  pub normal : ℕ → ℕ
  pub is_pubkey : ℕ → Bool

-- A Membership: nil, the mutable KeySet, or an immutable allowlist.
pub data Membership : Type 0 where
  no_members : Membership
  key_set : List ℕ → Membership
  fixed : (ℕ → Bool) → Membership

-- The two level maps are functions, with `none` for a missing key. A reputation source gives an
-- int for a key; without one there is no floor.
pub record TrustChecker : Type 0 where
  pub operator_key : ℕ
  pub members : Membership
  pub op_levels : Operation → Option TrustLevel
  pub settle_levels : SettlePhase → Option TrustLevel
  pub revoked : List ℕ
  pub reputation : Option (ℕ → ℕ)
  pub min_reputation : ℕ

-- The errors of Check: the two sentinels, and the error of RequiredLevel.
pub data CheckError : Type 0 where
  insufficient_trust low_reputation unknown_level : CheckError
