-- ===== src/Trust/Tests.antt =====
-- A checker with one member, and the theorems at it.
use dontguess.Base.{ℕ, ◌≡◌, refl, true, false, ◌==◌, if◌then◌else◌, none, some, [], ◌∷◌, arith}
use dontguess.Proto.{Message, Tag, ExchangeOp}
use dontguess.Exchange.Op.{exchange_op, scan_ops}
use dontguess.Trust.Types.{Operation, no_phase, Keys, key_set, TrustChecker}
use dontguess.Trust.Checker.{
  required_level, default_operation_levels, default_settle_phase_levels, check, is_revoked,
  revoke_member,
}
use dontguess.Trust.Gate.{
  Engine, gate, trust_op, check_or_admit, try_open_admit, not_operator_denial,
}
use dontguess.Trust.Authority.{
  IsEntitled, gate-operator_level, gate-passed, revoke_member-other_spelling,
}

-- 25 is another spelling of the key 20.
abbrev spellings : Keys
spellings = record { normal = λ k. if k == 25 then 20 else k; is_pubkey = λ k. true }

-- The operator is 1, and 20 is a member.
abbrev checker : TrustChecker
checker = record {
  operator_key = 1;
  members = key_set (20 ∷ []);
  op_levels = default_operation_levels;
  settle_levels = default_settle_phase_levels;
  revoked = [];
  reputation = none;
  min_reputation = 0;
}

abbrev engine : Engine
engine = record {
  checker = checker;
  open_admission = true;
  federation_guard_enabled = false;
  admit_hook = true;
  roster = [];
  pending_puts = λ id. false;
  notices = [];
  trust_denial_low_reputation = 0;
  trust_denial_not_operator = 0;
  trust_denial_not_allowlisted = 0;
  trust_denial_other = 0;
  open_admission_granted = 0;
  open_admission_malformed_key = 0;
}

abbrev message : ℕ → ExchangeOp → Message
message sender op = record {
  id = 5;
  sender = sender;
  payload = none;
  tags = Tag.exchange op ∷ [];
  antecedents = [];
  timestamp = 0;
}

gate-operator_level_example :
    let (e', verdict) = gate spellings (message 20 ExchangeOp.match) no_phase engine in
    (verdict ≡ some not_operator_denial) × (e'.checker ≡ checker) × (e'.roster ≡ [])
unfolding trust_op exchange_op scan_ops required_level default_operation_levels
gate-operator_level_example =
    gate-operator_level spellings (message 20 ExchangeOp.match) no_phase engine Operation.match refl
      refl refl

gate-passed_example :
    IsEntitled spellings 40 Operation.put no_phase
      (gate spellings (message 40 ExchangeOp.put) no_phase engine).0.checker
unfolding trust_op exchange_op scan_ops gate check_or_admit try_open_admit check
    default_operation_levels
gate-passed_example =
    gate-passed spellings (message 40 ExchangeOp.put) no_phase engine Operation.put refl refl

revoke_member-other_spelling_example :
    is_revoked spellings 20 (revoke_member spellings 25 (record checker { operator_key = 20 }))
    ≡ true
revoke_member-other_spelling_example =
    revoke_member-other_spelling spellings 25 (record checker { operator_key = 20 }) refl
      (omega arith) (omega arith) (omega arith)
