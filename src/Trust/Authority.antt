-- ===== src/Trust/Authority.antt =====
-- What the trust gate of Engine.dispatch lets through (engine_core.go, with Check of trust.go).
use dontguess.Base.{
  ℕ, ◌≡◌, ◌≢◌, ◌≤◌, refl, ap, ◌∙◌, true, false, Option, none, some, inl, inr, arith, Option-cases,
}
use dontguess.Proto.{Message}
use dontguess.Exchange.Op.{exchange_op}
use dontguess.Trust.Types.{
  TrustLevel, operator, rank, Operation, SettlePhase, Keys, TrustChecker, CheckError,
  insufficient_trust,
}
use dontguess.Trust.Checker.{
  required_level, check, is_revoked, revoke_member, level, is_operator_key,
}
use dontguess.Trust.Gate.{
  Engine, not_operator_denial, AdmissionOutcome, granted, try_open_admit, trust_op, gate,
  check_or_admit, refuse, record_trust_denial, phase_of, denial_reason, recheck, settled,
  not_attempted, refused_federation, refused_operator_level, refused_reputation, refused_revoked,
  refused_malformed_key,
}
use dontguess.Trust.Admission.{refuse-Unadmitted}
use dontguess.Trust.KeySet.{allowed-add}

-- A sender that is not the operator has a lower level.
level-lt :
    (n : Keys) (k : ℕ) (c : TrustChecker) → is_operator_key k c ≡ false → rank (level n k c) ≤ 1
unfolding level
level-lt n k c h = ground arith

-- The operation has a required level, and the sender's is at least that.
abbrev pub IsEntitled : Keys → ℕ → Operation → SettlePhase → TrustChecker → Type 0
IsEntitled n k o p c =
    (least : TrustLevel) × (required_level o p c ≡ some least) × (rank least ≤ rank (level n k c))

check-passed :
    (n : Keys) (k : ℕ) (o : Operation) (p : SettlePhase) (c : TrustChecker)
    → check n k o p c ≡ none
    → IsEntitled n k o p c
unfolding check
check-passed n k o p c h = elim (Option-cases (required_level o p c)) [
  | inl e ↦ ground arith
  | inr (least, e) ↦ (least, e, ground arith)
]

refuse-reason :
    (id : ℕ) (o : Operation) (p : SettlePhase) (d : CheckError) (e : Engine)
    → (refuse id o p d e).1 ≡ some (denial_reason (required_level o p e.checker) d)
unfolding refuse record_trust_denial
refuse-reason id o p d e = refl

check_operator_level :
    (n : Keys) (k : ℕ) (o : Operation) (p : SettlePhase) (c : TrustChecker)
    → required_level o p c ≡ some operator
    → is_operator_key k c ≡ false
    → check n k o p c ≡ some insufficient_trust
unfolding check
check_operator_level n k o p c r h = rw r (ground (arith, level-lt n k c))

recheck_operator_level :
    (n : Keys) (m : Message) (o : Operation) (p : SettlePhase) (e : Engine)
    → required_level o p e.checker ≡ some operator
    → recheck n m o p insufficient_trust (try_open_admit n m.sender o p insufficient_trust e)
      ≡ refuse m.id o p insufficient_trust e
unfolding try_open_admit
recheck_operator_level n m o p e r = ground arith

-- An operation that the gate checks and that asks for the operator is refused to everyone else, as not-operator, under any
-- setting of open admission, and leaves the checker and the roster as they were.
pub gate-operator_level :
    (n : Keys) (m : Message) (p : SettlePhase) (e : Engine) (o : Operation)
    → trust_op (exchange_op m.tags) ≡ some o
    → required_level o (phase_of o p) e.checker ≡ some operator
    → is_operator_key m.sender e.checker ≡ false
    → let (e', verdict) = gate n m p e in
      (verdict ≡ some not_operator_denial) × (e'.checker ≡ e.checker) × (e'.roster ≡ e.roster)
unfolding gate check_or_admit
gate-operator_level n m p e o op r other =
    let q = phase_of o p in
    let (same, kept, uncounted) = refuse-Unadmitted m.id o q insufficient_trust e in
    rw
      (
        op,
        check_operator_level n m.sender o q e.checker r other,
        recheck_operator_level n m o q e r,
      )
      (refuse-reason m.id o q insufficient_trust e ∙ ap some (rw r refl), same, kept)

settled-passed :
    (n : Keys) (k id : ℕ) (o : Operation) (p : SettlePhase) (d : Option CheckError) (e : Engine)
    → check n k o p e.checker ≡ d
    → (settled id o p d e).1 ≡ none
    → IsEntitled n k o p (settled id o p d e).0.checker
settled-passed n k id o p none e c h = check-passed n k o p e.checker c
settled-passed n k id o p (some d) e c h = cc (refuse-reason id o p d e)

recheck-passed :
    (n : Keys) (m : Message) (o : Operation) (p : SettlePhase) (d : CheckError) (e : Engine)
    (out : AdmissionOutcome)
    → (recheck n m o p d (e, out)).1 ≡ none
    → IsEntitled n m.sender o p (recheck n m o p d (e, out)).0.checker
recheck-passed n m o p d e granted h =
    settled-passed n m.sender m.id o p (check n m.sender o p e.checker) e refl h
recheck-passed n m o p d e not_attempted h = cc (refuse-reason m.id o p d e)
recheck-passed n m o p d e refused_federation h = cc (refuse-reason m.id o p d e)
recheck-passed n m o p d e refused_operator_level h = cc (refuse-reason m.id o p d e)
recheck-passed n m o p d e refused_reputation h = cc (refuse-reason m.id o p d e)
recheck-passed n m o p d e refused_revoked h = cc (refuse-reason m.id o p d e)
recheck-passed n m o p d e refused_malformed_key h = cc (refuse-reason m.id o p d e)

check_or_admit-passed :
    (n : Keys) (m : Message) (o : Operation) (p : SettlePhase) (d : Option CheckError) (e : Engine)
    → check n m.sender o p e.checker ≡ d
    → (check_or_admit n m o p d e).1 ≡ none
    → IsEntitled n m.sender o p (check_or_admit n m o p d e).0.checker
unfolding check_or_admit
check_or_admit-passed n m o p none e c h = check-passed n m.sender o p e.checker c
check_or_admit-passed n m o p (some d) e c h =
    let (e', out) = try_open_admit n m.sender o p d e in recheck-passed n m o p d e' out h

-- A sender whose message asks for a checked operation and passes the gate holds, in the checker that the gate leaves, at least the
-- level that the operation asks for there.
pub gate-passed :
    (n : Keys) (m : Message) (p : SettlePhase) (e : Engine) (o : Operation)
    → trust_op (exchange_op m.tags) ≡ some o
    → (gate n m p e).1 ≡ none
    → IsEntitled n m.sender o (phase_of o p) (gate n m p e).0.checker
unfolding gate
gate-passed n m p e o op h =
    let q = phase_of o p in
    rw op (check_or_admit-passed n m o q (check n m.sender o q e.checker) e refl (rw op at h))

-- RevokeMember compares the key as it is spelled: another spelling of the operator's key, with the
-- same normal form, marks the operator itself as revoked.
pub revoke_member-other_spelling :
    (n : Keys) (k : ℕ) (c : TrustChecker)
    → n.normal k ≡ n.normal c.operator_key
    → n.normal k ≢ 0
    → k ≢ 0
    → k ≢ c.operator_key
    → is_revoked n c.operator_key (revoke_member n k c) ≡ true
unfolding is_revoked revoke_member
revoke_member-other_spelling n k c same named text other =
    ground (arith, allowed-add n k c.operator_key c.revoked)
