-- ===== src/Trust/Gate.antt =====
-- The trust gate of Engine.dispatch and recordTrustDenial (engine_core.go), and tryOpenAdmit
-- (engine_admission.go). Each counter is an int64.
use dontguess.Base.{
  ℕ, Bool, true, false, not, ◌||◌, ◌==◌, Option, none, some, List, ◌∷◌, if◌then◌else◌,
}
use dontguess.Base.Int64.{add64}
use dontguess.Proto.{
  Message, Tag, put, buy, match, settle, consume, reprice, assign, assign_claim, assign_complete,
  assign_accept, assign_reject, assign_expire, assign_auction_close,
}
use dontguess.Exchange.Op.{exchange_op}
use dontguess.Trust.Types.{
  TrustLevel, allowlisted, Operation, SettlePhase, no_phase, buyer_accept, Keys, TrustChecker,
  CheckError, insufficient_trust, low_reputation, unknown_level,
}
use dontguess.Trust.Checker.{required_level, check, is_revoked, admit_member, is_operator_level}

pub data DenialReason : Type 0 where
  reputation_denial not_operator_denial not_allowlisted_denial other_denial : DenialReason

-- The rejections that the gate sends to a client, by the id of the refused message.
pub data Notice : Type 0 where
  put_rejected : ℕ → DenialReason → Notice
  buyer_accept_rejected : ℕ → Notice

-- The parts of the engine that the gate uses. `pending_puts` are the ids that GetPendingPut finds.
-- `roster` is what the hook AdmitMember was called with, which may be missing.
pub record Engine : Type 0 where
  pub checker : TrustChecker
  pub open_admission : Bool
  pub federation_guard_enabled : Bool
  pub admit_hook : Bool
  pub roster : List ℕ
  pub pending_puts : ℕ → Bool
  pub notices : List Notice
  pub trust_denial_low_reputation : ℕ
  pub trust_denial_not_operator : ℕ
  pub trust_denial_not_allowlisted : ℕ
  pub trust_denial_other : ℕ
  pub open_admission_granted : ℕ
  pub open_admission_malformed_key : ℕ

pub data AdmissionOutcome : Type 0 where
  not_attempted refused_federation refused_operator_level refused_reputation : AdmissionOutcome
  refused_revoked refused_malformed_key granted : AdmissionOutcome

-- The admission itself, live and through the hook.
unfoldable pub admit : Keys → ℕ → Engine → Engine
unfolding admit_member
admit n sender e = record e {
  checker = admit_member n sender e.checker;
  roster = if e.admit_hook then sender ∷ e.roster else e.roster;
  open_admission_granted = add64 e.open_admission_granted 1;
}

abbrev pub is_allowlisted_level : Option TrustLevel → Bool
is_allowlisted_level (some allowlisted) = true
is_allowlisted_level _ = false

abbrev pub admit_unknown : Keys → ℕ → Operation → SettlePhase → Engine → Engine × AdmissionOutcome
admit_unknown n sender o p e =
    if not (is_allowlisted_level (required_level o p e.checker))
    then (e, refused_operator_level)
    else (if is_revoked n sender e.checker
        then (e, refused_revoked)
        else (if not (n.is_pubkey sender)
            then (
              record e { open_admission_malformed_key = add64 e.open_admission_malformed_key 1 },
              refused_malformed_key,
            )
            else (admit n sender e, granted)))

-- The denial decides, once admission is open and this is no federation.
abbrev pub admit_denied :
    Keys → ℕ → Operation → SettlePhase → CheckError → Engine → Engine × AdmissionOutcome
admit_denied n sender o p low_reputation e = (e, refused_reputation)
admit_denied n sender o p unknown_level e = (e, not_attempted)
admit_denied n sender o p insufficient_trust e = admit_unknown n sender o p e

unfoldable pub try_open_admit :
    Keys → ℕ → Operation → SettlePhase → CheckError → Engine → Engine × AdmissionOutcome
unfolding admit required_level is_revoked
try_open_admit n sender o p denial e =
    if not e.open_admission || sender == 0
    then (e, not_attempted)
    else (if e.federation_guard_enabled
        then (e, refused_federation)
        else admit_denied n sender o p denial e)

-- tagToTrustOp; `none` is an operation that the gate does not check.
unfoldable pub trust_op : Option Tag → Option Operation
trust_op none = none
trust_op (some (Tag.scrip _)) = none
trust_op (some (Tag.other _)) = none
trust_op (some (Tag.exchange put)) = some Operation.put
trust_op (some (Tag.exchange buy)) = some Operation.buy
trust_op (some (Tag.exchange match)) = some Operation.match
trust_op (some (Tag.exchange settle)) = some Operation.settle
trust_op (some (Tag.exchange consume)) = some Operation.consume
trust_op (some (Tag.exchange reprice)) = none
trust_op (some (Tag.exchange assign)) = some Operation.assign_post
trust_op (some (Tag.exchange assign_claim)) = some Operation.assign_claim
trust_op (some (Tag.exchange assign_complete)) = some Operation.assign_complete
trust_op (some (Tag.exchange assign_accept)) = some Operation.assign_accept
trust_op (some (Tag.exchange assign_reject)) = some Operation.assign_reject
trust_op (some (Tag.exchange assign_expire)) = some Operation.assign_expire
trust_op (some (Tag.exchange assign_auction_close)) = some Operation.assign_auction_close

abbrev needs_operator : Option TrustLevel → Bool
needs_operator none = false
needs_operator (some l) = is_operator_level l

abbrev pub denial_reason : Option TrustLevel → CheckError → DenialReason
denial_reason l low_reputation = reputation_denial
denial_reason l insufficient_trust =
    if needs_operator l then not_operator_denial else not_allowlisted_denial
denial_reason l unknown_level = other_denial

abbrev pub count_denial : DenialReason → Engine → Engine
count_denial reputation_denial e = record e {
  trust_denial_low_reputation = add64 e.trust_denial_low_reputation 1;
}
count_denial not_operator_denial e = record e {
  trust_denial_not_operator = add64 e.trust_denial_not_operator 1;
}
count_denial not_allowlisted_denial e = record e {
  trust_denial_not_allowlisted = add64 e.trust_denial_not_allowlisted 1;
}
count_denial other_denial e = record e { trust_denial_other = add64 e.trust_denial_other 1 }

unfoldable pub record_trust_denial :
    Operation → SettlePhase → CheckError → Engine → Engine × DenialReason
unfolding required_level
record_trust_denial o p denial e =
    let reason = denial_reason (required_level o p e.checker) denial in
    (count_denial reason e, reason)

abbrev is_put : Operation → Bool
is_put Operation.put = true
is_put _ = false

abbrev is_buyer_accept : Operation → SettlePhase → Bool
is_buyer_accept Operation.settle buyer_accept = true
is_buyer_accept _ _ = false

-- A refused put that did not fold, and a refused buyer-accept, are answered.
unfoldable pub notify : ℕ → Operation → SettlePhase → DenialReason → Engine → Engine
notify id o p reason e =
    if is_put o
    then (if e.pending_puts id
        then e
        else record e { notices = put_rejected id reason ∷ e.notices })
    else (if is_buyer_accept o p
        then record e { notices = buyer_accept_rejected id ∷ e.notices }
        else e)

abbrev pub Verdict : Type 0
Verdict = Option DenialReason

unfoldable pub refuse : ℕ → Operation → SettlePhase → CheckError → Engine → Engine × Verdict
unfolding record_trust_denial notify
refuse id o p denial e =
    let (e', reason) = record_trust_denial o p denial e in (notify id o p reason e', some reason)

abbrev pub settled : ℕ → Operation → SettlePhase → Option CheckError → Engine → Engine × Verdict
settled id o p none e = (e, none)
settled id o p (some denial) e = refuse id o p denial e

-- A granted admission is checked again.
abbrev pub recheck :
    Keys
    → Message
    → Operation
    → SettlePhase
    → CheckError
    → Engine × AdmissionOutcome
    → Engine × Verdict
recheck n m o p denial (e, granted) = settled m.id o p (check n m.sender o p e.checker) e
recheck n m o p denial (e, _) = refuse m.id o p denial e

unfoldable pub check_or_admit :
    Keys → Message → Operation → SettlePhase → Option CheckError → Engine → Engine × Verdict
unfolding refuse check try_open_admit
check_or_admit n m o p none e = (e, none)
check_or_admit n m o p (some denial) e =
    recheck n m o p denial (try_open_admit n m.sender o p denial e)

abbrev pub phase_of : Operation → SettlePhase → SettlePhase
phase_of Operation.settle p = p
phase_of _ p = no_phase

abbrev pub gate_op : Keys → Message → SettlePhase → Option Operation → Engine → Engine × Verdict
gate_op n m p none e = (e, none)
gate_op n m p (some o) e =
    let q = phase_of o p in check_or_admit n m o q (check n m.sender o q e.checker) e

-- The part of dispatch before its switch: `none` lets the message through to its handler. The
-- phase is what settlePhaseFromTags reads off the tags.
unfoldable pub gate : Keys → Message → SettlePhase → Engine → Engine × Verdict
unfolding check_or_admit trust_op exchange_op check
gate n m p e = gate_op n m p (trust_op (exchange_op m.tags)) e
