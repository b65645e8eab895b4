-- ===== src/Trust/Admission.antt =====
-- Whom open admission admits (tryOpenAdmit of engine_admission.go, in the gate of Engine.dispatch).
use dontguess.Base.{ℕ, ◌∷◌, if◌then◌else◌, ◌≡◌, refl, ◌∙◌, true, false, some, ◌⊎◌, arith}
use dontguess.Base.Int64.{add64}
use dontguess.Trust.Types.{allowlisted, Operation, SettlePhase, Keys, CheckError}
use dontguess.Trust.Checker.{required_level, is_revoked, admit_member}
use dontguess.Trust.Gate.{
  Engine, DenialReason, reputation_denial, not_operator_denial, not_allowlisted_denial,
  other_denial, refuse, record_trust_denial, notify, count_denial, denial_reason,
}

-- Nothing that admission changes is changed: the members and the revocations, the roster, the count.
abbrev pub Unadmitted : Engine → Engine → Type 0
Unadmitted e e' =
    (e'.checker ≡ e.checker)
    × (e'.roster ≡ e.roster)
    × (e'.open_admission_granted ≡ e.open_admission_granted)

-- Open admission left an engine as it was, but for a counter, or every fence was passed and the key was
-- admitted: as a member, in the roster where there is a hook, and in the count.
abbrev pub AdmitsOnly : Keys → ℕ → Operation → SettlePhase → Engine → Engine → Type 0
AdmitsOnly n k o p e e' =
    Unadmitted e e'
    ⊎ ((e.open_admission ≡ true)
        × (e.federation_guard_enabled ≡ false)
        × (is_revoked n k e.checker ≡ false)
        × (n.is_pubkey k ≡ true)
        × (required_level o p e.checker ≡ some allowlisted)
        × (e'.checker ≡ admit_member n k e.checker)
        × (e'.roster ≡ (if e.admit_hook then k ∷ e.roster else e.roster))
        × (e'.open_admission_granted ≡ add64 e.open_admission_granted 1))

notify-Unadmitted :
    (id : ℕ) (o : Operation) (p : SettlePhase) (r : DenialReason) (e : Engine)
    → Unadmitted e (notify id o p r e)
unfolding notify
notify-Unadmitted id o p r e = ground arith

count_denial-Unadmitted : (r : DenialReason) (e : Engine) → Unadmitted e (count_denial r e)
count_denial-Unadmitted reputation_denial e = (refl, refl, refl)
count_denial-Unadmitted not_operator_denial e = (refl, refl, refl)
count_denial-Unadmitted not_allowlisted_denial e = (refl, refl, refl)
count_denial-Unadmitted other_denial e = (refl, refl, refl)

pub refuse-Unadmitted :
    (id : ℕ) (o : Operation) (p : SettlePhase) (d : CheckError) (e : Engine)
    → Unadmitted e (refuse id o p d e).0
unfolding refuse record_trust_denial
refuse-Unadmitted id o p d e =
    let r = denial_reason (required_level o p e.checker) d in
    let (a, b, c) = notify-Unadmitted id o p r (count_denial r e) in
    let (a', b', c') = count_denial-Unadmitted r e in (a ∙ a', b ∙ b', c ∙ c')
