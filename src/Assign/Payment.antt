-- ===== src/Assign/Payment.antt =====
-- A bounty is paid at most once, over any run of messages and payments.
use dontguess.Base.{
  ℕ, ◌≡◌, refl, sym, ap, lookup-insert_self, ◌∙◌, ◌≢◌, none, some, List, [], ◌∷◌, inl, inr, lookup,
  insert, arith, Option-cases,
}
use dontguess.Proto.{Message}
use dontguess.Assign.Types.{
  AssignRecord, AssignStatus, accepted, paid, State, Config, resolve_alias, put_record, record_in,
}
use dontguess.Assign.Fold.{apply_locked, pay, claim_assign_payment}
use dontguess.Assign.Lifecycle.{
  ◌⟶◌, stay, claim, lapse, reopen, complete, accept, reject, pay_out, Keyed, Evolves-refl,
  Evolves-insert, record_in-eq_some,
}
use dontguess.Assign.Diagram.{Advances, apply_locked-Advances}

none_ne : {q : AssignRecord} → none ≡ some q → ⊥
none_ne h = cc

some_eq : {r q : AssignRecord} → some r ≡ some q → r ≡ q
some_eq h = cc

-- What happens to the state: a message is folded, or the engine asks for a payment.
pub data Event : Type 0 where
  message : Message → Event
  payment : ℕ → Event

unfoldable pub after_event : Config → Event → State → State
after_event c (message m) s = apply_locked c m s
after_event c (payment id) s = (claim_assign_payment id s).0

unfoldable pub run : Config → List Event → State → State
unfolding after_event
run c [] s = s
run c (e ∷ events) s = run c events (after_event c e s)

-- What a granted payment found and did.
pub record Granted (wire_id : ℕ) (s : State) (q : AssignRecord) : Type 0 where
  pub id : ℕ
  pub before : AssignRecord
  pub was_accepted : record_in accepted id s ≡ some before
  pub indexed : lookup (resolve_alias wire_id s) s.complete_msg_to_assign ≡ some id
  pub now_paid : q ≡ record before { status = paid }
  pub written : (claim_assign_payment wire_id s).0.assign_by_id ≡ insert id q s.assign_by_id

pub claim_assign_payment-Granted :
    (wire_id : ℕ) (s : State) (q : AssignRecord)
    → (claim_assign_payment wire_id s).1 ≡ some q
    → Granted wire_id s q
unfolding claim_assign_payment pay put_record
claim_assign_payment-Granted wire_id s q h =
    elim (Option-cases (lookup (resolve_alias wire_id s) s.complete_msg_to_assign)) [
      | inl e ↦ absurd (none_ne (rw e at h))
      | inr (id, e) ↦ elim (Option-cases (record_in accepted id s)) [
        | inl f ↦ absurd (none_ne (rw (e, f) at h))
        | inr (r, f) ↦
            let eq = some_eq (rw (e, f) at h) in
            record {
              id = id;
              before = r;
              was_accepted = f;
              indexed = e;
              now_paid = sym eq;
              written = rw (e, f, sym eq) refl;
            }
      ]
    ]

pub claim_assign_payment-refused :
    (wire_id : ℕ) (s : State)
    → (claim_assign_payment wire_id s).1 ≡ none
    → (claim_assign_payment wire_id s).0 ≡ s
unfolding claim_assign_payment pay
claim_assign_payment-refused wire_id s h =
    elim (Option-cases (lookup (resolve_alias wire_id s) s.complete_msg_to_assign)) [
      | inl e ↦ rw e
      | inr (id, e) ↦ elim (Option-cases (record_in accepted id s)) [
        | inl f ↦ rw (e, f)
        | inr (r, f) ↦ cc (rw (e, f) at h)
      ]
    ]

claim_assign_payment-Advances :
    (wire_id : ℕ) (s : State) → Advances s (claim_assign_payment wire_id s).0
claim_assign_payment-Advances wire_id s = elim (Option-cases (claim_assign_payment wire_id s).1) [
  | inl e ↦ rw (claim_assign_payment-refused wire_id s e) (Evolves-refl s.assign_by_id)
  | inr (q, e) ↦
      let g = claim_assign_payment-Granted wire_id s q e in
      let (at, is) = record_in-eq_some accepted g.id s g.before g.was_accepted in
      rw g.written (
        Evolves-insert g.id g.before q s.assign_by_id at (rw (is, g.now_paid) pay_out)
          (rw g.now_paid))
]

after_event-Advances : (c : Config) (e : Event) (s : State) → Advances s (after_event c e s)
unfolding after_event
after_event-Advances c (message m) s = apply_locked-Advances c m s
after_event-Advances c (payment id) s = claim_assign_payment-Advances id s

-- A record that is paid stays paid.
abbrev IsPaid : ℕ → State → Type 0
IsPaid id s = (r : AssignRecord) × (lookup id s.assign_by_id ≡ some r) × (r.status ≡ paid)

⟶-paid : {w v : AssignStatus} → w ⟶ v → w ≡ paid → v ≡ paid
⟶-paid stay e = e
⟶-paid claim e = cc
⟶-paid lapse e = cc
⟶-paid reopen e = cc
⟶-paid complete e = cc
⟶-paid accept e = cc
⟶-paid reject e = cc
⟶-paid pay_out e = refl

run-IsPaid :
    (c : Config) (events : List Event) (id : ℕ) (s : State)
    → IsPaid id s
    → IsPaid id (run c events s)
unfolding run
run-IsPaid c [] id s p = p
run-IsPaid c (e ∷ events) id s (r, at, is) =
    let next = (after_event-Advances c e s).follows id r at in
    run-IsPaid c events id (after_event c e s) (next.next, next.found, ⟶-paid next.moved is)

pub run-Keyed :
    (c : Config) (events : List Event) (s : State)
    → Keyed s.assign_by_id
    → Keyed (run c events s).assign_by_id
unfolding run
run-Keyed c [] s k = k
run-Keyed c (e ∷ events) s k =
    run-Keyed c events (after_event c e s) ((after_event-Advances c e s).keyed k)

abbrev status_of : AssignRecord → AssignStatus
status_of r = r.status

abbrev id_of : AssignRecord → ℕ
id_of r = r.assign_id

-- Where each record stands under its own assign id: once a payment was granted, no later payment is
-- ever for the same assign, whatever messages and payments come in between, redelivered ones
-- included.
pub claim_assign_payment_once :
    (c : Config) (x y : ℕ) (events : List Event) (s : State) (r q : AssignRecord)
    → Keyed s.assign_by_id
    → (claim_assign_payment x s).1 ≡ some r
    → (claim_assign_payment y (run c events (claim_assign_payment x s).0)).1 ≡ some q
    → q.assign_id ≢ r.assign_id
claim_assign_payment_once c x y events s r q k h later same =
    let t = (claim_assign_payment x s).0 in
    let u = run c events t in
    let g = claim_assign_payment-Granted x s r h in
    let (at, is) = record_in-eq_some accepted g.id s g.before g.was_accepted in
    let there : lookup g.id t.assign_by_id ≡ some r =
      ap (lookup g.id) g.written ∙ lookup-insert_self g.id r s.assign_by_id in
    let (p, found, still) = run-IsPaid c events g.id t (r, there, ap status_of g.now_paid) in
    let g2 = claim_assign_payment-Granted y u q later in
    let (at2, is2) = record_in-eq_some accepted g2.id u g2.before g2.was_accepted in
    let keyed = (claim_assign_payment-Advances x s).keyed k in
    let own = k g.id g.before at in
    let own2 = run-Keyed c events t keyed g2.id g2.before at2 in
    ground (arith, ap id_of g.now_paid, ap id_of g2.now_paid)
