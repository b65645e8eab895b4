-- ===== src/Demand/Held.antt =====
-- A task stays registered when its message is folded, and when the message of another task is.
use dontguess.Base.{
  ℕ, ◌+◌, ap, ◌∙◌, ◌≤◌, ◌<◌, ◌≡◌, ◌≢◌, refl, true, false, Option, some, ◌&&◌, ◌==◌, contains, arith,
  lookup-insert_self, lookup-insert, Bool-cases, Option-cases, inl, inr, keep,
}
use dontguess.Base.Int64.{two63, add64, slt}
use dontguess.Json.{text_field, same_name}
use dontguess.Proto.{Message}
use dontguess.Assign.Fold.{is_operator}
use dontguess.Settlement.Fold.Operator.{tags_contain}
use dontguess.Demand.Fold.{
  Demand, Registration, demand_only_ttl, registration_of, register, apply_demand_only, is_live,
  has_demand_only, drop_expired,
}
use dontguess.Demand.Filter.{NoDup, keep-NoDup, insert-NoDup}
use dontguess.Demand.Eviction.{drop_expired-has}
use dontguess.Demand.Register.{Wording, demand_message, apply_demand_match}

-- A time is written and read back to the second.
abbrev pub second : ℕ
second = 1000000000

abbrev pub ReadsBack : Wording → ℕ → Type 0
ReadsBack w t =
    (w.format t == 0 ≡ false)
    × (u : ℕ) × (w.parse (w.format t) ≡ some u)
    × (t < u + second)
    × (u ≤ t)

-- The message of a registration is recognised by applyMatch.
demand_message-recognised :
    (w : Wording) (now hash : ℕ) (m : Message) (id time : ℕ)
    → (let n = demand_message w now hash m id time in
        (is_operator w.texts.config n && tags_contain w.texts.demand_only n.tags) ≡ true)
unfolding demand_message tags_contain
demand_message-recognised w now hash m id time = ground arith

register-NoDup :
    (id time : ℕ) (r : Registration) (s : Demand)
    → NoDup s.task_hashes
    → NoDup (register id time r s).task_hashes
unfolding register drop_expired
register-NoDup id time r s n = insert-NoDup r.hash r.expires _ (keep-NoDup _ s.task_hashes n)

register-has_demand_only :
    (id time now : ℕ) (r : Registration) (s : Demand)
    → slt now r.expires ≡ true
    → has_demand_only r.hash now (register id time r s) ≡ true
unfolding has_demand_only register is_live
register-has_demand_only id time now r s h = rw (lookup-insert_self r.hash r.expires _) h

registration_of-demand_message :
    (w : Wording) (now hash : ℕ) (m : Message) (id time u : ℕ)
    → hash ≢ 0
    → let t = w.format (add64 now demand_only_ttl) in
      (t == 0 ≡ false)
      → w.parse (w.format (add64 now demand_only_ttl)) ≡ some u
      → registration_of w.parse (demand_message w now hash m id time)
        ≡ some (record { hash = hash; buyer = m.sender; expires = u })
unfolding registration_of demand_message text_field same_name
registration_of-demand_message w now hash m id time u h a b = rw (a, b) (ground (arith, h))

apply_demand_only-registered :
    (parse : ℕ → Option ℕ) (n : Message) (r : Registration) (s : Demand)
    → contains n.id s.counted ≡ false
    → registration_of parse n ≡ some r
    → apply_demand_only parse n s ≡ register n.id n.timestamp r s
unfolding apply_demand_only
apply_demand_only-registered parse n r s c e = rw (c, e) refl

demand_message-new :
    (w : Wording) (now hash : ℕ) (m : Message) (id time : ℕ) (s : Demand)
    → contains id s.counted ≡ false
    → contains (demand_message w now hash m id time).id s.counted ≡ false
unfolding demand_message
demand_message-new w now hash m id time s c = c

-- A hash is registered until after a time, at least.
pub record Held (hash until : ℕ) (s : Demand) : Type 0 where
  pub live : has_demand_only hash until s ≡ true
  pub hashes : NoDup s.task_hashes

-- A message with a new id is folded into a registration that is live.
pub apply_demand_match-Held :
    (w : Wording) (now hash : ℕ) (m : Message) (id time u until : ℕ) (s : Demand)
    → hash ≢ 0
    → (w.format (add64 now demand_only_ttl) == 0) ≡ false
    → w.parse (w.format (add64 now demand_only_ttl)) ≡ some u
    → contains id s.counted ≡ false
    → slt until u ≡ true
    → NoDup s.task_hashes
    → Held hash until (apply_demand_match w (demand_message w now hash m id time) s)
unfolding apply_demand_match
apply_demand_match-Held w now hash m id time u until s h a b c l n =
    let message = demand_message w now hash m id time in
    rw
      (
        demand_message-recognised w now hash m id time,
        apply_demand_only-registered w.parse message _ s
            (demand_message-new w now hash m id time s c)
            (registration_of-demand_message w now hash m id time u h a b),
      )
      (record {
        live = register-has_demand_only message.id message.timestamp until _ s l;
        hashes = register-NoDup message.id message.timestamp _ s n;
      })

pub expires_later :
    (now later u : ℕ)
    → now + demand_only_ttl < two63
    → later + second ≤ now + demand_only_ttl
    → add64 now demand_only_ttl < u + second
    → u ≤ add64 now demand_only_ttl
    → slt later u ≡ true
unfolding add64 slt
expires_later now later u a b c d = ground arith

-- A registration of another task, by a message that is no later, leaves a hash registered.
register-Held :
    (id time hash until : ℕ) (r : Registration) (s : Demand)
    → (hash == r.hash) ≡ false
    → time ≤ until
    → until < two63
    → Held hash until s
    → Held hash until (register id time r s)
unfolding has_demand_only register drop_expired
register-Held id time hash until r s f a b h = record {
  live =
      rw (lookup-insert hash r.hash r.expires (keep (λ exp. slt time exp) s.task_hashes), f)
        (drop_expired-has time until a b hash s.task_hashes h.hashes ∙ h.live);
  hashes = register-NoDup id time r s h.hashes;
}

demand_message-hash :
    (w : Wording) (now hash : ℕ) (m : Message) (id time : ℕ) (r : Registration)
    → registration_of w.parse (demand_message w now hash m id time) ≡ some r
    → r.hash ≡ hash
unfolding registration_of demand_message text_field same_name
demand_message-hash w now hash m id time r e = ground arith

demand_message-time :
    (w : Wording) (now hash : ℕ) (m : Message) (id time : ℕ)
    → (demand_message w now hash m id time).timestamp ≡ time
unfolding demand_message
demand_message-time w now hash m id time = refl

-- The message of another task leaves a hash registered.
pub other_match-Held :
    (w : Wording) (now other : ℕ) (m : Message) (id time hash until : ℕ) (s : Demand)
    → (hash == other) ≡ false
    → time ≤ until
    → until < two63
    → Held hash until s
    → Held hash until (apply_demand_match w (demand_message w now other m id time) s)
unfolding apply_demand_match apply_demand_only
other_match-Held w now other m id time hash until s f a b h =
    let n = demand_message w now other m id time in
    rw (demand_message-recognised w now other m id time)
      (elim (Bool-cases (contains n.id s.counted)) [
        | inl c ↦ rw c h
        | inr c ↦ elim (Option-cases (registration_of w.parse n)) [
          | inl e ↦ rw (c, e) h
          | inr (r, e) ↦
              let task = demand_message-hash w now other m id time r e in
              rw (c, e)
                (register-Held n.id n.timestamp hash until r s (ap (λ k. hash == k) task ∙ f)
                  (rw (demand_message-time w now other m id time) a) b h)
        ]
      ])
