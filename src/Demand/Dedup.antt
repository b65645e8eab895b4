-- ===== src/Demand/Dedup.antt =====
-- A task that is registered is not registered again before its registration expires.
use mathlib.Core.Path.{subst}
use dontguess.Base.{
  ℕ, ◌+◌, ◌-◌, ap, ◌≤◌, ◌<◌, ◌≡◌, ◌≢◌, refl, true, false, Option, some, ◌==◌, contains, arith,
  Bool-cases, Option-cases, inl, inr, none, leb,
}
use dontguess.Base.Int64.{two63, add64}
use dontguess.Proto.{Message}
use dontguess.Demand.Fold.{
  Demand, demand_only_ttl, demand_only_per_sender_window, demand_only_total,
  demand_only_count_for_sender, is_live, has_demand_only,
}
use dontguess.Demand.Reference.{live_later}
use dontguess.Demand.Caps.{Reached, Reached-Bounded, apply_demand_match-counted}
use dontguess.Demand.Register.{
  Registry, Wording, Call, demand_only_global_cap, demand_only_per_sender_cap, apply_demand_match,
  registered, deduped, emit_demand, register_demand_only,
}
use dontguess.Demand.Held.{
  second, ReadsBack, Held, apply_demand_match-Held, expires_later, other_match-Held,
}

-- A hash that is registered until later is so now.
is_live_now :
    (now until : ℕ) (o : Option ℕ)
    → now ≤ until
    → until < two63
    → is_live until o ≡ true
    → is_live now o ≡ true
unfolding is_live
is_live_now now until none a b h = h
is_live_now now until (some e) a b h = live_later e now until a b h

Held-has_demand_only :
    (hash now until : ℕ) (s : Demand)
    → now ≤ until
    → until < two63
    → Held hash until s
    → has_demand_only hash now s ≡ true
unfolding has_demand_only
Held-has_demand_only hash now until s a b h = is_live_now now until _ a b h.live

-- The record of a call is no later than a time.
abbrev pub RecordedBy : ℕ → Option (ℕ × ℕ) → Type 0
RecordedBy until none = Unit
RecordedBy until (some (id, time)) = time ≤ until

abbrev HeldAfter : ℕ → ℕ → Option Registry → Type 0
HeldAfter hash until none = Unit
HeldAfter hash until (some t) = Held hash until t.demand

other_task :
    (hash other now : ℕ) (s : Demand)
    → has_demand_only hash now s ≡ true
    → has_demand_only other now s ≡ false
    → (hash == other) ≡ false
other_task hash other now s h k = elim (Bool-cases (hash == other)) [
  | inl e ↦
      let same : hash ≡ other = ground (arith, e) in
      ground (arith, ap (λ j. has_demand_only j now s) same, h, k)
  | inr e ↦ e
]

emit_demand-HeldAfter :
    (w : Wording) (call : Call) (other : ℕ) (m : Message) (hash until : ℕ) (s : Registry)
    → (hash == other) ≡ false
    → RecordedBy until call.appended
    → until < two63
    → Held hash until s.demand
    → HeldAfter hash until (emit_demand w call other m s)
unfolding emit_demand
emit_demand-HeldAfter w call other m hash until s f a b h = elim (Option-cases call.appended) [
  | inl e ↦ rw e tt
  | inr ((id, time), e) ↦ rw e (
      other_match-Held w call.now other m id time hash until s.demand f
        (subst (RecordedBy until) e a) b h)
]

-- Any call until then leaves a hash registered: for the same task it is a duplicate.
register_demand_only-HeldAfter :
    (w : Wording) (call : Call) (other : ℕ) (m : Message) (hash until : ℕ) (s : Registry)
    → call.now ≤ until
    → RecordedBy until call.appended
    → until < two63
    → Held hash until s.demand
    → HeldAfter hash until (register_demand_only w call other m s)
unfolding register_demand_only
register_demand_only-HeldAfter w call other m hash until s n a b h =
    let total = demand_only_total call.now s.demand in
    let count =
      demand_only_count_for_sender m.sender call.now demand_only_per_sender_window s.demand in
    elim (Bool-cases (has_demand_only other call.now s.demand)) [
      | inl d ↦ rw d h
      | inr d ↦ elim (Bool-cases (leb demand_only_global_cap total)) [
        | inl e ↦ rw (d, e) h
        | inr e ↦ elim (Bool-cases (leb demand_only_per_sender_cap count)) [
          | inl f ↦ rw (d, e, f) h
          | inr f ↦
              let held = Held-has_demand_only hash call.now until s.demand n b h in
              rw (d, e, f)
                (emit_demand-HeldAfter w call other m hash until s
                  (other_task hash other call.now s.demand held d) a b h)
        ]
      ]
    ]

-- What may come between two buys: other calls, whose clocks and records are no later than `until`,
-- and the poll loop, which folds a message again that is counted already. A call that fails leaves
-- the state.
pub data Between (w : Wording) (until : ℕ) (s : Registry) : Registry → Type 0 where
  here : Between w until s s
  then_called :
      {t v : Registry} (call : Call) (other : ℕ) (m : Message)
      → call.now ≤ until
      → RecordedBy until call.appended
      → register_demand_only w call other m t ≡ some v
      → Between w until s t
      → Between w until s v
  then_polled :
      {t : Registry} (m : Message)
      → contains m.id t.demand.counted ≡ true
      → Between w until s t
      → Between w until s (record t { demand = apply_demand_match w m t.demand })

Between-Held :
    {w : Wording} {until : ℕ} {s t : Registry} (hash : ℕ)
    → until < two63
    → Held hash until s.demand
    → Between w until s t
    → Held hash until t.demand
Between-Held hash b h here = h
Between-Held {w} {until} hash b h (then_called {t} call other m n a e r) =
    subst (HeldAfter hash until) e
      (register_demand_only-HeldAfter w call other m hash until t n a b (Between-Held hash b h r))
Between-Held {w} hash b h (then_polled {t} m e r) =
    rw (apply_demand_match-counted w m t.demand e) (Between-Held hash b h r)

-- A dropped buy whose task has no live registration is registered, in a reached state where neither
-- cap is reached, when the record is appended under a new id. Any later buy of the same task,
-- whoever sends it, is then counted as a duplicate and changes nothing else, until a second before
-- the registration expires: also when other calls of registerDemandOnly, whose clocks and records
-- are no later than that, and further folds of counted messages come between. The hash of the task
-- is a text that is not empty, and the time of expiry is read back as it was written, to the
-- second.
pub register_demand_only_again :
    (w : Wording) (call later : Call) (hash id time : ℕ) (m n : Message) (s v : Registry)
    → Reached w call.now s
    → hash ≢ 0
    → call.now + demand_only_ttl < two63
    → ReadsBack w (add64 call.now demand_only_ttl)
    → has_demand_only hash call.now s.demand ≡ false
    → demand_only_total call.now s.demand < demand_only_global_cap
    → demand_only_count_for_sender m.sender call.now demand_only_per_sender_window s.demand
      < demand_only_per_sender_cap
    → call.appended ≡ some (id, time)
    → contains id s.demand.counted ≡ false
    → Between w (call.now + demand_only_ttl - second) (registered w call.now hash m id time s) v
    → later.now + second ≤ call.now + demand_only_ttl
    → (register_demand_only w call hash m s ≡ some (registered w call.now hash m id time s))
      × (register_demand_only w later hash n v ≡ some (deduped v))
unfolding register_demand_only emit_demand
register_demand_only_again w call later hash id time m n s v reached h a (e, u, f, g, q) none_live
      total count x new between l =
    let until = call.now + demand_only_ttl - second in
    let first : Held hash until (registered w call.now hash m id time s).demand =
      apply_demand_match-Held w call.now hash m id time u until s.demand h e f new
        (expires_later call.now until u a (omega arith) g q) (Reached-Bounded reached).hashes in
    let held = Between-Held hash (omega arith) first between in
    (
      rw (none_live, x) (ground (arith, total, count)),
      rw (Held-has_demand_only hash later.now until v.demand (omega arith) (omega arith) held) refl,
    )
