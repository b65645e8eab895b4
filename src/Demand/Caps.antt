-- ===== src/Demand/Caps.antt =====
-- The caps of registerDemandOnly hold in every state that its calls reach.
use dontguess.Base.{
  ℕ, ◌≤◌, ◌<◌, ◌≡◌, refl, true, ◌&&◌, Option, none, some, List, [], ◌∷◌, leb, Dict, lookup,
  contains, arith, Option-cases, Bool-cases, inl, inr,
}
use mathlib.Core.Path.{subst}
use dontguess.Base.Int64.{two63, sub64}
use dontguess.Json.{text_field, same_name}
use dontguess.Proto.{Message}
use dontguess.Assign.Fold.{is_operator}
use dontguess.Settlement.Fold.Operator.{tags_contain}
use dontguess.Demand.Fold.{
  Demand, Registration, no_demand, demand_only_per_sender_window, registration_of,
  apply_demand_only, count_live, count_since, has_demand_only, demand_only_total,
  demand_only_count_for_sender,
}
use dontguess.Demand.Reference.{since_earlier, live_later}
use dontguess.Demand.Eviction.{times_of}
use dontguess.Demand.Register.{
  Degradation, Registry, Wording, Call, demand_only_per_sender_cap, demand_only_global_cap,
  demand_message, apply_demand_match, emit_demand, register_demand_only,
}
use dontguess.Demand.Bounds.{Capped, Bounded, register-Bounded}

-- The message of a registration names its sender.
demand_message-buyer :
    (w : Wording) (now hash : ℕ) (m : Message) (id time : ℕ) (r : Registration)
    → registration_of w.parse (demand_message w now hash m id time) ≡ some r
    → r.buyer ≡ m.sender
unfolding registration_of demand_message text_field same_name
demand_message-buyer w now hash m id time r e = ground arith

apply_demand_only-Bounded :
    (w : Wording) (now hash : ℕ) (m : Message) (id time : ℕ) (s : Demand)
    → demand_only_total now s < demand_only_global_cap
    → demand_only_count_for_sender m.sender now demand_only_per_sender_window s
      < demand_only_per_sender_cap
    → Bounded now s
    → Bounded now (apply_demand_only w.parse (demand_message w now hash m id time) s)
unfolding apply_demand_only
apply_demand_only-Bounded w now hash m id time s a b h =
    elim (Bool-cases (contains (demand_message w now hash m id time).id s.counted)) [
      | inl e ↦ rw e h
      | inr e ↦
          elim (Option-cases (registration_of w.parse (demand_message w now hash m id time))) [
            | inl f ↦ rw (e, f) h
            | inr (r, f) ↦
                let same = demand_message-buyer w now hash m id time r f in
                rw (e, f) (register-Bounded now _ _ r s a (rw same b) h)
          ]
    ]

apply_demand_match-Bounded :
    (w : Wording) (now hash : ℕ) (m : Message) (id time : ℕ) (s : Demand)
    → demand_only_total now s < demand_only_global_cap
    → demand_only_count_for_sender m.sender now demand_only_per_sender_window s
      < demand_only_per_sender_cap
    → Bounded now s
    → Bounded now (apply_demand_match w (demand_message w now hash m id time) s)
unfolding apply_demand_match
apply_demand_match-Bounded w now hash m id time s a b h =
    let n = demand_message w now hash m id time in
    elim (Bool-cases (is_operator w.texts.config n && tags_contain w.texts.demand_only n.tags)) [
      | inl e ↦ rw e (apply_demand_only-Bounded w now hash m id time s a b h)
      | inr e ↦ rw e h
    ]

-- What a call that succeeds leaves is within the bounds.
abbrev After : ℕ → Option Registry → Type 0
After now none = Unit
After now (some t) = Bounded now t.demand

emit_demand-After :
    (w : Wording) (call : Call) (hash : ℕ) (m : Message) (s : Registry)
    → demand_only_total call.now s.demand < demand_only_global_cap
    → demand_only_count_for_sender m.sender call.now demand_only_per_sender_window s.demand
      < demand_only_per_sender_cap
    → Bounded call.now s.demand
    → After call.now (emit_demand w call hash m s)
unfolding emit_demand
emit_demand-After w call hash m s a b h = elim (Option-cases call.appended) [
  | inl f ↦ rw f tt
  | inr ((id, time), f) ↦ rw f (apply_demand_match-Bounded w call.now hash m id time s.demand a b h)
]

register_demand_only-After :
    (w : Wording) (call : Call) (hash : ℕ) (m : Message) (s : Registry)
    → Bounded call.now s.demand
    → After call.now (register_demand_only w call hash m s)
unfolding register_demand_only
register_demand_only-After w call hash m s h =
    let total = demand_only_total call.now s.demand in
    let count =
      demand_only_count_for_sender m.sender call.now demand_only_per_sender_window s.demand in
    elim (Bool-cases (has_demand_only hash call.now s.demand)) [
      | inl d ↦ rw d h
      | inr d ↦ elim (Bool-cases (leb demand_only_global_cap total)) [
        | inl e ↦ rw (d, e) h
        | inr e ↦ elim (Bool-cases (leb demand_only_per_sender_cap count)) [
          | inl f ↦ rw (d, e, f) h
          | inr f ↦
              rw (d, e, f)
                (emit_demand-After w call hash m s (ground (arith, e)) (ground (arith, f)) h)
        ]
      ]
    ]

register_demand_only-Bounded :
    (w : Wording) (call : Call) (hash : ℕ) (m : Message) (s t : Registry)
    → register_demand_only w call hash m s ≡ some t
    → Bounded call.now s.demand
    → Bounded call.now t.demand
register_demand_only-Bounded w call hash m s t e h =
    subst (After call.now) e (register_demand_only-After w call hash m s h)

-- Later, no more counts.
count_live_later :
    (now later : ℕ) (d : Dict ℕ)
    → now ≤ later
    → later < two63
    → count_live later d ≤ count_live now d
unfolding count_live
count_live_later now later [] a b = omega arith
count_live_later now later ((h, e) ∷ d) a b =
    ground (arith, count_live_later now later d a b, live_later e now later a b)

count_since_later :
    (now later : ℕ) (l : List ℕ)
    → demand_only_per_sender_window ≤ now
    → now ≤ later
    → later < two63
    → count_since (sub64 later demand_only_per_sender_window) l
      ≤ count_since (sub64 now demand_only_per_sender_window) l
unfolding count_since
count_since_later now later [] w a b = omega arith
count_since_later now later (t ∷ l) w a b = ground (
  arith,
  count_since_later now later l w a b,
  since_earlier t now later demand_only_per_sender_window w a b,
)

later-Bounded :
    (now later : ℕ) (s : Demand)
    → demand_only_per_sender_window ≤ now
    → now ≤ later
    → later < two63
    → Bounded now s
    → Bounded later s
unfolding demand_only_total demand_only_count_for_sender
later-Bounded now later s w a b h = record {
  capped = record {
    total = omega (arith, count_live_later now later s.task_hashes a b, h.capped.total);
    count = λ k.
        omega
          (arith, count_since_later now later (times_of k s.sender_times) w a b, h.capped.count k);
  };
  hashes = h.hashes;
  senders = h.senders;
}

-- The states that calls of registerDemandOnly reach as time passes; the poll loop folds a message again
-- that is counted already.
pub data Reached (w : Wording) : ℕ → Registry → Type 0 where
  start :
      (now : ℕ) (g : Degradation) → Reached w now (record { demand = no_demand; degradation = g })
  waited :
      {now : ℕ} {s : Registry} (later : ℕ)
      → demand_only_per_sender_window ≤ now
      → now ≤ later
      → later < two63
      → Reached w now s
      → Reached w later s
  called :
      {s t : Registry} (call : Call) (hash : ℕ) (m : Message)
      → register_demand_only w call hash m s ≡ some t
      → Reached w call.now s
      → Reached w call.now t
  polled :
      {now : ℕ} {s : Registry} (m : Message)
      → contains m.id s.demand.counted ≡ true
      → Reached w now s
      → Reached w now (record s { demand = apply_demand_match w m s.demand })

pub apply_demand_match-counted :
    (w : Wording) (m : Message) (s : Demand)
    → contains m.id s.counted ≡ true
    → apply_demand_match w m s ≡ s
unfolding apply_demand_match apply_demand_only
apply_demand_match-counted w m s e =
    elim (Bool-cases (is_operator w.texts.config m && tags_contain w.texts.demand_only m.tags)) [
      | inl f ↦ rw (f, e) refl
      | inr f ↦ rw f refl
    ]

pub Reached-Bounded :
    {w : Wording} {now : ℕ} {s : Registry} → Reached w now s → Bounded now s.demand
unfolding demand_only_total demand_only_count_for_sender count_live count_since lookup
Reached-Bounded (start now g) = record {
  capped = record { total = omega arith; count = λ k. omega arith };
  hashes = tt;
  senders = tt;
}
Reached-Bounded (waited later a b c r) = later-Bounded _ later _ a b c (Reached-Bounded r)
Reached-Bounded (called call hash m e r) =
    register_demand_only-Bounded _ call hash m _ _ e (Reached-Bounded r)
Reached-Bounded {w} (polled {now} {s} m e r) =
    rw (apply_demand_match-counted w m s.demand e) (Reached-Bounded r)

-- The volume of unfunded demand is bounded: in every state that calls of registerDemandOnly reach as
-- time passes, with the messages of the registrations folded again by the poll loop, at most 10000 task
-- hashes are live, and no sender has more than 20 registrations within the last hour.
pub Reached-Capped : (w : Wording) (now : ℕ) (s : Registry) → Reached w now s → Capped now s.demand
Reached-Capped w now s r = (Reached-Bounded r).capped
