-- ===== src/Demand/Bounds.antt =====
-- One registration adds one live hash and one time of its buyer at most.
use dontguess.Base.{
  ℕ, ◌+◌, ◌≤◌, ◌<◌, Bool, Option, none, some, List, [], ◌∷◌, ◌++◌, ◌==◌, Dict, lookup, keep, get_or,
  if◌then◌else◌, arith, Bool-cases, inl, inr,
}
use dontguess.Base.Int64.{sub64, slt}
use dontguess.Demand.Fold.{
  Demand, Registration, demand_only_per_sender_window, prune_demand_window, drop_expired, drop_idle,
  record_time, register, count_live, count_since, demand_only_total, demand_only_count_for_sender,
}
use dontguess.Demand.Filter.{NoDup, kept, lookup-keep, keep-NoDup, insert-NoDup}
use dontguess.Demand.Reference.{count_since-snoc}
use dontguess.Demand.Eviction.{
  times_of, store_times-count_since, count_live-insert, record_time-NoDup,
}
use dontguess.Demand.Register.{demand_only_per_sender_cap, demand_only_global_cap}

-- At most so many live hashes, and so many recent times of each sender.
pub record Capped (now : ℕ) (s : Demand) : Type 0 where
  pub total : demand_only_total now s ≤ demand_only_global_cap
  pub count :
      (k : ℕ)
      → demand_only_count_for_sender k now demand_only_per_sender_window s
        ≤ demand_only_per_sender_cap

keep-count_live :
    (now : ℕ) (p : ℕ → Bool) (d : Dict ℕ) → count_live now (keep p d) ≤ count_live now d
unfolding count_live keep
keep-count_live now p [] = omega arith
keep-count_live now p ((h, e) ∷ d) = ground (arith, keep-count_live now p d)

prune-count_since_le :
    (c ref : ℕ) (l : List ℕ) → count_since c (prune_demand_window l ref) ≤ count_since c l
unfolding count_since prune_demand_window
prune-count_since_le c ref [] = omega arith
prune-count_since_le c ref (t ∷ l) = ground (arith, prune-count_since_le c ref l)

kept-count_since_le :
    (c : ℕ) (p : List ℕ → Bool) (o : Option (List ℕ))
    → count_since c (get_or [] (kept p o)) ≤ count_since c (get_or [] o)
unfolding count_since
kept-count_since_le c p none = omega arith
kept-count_since_le c p (some l) = elim (Bool-cases (p l)) [
  | inl e ↦ rw e (omega arith)
  | inr e ↦ rw e (omega arith)
]

drop_idle-count_since_le :
    (c cutoff k : ℕ) (d : Dict (List ℕ))
    → NoDup d
    → count_since c (times_of k (drop_idle cutoff d)) ≤ count_since c (times_of k d)
unfolding drop_idle
drop_idle-count_since_le c cutoff k d n =
    rw (lookup-keep _ k d n) (kept-count_since_le c _ (lookup k d))

-- The times of the buyer grow by one at most, those of others do not.
record_time-count_since_le :
    (c k buyer time : ℕ) (d : Dict (List ℕ))
    → count_since c (times_of k (record_time buyer time d))
      ≤ count_since c (times_of k d) + (if k == buyer then 1 else 0)
unfolding record_time
record_time-count_since_le c k buyer time d = ground (
  arith,
  store_times-count_since c k buyer (prune_demand_window (times_of buyer d ++ (time ∷ [])) time) d,
  prune-count_since_le c time (times_of buyer d ++ (time ∷ [])),
  count_since-snoc c time (times_of buyer d),
)

register-total_le :
    (now id time : ℕ) (r : Registration) (s : Demand)
    → demand_only_total now (register id time r s) ≤ demand_only_total now s + 1
unfolding demand_only_total register drop_expired
register-total_le now id time r s = ground (
  arith,
  count_live-insert now r.hash r.expires (keep (λ exp. slt time exp) s.task_hashes),
  keep-count_live now (λ exp. slt time exp) s.task_hashes,
)

register-count_le :
    (now id time k : ℕ) (r : Registration) (s : Demand)
    → NoDup s.sender_times
    → demand_only_count_for_sender k now demand_only_per_sender_window (register id time r s)
      ≤ demand_only_count_for_sender k now demand_only_per_sender_window s
        + (if k == r.buyer then 1 else 0)
unfolding demand_only_count_for_sender register
register-count_le now id time k r s n =
    let cutoff = sub64 time demand_only_per_sender_window in
    let since = sub64 now demand_only_per_sender_window in
    ground (
      arith,
      record_time-count_since_le since k r.buyer time (drop_idle cutoff s.sender_times),
      drop_idle-count_since_le since cutoff k s.sender_times n,
    )

pub record Bounded (now : ℕ) (s : Demand) : Type 0 where
  pub capped : Capped now s
  pub hashes : NoDup s.task_hashes
  pub senders : NoDup s.sender_times

pub register-Bounded :
    (now id time : ℕ) (r : Registration) (s : Demand)
    → demand_only_total now s < demand_only_global_cap
    → demand_only_count_for_sender r.buyer now demand_only_per_sender_window s
      < demand_only_per_sender_cap
    → Bounded now s
    → Bounded now (register id time r s)
unfolding register drop_expired drop_idle
register-Bounded now id time r s a b h = record {
  capped = record {
    total = omega (arith, register-total_le now id time r s);
    count = λ k. elim (Bool-cases (k == r.buyer)) [
      | inl e ↦ ground (arith, register-count_le now id time k r s h.senders, e)
      | inr e ↦ ground (arith, register-count_le now id time k r s h.senders, e, h.capped.count k)
    ];
  };
  hashes = insert-NoDup r.hash r.expires _ (keep-NoDup _ s.task_hashes h.hashes);
  senders = record_time-NoDup time r.buyer _ (keep-NoDup _ s.sender_times h.senders);
}
