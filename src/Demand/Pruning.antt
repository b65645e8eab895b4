-- ===== src/Demand/Pruning.antt =====
-- applyDemandOnly evicts hashes and times without a loss: its reads are those of the fold that never
-- forgets.
use dontguess.Base.{
  ℕ, ◌≤◌, ◌<◌, ◌≡◌, refl, sym, ◌∙◌, ap, Option, List, [], ◌∷◌, contains, Option-cases, Bool-cases,
  inl, inr,
}
use dontguess.Base.Int64.{two63}
use dontguess.Proto.{Message}
use dontguess.Demand.Fold.{
  Demand, Registration, no_demand, demand_only_per_sender_window, registration_of, drop_expired,
  drop_idle, register, apply_demand_only, fold_demand, has_demand_only, demand_only_total,
  demand_only_count_for_sender,
}
use dontguess.Demand.Filter.{NoDup, keep-NoDup, insert-NoDup}
use dontguess.Demand.Reference.{remember, remember_message, remember_all}
use dontguess.Demand.Eviction.{record_time-NoDup, register-has, register-total, register-count}

-- What the reads at a time `now` give is the same, of senders for a window.
pub record Agree (now window : ℕ) (s t : Demand) : Type 0 where
  pub has : (h : ℕ) → has_demand_only h now s ≡ has_demand_only h now t
  pub total : demand_only_total now s ≡ demand_only_total now t
  pub count :
      (k : ℕ)
      → demand_only_count_for_sender k now window s ≡ demand_only_count_for_sender k now window t

record Tied (now window : ℕ) (s t : Demand) : Type 0 where
  agree : Agree now window s t
  counted : s.counted ≡ t.counted
  hashes : NoDup s.task_hashes
  senders : NoDup s.sender_times

module _ (time now window : ℕ) (a : demand_only_per_sender_window ≤ time) (b : time ≤ now)
    (c : now < two63) (d : window ≤ demand_only_per_sender_window) where
  register-Tied :
      (id : ℕ) (r : Registration) (s t : Demand)
      → Tied now window s t
      → Tied now window (register id time r s) (remember id time r t)
  unfolding register remember drop_expired drop_idle
  register-Tied id r s t h = record {
    agree = record {
      has = λ k. register-has time now b c id k r s t h.hashes (h.agree.has k);
      total = register-total time now b c id r s t h.hashes (h.agree.has r.hash) h.agree.total;
      count = λ k. register-count time now window a b c d id k r s t h.senders h.agree.count;
    };
    counted = rw (h.counted) refl;
    hashes =
        insert-NoDup r.hash r.expires (drop_expired time s.task_hashes)
          (keep-NoDup _ s.task_hashes h.hashes);
    senders = record_time-NoDup time r.buyer _ (keep-NoDup _ s.sender_times h.senders);
  }

-- The times of a log: an hour after the epoch at least, and `now` at most.
abbrev pub UpTo : ℕ → List Message → Type 0
UpTo now [] = Unit
UpTo now (m ∷ log) =
    (demand_only_per_sender_window ≤ m.timestamp) × (m.timestamp ≤ now) × UpTo now log

apply_demand_only-Tied :
    (parse : ℕ → Option ℕ) (now window : ℕ) (m : Message) (s t : Demand)
    → now < two63
    → window ≤ demand_only_per_sender_window
    → demand_only_per_sender_window ≤ m.timestamp
    → m.timestamp ≤ now
    → Tied now window s t
    → Tied now window (apply_demand_only parse m s) (remember_message parse m t)
unfolding apply_demand_only remember_message
apply_demand_only-Tied parse now window m s t c d a b h =
    elim (Bool-cases (contains m.id s.counted)) [
      | inl e ↦ rw (e, sym (ap (contains m.id) h.counted) ∙ e) h
      | inr e ↦ elim (Option-cases (registration_of parse m)) [
        | inl f ↦ rw (e, sym (ap (contains m.id) h.counted) ∙ e, f) h
        | inr (r, f) ↦
            rw (e, sym (ap (contains m.id) h.counted) ∙ e, f)
              (register-Tied m.timestamp now window a b c d m.id r s t h)
      ]
    ]

fold_demand-Tied :
    (parse : ℕ → Option ℕ) (now window : ℕ) (log : List Message) (s t : Demand)
    → now < two63
    → window ≤ demand_only_per_sender_window
    → UpTo now log
    → Tied now window s t
    → Tied now window (fold_demand parse log s) (remember_all parse log t)
unfolding fold_demand remember_all
fold_demand-Tied parse now window [] s t c d u h = h
fold_demand-Tied parse now window (m ∷ log) s t c d (a, b, u) h =
    fold_demand-Tied parse now window log _ _ c d u
      (apply_demand_only-Tied parse now window m s t c d a b h)

-- Eviction loses nothing that is read: at a time `now` that no message of the log is after, for a
-- log of any order with times from an hour after the epoch on, HasDemandOnly, DemandOnlyTotal and,
-- for a window of at most DemandOnlyPerSenderWindow (an hour), DemandOnlyCountForSender give on the
-- fold of the log what they give on a fold that never forgets a hash or a time.
pub fold_demand-Agree :
    (parse : ℕ → Option ℕ) (now window : ℕ) (log : List Message)
    → now < two63
    → window ≤ demand_only_per_sender_window
    → UpTo now log
    → Agree now window (fold_demand parse log no_demand) (remember_all parse log no_demand)
fold_demand-Agree parse now window log c d u =
    let start : Tied now window no_demand no_demand = record {
      agree = record { has = λ h. refl; total = refl; count = λ k. refl };
      counted = refl;
      hashes = tt;
      senders = tt;
    } in
    (fold_demand-Tied parse now window log no_demand no_demand c d u start).agree
