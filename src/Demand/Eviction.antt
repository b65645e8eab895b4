-- ===== src/Demand/Eviction.antt =====
-- What a registration does to the reads, with the eviction of hashes and times and without.
use dontguess.Base.{
  ℕ, ◌+◌, ◌≤◌, ◌<◌, ◌≡◌, refl, sym, ◌∙◌, ap, Bool, true, false, not, Option, none, some, List, [],
  ◌∷◌, ◌++◌, ◌==◌, Dict, lookup, insert, get_or, if◌then◌else◌, arith, Bool-cases, inl, inr,
  lookup-insert, lookup-erase,
}
use dontguess.Base.Int64.{two63, sub64, slt}
use dontguess.Demand.Fold.{
  Demand, Registration, demand_only_per_sender_window, newest, drop_expired, drop_idle, store_times,
  record_time, register, is_live, count_live, count_since, has_demand_only, demand_only_total,
  demand_only_count_for_sender,
}
use dontguess.Demand.Filter.{NoDup, kept, lookup-keep, insert-NoDup, erase-NoDup}
use dontguess.Demand.Reference.{
  remember, newest-count_since, count_since-snoc, since_earlier, prune-count_since, kept-is_live,
  drop_expired-count_live,
}

-- The times of one sender.
abbrev pub times_of : ℕ → Dict (List ℕ) → List ℕ
times_of k d = get_or [] (lookup k d)

abbrev pub one_if : Bool → ℕ
one_if true = 1
one_if false = 0

pub count_live-insert :
    (now h e : ℕ) (d : Dict ℕ)
    → count_live now (insert h e d) + one_if (is_live now (lookup h d))
      ≡ count_live now d + one_if (slt now e)
unfolding count_live insert lookup is_live
count_live-insert now h e [] = ground arith
count_live-insert now h e ((j, x) ∷ d) = ground (arith, count_live-insert now h e d)

pub store_times-count_since :
    (c k b : ℕ) (l : List ℕ) (d : Dict (List ℕ))
    → count_since c (times_of k (store_times b l d))
      ≡ (if k == b then count_since c l else count_since c (times_of k d))
unfolding store_times count_since
store_times-count_since c k b [] d = ground (arith, lookup-erase k b d)
store_times-count_since c k b (t ∷ l) d = ground (arith, lookup-insert k b (t ∷ l) d)

store_times-NoDup : (b : ℕ) (l : List ℕ) (d : Dict (List ℕ)) → NoDup d → NoDup (store_times b l d)
unfolding store_times
store_times-NoDup b [] d n = erase-NoDup b d n
store_times-NoDup b (t ∷ l) d n = insert-NoDup b (t ∷ l) d n

pub record_time-NoDup :
    (time buyer : ℕ) (d : Dict (List ℕ)) → NoDup d → NoDup (record_time buyer time d)
unfolding record_time
record_time-NoDup time buyer d n = elim (Bool-cases (buyer == 0)) [
  | inl e ↦ rw e n
  | inr e ↦ rw e (store_times-NoDup buyer _ d n)
]

module _ (time now : ℕ) (b : time ≤ now) (c : now < two63) where
  pub drop_expired-has :
      (h : ℕ) (d : Dict ℕ)
      → NoDup d
      → is_live now (lookup h (drop_expired time d)) ≡ is_live now (lookup h d)
  unfolding drop_expired
  drop_expired-has h d n = rw (lookup-keep _ h d n) (kept-is_live time now b c (lookup h d))

  pub register-has :
      (id h : ℕ) (r : Registration) (s t : Demand)
      → NoDup s.task_hashes
      → has_demand_only h now s ≡ has_demand_only h now t
      → has_demand_only h now (register id time r s) ≡ has_demand_only h now (remember id time r t)
  unfolding has_demand_only register remember
  register-has id h r s t n e =
      rw
        (
          lookup-insert h r.hash r.expires (drop_expired time s.task_hashes),
          lookup-insert h r.hash r.expires t.task_hashes,
        )
        (elim (Bool-cases (h == r.hash)) [
          | inl f ↦ rw f refl
          | inr f ↦ rw f (drop_expired-has h s.task_hashes n ∙ e)
        ])

  pub register-total :
      (id : ℕ) (r : Registration) (s t : Demand)
      → NoDup s.task_hashes
      → has_demand_only r.hash now s ≡ has_demand_only r.hash now t
      → demand_only_total now s ≡ demand_only_total now t
      → demand_only_total now (register id time r s) ≡ demand_only_total now (remember id time r t)
  unfolding demand_only_total has_demand_only register remember
  register-total id r s t n e f = omega (
    arith,
    count_live-insert now r.hash r.expires (drop_expired time s.task_hashes),
    count_live-insert now r.hash r.expires t.task_hashes,
    ap one_if (drop_expired-has r.hash s.task_hashes n ∙ e),
    drop_expired-count_live time now b c s.task_hashes ∙ f,
  )

module _ (time now window : ℕ) (a : demand_only_per_sender_window ≤ time) (b : time ≤ now)
    (c : now < two63) (d : window ≤ demand_only_per_sender_window) where
  -- An idle sender has no time that counts now.
  kept-count_since :
      (o : Option (List ℕ))
      → count_since (sub64 now window) (
          get_or []
            (kept (λ l. not (slt (newest 0 l) (sub64 time demand_only_per_sender_window))) o))
        ≡ count_since (sub64 now window) (get_or [] o)
  unfolding count_since
  kept-count_since none = refl
  kept-count_since (some l) =
      elim (Bool-cases (slt (newest 0 l) (sub64 time demand_only_per_sender_window))) [
        | inl e ↦
            let old = since_earlier (newest 0 l) time now window a b c d e in
            rw e (sym (newest-count_since _ 0 l old).1)
        | inr e ↦ rw e refl
      ]

  drop_idle-count_since :
      (k : ℕ) (l : Dict (List ℕ))
      → NoDup l
      → count_since
          (sub64 now window)
          (times_of k (drop_idle (sub64 time demand_only_per_sender_window) l))
        ≡ count_since (sub64 now window) (times_of k l)
  unfolding drop_idle
  drop_idle-count_since k l n = rw (lookup-keep _ k l n) (kept-count_since (lookup k l))

  -- The time that a registration adds counts, and no other changes.
  record_time-count_since :
      (k buyer : ℕ) (l : Dict (List ℕ))
      → count_since (sub64 now window) (times_of k (record_time buyer time l)) ≡ (
          if buyer == 0
          then count_since (sub64 now window) (times_of k l)
          else (if k == buyer
              then count_since (sub64 now window) (times_of buyer l ++ (time ∷ []))
              else count_since (sub64 now window) (times_of k l)))
  unfolding record_time
  record_time-count_since k buyer l = elim (Bool-cases (buyer == 0)) [
    | inl e ↦ rw e refl
    | inr e ↦ rw e (
        store_times-count_since _ k buyer _ l
        ∙ rw (prune-count_since time now window a b c d (times_of buyer l ++ (time ∷ []))) refl)
  ]

  pub register-count :
      (id k : ℕ) (r : Registration) (s t : Demand)
      → NoDup s.sender_times
      → ((j : ℕ)
          → demand_only_count_for_sender j now window s
            ≡ demand_only_count_for_sender j now window t)
      → demand_only_count_for_sender k now window (register id time r s)
        ≡ demand_only_count_for_sender k now window (remember id time r t)
  unfolding demand_only_count_for_sender register remember
  register-count id k r s t n e =
      let cutoff = sub64 now window in
      let recent = drop_idle (sub64 time demand_only_per_sender_window) s.sender_times in
      let same = λ (j : ℕ). drop_idle-count_since j s.sender_times n ∙ e j in
      let added = record_time-count_since k r.buyer recent in
      let snoc = λ (l : List ℕ). count_since-snoc cutoff time l in
      elim (Bool-cases (r.buyer == 0)) [
        | inl f ↦ ground (arith, f, added, same k)
        | inr f ↦ elim (Bool-cases (k == r.buyer)) [
          | inl g ↦ ground (
            arith,
            f,
            g,
            added,
            same r.buyer,
            snoc (times_of r.buyer recent),
            snoc (times_of r.buyer t.sender_times),
            lookup-insert k r.buyer (times_of r.buyer t.sender_times ++ (time ∷ [])) t.sender_times,
          )
          | inr g ↦ ground (
            arith,
            f,
            g,
            added,
            same k,
            lookup-insert k r.buyer (times_of r.buyer t.sender_times ++ (time ∷ [])) t.sender_times,
          )
        ]
      ]
