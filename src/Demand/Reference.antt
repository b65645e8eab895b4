-- ===== src/Demand/Reference.antt =====
-- The fold that never forgets a registration, the reference for applyDemandOnly; what its eviction of
-- hashes and times does to the reads.
use dontguess.Base.{
  ℕ, suc, ◌≤◌, ◌<◌, ◌≡◌, refl, true, false, Option, none, some, List, [], ◌∷◌, ◌++◌, ◌==◌, Dict,
  lookup, insert, keep, contains, get_or, if◌then◌else◌, arith, Bool-cases, inl, inr,
}
use dontguess.Base.Int64.{two63, sub64, slt}
use dontguess.Proto.{Message}
use dontguess.Demand.Fold.{
  Demand, Registration, demand_only_per_sender_window, registration_of, newest, prune_demand_window,
  drop_expired, is_live, count_live, count_since,
}
use dontguess.Demand.Filter.{kept}

unfoldable pub remember : ℕ → ℕ → Registration → Demand → Demand
remember id time r s = record {
  task_hashes = insert r.hash r.expires s.task_hashes;
  sender_times =
      if r.buyer == 0
      then s.sender_times
      else insert r.buyer (get_or [] (lookup r.buyer s.sender_times) ++ (time ∷ [])) s.sender_times;
  counted = id ∷ s.counted;
}

unfoldable pub remember_message : (ℕ → Option ℕ) → Message → Demand → Demand
remember_message parse m s =
    if contains m.id s.counted
    then s
    else elim (registration_of parse m) [ none ↦ s | some r ↦ remember m.id m.timestamp r s ]

unfoldable pub remember_all : (ℕ → Option ℕ) → List Message → Demand → Demand
remember_all parse [] s = s
remember_all parse (m ∷ log) s = remember_all parse log (remember_message parse m s)

slt_trans : (a b c : ℕ) → slt a b ≡ true → slt b c ≡ true → slt a c ≡ true
unfolding slt
slt_trans a b c h k = ground arith

not_above : (a b c : ℕ) → slt a b ≡ false → slt a c ≡ true → slt b c ≡ true
unfolding slt
not_above a b c h k = ground arith

-- Times within a window of an hour at most from `now` are no older than an hour at an earlier time.
pub since_earlier :
    (t time now window : ℕ)
    → demand_only_per_sender_window ≤ time
    → time ≤ now
    → now < two63
    → window ≤ demand_only_per_sender_window
    → slt t (sub64 time demand_only_per_sender_window) ≡ true
    → slt t (sub64 now window) ≡ true
unfolding slt sub64
since_earlier t time now window a b c d h = ground arith

pub live_later : (e time now : ℕ) → time ≤ now → now < two63 → slt now e ≡ true → slt time e ≡ true
unfolding slt
live_later e time now b c h = ground arith

pub count_since-snoc :
    (c t : ℕ) (l : List ℕ)
    → count_since c (l ++ (t ∷ [])) ≡ (if slt t c then count_since c l else suc (count_since c l))
unfolding count_since
count_since-snoc c t [] = refl
count_since-snoc c t (u ∷ l) = ground (arith, count_since-snoc c t l)

-- A list whose newest time is too old has no time that counts.
pub newest-count_since :
    (c n : ℕ) (l : List ℕ) → slt (newest n l) c ≡ true → (slt n c ≡ true) × (count_since c l ≡ 0)
unfolding newest count_since
newest-count_since c n [] h = (h, refl)
newest-count_since c n (t ∷ l) h = elim (Bool-cases (slt n t)) [
  | inl e ↦
      let (k, z) = newest-count_since c t l (ground (arith, h)) in
      (slt_trans n t c e k, ground arith)
  | inr e ↦
      let (k, z) = newest-count_since c n l (ground (arith, h)) in
      (k, ground (arith, not_above n t c e k))
]

module _ (time now : ℕ) (b : time ≤ now) (c : now < two63) where
  pub kept-is_live : (o : Option ℕ) → is_live now (kept (λ e. slt time e) o) ≡ is_live now o
  unfolding is_live
  kept-is_live none = refl
  kept-is_live (some e) = elim (Bool-cases (slt time e)) [
    | inl f ↦ rw f refl
    | inr f ↦ ground (arith, live_later e time now b c)
  ]

  pub drop_expired-count_live :
      (d : Dict ℕ) → count_live now (drop_expired time d) ≡ count_live now d
  unfolding drop_expired keep count_live
  drop_expired-count_live [] = refl
  drop_expired-count_live ((h, e) ∷ d) =
      ground (arith, drop_expired-count_live d, live_later e time now b c)

pub prune-count_since :
    (time now window : ℕ)
    → demand_only_per_sender_window ≤ time
    → time ≤ now
    → now < two63
    → window ≤ demand_only_per_sender_window
    → (l : List ℕ)
    → count_since (sub64 now window) (prune_demand_window l time) ≡ count_since (sub64 now window) l
unfolding count_since prune_demand_window
prune-count_since time now window a b c d [] = refl
prune-count_since time now window a b c d (t ∷ l) =
    ground
      (arith, prune-count_since time now window a b c d l, since_earlier t time now window a b c d)
