-- ===== src/Demand/Fold.antt =====
-- applyDemandOnly and pruneDemandWindow (state_buy.go), and the reads HasDemandOnly, DemandOnlyTotal and
-- DemandOnlyCountForSender (state_accessors.go). A time is the bit pattern of an int64 of nanoseconds.
use dontguess.Base.{
  ℕ, suc, Bool, false, not, Option, none, some, List, [], ◌∷◌, ◌++◌, ◌==◌, Dict, lookup, insert,
  erase, keep, contains, get_or, if◌then◌else◌, ◌>>=◌,
}
use dontguess.Base.Int64.{add64, sub64, slt}
use dontguess.Json.{text_field, task_hash, buyer_key, expires_at}
use dontguess.Proto.{Message}

-- The maps demandOnlyTaskHashes, demandOnlySenderTimes and demandOnlyCounted of State.
pub record Demand : Type 0 where
  pub task_hashes : Dict ℕ
  pub sender_times : Dict (List ℕ)
  pub counted : List ℕ

abbrev pub no_demand : Demand
no_demand = record { task_hashes = []; sender_times = []; counted = [] }

-- DemandOnlyPerSenderWindow and DemandOnlyTTL: an hour and a day.
abbrev pub demand_only_per_sender_window : ℕ
demand_only_per_sender_window = 3600000000000

abbrev pub demand_only_ttl : ℕ
demand_only_ttl = 86400000000000

-- A registration: its hash, its buyer, its expiry.
pub record Registration : Type 0 where
  pub hash : ℕ
  pub buyer : ℕ
  pub expires : ℕ

-- The payload, unless it is not decoded or names no task. `parse` is time.Parse, in nanoseconds.
unfoldable pub registration_of : (ℕ → Option ℕ) → Message → Option Registration
registration_of parse m = m.payload >>= λ o. text_field task_hash o >>= λ hash.
    text_field buyer_key o >>= λ buyer. text_field expires_at o >>= λ text.
    let default = add64 m.timestamp demand_only_ttl in
    if hash == 0
    then none
    else some (record {
      hash = hash;
      buyer = buyer;
      expires = if text == 0 then default else get_or default (parse text);
    })

-- The hashes that are live after a time.
unfoldable pub drop_expired : ℕ → Dict ℕ → Dict ℕ
drop_expired time d = keep (λ exp. slt time exp) d

-- The latest time of a list, at least 0.
unfoldable pub newest : ℕ → List ℕ → ℕ
newest n [] = n
newest n (t ∷ times) = newest (if slt n t then t else n) times

-- The senders who registered since a time.
unfoldable pub drop_idle : ℕ → Dict (List ℕ) → Dict (List ℕ)
drop_idle cutoff d = keep (λ times. not (slt (newest 0 times) cutoff)) d

-- pruneDemandWindow
unfoldable pub prune_demand_window : List ℕ → ℕ → List ℕ
prune_demand_window [] ref = []
prune_demand_window (t ∷ times) ref =
    let rest = prune_demand_window times ref in
    if slt t (sub64 ref demand_only_per_sender_window) then rest else t ∷ rest

unfoldable pub store_times : ℕ → List ℕ → Dict (List ℕ) → Dict (List ℕ)
store_times buyer [] d = erase buyer d
store_times buyer (t ∷ times) d = insert buyer (t ∷ times) d

-- A sender's new time; 0 is no sender.
unfoldable pub record_time : ℕ → ℕ → Dict (List ℕ) → Dict (List ℕ)
record_time buyer time d =
    if buyer == 0
    then d
    else store_times buyer (prune_demand_window (get_or [] (lookup buyer d) ++ (time ∷ [])) time) d

unfoldable pub register : ℕ → ℕ → Registration → Demand → Demand
register id time r s = record {
  task_hashes = insert r.hash r.expires (drop_expired time s.task_hashes);
  sender_times =
      record_time r.buyer time
        (drop_idle (sub64 time demand_only_per_sender_window) s.sender_times);
  counted = id ∷ s.counted;
}

-- A message is counted once.
unfoldable pub apply_demand_only : (ℕ → Option ℕ) → Message → Demand → Demand
apply_demand_only parse m s =
    if contains m.id s.counted
    then s
    else elim (registration_of parse m) [ none ↦ s | some r ↦ register m.id m.timestamp r s ]

unfoldable pub fold_demand : (ℕ → Option ℕ) → List Message → Demand → Demand
fold_demand parse [] s = s
fold_demand parse (m ∷ log) s = fold_demand parse log (apply_demand_only parse m s)

-- Is a registration live?
unfoldable pub is_live : ℕ → Option ℕ → Bool
is_live now none = false
is_live now (some exp) = slt now exp

unfoldable pub has_demand_only : ℕ → ℕ → Demand → Bool
has_demand_only hash now s = is_live now (lookup hash s.task_hashes)

unfoldable pub count_live : ℕ → Dict ℕ → ℕ
count_live now [] = 0
count_live now ((h, exp) ∷ d) =
    let rest = count_live now d in if slt now exp then suc rest else rest

unfoldable pub demand_only_total : ℕ → Demand → ℕ
demand_only_total now s = count_live now s.task_hashes

unfoldable pub count_since : ℕ → List ℕ → ℕ
count_since cutoff [] = 0
count_since cutoff (t ∷ times) =
    let rest = count_since cutoff times in if slt t cutoff then rest else suc rest

unfoldable pub demand_only_count_for_sender : ℕ → ℕ → ℕ → Demand → ℕ
demand_only_count_for_sender buyer now window s =
    count_since (sub64 now window) (get_or [] (lookup buyer s.sender_times))
