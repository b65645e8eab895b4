-- ===== src/Sequencer/Ingest.antt =====
-- pkg/exchange/sequencer.go: the admission of a message to the buffer, and the count of the messages
-- whose antecedents never arrived.
use dontguess.Base.{
  ℕ, zero, suc, ◌-◌, Bool, not, ◌&&◌, true, false, Option, none, some, List, [], ◌∷◌, ◌++◌, ltb,
  leb, ◌==◌, ◌||◌, if◌then◌else◌, length, contains, get_or, is_some, Dict, lookup, insert, erase,
}
use dontguess.Proto.{Message}
use dontguess.Sequencer.Types.{Sequencer, Outcome, ok, err, empty_id, orphan_buffer_overflow}

-- The antecedents that are not known, each once; the empty text is none.
unfoldable pub unknown_of : (ℕ → Bool) → List ℕ → List ℕ → List ℕ
unknown_of known seen [] = []
unknown_of known seen (a ∷ ants) = elim (a == 0 || contains a seen) [
  | true ↦ unknown_of known seen ants
  | false ↦ let rest = unknown_of known (a ∷ seen) ants in if known a then rest else a ∷ rest
]

-- isKnownLocked
unfoldable pub is_known : Sequencer → ℕ → Bool
is_known s k = contains k s.emitted || is_some (lookup k s.buffered)

-- missingAntecedentsLocked
unfoldable pub missing_antecedents : Sequencer → Message → List ℕ
missing_antecedents s m = unknown_of (is_known s) [] m.antecedents

-- A set with one text taken out.
unfoldable pub remove_from : ℕ → List ℕ → List ℕ
remove_from k [] = []
remove_from k (j ∷ l) = let rest = remove_from k l in if k == j then rest else j ∷ rest

-- One waiter of resolveArrivalLocked.
unfoldable pub resolve_waiter : ℕ → Sequencer → Sequencer
resolve_waiter w s = elim (lookup w s.missing_count) [
  | none ↦ s
  | some c ↦
      if leb c 1
      then record s {
        missing_count = erase w s.missing_count;
        missing_of = erase w s.missing_of;
        true_orphans = s.true_orphans - 1;
      }
      else record s { missing_count = insert w (c - 1) s.missing_count }
]

unfoldable pub resolve_waiters : List ℕ → Sequencer → Sequencer
resolve_waiters [] s = s
resolve_waiters (w ∷ waiters) s = resolve_waiters waiters (resolve_waiter w s)

-- resolveArrivalLocked
unfoldable pub resolve_arrival : ℕ → Sequencer → Sequencer
resolve_arrival k s =
    let waiters = get_or [] (lookup k s.missing_waiters) in
    if length waiters == 0
    then s
    else resolve_waiters waiters (record s { missing_waiters = erase k s.missing_waiters })

-- The message waits for each of its missing antecedents.
unfoldable pub add_waiter : ℕ → List ℕ → Dict (List ℕ) → Dict (List ℕ)
add_waiter k [] d = d
add_waiter k (a ∷ missing) d =
    let waiters = get_or [] (lookup a d) in
    add_waiter k missing (insert a (if contains k waiters then waiters else k ∷ waiters) d)

unfoldable pub count_missing : ℕ → List ℕ → Sequencer → Sequencer
count_missing k missing s = if length missing == 0 then s else record s {
  missing_count = insert k (length missing) s.missing_count;
  true_orphans = suc s.true_orphans;
  missing_waiters = add_waiter k missing s.missing_waiters;
  missing_of = insert k missing s.missing_of;
}

-- insertBufferedLocked
unfoldable pub insert_buffered : Message → List ℕ → Sequencer → Sequencer
insert_buffered m missing s =
    let held = record s { buffered = insert m.id m s.buffered; order = s.order ++ m.id ∷ [] } in
    resolve_arrival m.id (count_missing m.id missing held)

-- Ingest: the batch path.
unfoldable pub ingest : Message → Sequencer → Outcome Sequencer
ingest m s =
    let missing = missing_antecedents s m in
    if m.id == 0
    then err empty_id
    else (if is_known s m.id
        then ok s
        else (if not (length missing == 0) && ltb s.max_orphans (suc s.true_orphans)
            then err orphan_buffer_overflow
            else ok (insert_buffered m missing s)))

-- The edges of an evicted message: an antecedent that nothing waits for any more has no entry.
unfoldable pub drop_waiter : ℕ → List ℕ → Dict (List ℕ) → Dict (List ℕ)
drop_waiter k [] d = d
drop_waiter k (a ∷ missing) d = drop_waiter k missing (elim (lookup a d) [
  | none ↦ d
  | some waiters ↦
      let left = remove_from k waiters in if length left == 0 then erase a d else insert a left d
])

unfoldable pub forget_missing : ℕ → Sequencer → Sequencer
forget_missing k s = elim (lookup k s.missing_count) [
  | none ↦ s
  | some _ ↦ record s {
    missing_count = erase k s.missing_count;
    true_orphans = s.true_orphans - 1;
    missing_waiters = drop_waiter k (get_or [] (lookup k s.missing_of)) s.missing_waiters;
    missing_of = erase k s.missing_of;
  }
]

-- evictOldestLocked: the evicted id, or `none` where nothing is buffered.
unfoldable pub evict_oldest : Sequencer → Option (ℕ × Sequencer)
evict_oldest s = elim s.order [
  | [] ↦ none
  | k ∷ order ↦
      some (k, forget_missing k (record s { order = order; buffered = erase k s.buffered }))
]

-- The loop that makes room for one more; each round takes one id from `order`, so that the fuel is the
-- length of it.
unfoldable pub make_room : ℕ → Sequencer → List ℕ × Sequencer
make_room zero s = ([], s)
make_room (suc n) s =
    if ltb s.max_orphans (suc (length s.buffered))
    then elim (evict_oldest s) [
      | none ↦ ([], s)
      | some (k, t) ↦ let r = make_room n t in (k ∷ r.0, r.1)
    ]
    else ([], s)

-- IngestLive: the path of the relays. The oldest messages give way, and their ids are returned.
unfoldable pub ingest_live : Message → Sequencer → Outcome (List ℕ × Sequencer)
ingest_live m s =
    let missing = missing_antecedents s m in
    let r = make_room (length s.order) s in
    if m.id == 0
    then err empty_id
    else (if is_known s m.id then ok ([], s) else ok (r.0, insert_buffered m missing r.1))

-- MarkEmitted
unfoldable pub mark_emitted : List ℕ → Sequencer → Sequencer
mark_emitted [] s = s
mark_emitted (k ∷ ids) s =
    if k == 0
    then mark_emitted ids s
    else mark_emitted ids (resolve_arrival k (record s { emitted = k ∷ s.emitted }))
