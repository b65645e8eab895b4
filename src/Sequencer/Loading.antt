-- ===== src/Sequencer/Loading.antt =====
-- The batch path: what the buffer holds once every message of a batch is ingested.
use dontguess.Base.{
  ℕ, suc, ◌≡◌, refl, ◌∙◌, true, false, Option, none, some, List, [], ◌∷◌, ◌++◌, inl, inr, arith,
  ◌==◌, leb, if◌then◌else◌, Bool-cases, Option-cases, length, ◌+◌, ◌≤◌, contains, is_some, Dict,
  lookup, insert, erase, lookup-insert, get_or, if-keeps,
}
use dontguess.Proto.{Message}
use dontguess.Sequencer.Types.{Sequencer, ok, err, empty_id}
use dontguess.Sequencer.Order.{message_of}
use dontguess.Sequencer.Graph.{Indexed, or_entry}
use dontguess.Sequencer.Refinement.{WellFormed}
use dontguess.Sequencer.Ingest.{
  missing_antecedents, is_known, resolve_waiter, resolve_waiters, resolve_arrival, count_missing,
  insert_buffered, ingest,
}
use dontguess.Sequencer.Drain.{ingest_all}

-- The calls that keep the count of the orphans leave the rest alone, and add no orphan.
pub record Settles (s t : Sequencer) : Type 0 where
  pub emitted : t.emitted ≡ s.emitted
  pub buffered : t.buffered ≡ s.buffered
  pub max_orphans : t.max_orphans ≡ s.max_orphans
  pub order : t.order ≡ s.order
  pub next_seq : t.next_seq ≡ s.next_seq
  pub true_orphans : t.true_orphans ≤ s.true_orphans

Settles-refl : (s : Sequencer) → Settles s s
Settles-refl s = record {
  emitted = refl;
  buffered = refl;
  max_orphans = refl;
  order = refl;
  next_seq = refl;
  true_orphans = omega arith;
}

resolve_waiter-Settles : (w : ℕ) (s : Sequencer) → Settles s (resolve_waiter w s)
unfolding resolve_waiter
resolve_waiter-Settles w s = elim (Option-cases (lookup w s.missing_count)) [
  | inl e ↦ rw (e, resolve_waiter) (Settles-refl s)
  | inr (c, e) ↦ elim (Bool-cases (leb c 1)) [
    | inl last ↦
        rw (e, resolve_waiter, last)
          (record {
            emitted = refl;
            buffered = refl;
            max_orphans = refl;
            order = refl;
            next_seq = refl;
            true_orphans = omega arith;
          })
    | inr more ↦
        rw (e, resolve_waiter, more)
          (record {
            emitted = refl;
            buffered = refl;
            max_orphans = refl;
            order = refl;
            next_seq = refl;
            true_orphans = omega arith;
          })
  ]
]

Settles-trans : {s t u : Sequencer} → Settles s t → Settles t u → Settles s u
Settles-trans h k = record {
  emitted = k.emitted ∙ h.emitted;
  buffered = k.buffered ∙ h.buffered;
  max_orphans = k.max_orphans ∙ h.max_orphans;
  order = k.order ∙ h.order;
  next_seq = k.next_seq ∙ h.next_seq;
  true_orphans = omega (arith, h.true_orphans, k.true_orphans);
}

resolve_waiters-Settles : (ws : List ℕ) (s : Sequencer) → Settles s (resolve_waiters ws s)
unfolding resolve_waiters
resolve_waiters-Settles [] s = Settles-refl s
resolve_waiters-Settles (w ∷ ws) s =
    Settles-trans (resolve_waiter-Settles w s) (resolve_waiters-Settles ws (resolve_waiter w s))

pub resolve_arrival-Settles : (k : ℕ) (s : Sequencer) → Settles s (resolve_arrival k s)
unfolding resolve_arrival
resolve_arrival-Settles k s =
    let cut = record s { missing_waiters = erase k s.missing_waiters } in
    let same : Settles s cut = record {
      emitted = refl;
      buffered = refl;
      max_orphans = refl;
      order = refl;
      next_seq = refl;
      true_orphans = omega arith;
    } in
    if-keeps (λ t. Settles s t) _ _ _ (Settles-refl s)
      (Settles-trans same (resolve_waiters-Settles (get_or [] (lookup k s.missing_waiters)) cut))

-- The admission of a message to the buffer.
pub record Admits (m : Message) (s t : Sequencer) : Type 0 where
  pub emitted : t.emitted ≡ s.emitted
  pub buffered : t.buffered ≡ insert m.id m s.buffered
  pub max_orphans : t.max_orphans ≡ s.max_orphans
  pub order : t.order ≡ s.order ++ m.id ∷ []
  pub true_orphans : t.true_orphans ≤ suc s.true_orphans

count_missing-Admits :
    (m : Message) (missing : List ℕ) (s : Sequencer)
    → Admits m s (
        count_missing m.id missing
          (record s { buffered = insert m.id m s.buffered; order = s.order ++ m.id ∷ [] }))
unfolding count_missing
count_missing-Admits m missing s = elim (Bool-cases (length missing == 0)) [
  | inl e ↦
      rw (e, count_missing)
        (record {
          emitted = refl;
          buffered = refl;
          max_orphans = refl;
          order = refl;
          true_orphans = omega arith;
        })
  | inr e ↦
      rw (e, count_missing)
        (record {
          emitted = refl;
          buffered = refl;
          max_orphans = refl;
          order = refl;
          true_orphans = omega arith;
        })
]

pub insert_buffered-Admits :
    (m : Message) (missing : List ℕ) (s : Sequencer) → Admits m s (insert_buffered m missing s)
unfolding insert_buffered
insert_buffered-Admits m missing s =
    let counted = count_missing-Admits m missing s in
    let settled = resolve_arrival-Settles m.id (
      count_missing m.id missing
        (record s { buffered = insert m.id m s.buffered; order = s.order ++ m.id ∷ [] })) in
    record {
      emitted = settled.emitted ∙ counted.emitted;
      buffered = settled.buffered ∙ counted.buffered;
      max_orphans = settled.max_orphans ∙ counted.max_orphans;
      order = settled.order ∙ counted.order;
      true_orphans = omega (arith, settled.true_orphans, counted.true_orphans);
    }

pub insert-Indexed :
    (m : Message) (buffered : Dict Message) → Indexed buffered → Indexed (insert m.id m buffered)
unfolding insert lookup
insert-Indexed m [] i = (refl, refl, tt)
insert-Indexed m ((k, n) ∷ buffered) i =
    ground (arith, insert-Indexed m buffered i.2, lookup-insert k m.id m buffered)

pub insert_buffered-WellFormed :
    (m : Message) (missing : List ℕ) (s : Sequencer)
    → WellFormed s
    → contains m.id s.emitted ≡ false
    → WellFormed (insert_buffered m missing s)
insert_buffered-WellFormed m missing s v new =
    let a = insert_buffered-Admits m missing s in
    record {
      indexed = rw a.buffered (insert-Indexed m s.buffered v.indexed);
      fresh = λ k n e.
          ground (arith, a.emitted, a.buffered, v.fresh k n, lookup-insert k m.id m s.buffered);
    }

-- A batch in the buffer: nothing is released, and each id has its first message.
pub record Loads (msgs : List Message) (s t : Sequencer) : Type 0 where
  pub valid : WellFormed t
  pub emitted : t.emitted ≡ s.emitted
  pub max_orphans : t.max_orphans ≡ s.max_orphans
  pub bounded : length t.buffered ≤ length s.buffered + length msgs
  pub holds : (k : ℕ) → lookup k t.buffered ≡ or_entry (lookup k s.buffered) (message_of k msgs)

length-insert_le : (k : ℕ) (m : Message) (d : Dict Message) → length (insert k m d) ≤ suc (length d)
unfolding insert
length-insert_le k m [] = omega arith
length-insert_le k m ((j, n) ∷ d) = ground (arith, length-insert_le k m d)

-- One call of Ingest that the bound allows.
ingest-cases :
    (m : Message) (s : Sequencer)
    → suc s.true_orphans ≤ s.max_orphans
    → (m.id == 0) ≡ false
    → ingest m s ≡ ok (if is_known s m.id then s else insert_buffered m (missing_antecedents s m) s)
unfolding ingest
ingest-cases m s h e = ground arith

module _ (m : Message) (msgs : List Message) (s t : Sequencer) where
  Loads-known : s.emitted ≡ [] → is_known s m.id ≡ true → Loads msgs s t → Loads (m ∷ msgs) s t
  unfolding is_known contains message_of
  Loads-known none_out known l = record {
    valid = l.valid;
    emitted = l.emitted;
    max_orphans = l.max_orphans;
    bounded = omega (arith, l.bounded);
    holds = λ k. ground (arith, l.holds k);
  }

  Loads-new :
      is_known s m.id ≡ false
      → Loads msgs (insert_buffered m (missing_antecedents s m) s) t
      → Loads (m ∷ msgs) s t
  unfolding is_known message_of
  Loads-new new l =
      let a = insert_buffered-Admits m (missing_antecedents s m) s in
      record {
        valid = l.valid;
        emitted = l.emitted ∙ a.emitted;
        max_orphans = l.max_orphans ∙ a.max_orphans;
        bounded = ground (arith, l.bounded, a.buffered, length-insert_le m.id m s.buffered);
        holds = λ k. ground (arith, l.holds k, a.buffered, lookup-insert k m.id m s.buffered);
      }

ingest_all-step :
    (m : Message) (msgs : List Message) (s u : Sequencer)
    → ingest m s ≡ ok u
    → ingest_all (m ∷ msgs) s ≡ ingest_all msgs u
unfolding ingest_all
ingest_all-step m msgs s u e = rw (e, ingest_all) refl

or_entry-none : (o : Option Message) → o ≡ or_entry o none
or_entry-none none = refl
or_entry-none (some m) = refl

-- Under the bound every batch of messages with ids is loaded.
pub ingest_all-Loads :
    (msgs : List Message) (s : Sequencer)
    → WellFormed s
    → s.emitted ≡ []
    → length msgs + s.true_orphans ≤ s.max_orphans
    → message_of 0 msgs ≡ none
    → (t : Sequencer) × (ingest_all msgs s ≡ ok t) × Loads msgs s t
unfolding ingest_all message_of contains
ingest_all-Loads [] s v none_out h e = (
  s,
  refl,
  record {
    valid = v;
    emitted = refl;
    max_orphans = refl;
    bounded = omega arith;
    holds = λ k. or_entry-none (lookup k s.buffered);
  },
)
ingest_all-Loads (m ∷ msgs) s v none_out h e =
    let named : (m.id == 0) ≡ false = ground arith in
    let next = ingest-cases m s (omega arith) named in
    elim (Bool-cases (is_known s m.id)) [
      | inl known ↦
          let (t, loaded, l) = ingest_all-Loads msgs s v none_out (omega arith) (ground arith) in
          (
            t,
            ingest_all-step m msgs s s (next ∙ rw known refl) ∙ loaded,
            Loads-known m msgs s t none_out known l,
          )
      | inr new ↦
          let u = insert_buffered m (missing_antecedents s m) s in
          let a = insert_buffered-Admits m (missing_antecedents s m) s in
          let w : WellFormed u =
            insert_buffered-WellFormed m (missing_antecedents s m) s v (ground arith) in
          let (t, loaded, l) =
            ingest_all-Loads msgs u w (a.emitted ∙ none_out)
              (ground (arith, a.true_orphans, a.max_orphans)) (ground arith) in
          (t, ingest_all-step m msgs s u (next ∙ rw new refl) ∙ loaded, Loads-new m msgs s t new l)
    ]

-- A batch with a message that has no id is refused.
pub ingest_all-nameless :
    (msgs : List Message) (s : Sequencer)
    → length msgs + s.true_orphans ≤ s.max_orphans
    → is_some (message_of 0 msgs) ≡ true
    → ingest_all msgs s ≡ err empty_id
unfolding ingest_all message_of ingest
ingest_all-nameless [] s h e = cc
ingest_all-nameless (m ∷ msgs) s h e = elim (Bool-cases (m.id == 0)) [
  | inl nameless ↦
      let refused : ingest m s ≡ err empty_id = ingest-nameless m s nameless in
      rw (refused, ingest_all) refl
  | inr named ↦
      let next = ingest-cases m s (omega arith) named in
      elim (Bool-cases (is_known s m.id)) [
        | inl known ↦
            ingest_all-step m msgs s s (next ∙ rw known refl)
            ∙ ingest_all-nameless msgs s (omega arith) (ground arith)
        | inr new ↦
            let u = insert_buffered m (missing_antecedents s m) s in
            let a = insert_buffered-Admits m (missing_antecedents s m) s in
            ingest_all-step m msgs s u (next ∙ rw new refl)
            ∙ ingest_all-nameless msgs u (ground (arith, a.true_orphans, a.max_orphans))
                (ground arith)
      ]
]
  where
    ingest-nameless : (m : Message) (s : Sequencer) → (m.id == 0) ≡ true → ingest m s ≡ err empty_id
    ingest-nameless m s e = ground arith
