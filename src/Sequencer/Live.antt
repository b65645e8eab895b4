-- ===== src/Sequencer/Live.antt =====
-- IngestLive: the oldest messages give way to a new one, and never more of them than must.
use mathlib.Core.Path.{subst}
use dontguess.Base.{
  ℕ, zero, suc, ◌≡◌, ◌⊎◌, refl, sym, ◌∙◌, ap, false, none, some, List, [], ◌∷◌, ◌++◌, inl, inr,
  arith, ◌==◌, ltb, Bool-cases, Option-cases, length, ◌+◌, ◌≤◌, Dict, lookup, insert, erase,
  lookup-erase,
}
use mathlib.Core.List.{append_assoc}
use dontguess.Proto.{Message}
use dontguess.Sequencer.Types.{Sequencer, ok}
use dontguess.Sequencer.Graph.{Indexed, keys}
use dontguess.Sequencer.Loading.{insert_buffered-Admits, insert-Indexed}
use dontguess.Sequencer.Delivery.{erase-absent}
use dontguess.Sequencer.Rounds.{length-append}
use dontguess.Sequencer.Ingest.{
  missing_antecedents, is_known, forget_missing, evict_oldest, make_room, insert_buffered,
  ingest_live,
}

-- A buffer that is in step with its order.
pub record Queued (s : Sequencer) : Type 0 where
  pub indexed : Indexed s.buffered
  pub in_order : s.order ≡ keys s.buffered

-- Eviction takes the front of the queue, and touches nothing that is released.
pub record Evicts (k : ℕ) (s t : Sequencer) : Type 0 where
  pub front : s.order ≡ k ∷ t.order
  pub queued : Queued t
  pub smaller : length s.buffered ≡ suc (length t.buffered)
  pub emitted : t.emitted ≡ s.emitted
  pub max_orphans : t.max_orphans ≡ s.max_orphans
  pub kept : (j : ℕ) → lookup j s.buffered ≡ none → lookup j t.buffered ≡ none

record Forgets (s t : Sequencer) : Type 0 where
  emitted : t.emitted ≡ s.emitted
  buffered : t.buffered ≡ s.buffered
  max_orphans : t.max_orphans ≡ s.max_orphans
  order : t.order ≡ s.order

forget_missing-Forgets : (k : ℕ) (s : Sequencer) → Forgets s (forget_missing k s)
unfolding forget_missing
forget_missing-Forgets k s = elim (Option-cases (lookup k s.missing_count)) [
  | inl e ↦
      rw (e, forget_missing)
        (record { emitted = refl; buffered = refl; max_orphans = refl; order = refl })
  | inr (c, e) ↦
      rw (e, forget_missing)
        (record { emitted = refl; buffered = refl; max_orphans = refl; order = refl })
]

erase_front :
    (k : ℕ) (m : Message) (d b : Dict Message) → d ≡ (k, m) ∷ b → Indexed d → erase k d ≡ b
unfolding erase
erase_front k m d b e i =
    let at = subst (λ x. Indexed x) e i in rw e (ground (arith, erase-absent k b at.0))

evict_oldest-Evicts :
    (s : Sequencer) (k : ℕ) (m : Message) (b : Dict Message)
    → Queued s
    → s.buffered ≡ (k, m) ∷ b
    → (t : Sequencer) × (evict_oldest s ≡ some (k, t)) × Evicts k s t
unfolding evict_oldest
evict_oldest-Evicts s k m b q e =
    let front : s.order ≡ k ∷ keys b = q.in_order ∙ ap keys e in
    let cut = record s { order = keys b; buffered = erase k s.buffered } in
    let rest = erase_front k m s.buffered b e q.indexed in
    let f = forget_missing-Forgets k cut in
    let at = subst (λ x. Indexed x) e q.indexed in
    (
      forget_missing k cut,
      rw (front, evict_oldest) refl,
      record {
        front = front ∙ ap (λ l. k ∷ l) (sym f.order);
        queued = record {
          indexed = rw (f.buffered, rest) at.2;
          in_order = f.order ∙ ap keys (sym (f.buffered ∙ rest));
        };
        smaller = ap length e ∙ ap (λ d. suc (length d)) (sym (f.buffered ∙ rest));
        emitted = f.emitted;
        max_orphans = f.max_orphans;
        kept = λ j h. ground (arith, f.buffered, lookup-erase j k s.buffered);
      },
    )

-- The loop that makes room: what it evicts are the first of the queue, as few as leave room for one.
pub record MakesRoom (evicted : List ℕ) (s t : Sequencer) : Type 0 where
  pub queue : evicted ++ t.order ≡ s.order
  pub queued : Queued t
  pub count : length evicted + length t.buffered ≡ length s.buffered
  pub emitted : t.emitted ≡ s.emitted
  pub max_orphans : t.max_orphans ≡ s.max_orphans
  pub kept : (j : ℕ) → lookup j s.buffered ≡ none → lookup j t.buffered ≡ none
  pub room : suc (length t.buffered) ≤ s.max_orphans
  pub needed : (evicted ≡ []) ⊎ (suc (length t.buffered) ≡ s.max_orphans)

MakesRoom-none :
    (s : Sequencer) → Queued s → suc (length s.buffered) ≤ s.max_orphans → MakesRoom [] s s
MakesRoom-none s q h = record {
  queue = refl;
  queued = q;
  count = omega arith;
  emitted = refl;
  max_orphans = refl;
  kept = λ j e. e;
  room = h;
  needed = inl refl;
}

MakesRoom-cons :
    (k : ℕ) (evicted : List ℕ) (s t u : Sequencer)
    → s.max_orphans ≤ length s.buffered
    → Evicts k s t
    → MakesRoom evicted t u
    → MakesRoom (k ∷ evicted) s u
MakesRoom-cons k evicted s t u full e r = record {
  queue = ap (λ l. k ∷ l) r.queue ∙ sym e.front;
  queued = r.queued;
  count = omega (arith, r.count, e.smaller);
  emitted = r.emitted ∙ e.emitted;
  max_orphans = r.max_orphans ∙ e.max_orphans;
  kept = λ j h. r.kept j (e.kept j h);
  room = omega (arith, r.room, e.max_orphans);
  needed = inr (elim r.needed [
    | inl none_more ↦
        let short : length evicted ≡ 0 = ap length none_more in
        omega (arith, short, r.count, r.room, e.smaller, e.max_orphans)
    | inr tight ↦ tight ∙ e.max_orphans
  ]);
}

-- The loop ends with room for one more.
make_room-MakesRoom :
    (n : ℕ) (s : Sequencer)
    → Queued s
    → 1 ≤ s.max_orphans
    → length s.buffered ≤ n
    → MakesRoom (make_room n s).0 s (make_room n s).1
unfolding make_room
make_room-MakesRoom zero s q p h = MakesRoom-none s q (omega arith)
make_room-MakesRoom (suc n) s q p h =
    elim (Bool-cases (ltb s.max_orphans (suc (length s.buffered)))) [
      | inr fits ↦ rw (fits, make_room) (MakesRoom-none s q (ground arith))
      | inl full ↦
          let (k, m, b, e) = front_of s.buffered (ground arith) in
          let (t, evicted, v) = evict_oldest-Evicts s k m b q e in
          let rest =
            make_room-MakesRoom n t v.queued (omega (arith, v.max_orphans))
              (omega (arith, v.smaller)) in
          rw (full, evicted, make_room)
            (MakesRoom-cons k (make_room n t).0 s t (make_room n t).1 (ground arith) v rest)
    ]
  where
    front_of :
        (d : Dict Message)
        → 1 ≤ length d
        → (k : ℕ) × (m : Message) × (b : Dict Message) × (d ≡ (k, m) ∷ b)
    front_of [] h = absurd (omega arith)
    front_of ((k, m) ∷ b) h = (k, m, b, refl)

length-keys : (d : Dict Message) → length (keys d) ≡ length d
length-keys [] = refl
length-keys ((k, m) ∷ d) = ap suc (length-keys d)

pub keys-insert :
    (k : ℕ) (m : Message) (d : Dict Message)
    → lookup k d ≡ none
    → keys (insert k m d) ≡ keys d ++ k ∷ []
unfolding insert lookup
keys-insert k m [] e = refl
keys-insert k m ((j, n) ∷ d) e = ground (arith, keys-insert k m d)

-- What the admission of a new message makes of a queue with room.
pub record Enqueues (m : Message) (evicted : List ℕ) (s t : Sequencer) : Type 0 where
  pub queue : evicted ++ keys t.buffered ≡ keys s.buffered ++ m.id ∷ []
  pub bounded : length t.buffered ≤ s.max_orphans
  pub needed : (evicted ≡ []) ⊎ (length t.buffered ≡ s.max_orphans)
  pub queued : Queued t
  pub emitted : t.emitted ≡ s.emitted
  pub bound : t.max_orphans ≡ s.max_orphans

enqueue-Enqueues :
    (m : Message) (missing evicted : List ℕ) (s u : Sequencer)
    → Queued s
    → lookup m.id s.buffered ≡ none
    → MakesRoom evicted s u
    → Enqueues m evicted s (insert_buffered m missing u)
enqueue-Enqueues m missing evicted s u q absent r =
    let a = insert_buffered-Admits m missing u in
    let t = insert_buffered m missing u in
    let grown : keys t.buffered ≡ keys u.buffered ++ m.id ∷ [] =
      ap keys a.buffered ∙ keys-insert m.id m u.buffered (r.kept m.id absent) in
    let longer : length t.buffered ≡ suc (length u.buffered) =
      sym (length-keys t.buffered)
      ∙ ap length grown
      ∙ length-append (keys u.buffered) m.id
      ∙ ap suc (length-keys u.buffered) in
    let former : evicted ++ keys u.buffered ≡ keys s.buffered =
      ap (λ l. evicted ++ l) (sym r.queued.in_order) ∙ r.queue ∙ q.in_order in
    record {
      queue =
          ap (λ l. evicted ++ l) grown
          ∙ sym (append_assoc evicted (keys u.buffered) (m.id ∷ []))
          ∙ ap (λ l. l ++ m.id ∷ []) former;
      bounded = omega (arith, longer, r.room);
      needed = elim r.needed [ inl e ↦ inl e | inr e ↦ inr (longer ∙ e) ];
      queued = record {
        indexed = rw a.buffered (insert-Indexed m u.buffered r.queued.indexed);
        in_order = a.order ∙ ap (λ l. l ++ m.id ∷ []) r.queued.in_order ∙ sym grown;
      };
      emitted = a.emitted ∙ r.emitted;
      bound = a.max_orphans ∙ r.max_orphans;
    }

-- The live path admits a new message.
pub ingest_live-queue :
    (m : Message) (s : Sequencer)
    → Queued s
    → 1 ≤ s.max_orphans
    → (m.id == 0) ≡ false
    → is_known s m.id ≡ false
    → (evicted : List ℕ) × (t : Sequencer) × (ingest_live m s ≡ ok (evicted, t))
      × Enqueues m evicted s t
unfolding ingest_live is_known
ingest_live-queue m s q p named new =
    let n = length s.order in
    let r =
      make_room-MakesRoom n s q p (omega (arith, ap length q.in_order, length-keys s.buffered)) in
    (
      (make_room n s).0,
      insert_buffered m (missing_antecedents s m) (make_room n s).1,
      rw (named, new) refl,
      enqueue-Enqueues m (missing_antecedents s m) (make_room n s).0 s (make_room n s).1 q
          (ground arith) r,
    )
