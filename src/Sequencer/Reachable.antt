-- ===== src/Sequencer/Reachable.antt =====
-- The states that a sequencer reaches, by its calls.
use mathlib.Core.Path.{subst}
use dontguess.Base.{
  ℕ, ◌≡◌, refl, sym, ◌∙◌, ap, false, none, List, [], ◌∷◌, inl, inr, arith, ◌⊎◌, ◌++◌, ◌==◌, ◌≤◌,
  Bool-cases, length, contains, lookup,
}
use dontguess.Proto.{Message}
use dontguess.Sequencer.Types.{Sequencer, Outcome, ok, new_sequencer}
use dontguess.Sequencer.Graph.{keys}
use dontguess.Sequencer.Canonical.{Canonical}
use dontguess.Sequencer.Refinement.{drain-Canonical, run_cascade-Released}
use dontguess.Sequencer.Loading.{resolve_arrival-Settles, insert_buffered-Admits, insert-Indexed}
use dontguess.Sequencer.Live.{Queued, keys-insert, Enqueues, ingest_live-queue}
use dontguess.Sequencer.Ingest.{
  missing_antecedents, is_known, resolve_arrival, insert_buffered, ingest, ingest_live,
  mark_emitted,
}
use dontguess.Sequencer.Drain.{drain, messages}

-- The calls of a sequencer. MarkEmitted may name any ids, also ones that are buffered.
pub data Call : Sequencer → Sequencer → Type 0 where
  ingested : {s t : Sequencer} (m : Message) → ingest m s ≡ ok t → Call s t
  received :
      {s t : Sequencer} (m : Message) (evicted : List ℕ)
      → ingest_live m s ≡ ok (evicted, t)
      → Call s t
  marked : {s : Sequencer} (ids : List ℕ) → Call s (mark_emitted ids s)
  drained : (s : Sequencer) → Call s (drain s).2

pub data Reachable (bound : ℕ) : Sequencer → Type 0 where
  fresh : Reachable bound (new_sequencer bound)
  after : {s t : Sequencer} → Reachable bound s → Call s t → Reachable bound t

-- The invariant: the buffer is in step with its order, and the bound is positive.
pub record Sound (s : Sequencer) : Type 0 where
  pub queued : Queued s
  pub positive : 1 ≤ s.max_orphans

new_sequencer-Sound : (n : ℕ) → Sound (new_sequencer n)
unfolding new_sequencer lookup contains
new_sequencer-Sound n = record {
  queued = record { indexed = tt; in_order = refl };
  positive = ground arith;
}

insert_buffered-Sound :
    (m : Message) (missing : List ℕ) (s : Sequencer)
    → Sound s
    → lookup m.id s.buffered ≡ none
    → Sound (insert_buffered m missing s)
insert_buffered-Sound m missing s v absent =
    let a = insert_buffered-Admits m missing s in
    let q = v.queued in
    record {
      queued = record {
        indexed = rw a.buffered (insert-Indexed m s.buffered q.indexed);
        in_order =
            a.order
            ∙ ap (λ l. l ++ m.id ∷ []) q.in_order
            ∙ sym (ap keys a.buffered ∙ keys-insert m.id m s.buffered absent);
      };
      positive = omega (arith, v.positive, a.max_orphans);
    }

ingest-cases :
    (m : Message) (s t : Sequencer)
    → ingest m s ≡ ok t
    → (t ≡ s) ⊎ ((is_known s m.id ≡ false) × (t ≡ insert_buffered m (missing_antecedents s m) s))
unfolding ingest
ingest-cases m s t e = elim (Bool-cases (is_known s m.id)) [
  | inl known ↦ inl (ground arith)
  | inr new ↦ inr (new, ground arith)
]

ingest_live-cases :
    (m : Message) (s t : Sequencer) (evicted : List ℕ)
    → ingest_live m s ≡ ok (evicted, t)
    → (t ≡ s) ⊎ ((is_known s m.id ≡ false) × ((m.id == 0) ≡ false))
unfolding ingest_live
ingest_live-cases m s t evicted e = elim (Bool-cases (is_known s m.id)) [
  | inl known ↦ inl (ground arith)
  | inr new ↦ inr (new, ground arith)
]

ingest-Sound : (m : Message) (s t : Sequencer) → Sound s → ingest m s ≡ ok t → Sound t
unfolding is_known
ingest-Sound m s t v e = elim (ingest-cases m s t e) [
  | inl same ↦ subst (λ x. Sound x) (sym same) v
  | inr (new, grown) ↦
      subst (λ x. Sound x) (sym grown)
        (insert_buffered-Sound m (missing_antecedents s m) s v (ground arith))
]

ingest_live-Sound :
    (m : Message) (evicted : List ℕ) (s t : Sequencer)
    → Sound s
    → ingest_live m s ≡ ok (evicted, t)
    → Sound t
ingest_live-Sound m evicted s t v e = elim (ingest_live-cases m s t evicted e) [
  | inl same ↦ subst (λ x. Sound x) (sym same) v
  | inr (new, named) ↦
      let (gone, u, result, q) = ingest_live-queue m s v.queued v.positive named new in
      let h : ◌≡◌ {A = Outcome (List ℕ × Sequencer)} (ok (gone, u)) (ok (evicted, t)) =
        sym result ∙ e in
      let same : u ≡ t = cc in
      subst (λ x. Sound x) same
        (record { queued = q.queued; positive = omega (arith, v.positive, q.bound) })
]

resolve_arrival-Sound :
    (k : ℕ) (s : Sequencer)
    → Sound s
    → Sound (resolve_arrival k (record s { emitted = k ∷ s.emitted }))
resolve_arrival-Sound k s v =
    let r = resolve_arrival-Settles k (record s { emitted = k ∷ s.emitted }) in
    record {
      queued = record {
        indexed = rw r.buffered v.queued.indexed;
        in_order = r.order ∙ v.queued.in_order ∙ ap keys (sym r.buffered);
      };
      positive = omega (arith, v.positive, r.max_orphans);
    }

drain-Sound : (s : Sequencer) → Sound s → Sound (drain s).2
unfolding drain
drain-Sound s v = elim (Bool-cases (length s.buffered == 0)) [
  | inl e ↦ rw e v
  | inr e ↦
      let (out, r) = run_cascade-Released s v.queued.indexed in
      rw e (record {
        queued = record { indexed = r.indexed; in_order = r.in_order v.queued.in_order };
        positive = omega (arith, v.positive, r.bound);
      })
]

mark_emitted-Sound : (ids : List ℕ) (s : Sequencer) → Sound s → Sound (mark_emitted ids s)
unfolding mark_emitted
mark_emitted-Sound [] s v = v
mark_emitted-Sound (k ∷ ids) s v = elim (Bool-cases (k == 0)) [
  | inl empty ↦ rw (empty, mark_emitted) (mark_emitted-Sound ids s v)
  | inr named ↦ rw (named, mark_emitted) (mark_emitted-Sound ids _ (resolve_arrival-Sound k s v))
]

Call-Sound : {s t : Sequencer} → Call s t → Sound s → Sound t
Call-Sound (ingested m e) v = ingest-Sound m _ _ v e
Call-Sound (received m evicted e) v = ingest_live-Sound m evicted _ _ v e
Call-Sound (marked ids) v = mark_emitted-Sound ids _ v
Call-Sound (drained s) v = drain-Sound s v

Reachable-Sound : {n : ℕ} {s : Sequencer} → Reachable n s → Sound s
Reachable-Sound {n} fresh = new_sequencer-Sound n
Reachable-Sound (after r c) = Call-Sound c (Reachable-Sound r)

-- In every state that the calls of a new sequencer reach, MarkEmitted with any ids among them, the
-- messages that Drain returns are the ones that the canonical order releases from the buffer: the
-- least ready message by timestamp and id, again and again, until none is ready.
pub Reachable-Canonical :
    (n : ℕ) (s : Sequencer) → Reachable n s → Canonical s.emitted s.buffered (messages (drain s).0)
Reachable-Canonical n s r = drain-Canonical s (Reachable-Sound r).queued.indexed

-- The live path never refuses a new message. In a reachable state, for a message that has an id and
-- is neither released nor buffered: the ids that are evicted and then those that are buffered after
-- the call are those that were buffered before it and then the new one; the buffer is within its
-- bound; where something is evicted the buffer is full; and nothing more is marked as released.
pub Reachable-Enqueues :
    (n : ℕ) (s : Sequencer) (m : Message)
    → Reachable n s
    → (m.id == 0) ≡ false
    → is_known s m.id ≡ false
    → (evicted : List ℕ) × (t : Sequencer) × (ingest_live m s ≡ ok (evicted, t))
      × Enqueues m evicted s t
Reachable-Enqueues n s m r named new =
    let v = Reachable-Sound r in ingest_live-queue m s v.queued v.positive named new
