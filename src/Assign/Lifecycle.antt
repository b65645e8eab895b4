-- ===== src/Assign/Lifecycle.antt =====
-- The state diagram of an assign, and that no message leaves it.
use dontguess.Base.{
  ℕ, ◌≡◌, refl, ◌∙◌, ◌==◌, none, some, inl, inr, Dict, lookup, insert, arith, Bool-cases,
  lookup-insert,
}
use dontguess.Assign.Types.{
  AssignRecord, AssignStatus, open_task, claimed, completed, accepted, paid, expired, State,
  record_in,
}

infix 40 ◌⟶◌
pub data ◌⟶◌ : AssignStatus → AssignStatus → Type 0 where
  stay : {w : AssignStatus} → w ⟶ w
  claim : open_task ⟶ claimed
  lapse : open_task ⟶ expired
  reopen : claimed ⟶ open_task
  complete : claimed ⟶ completed
  accept : completed ⟶ accepted
  reject : completed ⟶ open_task
  pay_out : accepted ⟶ paid

-- What became of a record: it is there, under the same assign id, one step of the diagram on.
pub record Successor (r : AssignRecord) (d : Dict AssignRecord) (id : ℕ) : Type 0 where
  pub next : AssignRecord
  pub found : lookup id d ≡ some next
  pub moved : r.status ⟶ next.status
  pub same_id : next.assign_id ≡ r.assign_id

-- Each record stands under its own assign id.
abbrev pub Keyed : Dict AssignRecord → Type 0
Keyed d = (id : ℕ) (r : AssignRecord) → lookup id d ≡ some r → r.assign_id ≡ id

-- No record is lost, none leaves the diagram, and the map stays keyed by assign ids.
pub record Evolves (d e : Dict AssignRecord) : Type 0 where
  pub follows : (id : ℕ) (r : AssignRecord) → lookup id d ≡ some r → Successor r e id
  pub keyed : Keyed d → Keyed e

pub Evolves-refl : (d : Dict AssignRecord) → Evolves d d
Evolves-refl d = record {
  follows = λ id r h. record { next = r; found = h; moved = stay; same_id = refl };
  keyed = λ k. k;
}

Keyed-insert :
    (id : ℕ) (r : AssignRecord) (d : Dict AssignRecord)
    → Keyed d
    → r.assign_id ≡ id
    → Keyed (insert id r d)
Keyed-insert id r d k own j q h = ground (arith, lookup-insert j id r d, k j q)

pub Evolves-insert :
    (id : ℕ) (r r' : AssignRecord) (d : Dict AssignRecord)
    → lookup id d ≡ some r
    → r.status ⟶ r'.status
    → r'.assign_id ≡ r.assign_id
    → Evolves d (insert id r' d)
Evolves-insert id r r' d at mv same = record {
  follows = λ j q h. elim (Bool-cases (j == id)) [
    | inl e ↦
        let k : j ≡ id = ground arith in
        let eq : r ≡ q = ground arith in
        record {
          next = r';
          found = ground (arith, lookup-insert j id r' d);
          moved = rw eq at mv;
          same_id = rw eq at same;
        }
    | inr e ↦ record {
      next = q;
      found = ground (arith, lookup-insert j id r' d);
      moved = stay;
      same_id = refl;
    }
  ];
  keyed = λ k. Keyed-insert id r' d k (same ∙ k id r at);
}

pub Evolves-insert_new :
    (id : ℕ) (r : AssignRecord) (d : Dict AssignRecord)
    → lookup id d ≡ none
    → r.assign_id ≡ id
    → Evolves d (insert id r d)
Evolves-insert_new id r d new own = record {
  follows = λ j q h. record {
    next = q;
    found = ground (arith, lookup-insert j id r d);
    moved = stay;
    same_id = refl;
  };
  keyed = λ k. Keyed-insert id r d k own;
}

pub record_in-eq_some :
    (w : AssignStatus) (id : ℕ) (s : State) (r : AssignRecord)
    → record_in w id s ≡ some r
    → (lookup id s.assign_by_id ≡ some r) × (r.status ≡ w)
unfolding record_in
record_in-eq_some w id s r h = ground arith
