-- ===== src/Sequencer/Types.antt =====
-- pkg/exchange/sequencer.go: the state of a Sequencer, and how its calls fail.
use dontguess.Base.{ℕ, List, [], Dict, if◌then◌else◌, ◌==◌}
use dontguess.Proto.{Message}

-- DefaultMaxOrphans
abbrev pub default_max_orphans : ℕ
default_max_orphans = 1000

-- A message at the place of the fold order that the operator gave it.
pub record Sequenced : Type 0 where
  pub seq : ℕ
  pub msg : Message

-- `emitted` and the inner sets of `missing_waiters` and `missing_of` are sets; `order` is the list of
-- the buffered ids, the oldest first, and stands for `orderElem` too. A bound that is not positive
-- is 0.
pub record Sequencer : Type 0 where
  pub next_seq : ℕ
  pub max_orphans : ℕ
  pub emitted : List ℕ
  pub buffered : Dict Message
  pub true_orphans : ℕ
  pub missing_count : Dict ℕ
  pub missing_waiters : Dict (List ℕ)
  pub missing_of : Dict (List ℕ)
  pub order : List ℕ

-- The errors, without their texts; a broken chain names the number of the orphans.
pub data SequencerError : Type 0 where
  empty_id orphan_buffer_overflow : SequencerError
  unrecoverable_antecedent : ℕ → SequencerError

-- A returned value or a returned error.
pub data Outcome {ℓ} (A : Type ℓ) : Type ℓ where
  ok : A → Outcome A
  err : SequencerError → Outcome A

unfoldable pub new_sequencer : ℕ → Sequencer
new_sequencer max_orphans = record {
  next_seq = 0;
  max_orphans = if max_orphans == 0 then default_max_orphans else max_orphans;
  emitted = [];
  buffered = [];
  true_orphans = 0;
  missing_count = [];
  missing_waiters = [];
  missing_of = [];
  order = [];
}
