-- ===== src/Sequencer/Heap.antt =====
-- The heap of Drain: what Pop returns, and what it leaves.
use dontguess.Base.{
  ℕ, ◌≡◌, refl, true, false, Option, none, some, List, [], ◌∷◌, ◌++◌, inl, inr, arith, ◌==◌,
  if◌then◌else◌, Bool-cases, length, ◌+◌,
}
use dontguess.Base.Int64.{slt}
use dontguess.Proto.{Message}
use dontguess.Sequencer.Order.{precedes, pop_among, pop_least, message_of}

-- No two messages of a list have the same id.
abbrev pub Distinct : List Message → Type 0
Distinct [] = Unit
Distinct (m ∷ h) = (message_of m.id h ≡ none) × Distinct h

-- No message of the list precedes m.
abbrev pub NonePrecedes : Message → List Message → Type 0
NonePrecedes m h = (k : ℕ) (x : Message) → message_of k h ≡ some x → precedes x m ≡ false

precedes_irrefl : (m : Message) → precedes m m ≡ false
unfolding precedes slt
precedes_irrefl m = ground arith

precedes_asym : (m n : Message) → precedes m n ≡ true → precedes n m ≡ false
unfolding precedes slt
precedes_asym m n h = ground arith

not_precedes_trans :
    (a b c : Message) → precedes a b ≡ false → precedes b c ≡ false → precedes a c ≡ false
unfolding precedes slt
not_precedes_trans a b c h k = ground arith

-- Messages that do not precede one another have the same id.
pub not_precedes_antisym :
    (m n : Message) → precedes m n ≡ false → precedes n m ≡ false → m.id ≡ n.id
unfolding precedes slt
not_precedes_antisym m n h k = ground arith

pub message_of-id : (k : ℕ) (h : List Message) (m : Message) → message_of k h ≡ some m → m.id ≡ k
unfolding message_of
message_of-id k [] m e = cc
message_of-id k (x ∷ h) m e = ground (arith, message_of-id k h m)

pub message_of-append :
    (k : ℕ) (h : List Message) (m : Message)
    → message_of k (h ++ m ∷ [])
      ≡ elim (message_of k h) [ some x ↦ some x | none ↦ if k == m.id then some m else none ]
unfolding message_of
message_of-append k [] m = refl
message_of-append k (x ∷ h) m = ground (arith, message_of-append k h m)

pub append-Distinct :
    (h : List Message) (m : Message)
    → Distinct h
    → message_of m.id h ≡ none
    → Distinct (h ++ m ∷ [])
unfolding message_of
append-Distinct [] m d e = (refl, tt)
append-Distinct (x ∷ h) m d e =
    (ground (arith, message_of-append x.id h m), append-Distinct h m d.1 (ground arith))

-- What Pop does to a heap without repeated ids.
pub record Popped (h : List Message) (m : Message) (rest : List Message) : Type 0 where
  pub found : message_of m.id h ≡ some m
  pub others : (k : ℕ) → message_of k rest ≡ (if k == m.id then none else message_of k h)
  pub distinct : Distinct rest
  pub least : NonePrecedes m h
  pub shorter : length h ≡ 1 + length rest

-- What Pop may return.
abbrev pub Pops : List Message → Option (Message × List Message) → Type 0
Pops h none = h ≡ []
Pops h (some (m, rest)) = Popped h m rest

-- A message that goes in front of the heap comes out of it first, or stays there.
Popped-behind :
    (x m : Message) (h rest : List Message)
    → message_of x.id h ≡ none
    → precedes m x ≡ true
    → Popped h m rest
    → Popped (x ∷ h) m (x ∷ rest)
unfolding message_of
Popped-behind x m h rest d before p = record {
  found = ground (arith, p.found);
  others = λ k. ground (arith, p.others k, p.found);
  distinct = (ground (arith, p.others x.id), p.distinct);
  least = λ k y e. ground (arith, p.least k y, precedes_asym m x before);
  shorter = omega (arith, p.shorter);
}

Popped-front :
    (x m : Message) (h rest : List Message)
    → Distinct (x ∷ h)
    → precedes m x ≡ false
    → Popped h m rest
    → Popped (x ∷ h) x h
unfolding message_of
Popped-front x m h rest d after p = record {
  found = ground arith;
  others = λ k. ground (arith, d.0);
  distinct = d.1;
  least = λ k y e. ground (arith, not_precedes_trans y m x, p.least k y, precedes_irrefl x);
  shorter = omega arith;
}

Popped-alone : (x : Message) → Popped (x ∷ []) x []
unfolding message_of
Popped-alone x = record {
  found = ground arith;
  others = λ k. ground arith;
  distinct = tt;
  least = λ k y e. ground (arith, precedes_irrefl x);
  shorter = omega arith;
}

pop_among-Pops :
    (x : Message) (h : List Message) (o : Option (Message × List Message))
    → Distinct (x ∷ h)
    → Pops h o
    → Pops (x ∷ h) (pop_among x h o)
unfolding pop_among
pop_among-Pops x h none d p = rw p (Popped-alone x)
pop_among-Pops x h (some (n, others)) d p = elim (Bool-cases (precedes n x)) [
  | inl before ↦ rw before (Popped-behind x n h others d.0 before p)
  | inr after ↦ rw after (Popped-front x n h others d after p)
]

pub pop_least-Pops : (h : List Message) → Distinct h → Pops h (pop_least h)
unfolding pop_least
pop_least-Pops [] d = refl
pop_least-Pops (x ∷ h) d = pop_among-Pops x h (pop_least h) d (pop_least-Pops h d.1)
