-- ===== src/Sequencer/Canonical.antt =====
-- The release order that the code promises: the least of the ready messages first, again and again.
use dontguess.Base.{
  ℕ, ◌≡◌, refl, Bool, true, false, ◌&&◌, some, List, [], ◌∷◌, arith, ◌==◌, ◌||◌, contains, Dict,
  lookup, erase, lookup-erase,
}
use dontguess.Proto.{Message}
use dontguess.Sequencer.Order.{precedes}
use dontguess.Sequencer.Heap.{not_precedes_antisym}

-- Every antecedent has been released.
unfoldable pub all_released : List ℕ → List ℕ → Bool
all_released emitted [] = true
all_released emitted (a ∷ ants) = (a == 0 || contains a emitted) && all_released emitted ants

abbrev pub is_ready : List ℕ → Message → Bool
is_ready emitted m = all_released emitted m.antecedents

-- The messages that a buffer releases, in order: one that is ready and that no other ready one
-- precedes, until none is ready.
pub data Canonical : List ℕ → Dict Message → List Message → Type 0 where
  done :
      {emitted : List ℕ} {buffered : Dict Message}
      → ((k : ℕ) (m : Message) → lookup k buffered ≡ some m → is_ready emitted m ≡ false)
      → Canonical emitted buffered []
  next :
      {emitted : List ℕ} {buffered : Dict Message} (m : Message) {out : List Message}
      → lookup m.id buffered ≡ some m
      → is_ready emitted m ≡ true
      → ((k : ℕ) (n : Message)
          → lookup k buffered ≡ some n
          → is_ready emitted n ≡ true
          → precedes n m ≡ false)
      → Canonical (m.id ∷ emitted) (erase m.id buffered) out
      → Canonical emitted buffered (m ∷ out)

-- Sets that agree release the same.
abbrev pub SameSet : List ℕ → List ℕ → Type 0
SameSet l r = (k : ℕ) → contains k l ≡ contains k r

abbrev pub SameBuffer : Dict Message → Dict Message → Type 0
SameBuffer b c = (k : ℕ) → lookup k b ≡ lookup k c

all_released_same : (l r ants : List ℕ) → SameSet l r → all_released l ants ≡ all_released r ants
unfolding all_released
all_released_same l r [] s = refl
all_released_same l r (a ∷ ants) s = ground (arith, s a, all_released_same l r ants s)

-- The order is a function of what is in the buffer.
pub Canonical_unique :
    {e f : List ℕ} {b c : Dict Message} {out res : List Message}
    → SameSet e f
    → SameBuffer b c
    → Canonical e b out
    → Canonical f c res
    → out ≡ res
unfolding contains
Canonical_unique s t (done stuck) (done _) = refl
Canonical_unique {e} {f} s t (done stuck) (next m at ready least rest) =
    absurd (ground (arith, stuck m.id m, t m.id, all_released_same e f m.antecedents s))
Canonical_unique {e} {f} s t (next m at ready least rest) (done stuck) =
    absurd (ground (arith, stuck m.id m, t m.id, all_released_same e f m.antecedents s))
Canonical_unique {e} {f} {b} {c} s t (next m at ready least rest) (next n at' ready' least' rest') =
    let alike = all_released_same e f m.antecedents s in
    let alike' = all_released_same e f n.antecedents s in
    let low : precedes n m ≡ false = ground (arith, least n.id n, t n.id) in
    let high : precedes m n ≡ false = ground (arith, least' m.id m, t m.id) in
    let named : m.id ≡ n.id = not_precedes_antisym m n high low in
    let same : m ≡ n = ground (arith, t m.id) in
    let tail =
      Canonical_unique (λ k. ground (arith, s k))
        (λ k. ground (arith, t k, lookup-erase k m.id b, lookup-erase k n.id c)) rest rest' in
    cc
