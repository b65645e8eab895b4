-- ===== src/Sequencer/Graph.antt =====
-- The causal graph that Drain builds of the buffer: what it holds for each id.
use dontguess.Base.{
  ℕ, ◌≡◌, refl, Bool, false, ◌&&◌, Option, none, some, List, [], ◌∷◌, ◌++◌, inl, inr, arith, ◌==◌,
  ◌||◌, if◌then◌else◌, Bool-cases, length, contains, contains-append, Dict, lookup, insert,
  lookup-insert,
}
use dontguess.Proto.{Message}
use dontguess.Sequencer.Order.{message_of}
use dontguess.Sequencer.Heap.{Distinct, message_of-append, append-Distinct}
use dontguess.Sequencer.Awaited.{Unique, awaited-Unique}
use dontguess.Sequencer.Drain.{awaited, Graph, dependents_on, add_dependent, add_node, graph_of}

-- Each message of the buffer stands under its id, once.
abbrev pub Indexed : Dict Message → Type 0
Indexed [] = Unit
Indexed ((k, m) ∷ buffered) = (lookup k buffered ≡ none) × (m.id ≡ k) × Indexed buffered

-- The ids of a buffer, the oldest first.
abbrev pub keys : Dict Message → List ℕ
keys [] = []
keys ((k, m) ∷ d) = k ∷ keys d

-- A buffered message that waits for nothing, or none.
abbrev pub ready_entry : List ℕ → Option Message → Option Message
ready_entry emitted none = none
ready_entry emitted (some m) = if length (awaited emitted m) == 0 then some m else none

-- Does a buffered message wait for a?
abbrev pub awaits : ℕ → List ℕ → Option Message → Bool
awaits a emitted none = false
awaits a emitted (some m) = contains a (awaited emitted m)

abbrev pub waiting_count : List ℕ → Option Message → Option ℕ → Option ℕ
waiting_count emitted none o = o
waiting_count emitted (some m) o = some (length (awaited emitted m))

abbrev pub or_entry : Option Message → Option Message → Option Message
or_entry none o = o
or_entry (some m) o = some m

pub Indexed-id :
    (k : ℕ) (m : Message) (buffered : Dict Message)
    → Indexed buffered
    → lookup k buffered ≡ some m
    → m.id ≡ k
unfolding lookup
Indexed-id k m [] i e = cc
Indexed-id k m ((j, n) ∷ buffered) i e = ground (arith, Indexed-id k m buffered i.2)

pub lookup-graph_of :
    (k : ℕ) (emitted : List ℕ) (buffered : Dict Message) (g : Graph)
    → Indexed buffered
    → lookup k (graph_of emitted buffered g).pending
      ≡ waiting_count emitted (lookup k buffered) (lookup k g.pending)
unfolding graph_of add_node lookup
lookup-graph_of k emitted [] g i = refl
lookup-graph_of k emitted ((j, m) ∷ buffered) g i =
    let n = length (awaited emitted m) in
    ground (
      arith,
      lookup-graph_of k emitted buffered (add_node emitted j m g) i.2,
      lookup-insert k j n g.pending,
      i.0,
    )

pub message_of-graph_of :
    (k : ℕ) (emitted : List ℕ) (buffered : Dict Message) (g : Graph)
    → Indexed buffered
    → message_of k (graph_of emitted buffered g).heap
      ≡ or_entry (message_of k g.heap) (ready_entry emitted (lookup k buffered))
unfolding graph_of add_node lookup
message_of-graph_of k emitted [] g i = ground arith
message_of-graph_of k emitted ((j, m) ∷ buffered) g i = ground (
  arith,
  message_of-graph_of k emitted buffered (add_node emitted j m g) i.2,
  message_of-append k g.heap m,
  i.0,
  i.1,
)

pub graph_of-Distinct :
    (emitted : List ℕ) (buffered : Dict Message) (g : Graph)
    → Indexed buffered
    → Distinct g.heap
    → ((k : ℕ) (m : Message) → lookup k buffered ≡ some m → message_of k g.heap ≡ none)
    → Distinct (graph_of emitted buffered g).heap
unfolding graph_of add_node lookup
graph_of-Distinct emitted [] g i d f = d
graph_of-Distinct emitted ((j, m) ∷ buffered) g i d f =
    graph_of-Distinct emitted buffered (add_node emitted j m g) i.2
      (ground (arith, append-Distinct g.heap m d (f m.id m (ground arith))))
      λ k n e. ground (arith, f k n, message_of-append k g.heap m, i.0, i.1)

dependents_on-add_dependent :
    (a k : ℕ) (ants : List ℕ) (d : Dict (List ℕ))
    → Unique ants
    → dependents_on a (add_dependent k ants d)
      ≡ (if contains a ants then dependents_on a d ++ k ∷ [] else dependents_on a d)
unfolding add_dependent contains dependents_on
dependents_on-add_dependent a k [] d u = refl
dependents_on-add_dependent a k (b ∷ ants) d u = ground (
  arith,
  dependents_on-add_dependent a k ants (insert b (dependents_on b d ++ k ∷ []) d) u.1,
  lookup-insert a b (dependents_on b d ++ k ∷ []) d,
)

dependents_on-add_node :
    (a k j : ℕ) (emitted : List ℕ) (m : Message) (g : Graph)
    → contains k (dependents_on a (add_node emitted j m g).dependents)
      ≡ (contains k (dependents_on a g.dependents) || (k == j && contains a (awaited emitted m)))
unfolding add_node contains
dependents_on-add_node a k j emitted m g = ground (
  arith,
  dependents_on-add_dependent a j (awaited emitted m) g.dependents (awaited-Unique emitted m),
  contains-append k (dependents_on a g.dependents) (j ∷ []),
)

pub dependents_on-graph_of :
    (a k : ℕ) (emitted : List ℕ) (buffered : Dict Message) (g : Graph)
    → Indexed buffered
    → contains k (dependents_on a (graph_of emitted buffered g).dependents)
      ≡ (contains k (dependents_on a g.dependents) || awaits a emitted (lookup k buffered))
unfolding graph_of lookup
dependents_on-graph_of a k emitted [] g i = ground arith
dependents_on-graph_of a k emitted ((j, m) ∷ buffered) g i =
    let later = dependents_on-graph_of a k emitted buffered (add_node emitted j m g) i.2 in
    let here = dependents_on-add_node a k j emitted m g in
    elim (Bool-cases (k == j)) [
      | inl same ↦
          let gone : lookup k buffered ≡ none = ground (arith, i.0) in
          let shut : awaits a emitted (lookup k buffered) ≡ false = rw gone refl in
          rw (same, graph_of) (ground (arith, later, here, shut))
      | inr other ↦ rw (other, graph_of) (ground (arith, later, here, other))
    ]

append-Unique : (l : List ℕ) (k : ℕ) → Unique l → contains k l ≡ false → Unique (l ++ k ∷ [])
unfolding contains
append-Unique [] k u h = (refl, tt)
append-Unique (j ∷ l) k u h =
    (ground (arith, contains-append j l (k ∷ [])), append-Unique l k u.1 (ground arith))

pub graph_of-Unique :
    (a : ℕ) (emitted : List ℕ) (buffered : Dict Message) (g : Graph)
    → Indexed buffered
    → Unique (dependents_on a g.dependents)
    → ((k : ℕ) (m : Message)
        → lookup k buffered ≡ some m
        → contains k (dependents_on a g.dependents) ≡ false)
    → Unique (dependents_on a (graph_of emitted buffered g).dependents)
unfolding graph_of add_node lookup
graph_of-Unique a emitted [] g i u f = u
graph_of-Unique a emitted ((j, m) ∷ buffered) g i u f =
    graph_of-Unique a emitted buffered (add_node emitted j m g) i.2 kept
      λ k n e. ground (arith, f k n, dependents_on-add_node a k j emitted m g, i.0)
  where
    kept : Unique (dependents_on a (add_node emitted j m g).dependents)
    kept = ground (
      arith,
      dependents_on-add_dependent a j (awaited emitted m) g.dependents (awaited-Unique emitted m),
      append-Unique (dependents_on a g.dependents) j u (f j m (ground arith)),
    )
