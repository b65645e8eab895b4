-- ===== src/Sequencer/Order.antt =====
-- pkg/exchange/sequencer.go: the release order (messageHeap.Less), and the heap of container/heap that
-- it orders.
use dontguess.Base.{
  ℕ, Bool, true, false, Option, none, some, List, [], ◌∷◌, ltb, ◌==◌, if◌then◌else◌,
}
use dontguess.Base.Int64.{slt}
use dontguess.Proto.{Message}

-- The earlier timestamp, then the smaller id. Of two timestamps that differ one is the earlier. An id is
-- the number that its digits spell, so that ids compare as their texts do.
unfoldable pub precedes : Message → Message → Bool
precedes m n =
    if slt m.timestamp n.timestamp
    then true
    else (if slt n.timestamp m.timestamp then false else ltb m.id n.id)

-- Pop of the heap: the least message, and the others.
unfoldable pub pop_among :
    Message → List Message → Option (Message × List Message) → Option (Message × List Message)
pop_among m h none = some (m, h)
pop_among m h (some (n, rest)) = if precedes n m then some (n, m ∷ rest) else some (m, h)

unfoldable pub pop_least : List Message → Option (Message × List Message)
pop_least [] = none
pop_least (m ∷ h) = pop_among m h (pop_least h)

-- The message of an id.
unfoldable pub message_of : ℕ → List Message → Option Message
message_of k [] = none
message_of k (m ∷ h) = if k == m.id then some m else message_of k h
