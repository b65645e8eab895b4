-- ===== src/Base/Sums.antt =====
-- Sums of a measure over the values of a map, as the code adds them up: with wrap-around.
use Prim.Native.Nat.{ℕ, ◌<◌}
use mathlib.Core.Path.{◌≡◌}
use mathlib.Core.Option.{Option, none, some}
use mathlib.Core.List.{[], ◌∷◌}
use native.Mathlib.Omega.{arith}
use dontguess.Base.Maps.{Dict, lookup, insert}
use dontguess.Base.Int64.{add64, two64}

module _ {V : Type 0} (measure : V → ℕ) where
  -- An absent value counts as 0.
  abbrev pub measure_of : Option V → ℕ
  measure_of none = 0
  measure_of (some v) = measure v

  unfoldable pub sum_by : Dict V → ℕ
  sum_by [] = 0
  sum_by ((k, v) ∷ d) = add64 (measure v) (sum_by d)

  pub sum_by-lt : (d : Dict V) → sum_by d < two64
  unfolding sum_by add64
  sum_by-lt [] = omega arith
  sum_by-lt ((k, v) ∷ d) = omega arith

  -- A write replaces what the key counted for by what the new value counts for.
  pub sum_by-insert :
      (k : ℕ) (v : V) (d : Dict V)
      → add64 (sum_by (insert k v d)) (measure_of (lookup k d)) ≡ add64 (sum_by d) (measure v)
  unfolding sum_by add64 insert lookup
  sum_by-insert k v [] = omega arith
  sum_by-insert k v ((j, w) ∷ d) = ground (arith, sum_by-insert k v d)
