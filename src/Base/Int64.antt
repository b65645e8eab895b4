-- ===== src/Base/Int64.antt =====
-- Go's int64 and uint64, as the 64-bit pattern, a number below 2 ^ 64. The sign is the top bit.
use Prim.Native.Nat.{ℕ, ◌+◌, ◌-◌, ◌%◌, ◌<◌}
use mathlib.Core.Path.{◌≡◌}
use mathlib.Core.Bool.{Bool, ◌&&◌}
use native.Mathlib.Omega.{arith}
use dontguess.Base.Tests.{ltb, leb}

abbrev pub two63 : ℕ
two63 = 9223372036854775808

abbrev pub two64 : ℕ
two64 = 18446744073709551616

-- `a + b`, with wrap-around.
unfoldable pub add64 : ℕ → ℕ → ℕ
add64 a b = (a + b) % two64

-- `a - b`, with wrap-around; `b` is a pattern, so below 2 ^ 64.
unfoldable pub sub64 : ℕ → ℕ → ℕ
sub64 a b = (a + two64 - b) % two64

-- `a < 0`
abbrev pub is_neg : ℕ → Bool
is_neg a = leb two63 a

-- `0 < a`
abbrev pub is_pos : ℕ → Bool
is_pos a = ltb 0 a && ltb a two63

-- `a < b` on signed patterns: the order after the sign bit is flipped.
unfoldable pub slt : ℕ → ℕ → Bool
slt a b = ltb ((a + two63) % two64) ((b + two63) % two64)

pub add64-lt : (a b : ℕ) → add64 a b < two64
unfolding add64
add64-lt a b = omega arith

pub sub64-lt : (a b : ℕ) → sub64 a b < two64
unfolding sub64
sub64-lt a b = omega arith

pub sub64-add64 : (a b : ℕ) → a < two64 → b < two64 → add64 (sub64 a b) b ≡ a
unfolding add64 sub64
sub64-add64 a b h k = omega arith

-- The generation counter moves at every step.
pub add64-one_ne : (a : ℕ) → a < two64 → add64 a 1 ≡ a → ⊥
unfolding add64
add64-one_ne a h e = omega arith

-- Below 2 ^ 63 a sum does not wrap.
pub add64-eq : (a b : ℕ) → a + b < two64 → add64 a b ≡ a + b
unfolding add64
add64-eq a b h = omega arith
