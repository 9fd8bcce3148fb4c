-- ===== src/Base/Integer.antt =====
-- Go's signed integers over the native numbers, and their two's complement patterns of w bits.
use Prim.Native.Nat.{ℕ, ◌-◌, ◌*◌, ◌%◌, ◌<◌}
use mathlib.Core.Path.{◌≡◌}
use native.Mathlib.Omega.{arith}
use native.Mathlib.Nat.{mod-eq_of_lt}
use ads_go.Base.Tests.{ltb, if◌then◌else◌}

-- `negsuc n` is -(n + 1).
pub data ℤ : Type 0 where
  pos : ℕ → ℤ
  negsuc : ℕ → ℤ

-- The integer that a pattern below 2 * half stands for, and the pattern of an integer.
abbrev pub signed : ℕ → ℕ → ℤ
signed half v = if ltb v half then pos v else negsuc (2 * half - v - 1)

abbrev pub pattern_of : ℕ → ℤ → ℕ
pattern_of half (pos n) = n % (2 * half)
pattern_of half (negsuc n) = 2 * half - 1 - n % (2 * half)

-- -half ≤ z < half.
abbrev pub Fits : ℕ → ℤ → Type 0
Fits half (pos n) = n < half
Fits half (negsuc n) = n < half

pub signed-pattern_of : (h : ℕ) (z : ℤ) → Fits h z → signed h (pattern_of h z) ≡ z
signed-pattern_of h (pos n) f = let e : n % (2 * h) ≡ n = mod-eq_of_lt (omega arith) in ground arith
signed-pattern_of h (negsuc n) f =
    let e : n % (2 * h) ≡ n = mod-eq_of_lt (omega arith) in ground arith

pub pattern_of-lt : (h : ℕ) (z : ℤ) → 0 < h → pattern_of h z < 2 * h
pattern_of-lt h (pos n) k = grind arith
pattern_of-lt h (negsuc n) k = omega arith
