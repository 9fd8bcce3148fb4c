-- ===== src/NetId/Decimal.antt =====
-- The decimal text of a byte, by a table of the 256 values.
use ads_go.Base.{
  ℕ, ◌<◌, ◌≡◌, refl, Bool, true, false, ◌&&◌, [], ◌∷◌, Option, none, some, arith, holds_below,
  holds_below-lt, ◌==◌, not, All,
}
use ads_go.Base.Integer.{ℤ, pos, negsuc}
use ads_go.Wire.{Bytes}
use ads_go.NetId.{atoi, decimal}

abbrev is_value : ℕ → Option ℤ → Bool
is_value b none = false
is_value b (some (pos n)) = n == b
is_value b (some (negsuc n)) = false

is_value_sound : (b : ℕ) (o : Option ℤ) → is_value b o ≡ true → o ≡ some (pos b)
is_value_sound b none h = cc
is_value_sound b (some (pos n)) h = ground arith
is_value_sound b (some (negsuc n)) h = cc

abbrev no_dot : Bytes → Bool
no_dot [] = true
no_dot (c ∷ s) = not (c == b'.') && no_dot s

pub atoi-decimal : (b : ℕ) → b < 256 → atoi (decimal b) ≡ some (pos b)
atoi-decimal b h = is_value_sound b (atoi (decimal b)) (holds_below-lt _ 256 b h table)
  where
    table : holds_below (λ b. is_value b (atoi (decimal b))) 256 ≡ true
    table = unfold holds_below atoi decimal in refl

abbrev pub IsNotDot : ℕ → Type 0
IsNotDot c = (c == b'.') ≡ false

no_dot_sound : (s : Bytes) → no_dot s ≡ true → All IsNotDot s
no_dot_sound [] h = tt
no_dot_sound (c ∷ s) h = (ground arith, no_dot_sound s (ground arith))

pub decimal-IsNotDot : (b : ℕ) → b < 256 → All IsNotDot (decimal b)
decimal-IsNotDot b h = no_dot_sound (decimal b) (holds_below-lt _ 256 b h table)
  where
    table : holds_below (λ b. no_dot (decimal b)) 256 ≡ true
    table = unfold holds_below decimal in refl
