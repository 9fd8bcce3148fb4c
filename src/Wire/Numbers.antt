-- ===== src/Wire/Numbers.antt =====
-- Little-endian numbers: encode and decode are inverse, in range.
use ads_go.Base.{
  ℕ, zero, suc, ◌+◌, ◌*◌, ◌/◌, ◌%◌, ◌^◌, ◌<◌, ◌≡◌, refl, ap, ap₂, ◌∙◌, [], ◌∷◌, length, All, arith,
}
use ads_go.Wire.{IsByte, Bytes, le_bytes, le_value}
use native.Mathlib.Nat.{pow-suc}

pow256 : (w : ℕ) → 256 ^ suc w ≡ 256 * 256 ^ w
pow256 w = omega (arith, pow-suc 256 w)

pub length-le_bytes : (w v : ℕ) → length (le_bytes w v) ≡ w
length-le_bytes zero v = refl
length-le_bytes (suc w) v = ap suc (length-le_bytes w (v / 256))

pub le_bytes-IsByte : (w v : ℕ) → All IsByte (le_bytes w v)
le_bytes-IsByte zero v = tt
le_bytes-IsByte (suc w) v = (omega arith, le_bytes-IsByte w (v / 256))

pub le_value-le_bytes : (w v : ℕ) → v < 256 ^ w → le_value (le_bytes w v) ≡ v
le_value-le_bytes zero v h = omega arith
le_value-le_bytes (suc w) v h =
    omega (arith, pow256 w, le_value-le_bytes w (v / 256) (omega (arith, pow256 w)))

pub le_value-lt : (bs : Bytes) → All IsByte bs → le_value bs < 256 ^ length bs
le_value-lt [] h = omega arith
le_value-lt (b ∷ bs) h = omega (arith, h.0, pow256 (length bs), le_value-lt bs h.1)

pub le_bytes-le_value : (bs : Bytes) → All IsByte bs → le_bytes (length bs) (le_value bs) ≡ bs
le_bytes-le_value [] h = refl
le_bytes-le_value (b ∷ bs) h =
    ap₂ ◌∷◌ low (ap (le_bytes (length bs)) high ∙ le_bytes-le_value bs h.1)
  where
    low : (b + 256 * le_value bs) % 256 ≡ b
    low = omega (arith, h.0)

    high : (b + 256 * le_value bs) / 256 ≡ le_value bs
    high = omega (arith, h.0)
