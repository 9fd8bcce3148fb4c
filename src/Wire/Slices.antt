-- ===== src/Wire/Slices.antt =====
-- Slices and single bytes at fixed places of a long enough slice.
use ads_go.Base.{
  ℕ, zero, suc, ◌-◌, ◌≤◌, ◌<◌, ◌≡◌, refl, length, take, drop, ok, arith, le→ltb, slice,
  slice_to-take, slice_from-drop, length-drop, index, [], ◌∷◌,
}
use ads_go.Wire.{Bytes, uint_at, le_value}

-- A field at fixed places of a long enough slice.
pub slice-take-drop :
    (lo hi : ℕ) (bs : Bytes)
    → lo ≤ hi
    → hi ≤ length bs
    → slice lo hi bs ≡ ok (take (hi - lo) (drop lo bs))
unfolding slice
slice-take-drop lo hi bs h k =
    rw (le→ltb hi lo h, slice_from-drop lo bs (omega arith))
      (slice_to-take (hi - lo) (drop lo bs) (omega (arith, length-drop lo bs)))

pub uint_at-take-drop :
    (lo hi : ℕ) (bs : Bytes)
    → lo ≤ hi
    → hi ≤ length bs
    → uint_at lo hi bs ≡ ok (le_value (take (hi - lo) (drop lo bs)))
uint_at-take-drop lo hi bs h k = rw (slice-take-drop lo hi bs h k)

-- The byte at a place, 0 past the end.
abbrev pub byte_at : ℕ → Bytes → ℕ
byte_at i [] = 0
byte_at zero (b ∷ bs) = b
byte_at (suc i) (b ∷ bs) = byte_at i bs

pub index-byte_at : (i : ℕ) (bs : Bytes) → i < length bs → index i bs ≡ ok (byte_at i bs)
index-byte_at i [] h = absurd (omega arith)
index-byte_at zero (b ∷ bs) h = refl
index-byte_at (suc i) (b ∷ bs) h = index-byte_at i bs (omega arith)
