-- ===== src/Wire/Buffers.antt =====
-- Buffers that are filled in place.
use ads_go.Base.{ℕ, zero, suc, ◌≡◌, refl, ap, [], ◌∷◌, length}
use ads_go.Wire.{Bytes, overwrite, copy_at}

pub length-overwrite : (src buf : Bytes) → length (overwrite src buf) ≡ length buf
length-overwrite [] buf = refl
length-overwrite (s ∷ src) [] = refl
length-overwrite (s ∷ src) (b ∷ buf) = ap suc (length-overwrite src buf)

pub length-copy_at : (off : ℕ) (src buf : Bytes) → length (copy_at off src buf) ≡ length buf
length-copy_at zero src buf = length-overwrite src buf
length-copy_at (suc off) src [] = refl
length-copy_at (suc off) src (b ∷ buf) = ap suc (length-copy_at off src buf)
