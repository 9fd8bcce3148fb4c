-- ===== src/Primitives/Text.antt =====
-- Strings of ads-primitives: the zero-terminated text in a buffer with or without a fixed length.
use ads_go.Base.{
  ℕ, zero, suc, ◌+◌, ◌<◌, ◌≡◌, refl, ap, [], ◌∷◌, ◌++◌, length, take, ok, arith, All, length-append,
}
use ads_go.Base.Integer.{ℤ, pos, negsuc}
use ads_go.Wire.{Bytes, overwrite, make_bytes}
use ads_go.Wire.Buffers.{length-overwrite}
use ads_go.Primitives.{until_zero, read_string, write_string}
use ads_go.Base.{length-replicate}

abbrev pub IsNonzero : ℕ → Type 0
IsNonzero b = 0 < b

-- What of a text a buffer keeps: all of it, or as much as the fixed length holds.
abbrev pub kept : Bytes → ℤ → Bytes
kept value (negsuc n) = value
kept value (pos zero) = value
kept value (pos (suc n)) = take (suc n) value

pub until_zero-append : (s rest : Bytes) → All IsNonzero s → until_zero (s ++ (0x00 ∷ rest)) ≡ s
until_zero-append [] rest h = refl
until_zero-append (b ∷ s) rest h = ground (arith, until_zero-append s rest h.1)

pub until_zero-zeros : (n : ℕ) → until_zero (make_bytes n) ≡ []
until_zero-zeros zero = refl
until_zero-zeros (suc n) = refl

pub until_zero-overwrite :
    (n : ℕ) (s : Bytes) → All IsNonzero s → until_zero (overwrite s (make_bytes n)) ≡ take n s
until_zero-overwrite zero [] h = refl
until_zero-overwrite (suc n) [] h = refl
until_zero-overwrite zero (b ∷ s) h = refl
until_zero-overwrite (suc n) (b ∷ s) h = ground (arith, until_zero-overwrite n s h.1)

pub read_string-until_zero : (bytes : Bytes) → read_string bytes ≡ ok (until_zero bytes)
unfolding read_string
read_string-until_zero [] = refl
read_string-until_zero (b ∷ bytes) = refl

-- A text without zero bytes is read back from its buffer: whole where the length is not fixed, and
-- cut to the fixed length otherwise.
pub read_string-write_string :
    (value : Bytes) (max_length : ℤ)
    → All IsNonzero value
    → read_string (write_string value max_length) ≡ ok (kept value max_length)
unfolding write_string
read_string-write_string value (negsuc n) h =
    rw (read_string-until_zero, until_zero-append value [] h)
read_string-write_string value (pos zero) h =
    rw (read_string-until_zero, until_zero-append value [] h)
read_string-write_string value (pos (suc n)) h =
    rw read_string-until_zero (ap ok (until_zero-overwrite (suc n) value h))

-- A buffer of a fixed length has exactly that length, and one without it a byte more than the text.
pub length-write_string :
    (value : Bytes) (n : ℕ)
    → (length (write_string value (pos (suc n))) ≡ suc n)
      × (length (write_string value (pos 0)) ≡ length value + 1)
      × (length (write_string value (negsuc n)) ≡ length value + 1)
unfolding write_string
length-write_string value n = (
  omega (arith, length-overwrite value (make_bytes (suc n)), length-replicate {A = ℕ} (suc n) 0),
  length-append value (0x00 ∷ []),
  length-append value (0x00 ∷ []),
)
