-- ===== src/Primitives/Numbers.antt =====
-- Numbers of ads-primitives: what is written is read back, and a read fails on too few bytes only.
use ads_go.Base.{
  ℕ, suc, ◌^◌, ◌≤◌, ◌<◌, ◌≡◌, ap, Bool, true, false, ◌∷◌, ◌++◌, length, ok, err, unexpected_eof,
  primitive_insufficient_data, ◌>>=◌, arith, ltb, take, Bool-cases, ltb→lt, ltb→le, ◌⊎◌, inl, inr,
  le→ltb, length-append,
}
use ads_go.Base.Integer.{ℤ, signed, pattern_of, Fits, signed-pattern_of, pattern_of-lt}
use ads_go.Wire.{Bytes, le_bytes, le_value}
use ads_go.Wire.Numbers.{length-le_bytes}
use ads_go.Wire.Readers.{read_uint-le_bytes, read_uint-take}
use ads_go.Primitives.{
  read_byte, read_le, read_bool, read_int8, read_uint8, read_int16, read_uint16, read_int32,
  read_uint32, read_int64, read_uint64, read_float32, read_float64, write_bool, write_int8,
  write_uint8, write_int16, write_uint16, write_int32, write_uint32, write_int64, write_uint64,
  write_float32, write_float64,
}

read_byte-cons : (b : ℕ) (rest : Bytes) → read_byte (b ∷ rest) ≡ ok b
unfolding read_byte
read_byte-cons b rest = rw (le→ltb (suc (length rest)) 1 (omega arith))

pub read_le-le_bytes :
    (w v : ℕ) (rest : Bytes) → v < 256 ^ w → read_le w (le_bytes w v ++ rest) ≡ ok v
unfolding read_le
read_le-le_bytes w v rest h = rw (enough, read_uint-le_bytes w v unexpected_eof rest h)
  where
    enough : ltb (length (le_bytes w v ++ rest)) w ≡ false
    enough = le→ltb _ w (omega (arith, length-append (le_bytes w v) rest, length-le_bytes w v))

-- Every signed integer that fits its width is read back by the reader of that width, whatever
-- bytes follow it.
pub read-write_signed :
    (a b c d : ℤ) (rest : Bytes)
    → Fits (2 ^ 7) a
    → Fits (2 ^ 15) b
    → Fits (2 ^ 31) c
    → Fits (2 ^ 63) d
    → (read_int8 (write_int8 a ++ rest) ≡ ok a)
      × ((write_int16 b >>= λ s. read_int16 (s ++ rest)) ≡ ok b)
      × ((write_int32 c >>= λ s. read_int32 (s ++ rest)) ≡ ok c)
      × ((write_int64 d >>= λ s. read_int64 (s ++ rest)) ≡ ok d)
unfolding read_int8 write_int8 read_int16 write_int16 read_int32 write_int32 read_int64 write_int64
read-write_signed a b c d rest fa fb fc fd = (
  rw (read_byte-cons (pattern_of (2 ^ 7) a) rest) (ap ok (signed-pattern_of (2 ^ 7) a fa)),
  back 2 (2 ^ 15) b fb (pattern_of-lt (2 ^ 15) b (omega arith)),
  back 4 (2 ^ 31) c fc (pattern_of-lt (2 ^ 31) c (omega arith)),
  back 8 (2 ^ 63) d fd (pattern_of-lt (2 ^ 63) d (omega arith)),
)
  where
    back :
        (w h : ℕ) (z : ℤ)
        → Fits h z
        → pattern_of h z < 256 ^ w
        → (read_le w (le_bytes w (pattern_of h z) ++ rest) >>= λ v. ok (signed h v)) ≡ ok z
    back w h z f small =
        rw (read_le-le_bytes w (pattern_of h z) rest small) (ap ok (signed-pattern_of h z f))

-- So is every Boolean, every unsigned number and every float's bit pattern that fits its width.
pub read-write_unsigned :
    (t : Bool) (a b c d f g : ℕ) (rest : Bytes)
    → b < 2 ^ 16
    → c < 2 ^ 32
    → d < 2 ^ 64
    → f < 2 ^ 32
    → g < 2 ^ 64
    → (read_bool (write_bool t ++ rest) ≡ ok t)
      × (read_uint8 (write_uint8 a ++ rest) ≡ ok a)
      × ((write_uint16 b >>= λ s. read_uint16 (s ++ rest)) ≡ ok b)
      × ((write_uint32 c >>= λ s. read_uint32 (s ++ rest)) ≡ ok c)
      × ((write_uint64 d >>= λ s. read_uint64 (s ++ rest)) ≡ ok d)
      × ((write_float32 f >>= λ s. read_float32 (s ++ rest)) ≡ ok f)
      × ((write_float64 g >>= λ s. read_float64 (s ++ rest)) ≡ ok g)
unfolding read_bool write_bool read_uint8 write_uint8 read_uint16 write_uint16 read_uint32
    write_uint32 read_uint64 write_uint64 read_float32 write_float32 read_float64 write_float64
read-write_unsigned t a b c d f g rest hb hc hd hf hg = (
  bool_back t,
  read_byte-cons a rest,
  read_le-le_bytes 2 b rest hb,
  read_le-le_bytes 4 c rest hc,
  read_le-le_bytes 8 d rest hd,
  read_le-le_bytes 4 f rest hf,
  read_le-le_bytes 8 g rest hg,
)
  where
    bool_back : (t : Bool) → read_bool (write_bool t ++ rest) ≡ ok t
    bool_back true = rw (read_byte-cons 1 rest)
    bool_back false = rw (read_byte-cons 0 rest)

pub read_le_cases :
    (w : ℕ) (bytes : Bytes)
    → ((length bytes < w) × (read_le w bytes ≡ err (primitive_insufficient_data w)))
      ⊎ ((w ≤ length bytes) × (read_le w bytes ≡ ok (le_value (take w bytes))))
unfolding read_le
read_le_cases w bytes = elim (Bool-cases (ltb (length bytes) w)) [
  | inl short ↦ inl (ltb→lt _ _ short, rw short)
  | inr enough ↦
      inr
        (ltb→le _ _ enough, rw (enough, read_uint-take w unexpected_eof bytes (ltb→le _ _ enough)))
]
