-- ===== src/Serializer/Scalars.antt =====
-- pkg/ads/ads-serializer: a scalar's bytes, and the scalar read back from among others.
use ads_go.Base.{
  ℕ, zero, suc, ◌^◌, ◌<◌, ◌≡◌, refl, ap, ◌∙◌, Bool, true, false, List, [], ◌∷◌, ◌++◌, length, All,
  ok, arith, slice_from, length-replicate,
}
use ads_go.Base.Integer.{pos, pattern_of}
use ads_go.Wire.{Bytes, le_bytes, overwrite, make_bytes}
use ads_go.Wire.Buffers.{length-overwrite}
use ads_go.Primitives.{
  read_string, write_bool, write_int8, write_uint8, write_int16, write_uint16, write_int32,
  write_uint32, write_int64, write_uint64, write_float32, write_float64, write_string, until_zero,
}
use ads_go.Primitives.Numbers.{read-write_signed, read-write_unsigned}
use ads_go.Primitives.Text.{IsNonzero, read_string-until_zero}
use ads_go.AdsTypes.{AdsTypeFields}
use ads_go.Serializer.Value.{
  Value, bool, int8, int16, int32, int64, uint8, uint16, uint32, uint64, float32, float64,
}
use ads_go.Serializer.Convert.{
  FloatConversions, to_int8, to_uint8, to_int16, to_uint16, to_int32, to_uint32, to_int64,
  to_uint64, to_float32, to_float64,
}
use ads_go.Serializer.Write.{serialize_primitive, serialize_bit, or_default}
use ads_go.Serializer.Read.{deserialize_primitive, tagged}
use ads_go.Serializer.Typed.{
  IsScalar, of_bit, of_int8, of_uint8, of_int16, of_uint16, of_int32, of_uint32, of_int64,
  of_uint64, of_real32, of_real64, of_string, scalar_width,
}

pub slice_from-append : (o : ℕ) (p xs : Bytes) → length p ≡ o → slice_from o (p ++ xs) ≡ ok xs
slice_from-append zero [] xs h = refl
slice_from-append zero (b ∷ p) xs h = absurd (omega arith)
slice_from-append (suc o) [] xs h = absurd (omega arith)
slice_from-append (suc o) (b ∷ p) xs h = slice_from-append o p xs (omega arith)

length-write_bool : (b : Bool) → length (write_bool b) ≡ 1
unfolding write_bool
length-write_bool true = refl
length-write_bool false = refl

or_default_positive : (size : ℕ) → 0 < or_default size 80
or_default_positive zero = omega arith
or_default_positive (suc n) = grind arith

-- A text in a buffer, and what follows the buffer.
length-write_text : (s : Bytes) (n : ℕ) → 0 < n → length (write_string s (pos n)) ≡ n
unfolding write_string
length-write_text s zero h = absurd (omega arith)
length-write_text s (suc n) h =
    length-overwrite s (make_bytes (suc n)) ∙ length-replicate {A = ℕ} (suc n) 0

until_zero_over :
    (s : Bytes) (n : ℕ) (rest : Bytes)
    → All IsNonzero s
    → length s < n
    → until_zero (overwrite s (make_bytes n) ++ rest) ≡ s
until_zero_over s zero rest h l = absurd (omega arith)
until_zero_over [] (suc n) rest h l = refl
until_zero_over (b ∷ s) (suc n) rest h l =
    ground (arith, until_zero_over s n rest h.1 (omega arith), h.0)

read-write_text :
    (s : Bytes) (n : ℕ) (rest : Bytes)
    → All IsNonzero s
    → length s < n
    → read_string (write_string s (pos n) ++ rest) ≡ ok s
unfolding write_string
read-write_text s zero rest h l = absurd (omega arith)
read-write_text s (suc n) rest h l =
    rw (read_string-until_zero, until_zero_over s (suc n) rest h l) refl

module _ (floats : FloatConversions) (to_runes : Bytes → List ℕ) where
  -- The bytes of a scalar, as many as its type takes, from which it is read back at its offset.
  abbrev pub ScalarCodes : AdsTypeFields → Value → Type 0
  ScalarCodes t v =
      (b : Bytes) × (serialize_primitive floats to_runes t v ≡ ok b)
      × (length b ≡ scalar_width t.data_type t.size)
      × ((p rest : Bytes) → length p ≡ t.offset → deserialize_primitive t (p ++ (b ++ rest)) ≡ ok v)

  pub scalar_codes : (t : AdsTypeFields) {v : Value} → IsScalar t v → ScalarCodes t v
  unfolding serialize_primitive deserialize_primitive serialize_bit to_int8 to_uint8 to_int16
      to_uint16 to_int32 to_uint32 to_int64 to_uint64 to_float32 to_float64 write_int8 write_uint8
      write_int16 write_uint16 write_int32 write_uint32 write_int64 write_uint64 write_float32
      write_float64
  scalar_codes t (of_bit b e) = (
    write_bool b,
    rw e refl,
    rw e (length-write_bool b),
    λ p rest l.
        rw (slice_from-append t.offset p (write_bool b ++ rest) l, e)
          (ap (tagged bool)
            (read-write_unsigned b 0 0 0 0 0 0 rest (omega arith) (omega arith) (omega arith)
              (omega arith) (omega arith)).0),
  )
  scalar_codes t (of_int8 z e f) = (
    write_int8 z,
    rw e refl,
    rw e (refl),
    λ p rest l.
        rw (slice_from-append t.offset p (write_int8 z ++ rest) l, e)
          (ap (tagged int8)
            (read-write_signed z (pos 0) (pos 0) (pos 0) rest f (omega arith) (omega arith)
              (omega arith)).0),
  )
  scalar_codes t (of_uint8 n e) = (
    write_uint8 n,
    rw e refl,
    rw e (refl),
    λ p rest l.
        rw (slice_from-append t.offset p (write_uint8 n ++ rest) l, e)
          (ap (tagged uint8)
            (read-write_unsigned true n 0 0 0 0 0 rest (omega arith) (omega arith) (omega arith)
              (omega arith) (omega arith)).1),
  )
  scalar_codes t (of_int16 z e f) = (
    le_bytes 2 (pattern_of (2 ^ 15) z),
    rw e refl,
    rw e (refl),
    λ p rest l.
        rw (slice_from-append t.offset p (le_bytes 2 (pattern_of (2 ^ 15) z) ++ rest) l, e)
          (ap (tagged int16)
            (read-write_signed (pos 0) z (pos 0) (pos 0) rest (omega arith) f (omega arith)
              (omega arith)).1),
  )
  scalar_codes t (of_uint16 n e f) = (
    le_bytes 2 n,
    rw e refl,
    rw e (refl),
    λ p rest l.
        rw (slice_from-append t.offset p (le_bytes 2 n ++ rest) l, e)
          (ap (tagged uint16)
            (read-write_unsigned true 0 n 0 0 0 0 rest f (omega arith) (omega arith) (omega arith)
              (omega arith)).2),
  )
  scalar_codes t (of_int32 z e f) = (
    le_bytes 4 (pattern_of (2 ^ 31) z),
    rw e refl,
    rw e (refl),
    λ p rest l.
        rw (slice_from-append t.offset p (le_bytes 4 (pattern_of (2 ^ 31) z) ++ rest) l, e)
          (ap (tagged int32)
            (read-write_signed (pos 0) (pos 0) z (pos 0) rest (omega arith) (omega arith) f
              (omega arith)).2),
  )
  scalar_codes t (of_uint32 n e f) = (
    le_bytes 4 n,
    rw e refl,
    rw e (refl),
    λ p rest l.
        rw (slice_from-append t.offset p (le_bytes 4 n ++ rest) l, e)
          (ap (tagged uint32)
            (read-write_unsigned true 0 0 n 0 0 0 rest (omega arith) f (omega arith) (omega arith)
              (omega arith)).3),
  )
  scalar_codes t (of_int64 z e f) = (
    le_bytes 8 (pattern_of (2 ^ 63) z),
    rw e refl,
    rw e (refl),
    λ p rest l.
        rw (slice_from-append t.offset p (le_bytes 8 (pattern_of (2 ^ 63) z) ++ rest) l, e)
          (ap (tagged int64)
            (read-write_signed (pos 0) (pos 0) (pos 0) z rest (omega arith) (omega arith)
              (omega arith) f).3),
  )
  scalar_codes t (of_uint64 n e f) = (
    le_bytes 8 n,
    rw e refl,
    rw e (refl),
    λ p rest l.
        rw (slice_from-append t.offset p (le_bytes 8 n ++ rest) l, e)
          (ap (tagged uint64)
            (read-write_unsigned true 0 0 0 n 0 0 rest (omega arith) (omega arith) f (omega arith)
              (omega arith)).4),
  )
  scalar_codes t (of_real32 n e f) = (
    le_bytes 4 n,
    rw e refl,
    rw e (refl),
    λ p rest l.
        rw (slice_from-append t.offset p (le_bytes 4 n ++ rest) l, e)
          (ap (tagged float32)
            (read-write_unsigned true 0 0 0 0 n 0 rest (omega arith) (omega arith) (omega arith) f
              (omega arith)).5),
  )
  scalar_codes t (of_real64 n e f) = (
    le_bytes 8 n,
    rw e refl,
    rw e (refl),
    λ p rest l.
        rw (slice_from-append t.offset p (le_bytes 8 n ++ rest) l, e)
          (ap (tagged float64)
            (read-write_unsigned true 0 0 0 0 0 n rest (omega arith) (omega arith) (omega arith)
              (omega arith) f).6),
  )
  scalar_codes t (of_string s e nonzero fits) = (
    write_string s (pos (or_default t.size 80)),
    rw e refl,
    rw e (length-write_text s (or_default t.size 80) (or_default_positive t.size)),
    λ p rest l.
        rw
          (
            slice_from-append t.offset p (write_string s (pos (or_default t.size 80)) ++ rest) l,
            e,
            read-write_text s (or_default t.size 80) rest nonzero fits,
          )
          refl,
  )
