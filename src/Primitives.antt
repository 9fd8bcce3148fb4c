-- ===== src/Primitives.antt =====
-- pkg/ads/ads-primitives: read.go and write.go. A signed value is an integer, a float is its IEEE
-- 754 bit pattern, and a Go string is its bytes.
pub mod Numbers
pub mod Text
use ads_go.Base.{
  ℕ, zero, suc, ◌+◌, ◌^◌, Bool, true, false, not, List, [], ◌∷◌, ◌++◌, length, Result, ok, err,
  panic, Error, unexpected_eof, primitive_insufficient_data, ◌>>=◌, ◌>>◌, fail_if, index, ltb, ◌==◌,
  if◌then◌else◌, ◌%◌,
}
use ads_go.Base.Integer.{ℤ, pos, negsuc, signed, pattern_of}
use ads_go.Wire.{Bytes, le_bytes, le_value, read_uint, make_bytes, overwrite}

-- The guard and the first byte; the guard and a little-endian number of w bytes.
unfoldable pub read_byte : Bytes → Result ℕ
read_byte bytes = do fail_if (ltb (length bytes) 1) (primitive_insufficient_data 1); index 0 bytes

unfoldable pub read_le : ℕ → Bytes → Result ℕ
read_le w bytes = do
  fail_if (ltb (length bytes) w) (primitive_insufficient_data w)
  (value, rest) ← read_uint w unexpected_eof bytes
  ok value

unfoldable pub read_bool : Bytes → Result Bool
read_bool bytes = read_byte bytes >>= λ b. ok (not (b == 0))

unfoldable pub read_int8 : Bytes → Result ℤ
read_int8 bytes = read_byte bytes >>= λ b. ok (signed (2 ^ 7) b)

unfoldable pub read_uint8 : Bytes → Result ℕ
read_uint8 bytes = read_byte bytes

unfoldable pub read_int16 : Bytes → Result ℤ
read_int16 bytes = read_le 2 bytes >>= λ v. ok (signed (2 ^ 15) v)

unfoldable pub read_uint16 : Bytes → Result ℕ
read_uint16 bytes = read_le 2 bytes

unfoldable pub read_int32 : Bytes → Result ℤ
read_int32 bytes = read_le 4 bytes >>= λ v. ok (signed (2 ^ 31) v)

unfoldable pub read_uint32 : Bytes → Result ℕ
read_uint32 bytes = read_le 4 bytes

unfoldable pub read_int64 : Bytes → Result ℤ
read_int64 bytes = read_le 8 bytes >>= λ v. ok (signed (2 ^ 63) v)

unfoldable pub read_uint64 : Bytes → Result ℕ
read_uint64 bytes = read_le 8 bytes

unfoldable pub read_float32 : Bytes → Result ℕ
read_float32 bytes = read_le 4 bytes

unfoldable pub read_float64 : Bytes → Result ℕ
read_float64 bytes = read_le 8 bytes

-- The bytes in front of the first zero, or all of them.
abbrev pub until_zero : Bytes → Bytes
until_zero [] = []
until_zero (b ∷ bytes) = if b == 0 then [] else b ∷ until_zero bytes

unfoldable pub read_string : Bytes → Result Bytes
read_string [] = ok []
read_string (b ∷ bytes) = ok (until_zero (b ∷ bytes))

unfoldable pub write_bool : Bool → Bytes
write_bool value = if value then 0x01 ∷ [] else 0x00 ∷ []

unfoldable pub write_int8 : ℤ → Bytes
write_int8 value = pattern_of (2 ^ 7) value ∷ []

unfoldable pub write_uint8 : ℕ → Bytes
write_uint8 value = value ∷ []

-- `binary.Write` into a bytes.Buffer of a fixed-size value never fails.
unfoldable pub write_int16 : ℤ → Result Bytes
write_int16 value = ok (le_bytes 2 (pattern_of (2 ^ 15) value))

unfoldable pub write_uint16 : ℕ → Result Bytes
write_uint16 value = ok (le_bytes 2 value)

unfoldable pub write_int32 : ℤ → Result Bytes
write_int32 value = ok (le_bytes 4 (pattern_of (2 ^ 31) value))

unfoldable pub write_uint32 : ℕ → Result Bytes
write_uint32 value = ok (le_bytes 4 value)

unfoldable pub write_int64 : ℤ → Result Bytes
write_int64 value = ok (le_bytes 8 (pattern_of (2 ^ 63) value))

unfoldable pub write_uint64 : ℕ → Result Bytes
write_uint64 value = ok (le_bytes 8 value)

unfoldable pub write_float32 : ℕ → Result Bytes
write_float32 value = ok (le_bytes 4 value)

unfoldable pub write_float64 : ℕ → Result Bytes
write_float64 value = ok (le_bytes 8 value)

-- With no limit the text and a terminator; with one exactly that many bytes.
unfoldable pub write_string : Bytes → ℤ → Bytes
write_string value (negsuc n) = value ++ (0x00 ∷ [])
write_string value (pos zero) = value ++ (0x00 ∷ [])
write_string value (pos (suc n)) = overwrite value (make_bytes (suc n))
