-- ===== src/Serializer/Convert.antt =====
-- pkg/ads/ads-serializer/convert.go: conversions into the Go type of an ADS type, range checked.
use ads_go.Base.{ℕ, ◌^◌, Bool, Option, none, some, ltb, if◌then◌else◌}
use ads_go.Base.Integer.{ℤ, pos, negsuc}
use ads_go.Serializer.Value.{
  Value, Values, nil, bool, int, int8, int16, int32, int64, uint8, uint16, uint32, uint64, float32,
  float64, string, slice, typed_slice, map, other, no_values, value,
}

-- Go's own conversions between floats and from an int, on bit patterns.
pub record FloatConversions : Type 0 where
  pub narrow : ℕ → ℕ
  pub widen : ℕ → ℕ
  pub int_to_float32 : ℤ → ℕ
  pub int_to_float64 : ℤ → ℕ

-- `if v >= -half && v <= half-1 { return v, true }`, and `if v >= 0 && v <= bound-1`.
abbrev pub in_signed : ℕ → ℤ → Option ℤ
in_signed half (pos n) = if ltb n half then some (pos n) else none
in_signed half (negsuc n) = if ltb n half then some (negsuc n) else none

abbrev pub in_unsigned : ℕ → ℤ → Option ℕ
in_unsigned bound (pos n) = if ltb n bound then some n else none
in_unsigned bound (negsuc n) = none

abbrev pub below : ℕ → ℕ → Option ℕ
below bound n = if ltb n bound then some n else none

abbrev pub bit : Bool → ℕ
bit b = if b then 1 else 0

unfoldable pub to_int8 : Value → Option ℤ
to_int8 (bool b) = some (pos (bit b))
to_int8 (int8 v) = some v
to_int8 (int v) = in_signed (2 ^ 7) v
to_int8 (int16 v) = in_signed (2 ^ 7) v
to_int8 (int32 v) = in_signed (2 ^ 7) v
to_int8 (int64 v) = in_signed (2 ^ 7) v
to_int8 _ = none

unfoldable pub to_uint8 : Value → Option ℕ
to_uint8 (bool b) = some (bit b)
to_uint8 (uint8 v) = some v
to_uint8 (int v) = in_unsigned (2 ^ 8) v
to_uint8 (uint16 v) = below (2 ^ 8) v
to_uint8 (uint32 v) = below (2 ^ 8) v
to_uint8 (uint64 v) = below (2 ^ 8) v
to_uint8 _ = none

unfoldable pub to_int16 : Value → Option ℤ
to_int16 (bool b) = some (pos (bit b))
to_int16 (int16 v) = some v
to_int16 (int v) = in_signed (2 ^ 15) v
to_int16 (int32 v) = in_signed (2 ^ 15) v
to_int16 (int64 v) = in_signed (2 ^ 15) v
to_int16 _ = none

unfoldable pub to_uint16 : Value → Option ℕ
to_uint16 (bool b) = some (bit b)
to_uint16 (uint16 v) = some v
to_uint16 (int v) = in_unsigned (2 ^ 16) v
to_uint16 (uint32 v) = below (2 ^ 16) v
to_uint16 (uint64 v) = below (2 ^ 16) v
to_uint16 _ = none

unfoldable pub to_int32 : Value → Option ℤ
to_int32 (bool b) = some (pos (bit b))
to_int32 (int32 v) = some v
to_int32 (int v) = in_signed (2 ^ 31) v
to_int32 (int64 v) = in_signed (2 ^ 31) v
to_int32 _ = none

unfoldable pub to_uint32 : Value → Option ℕ
to_uint32 (bool b) = some (bit b)
to_uint32 (uint32 v) = some v
to_uint32 (int v) = in_unsigned (2 ^ 32) v
to_uint32 (uint64 v) = below (2 ^ 32) v
to_uint32 _ = none

unfoldable pub to_int64 : Value → Option ℤ
to_int64 (bool b) = some (pos (bit b))
to_int64 (int64 v) = some v
to_int64 (int v) = some v
to_int64 _ = none

-- The only upper bound of an int is its own.
abbrev pub non_negative : ℤ → Option ℕ
non_negative (pos n) = some n
non_negative (negsuc n) = none

unfoldable pub to_uint64 : Value → Option ℕ
to_uint64 (bool b) = some (bit b)
to_uint64 (uint64 v) = some v
to_uint64 (int v) = non_negative v
to_uint64 _ = none

module _ (floats : FloatConversions) where
  unfoldable pub to_float32 : Value → Option ℕ
  to_float32 (bool b) = some (if b then 0x3f800000 else 0)
  to_float32 (float32 v) = some v
  to_float32 (float64 v) = some (floats.narrow v)
  to_float32 (int v) = some (floats.int_to_float32 v)
  to_float32 _ = none

  unfoldable pub to_float64 : Value → Option ℕ
  to_float64 (bool b) = some (if b then 0x3ff0000000000000 else 0)
  to_float64 (float64 v) = some v
  to_float64 (float32 v) = some (floats.widen v)
  to_float64 (int v) = some (floats.int_to_float64 v)
  to_float64 _ = none

-- Slices within slices become `[]any` too.
unfoldable mutual
  pub to_any : Value → Value
  to_any (slice vs) = slice (to_any_values vs)
  to_any (typed_slice vs) = slice (to_any_values vs)
  to_any nil = nil
  to_any (bool b) = bool b
  to_any (int v) = int v
  to_any (int8 v) = int8 v
  to_any (int16 v) = int16 v
  to_any (int32 v) = int32 v
  to_any (int64 v) = int64 v
  to_any (uint8 v) = uint8 v
  to_any (uint16 v) = uint16 v
  to_any (uint32 v) = uint32 v
  to_any (uint64 v) = uint64 v
  to_any (float32 v) = float32 v
  to_any (float64 v) = float64 v
  to_any (string s) = string s
  to_any (map fields) = map fields
  to_any other = other

  pub to_any_values : Values → Values
  to_any_values no_values = no_values
  to_any_values (value v vs) = value (to_any v) (to_any_values vs)

unfoldable pub to_any_slice : Value → Option Values
unfolding to_any
to_any_slice (slice vs) = some (to_any_values vs)
to_any_slice (typed_slice vs) = some (to_any_values vs)
to_any_slice _ = none
