-- ===== src/Serializer/Ranges.antt =====
-- pkg/ads/ads-serializer/convert.go: a conversion keeps the number, and the number is in range.
use ads_go.Base.{ℕ, ◌^◌, ◌<◌, ◌≡◌, refl, Bool, true, false, Option, none, some, arith}
use ads_go.Base.Integer.{ℤ, pos, negsuc, Fits}
use ads_go.Serializer.Value.{
  Value, bool, int, int8, int16, int32, int64, uint8, uint16, uint32, uint64,
}
use ads_go.Serializer.Convert.{
  in_signed, in_unsigned, below, bit, to_int8, to_uint8, to_int16, to_uint16, to_int32, to_uint32,
  to_int64, to_uint64,
}

-- The number of a value that is one.
abbrev pub number : Value → Option ℤ
number (bool b) = some (pos (bit b))
number (int z) = some z
number (int8 z) = some z
number (int16 z) = some z
number (int32 z) = some z
number (int64 z) = some z
number (uint8 n) = some (pos n)
number (uint16 n) = some (pos n)
number (uint32 n) = some (pos n)
number (uint64 n) = some (pos n)
number _ = none

-- What a Go value of each type holds.
abbrev pub IsGoValue : Value → Type 0
IsGoValue (int z) = Fits (2 ^ 63) z
IsGoValue (int8 z) = Fits (2 ^ 7) z
IsGoValue (int16 z) = Fits (2 ^ 15) z
IsGoValue (int32 z) = Fits (2 ^ 31) z
IsGoValue (int64 z) = Fits (2 ^ 63) z
IsGoValue (uint8 n) = n < 2 ^ 8
IsGoValue (uint16 n) = n < 2 ^ 16
IsGoValue (uint32 n) = n < 2 ^ 32
IsGoValue (uint64 n) = n < 2 ^ 64
IsGoValue _ = Unit

-- A result is in range and is the value's number.
abbrev pub SignedResult : ℕ → Option ℤ → Option ℤ → Type 0
SignedResult half (some z) source = Fits half z × (source ≡ some z)
SignedResult half none source = Unit

abbrev pub UnsignedResult : ℕ → Option ℕ → Option ℤ → Type 0
UnsignedResult bound (some n) source = (n < bound) × (source ≡ some (pos n))
UnsignedResult bound none source = Unit

checked_signed : (half : ℕ) (z : ℤ) → SignedResult half (in_signed half z) (some z)
checked_signed half (pos n) = ground arith
checked_signed half (negsuc n) = ground arith

checked_unsigned : (bound : ℕ) (z : ℤ) → UnsignedResult bound (in_unsigned bound z) (some z)
checked_unsigned bound (pos n) = ground arith
checked_unsigned bound (negsuc n) = tt

checked_below : (bound n : ℕ) → UnsignedResult bound (below bound n) (some (pos n))
checked_below bound n = ground arith

checked_bit : (bound : ℕ) (b : Bool) → 1 < bound → bit b < bound
checked_bit bound true h = omega arith
checked_bit bound false h = omega arith

int8_result : (v : Value) → IsGoValue v → SignedResult (2 ^ 7) (to_int8 v) (number v)
unfolding to_int8
int8_result (bool b) h = (checked_bit (2 ^ 7) b (omega arith), refl)
int8_result (int8 z) h = (h, refl)
int8_result (int z) h = checked_signed (2 ^ 7) z
int8_result (int16 z) h = checked_signed (2 ^ 7) z
int8_result (int32 z) h = checked_signed (2 ^ 7) z
int8_result (int64 z) h = checked_signed (2 ^ 7) z
int8_result _ h = tt

uint8_result : (v : Value) → IsGoValue v → UnsignedResult (2 ^ 8) (to_uint8 v) (number v)
unfolding to_uint8
uint8_result (bool b) h = (checked_bit (2 ^ 8) b (omega arith), refl)
uint8_result (uint8 n) h = (h, refl)
uint8_result (int z) h = checked_unsigned (2 ^ 8) z
uint8_result (uint16 n) h = checked_below (2 ^ 8) n
uint8_result (uint32 n) h = checked_below (2 ^ 8) n
uint8_result (uint64 n) h = checked_below (2 ^ 8) n
uint8_result _ h = tt

int16_result : (v : Value) → IsGoValue v → SignedResult (2 ^ 15) (to_int16 v) (number v)
unfolding to_int16
int16_result (bool b) h = (checked_bit (2 ^ 15) b (omega arith), refl)
int16_result (int16 z) h = (h, refl)
int16_result (int z) h = checked_signed (2 ^ 15) z
int16_result (int32 z) h = checked_signed (2 ^ 15) z
int16_result (int64 z) h = checked_signed (2 ^ 15) z
int16_result _ h = tt

uint16_result : (v : Value) → IsGoValue v → UnsignedResult (2 ^ 16) (to_uint16 v) (number v)
unfolding to_uint16
uint16_result (bool b) h = (checked_bit (2 ^ 16) b (omega arith), refl)
uint16_result (uint16 n) h = (h, refl)
uint16_result (int z) h = checked_unsigned (2 ^ 16) z
uint16_result (uint32 n) h = checked_below (2 ^ 16) n
uint16_result (uint64 n) h = checked_below (2 ^ 16) n
uint16_result _ h = tt

int32_result : (v : Value) → IsGoValue v → SignedResult (2 ^ 31) (to_int32 v) (number v)
unfolding to_int32
int32_result (bool b) h = (checked_bit (2 ^ 31) b (omega arith), refl)
int32_result (int32 z) h = (h, refl)
int32_result (int z) h = checked_signed (2 ^ 31) z
int32_result (int64 z) h = checked_signed (2 ^ 31) z
int32_result _ h = tt

uint32_result : (v : Value) → IsGoValue v → UnsignedResult (2 ^ 32) (to_uint32 v) (number v)
unfolding to_uint32
uint32_result (bool b) h = (checked_bit (2 ^ 32) b (omega arith), refl)
uint32_result (uint32 n) h = (h, refl)
uint32_result (int z) h = checked_unsigned (2 ^ 32) z
uint32_result (uint64 n) h = checked_below (2 ^ 32) n
uint32_result _ h = tt

int64_result : (v : Value) → IsGoValue v → SignedResult (2 ^ 63) (to_int64 v) (number v)
unfolding to_int64
int64_result (bool b) h = (checked_bit (2 ^ 63) b (omega arith), refl)
int64_result (int64 z) h = (h, refl)
int64_result (int z) h = (h, refl)
int64_result _ h = tt

uint64_result : (v : Value) → IsGoValue v → UnsignedResult (2 ^ 64) (to_uint64 v) (number v)
unfolding to_uint64
uint64_result (bool b) h = (checked_bit (2 ^ 64) b (omega arith), refl)
uint64_result (uint64 n) h = (h, refl)
uint64_result (int (pos n)) h = (omega (arith, h), refl)
uint64_result (int (negsuc n)) h = tt
uint64_result _ h = tt

-- Each of the eight conversions into an integer type, of any value that Go can hold: where it gives a
-- number, that is in the range of the type and is the value's own number, so none wraps around.
pub conversions_in_range :
    (v : Value)
    → IsGoValue v
    → SignedResult (2 ^ 7) (to_int8 v) (number v)
      × UnsignedResult (2 ^ 8) (to_uint8 v) (number v)
      × SignedResult (2 ^ 15) (to_int16 v) (number v)
      × UnsignedResult (2 ^ 16) (to_uint16 v) (number v)
      × SignedResult (2 ^ 31) (to_int32 v) (number v)
      × UnsignedResult (2 ^ 32) (to_uint32 v) (number v)
      × SignedResult (2 ^ 63) (to_int64 v) (number v)
      × UnsignedResult (2 ^ 64) (to_uint64 v) (number v)
conversions_in_range v h = (
  int8_result v h,
  uint8_result v h,
  int16_result v h,
  uint16_result v h,
  int32_result v h,
  uint32_result v h,
  int64_result v h,
  uint64_result v h,
)
