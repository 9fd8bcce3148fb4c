-- ===== src/Serializer/Value.antt =====
-- The Go values that pkg/ads/ads-serializer takes and returns as `any`.
use ads_go.Base.{ℕ, Bool, [], ◌∷◌, Option, none, some, if◌then◌else◌, ◌==◌, ◌&&◌, false, true}
use ads_go.Base.Integer.{ℤ}
use ads_go.Wire.{Bytes}

-- Each is tagged with its dynamic type. A float is its bit pattern, a string its bytes, and a map
-- its entries. `slice` is a `[]any`, `typed_slice` a slice of another type, `other` of a type that
-- the package does not know.
mutual
  pub data Value : Type 0 where
    nil : Value
    bool : Bool → Value
    int int8 int16 int32 int64 : ℤ → Value
    uint8 uint16 uint32 uint64 : ℕ → Value
    float32 float64 : ℕ → Value
    string : Bytes → Value
    slice typed_slice : Values → Value
    map : Fields → Value
    other : Value

  pub data Values : Type 0 where
    no_values : Values
    value : Value → Values → Values

  pub data Fields : Type 0 where
    no_fields : Fields
    field : Bytes → Value → Fields → Fields

abbrev pub same_bytes : Bytes → Bytes → Bool
same_bytes [] [] = true
same_bytes [] (b ∷ bytes) = false
same_bytes (a ∷ text) [] = false
same_bytes (a ∷ text) (b ∷ bytes) = (a == b) && same_bytes text bytes

-- `value, exists := valMap[name]` and `result[name] = value`.
abbrev pub get_field : Bytes → Fields → Option Value
get_field name no_fields = none
get_field name (field key v fields) = if same_bytes key name then some v else get_field name fields

abbrev pub set_field : Bytes → Value → Fields → Fields
set_field name v no_fields = field name v no_fields
set_field name v (field key w fields) =
    if same_bytes key name then field key v fields else field key w (set_field name v fields)
