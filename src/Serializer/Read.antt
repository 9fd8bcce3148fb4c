-- ===== src/Serializer/Read.antt =====
-- pkg/ads/ads-serializer/deserialize.go: the value of bytes by its ADS type.
use ads_go.Base.{
  ℕ, zero, suc, ◌+◌, Bool, true, false, ◌&&◌, ◌||◌, List, [], ◌∷◌, Result, ok, err, panic,
  unsupported_data_type, ◌>>=◌, ◌==◌, if◌then◌else◌, slice_from,
}
use ads_go.Wire.{Bytes}
use ads_go.Primitives.{
  read_bool, read_int8, read_uint8, read_int16, read_uint16, read_int32, read_uint32, read_int64,
  read_uint64, read_float32, read_float64, read_string,
}
use ads_go.AdsTypes.{
  AdsArrayInfo, AdsTypeFields, AdsDataType, AdsSubItems, ads_type, no_sub_items, sub_item,
  adst_void, adst_bit, adst_int8, adst_uint8, adst_int16, adst_uint16, adst_int32, adst_uint32,
  adst_int64, adst_uint64, adst_real32, adst_real64, adst_string, adst_wstring,
}
use ads_go.Serializer.Value.{
  Value, Values, Fields, nil, bool, int8, int16, int32, int64, uint8, uint16, uint32, uint64,
  float32, float64, string, slice, no_values, value, no_fields, set_field,
}
use ads_go.Serializer.Write.{is_empty, has_sub_items}

-- `return read(data)` as an `any` of the type that it read.
abbrev pub tagged : {A : Type 0} → (A → Value) → Result A → Result Value
tagged tag r = r >>= λ a. ok (tag a)

unfoldable pub deserialize_primitive : AdsTypeFields → Bytes → Result Value
deserialize_primitive t bytes =
    let code = t.data_type in
    slice_from t.offset bytes >>= λ here.
    if code == adst_void
    then ok nil
    else if code == adst_bit
    then tagged bool (read_bool here)
    else if code == adst_int8
    then tagged int8 (read_int8 here)
    else if code == adst_uint8
    then tagged uint8 (read_uint8 here)
    else if code == adst_int16
    then tagged int16 (read_int16 here)
    else if code == adst_uint16
    then tagged uint16 (read_uint16 here)
    else if code == adst_int32
    then tagged int32 (read_int32 here)
    else if code == adst_uint32
    then tagged uint32 (read_uint32 here)
    else if code == adst_int64
    then tagged int64 (read_int64 here)
    else if code == adst_uint64
    then tagged uint64 (read_uint64 here)
    else if code == adst_real32
    then tagged float32 (read_float32 here)
    else if code == adst_real64
    then tagged float64 (read_float64 here)
    else if (code == adst_string) || (code == adst_wstring)
    then tagged string (read_string here)
    else err (unsupported_data_type code)

-- An element that fails is nil; one past the end of the bytes panics.
abbrev pub nil_on_error : Result Value → Result Value
nil_on_error (ok v) = ok v
nil_on_error (err e) = ok nil
nil_on_error panic = panic

-- The elements of one dimension, and the position behind them.
unfoldable pub read_elements : (ℕ → Result (Value × ℕ)) → ℕ → ℕ → Result (Values × ℕ)
read_elements read zero pos = ok (no_values, pos)
read_elements read (suc n) pos = do
  (v, pos1) ← read pos
  (vs, pos2) ← read_elements read n pos1
  ok (value v vs, pos2)

unfoldable pub read_element : (Bytes → Result Value) → ℕ → Bytes → ℕ → Result (Value × ℕ)
read_element read size bytes data_pos = do
  here ← slice_from data_pos bytes
  v ← nil_on_error (read here)
  ok (v, data_pos + size)

unfoldable pub read_array :
    (Bytes → Result Value) → ℕ → Bytes → List AdsArrayInfo → ℕ → Result (Values × ℕ)
read_array read size bytes [] pos = ok (no_values, pos)
read_array read size bytes (dim ∷ []) pos =
    read_elements (read_element read size bytes) dim.entries pos
read_array read size bytes (dim ∷ next ∷ dims) pos =
    read_elements (λ p. read_array read size bytes (next ∷ dims) p >>= λ r. ok (slice r.0, r.1))
      dim.entries pos

unfoldable pub deserialize_struct :
    AdsTypeFields → (Bytes → Fields → Result Fields) → Bytes → Result Value
deserialize_struct t deserialize_fields bytes = do
  here ← slice_from t.offset bytes
  entries ← deserialize_fields here no_fields
  ok (Value.map entries)

-- The branches of one call. The elements of an array are deserialized by the same type, as array
-- items.
unfoldable pub deserialize_branches :
    AdsTypeFields
    → Bool
    → (Bytes → Fields → Result Fields)
    → Bool
    → (Bytes → Result Value)
    → Bytes
    → Result Value
deserialize_branches t has_items deserialize_fields is_array_item otherwise bytes =
    if (is_empty t.array_info || is_array_item) && has_items
    then deserialize_struct t deserialize_fields bytes
    else otherwise bytes

unfoldable pub deserialize_array_item :
    AdsTypeFields → Bool → (Bytes → Fields → Result Fields) → Bytes → Result Value
deserialize_array_item t has_items deserialize_fields =
    deserialize_branches t has_items deserialize_fields true (deserialize_primitive t)

unfoldable pub deserialize_array_or_primitive :
    AdsTypeFields → Bool → (Bytes → Fields → Result Fields) → Bytes → Result Value
deserialize_array_or_primitive t has_items deserialize_fields bytes =
    if is_empty t.array_info
    then deserialize_primitive t bytes
    else (read_array (deserialize_array_item t has_items deserialize_fields) t.size bytes
          t.array_info 0
        >>= λ r. ok (slice r.0))

unfoldable mutual
  pub deserialize : AdsDataType → Bytes → Result Value
  deserialize (ads_type t items) bytes =
      deserialize_branches t (has_sub_items items) (deserialize_fields items) false
        (deserialize_array_or_primitive t (has_sub_items items) (deserialize_fields items)) bytes

  pub deserialize_fields : AdsSubItems → Bytes → Fields → Result Fields
  deserialize_fields no_sub_items bytes entries = ok entries
  deserialize_fields (sub_item (ads_type t own) items) bytes entries = do
    v ← deserialize (ads_type t own) bytes
    deserialize_fields items bytes (set_field t.name v entries)
