-- ===== src/Serializer/Write.antt =====
-- pkg/ads/ads-serializer/serialize.go: the bytes of a value by its ADS type.
use ads_go.Base.{
  ℕ, zero, suc, ◌+◌, ◌-◌, ◌/◌, Bool, true, false, not, ◌&&◌, ◌||◌, List, [], ◌∷◌, ◌++◌, Option,
  none, some, Result, ok, err, panic, invalid_value_type, invalid_bit_value, missing_field,
  struct_size_too_small, unsupported_data_type, ◌>>=◌, ◌>>◌, fail_if, ltb, ◌==◌, if◌then◌else◌,
  length, take,
}
use ads_go.Base.Integer.{pos}
use ads_go.Wire.{Bytes, le_bytes, overwrite, copy_at, make_bytes}
use ads_go.Primitives.{
  write_bool, write_int8, write_uint8, write_int16, write_uint16, write_int32, write_uint32,
  write_int64, write_uint64, write_float32, write_float64, write_string,
}
use ads_go.AdsTypes.{
  AdsArrayInfo, AdsTypeFields, AdsDataType, AdsSubItems, ads_type, no_sub_items, sub_item,
  adst_void, adst_bit, adst_int8, adst_uint8, adst_int16, adst_uint16, adst_int32, adst_uint32,
  adst_int64, adst_uint64, adst_real32, adst_real64, adst_string, adst_wstring,
}
use ads_go.Serializer.Value.{
  Value, Values, Fields, bool, int, string, slice, no_values, value, get_field,
}
use ads_go.Serializer.Convert.{
  FloatConversions, to_int8, to_uint8, to_int16, to_uint16, to_int32, to_uint32, to_int64,
  to_uint64, to_float32, to_float64, to_any_slice,
}

-- `cast, ok := toX(value); if !ok { return error }`, and the writer.
abbrev pub cast : {A : Type 0} → ℕ → Option A → (A → Result Bytes) → Result Bytes
cast code none write = err (invalid_value_type code)
cast code (some v) write = write v

unfoldable pub serialize_bit : Value → Result Bytes
serialize_bit (bool b) = ok (write_bool b)
serialize_bit (int (pos zero)) = ok (write_bool false)
serialize_bit (int (pos (suc zero))) = ok (write_bool true)
serialize_bit (int _) = err invalid_bit_value
serialize_bit _ = err (invalid_value_type adst_bit)

abbrev pub text_of : Value → Option Bytes
text_of (string s) = some s
text_of _ = none

-- `uint16(r)` of each rune, low byte first.
abbrev pub utf16_bytes : List ℕ → Bytes
utf16_bytes [] = []
utf16_bytes (rune ∷ runes) = le_bytes 2 rune ++ utf16_bytes runes

abbrev pub or_default : ℕ → ℕ → ℕ
or_default size standard = if size == 0 then standard else size

-- What Go's `[]rune(s)` decodes is a parameter.
module _ (floats : FloatConversions) (to_runes : Bytes → List ℕ) where
  -- The last two bytes stay for the terminator.
  unfoldable pub write_wstring : ℕ → Bytes → Bytes
  write_wstring buffer_size text =
      overwrite (utf16_bytes (take (buffer_size / 2 - 1) (to_runes text))) (make_bytes buffer_size)

  unfoldable pub serialize_primitive : AdsTypeFields → Value → Result Bytes
  serialize_primitive t v =
      let code = t.data_type in
      if code == adst_void
      then ok []
      else if code == adst_bit
      then serialize_bit v
      else if code == adst_int8
      then cast code (to_int8 v) (λ n. ok (write_int8 n))
      else if code == adst_uint8
      then cast code (to_uint8 v) (λ n. ok (write_uint8 n))
      else if code == adst_int16
      then cast code (to_int16 v) write_int16
      else if code == adst_uint16
      then cast code (to_uint16 v) write_uint16
      else if code == adst_int32
      then cast code (to_int32 v) write_int32
      else if code == adst_uint32
      then cast code (to_uint32 v) write_uint32
      else if code == adst_int64
      then cast code (to_int64 v) write_int64
      else if code == adst_uint64
      then cast code (to_uint64 v) write_uint64
      else if code == adst_real32
      then cast code (to_float32 floats v) write_float32
      else if code == adst_real64
      then cast code (to_float64 floats v) write_float64
      else if code == adst_string
      then cast code (text_of v) (λ s. ok (write_string s (pos (or_default t.size 80))))
      else if code == adst_wstring
      then cast code (text_of v) (λ s. ok (write_wstring (or_default t.size 160) s))
      else err (unsupported_data_type code)

-- The elements of one dimension, as many as its length says: `arr[i]` panics past the end.
unfoldable pub write_elements : (Value → Result Bytes) → ℕ → Values → Result Bytes
write_elements write zero vs = ok []
write_elements write (suc n) no_values = panic
write_elements write (suc n) (value v vs) = do
  first ← write v
  rest ← write_elements write n vs
  ok (first ++ rest)

-- `value.([]any)`, or a slice of another type converted.
abbrev pub any_slice : Value → Result Values
any_slice (slice vs) = ok vs
any_slice v = elim (to_any_slice v) [ some vs ↦ ok vs | none ↦ err (invalid_value_type 0) ]

unfoldable pub write_array : (Value → Result Bytes) → List AdsArrayInfo → Values → Result Bytes
write_array write [] vs = ok []
write_array write (dim ∷ []) vs = write_elements write dim.entries vs
write_array write (dim ∷ next ∷ dims) vs =
    write_elements (λ v. any_slice v >>= λ sub. write_array write (next ∷ dims) sub) dim.entries vs

pub record SerializedField : Type 0 where
  pub offset : ℕ
  pub field_bytes : Bytes

abbrev pub joined : List SerializedField → Bytes
joined [] = []
joined (f ∷ fields) = f.field_bytes ++ joined fields

abbrev pub has_explicit_offsets : List SerializedField → Bool
has_explicit_offsets [] = false
has_explicit_offsets (f ∷ fields) = not (f.offset == 0) || has_explicit_offsets fields

-- The furthest end of a field, from `resultSize` on.
abbrev pub furthest_end : ℕ → List SerializedField → ℕ
furthest_end size [] = size
furthest_end size (f ∷ fields) =
    furthest_end
      (if ltb size (f.offset + length f.field_bytes) then f.offset + length f.field_bytes else size)
      fields

unfoldable pub place_sequential : ℕ → List SerializedField → Result Bytes
place_sequential size fields =
    if size == 0
    then ok (joined fields)
    else (fail_if (ltb size (length (joined fields))) (struct_size_too_small size)
        >> ok (overwrite (joined fields) (make_bytes size)))

unfoldable pub place_fields : ℕ → List SerializedField → Bytes → Result Bytes
place_fields size [] buffer = ok buffer
place_fields size (f ∷ fields) buffer = do
  fail_if (ltb (length buffer) (f.offset + length f.field_bytes)) (struct_size_too_small size)
  place_fields size fields (copy_at f.offset f.field_bytes buffer)

unfoldable pub place_struct : ℕ → List SerializedField → Result Bytes
place_struct size fields =
    if has_explicit_offsets fields
    then place_fields size fields (make_bytes (if size == 0 then furthest_end 0 fields else size))
    else place_sequential size fields

abbrev pub found_field : Bytes → Option Value → Result Value
found_field name none = err (missing_field name)
found_field name (some v) = ok v

-- `value.(map[string]any)`.
abbrev pub any_map : Value → Result Fields
any_map (Value.map fields) = ok fields
any_map v = err (invalid_value_type 0)

abbrev pub is_empty : {A : Type 0} → List A → Bool
is_empty [] = true
is_empty (x ∷ xs) = false

abbrev pub has_sub_items : AdsSubItems → Bool
has_sub_items no_sub_items = false
has_sub_items (sub_item t items) = true

-- The branches of one call, with the bytes of the sub-items' values. The elements of an array are
-- serialized by the same type, as array items, for which the array branch is closed.
module _ (floats : FloatConversions) (to_runes : Bytes → List ℕ) where
  unfoldable pub serialize_branches :
      AdsTypeFields
      → Bool
      → (Fields → Result (List SerializedField))
      → (Value → Result Bytes)
      → Value
      → Result Bytes
  serialize_branches t has_items serialize_fields otherwise v =
      if has_items && is_empty t.array_info
      then (any_map v >>= λ fields. serialize_fields fields >>= λ parts. place_struct t.size parts)
      else otherwise v

  unfoldable pub serialize_array_item :
      AdsTypeFields → Bool → (Fields → Result (List SerializedField)) → Value → Result Bytes
  serialize_array_item t has_items serialize_fields =
      serialize_branches t has_items serialize_fields (serialize_primitive floats to_runes t)

  unfoldable pub serialize_array_or_primitive :
      AdsTypeFields → Bool → (Fields → Result (List SerializedField)) → Value → Result Bytes
  serialize_array_or_primitive t has_items serialize_fields v =
      if is_empty t.array_info
      then serialize_primitive floats to_runes t v
      else (any_slice v >>= λ vs.
          write_array (serialize_array_item t has_items serialize_fields) t.array_info vs)

  unfoldable mutual
    pub serialize : AdsDataType → Value → Result Bytes
    serialize (ads_type t items) v =
        serialize_branches t (has_sub_items items) (serialize_fields items)
          (serialize_array_or_primitive t (has_sub_items items) (serialize_fields items)) v

    pub serialize_fields : AdsSubItems → Fields → Result (List SerializedField)
    serialize_fields no_sub_items val_map = ok []
    serialize_fields (sub_item (ads_type t own) items) val_map = do
      v ← found_field t.name (get_field t.name val_map)
      part ← serialize (ads_type t own) v
      parts ← serialize_fields items val_map
      ok (record { offset = t.offset; field_bytes = part } ∷ parts)
