-- ===== src/Serializer/Refusals.antt =====
-- pkg/ads/ads-serializer: values and types that it does not carry.
use ads_go.Base.{
  ℕ, zero, suc, ◌/◌, ◌-◌, ◌%◌, ◌≡◌, ◌<◌, ◌≤◌, refl, ap, sym, subst, Error, true, false, List, [],
  ◌∷◌, ◌++◌, length, length-replicate, take, Result, ok, err, panic, unsupported_data_type, arith,
  ◌==◌,
}
use ads_go.Wire.{Bytes, overwrite, make_bytes}
use ads_go.Primitives.{until_zero}
use ads_go.Primitives.Text.{read_string-until_zero}
use ads_go.AdsTypes.{
  AdsArrayInfo, AdsTypeFields, AdsDataType, AdsSubItems, ads_type, no_sub_items, sub_item,
}
use ads_go.Serializer.Value.{Value, Values, slice, string, no_values, value}
use ads_go.Serializer.Convert.{FloatConversions}
use ads_go.Serializer.Write.{
  serialize, serialize_branches, serialize_array_or_primitive, serialize_array_item,
  serialize_primitive, serialize_fields, write_elements, write_array, write_wstring, is_empty,
  or_default, utf16_bytes,
}
use ads_go.Serializer.Read.{
  deserialize, deserialize_branches, deserialize_array_or_primitive, deserialize_primitive,
}
use ads_go.Wire.Buffers.{length-overwrite}
use ads_go.Serializer.Typed.{IsScalar, AllValues, count_values}
use ads_go.Serializer.Scalars.{scalar_codes, slice_from-append}

-- Elements that all can be written, but too few of them.
write_elements_short :
    (P : Value → Type 0) (write : Value → Result Bytes)
    → ((v : Value) → P v → (b : Bytes) × (write v ≡ ok b))
    → (n : ℕ) (vs : Values) → AllValues P vs
    → count_values vs < n
    → write_elements write n vs ≡ panic
unfolding write_elements
write_elements_short P write each zero vs h l = absurd (omega arith)
write_elements_short P write each (suc n) no_values h l = refl
write_elements_short P write each (suc n) (value v vs) h l =
    let (b, wrote) = each v h.0 in
    rw (wrote, write_elements_short P write each n vs h.1 (omega arith)) refl

write_elements_refused :
    (write : Value → Result Bytes) (e : Error) (n : ℕ) (v : Value) (vs : Values)
    → 0 < n
    → write v ≡ err e
    → write_elements write n (value v vs) ≡ err e
unfolding write_elements
write_elements_refused write e zero v vs l h = absurd (omega arith)
write_elements_refused write e (suc n) v vs l h = rw h refl

-- A first character below 256 has a zero byte behind it.
until_zero_wide :
    (r : ℕ) (rs : List ℕ) (n size : ℕ)
    → 0 < r
    → r < 256
    → 0 < n
    → 1 < size
    → until_zero (overwrite (utf16_bytes (take n (r ∷ rs))) (make_bytes size)) ≡ r ∷ []
until_zero_wide r rs zero size h l a b = absurd (omega arith)
until_zero_wide r rs (suc n) zero h l a b = absurd (omega arith)
until_zero_wide r rs (suc n) (suc zero) h l a b = absurd (omega arith)
until_zero_wide r rs (suc n) (suc (suc size)) h l a b =
    let low : r % 256 ≡ r = omega arith in
    let high : r / 256 % 256 ≡ 0 = omega arith in
    let not_zero : (r == 0) ≡ false = ground arith in rw (low, high, not_zero) refl

module _ (floats : FloatConversions) (to_runes : Bytes → List ℕ) where
  scalar_written :
      (t : AdsTypeFields) (v : Value)
      → IsScalar t v
      → (b : Bytes) × (serialize_primitive floats to_runes t v ≡ ok b)
  scalar_written t v h = let (b, wrote, long, back) = scalar_codes floats to_runes t h in (b, wrote)

  -- An array of one dimension, of scalars in range but fewer than its bounds say: `Serialize` does
  -- not return an error, it panics.
  pub serialize_short_array :
      (t : AdsTypeFields) (dim : AdsArrayInfo) (vs : Values)
      → t.array_info ≡ dim ∷ []
      → AllValues (IsScalar t) vs
      → count_values vs < dim.entries
      → serialize floats to_runes (ads_type t no_sub_items) (slice vs) ≡ panic
  unfolding serialize serialize_branches serialize_array_or_primitive serialize_array_item
      write_array
  serialize_short_array t dim vs e h l =
      let some_info : is_empty t.array_info ≡ false = ap is_empty e in
      rw some_info (
        subst (λ infos. write_array (serialize_primitive floats to_runes t) infos vs ≡ panic)
          (sym e)
          (write_elements_short (IsScalar t) (serialize_primitive floats to_runes t)
            (scalar_written t) dim.entries vs h l))

  abbrev struct_item : AdsTypeFields → AdsDataType → AdsSubItems → Value → Result Bytes
  struct_item t first items =
      serialize_array_item floats to_runes t true
        (serialize_fields floats to_runes (sub_item first items))

  -- The elements of an array of structures are taken for scalars: where the type is a structure's,
  -- which the device calls a big type, `Serialize` refuses the array that `Deserialize` returns.
  pub serialize_struct_array :
      (t : AdsTypeFields) (dim : AdsArrayInfo) (first : AdsDataType) (items : AdsSubItems)
      (v : Value) (vs : Values)
      → t.array_info ≡ dim ∷ []
      → t.data_type ≡ 65
      → 0 < dim.entries
      → serialize floats to_runes (ads_type t (sub_item first items)) (slice (value v vs))
        ≡ err (unsupported_data_type 65)
  unfolding serialize serialize_branches serialize_array_or_primitive serialize_array_item
      write_array serialize_primitive write_elements
  serialize_struct_array t dim first items v vs e c l =
      let some_info : is_empty t.array_info ≡ false = ap is_empty e in
      let refused : serialize_primitive floats to_runes t v ≡ err (unsupported_data_type 65) =
        rw c refl in
      rw some_info (
        subst
          (λ infos.
            write_array (struct_item t first items) infos (value v vs)
            ≡ err (unsupported_data_type 65))
          (sym e)
          (write_elements_refused (struct_item t first items) (unsupported_data_type 65) dim.entries
            v vs l (rw some_info refused)))

  -- A wide string is written in two bytes a character and read byte by byte up to the first zero: of
  -- a text whose first character is an ASCII one other than 0, `Serialize` makes as many bytes as the
  -- type's size says, four at least, or 160 where it says 0, and from them, at the type's offset,
  -- `Deserialize` gives back that one character alone.
  pub deserialize-serialize_wstring :
      (t : AdsTypeFields) (text before : Bytes) (r : ℕ) (rs : List ℕ)
      → is_empty t.array_info ≡ true
      → t.data_type ≡ 31
      → to_runes text ≡ r ∷ rs
      → 0 < r
      → r < 128
      → 4 ≤ or_default t.size 160
      → length before ≡ t.offset
      → (b : Bytes) × (serialize floats to_runes (ads_type t no_sub_items) (string text) ≡ ok b)
        × (length b ≡ or_default t.size 160)
        × (deserialize (ads_type t no_sub_items) (before ++ b) ≡ ok (string (r ∷ [])))
  unfolding serialize serialize_branches serialize_array_or_primitive serialize_primitive
      deserialize deserialize_branches deserialize_array_or_primitive deserialize_primitive
      write_wstring
  deserialize-serialize_wstring t text before r rs scalar e runes h l room at_offset = (
    write_wstring floats to_runes (or_default t.size 160) text,
    rw (scalar, e) refl,
    rw (length-overwrite _ (make_bytes (or_default t.size 160)))
        (length-replicate (or_default t.size 160) 0),
    rw
        (
          scalar,
          e,
          runes,
          slice_from-append t.offset before _ at_offset,
          read_string-until_zero,
          until_zero_wide r rs (or_default t.size 160 / 2 - 1) (or_default t.size 160) h
              (omega arith) (omega arith) (omega arith),
        )
        refl,
  )
