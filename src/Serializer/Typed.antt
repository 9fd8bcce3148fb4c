-- ===== src/Serializer/Typed.antt =====
-- The values that pkg/ads/ads-serializer reads from the bytes of a type, with the layouts in which
-- nothing overlaps.
use ads_go.Base.{
  ℕ, suc, ◌+◌, ◌*◌, ◌^◌, ◌<◌, ◌≤◌, ◌≡◌, Bool, true, false, ◌||◌, List, [], ◌∷◌, ◌==◌, if◌then◌else◌,
  length, All,
}
use ads_go.Base.Integer.{ℤ, Fits}
use ads_go.Wire.{Bytes}
use ads_go.Primitives.Text.{IsNonzero}
use ads_go.AdsTypes.{
  AdsArrayInfo, AdsTypeFields, AdsDataType, AdsSubItems, ads_type, no_sub_items, sub_item,
}
use ads_go.Serializer.Value.{
  Value, Values, Fields, bool, int8, int16, int32, int64, uint8, uint16, uint32, uint64, float32,
  float64, string, slice, no_values, value, no_fields, field, same_bytes,
}
use ads_go.Serializer.Write.{or_default, is_empty}

-- A value of the type's own Go type, in range; a text without zeros that leaves room for a terminator.
pub data IsScalar (t : AdsTypeFields) : Value → Type 0 where
  of_bit : (b : Bool) → t.data_type ≡ 33 → IsScalar t (bool b)
  of_int8 : (z : ℤ) → t.data_type ≡ 16 → Fits (2 ^ 7) z → IsScalar t (int8 z)
  of_uint8 : (n : ℕ) → t.data_type ≡ 17 → IsScalar t (uint8 n)
  of_int16 : (z : ℤ) → t.data_type ≡ 2 → Fits (2 ^ 15) z → IsScalar t (int16 z)
  of_uint16 : (n : ℕ) → t.data_type ≡ 18 → n < 2 ^ 16 → IsScalar t (uint16 n)
  of_int32 : (z : ℤ) → t.data_type ≡ 3 → Fits (2 ^ 31) z → IsScalar t (int32 z)
  of_uint32 : (n : ℕ) → t.data_type ≡ 19 → n < 2 ^ 32 → IsScalar t (uint32 n)
  of_int64 : (z : ℤ) → t.data_type ≡ 20 → Fits (2 ^ 63) z → IsScalar t (int64 z)
  of_uint64 : (n : ℕ) → t.data_type ≡ 21 → n < 2 ^ 64 → IsScalar t (uint64 n)
  of_real32 : (n : ℕ) → t.data_type ≡ 4 → n < 2 ^ 32 → IsScalar t (float32 n)
  of_real64 : (n : ℕ) → t.data_type ≡ 5 → n < 2 ^ 64 → IsScalar t (float64 n)
  of_string :
      (s : Bytes)
      → t.data_type ≡ 30
      → All IsNonzero s
      → length s < or_default t.size 80
      → IsScalar t (string s)

abbrev pub scalar_width : ℕ → ℕ → ℕ
scalar_width code size =
    if (code == 33) || (code == 16) || (code == 17)
    then 1
    else if (code == 2) || (code == 18)
    then 2
    else if (code == 3) || (code == 19) || (code == 4)
    then 4
    else if (code == 20) || (code == 21) || (code == 5)
    then 8
    else or_default size 80

abbrev pub AllValues : (Value → Type 0) → Values → Type 0
AllValues P no_values = Unit
AllValues P (value v vs) = P v × AllValues P vs

abbrev pub count_values : Values → ℕ
count_values no_values = 0
count_values (value v vs) = suc (count_values vs)

abbrev pub IsSlice : (Values → Type 0) → Value → Type 0
IsSlice P v = (vs : Values) × (v ≡ slice vs) × P vs

-- As many elements in each dimension as its bounds say.
abbrev pub IsArray : (Value → Type 0) → List AdsArrayInfo → Values → Type 0
IsArray P [] vs = ⊥
IsArray P (dim ∷ []) vs = (count_values vs ≡ dim.entries) × AllValues P vs
IsArray P (dim ∷ next ∷ dims) vs =
    (count_values vs ≡ dim.entries) × AllValues (IsSlice (IsArray P (next ∷ dims))) vs

abbrev pub elements : List AdsArrayInfo → ℕ
elements [] = 1
elements (dim ∷ []) = dim.entries
elements (dim ∷ next ∷ dims) = dim.entries * elements (next ∷ dims)

-- The number of bytes of a type's values.
abbrev pub type_width : AdsDataType → ℕ
type_width (ads_type t no_sub_items) =
    if is_empty t.array_info
    then scalar_width t.data_type t.size
    else elements t.array_info * t.size
type_width (ads_type t (sub_item first items)) = t.size

abbrev pub NamesDiffer : Bytes → AdsSubItems → Type 0
NamesDiffer name no_sub_items = Unit
NamesDiffer name (sub_item (ads_type t own) items) =
    (same_bytes name t.name ≡ false) × NamesDiffer name items

-- The offset of the last of the sub-items.
abbrev pub last_offset : AdsSubItems → ℕ
last_offset no_sub_items = 0
last_offset (sub_item (ads_type t own) no_sub_items) = t.offset
last_offset (sub_item (ads_type t own) (sub_item next items)) = last_offset (sub_item next items)

-- A scalar; an array of scalars that fill their places; or a structure with a non-zero offset, whose
-- fields have different names and follow one another without overlap, as the map has them.
mutual
  pub data IsTyped : AdsDataType → Value → Type 0 where
    scalar_typed :
        {t : AdsTypeFields} {v : Value}
        → is_empty t.array_info ≡ true
        → IsScalar t v
        → IsTyped (ads_type t no_sub_items) v
    array_typed :
        {t : AdsTypeFields} {vs : Values}
        → is_empty t.array_info ≡ false
        → scalar_width t.data_type t.size ≡ t.size
        → IsArray (IsScalar t) t.array_info vs
        → IsTyped (ads_type t no_sub_items) (slice vs)
    struct_typed :
        {t : AdsTypeFields} {first : AdsDataType} {items : AdsSubItems} {entries : Fields}
        → is_empty t.array_info ≡ true
        → 0 < last_offset (sub_item first items)
        → AreTyped (sub_item first items) 0 t.size entries
        → IsTyped (ads_type t (sub_item first items)) (Value.map entries)

  -- The fields from a position on, up to the end.
  pub data AreTyped : AdsSubItems → ℕ → ℕ → Fields → Type 0 where
    none_typed : {pos end : ℕ} → pos ≤ end → AreTyped no_sub_items pos end no_fields
    field_typed :
        {t : AdsTypeFields} {own items : AdsSubItems} {pos end : ℕ} {v : Value} {entries : Fields}
        → pos ≤ t.offset
        → NamesDiffer t.name items
        → IsTyped (ads_type t own) v
        → AreTyped items (t.offset + type_width (ads_type t own)) end entries
        → AreTyped (sub_item (ads_type t own) items) pos end (field t.name v entries)
