-- ===== src/Serializer/RoundTrip.antt =====
-- pkg/ads/ads-serializer: what `Serialize` writes, `Deserialize` reads back.
use ads_go.Base.{
  ℕ, ◌+◌, ◌-◌, ◌*◌, ◌≡◌, ◌≤◌, ◌<◌, refl, ap, sym, subst, fun_ext, ◌&&◌, ◌∙◌, Bool, true, false,
  ◌||◌, List, [], ◌∷◌, ◌++◌, length, Result, ok, arith, length-append, length-replicate,
  append_assoc, ◌==◌, if◌then◌else◌,
}
use ads_go.Wire.{Bytes, make_bytes}
use ads_go.AdsTypes.{
  AdsTypeFields, AdsDataType, AdsSubItems, ads_type, no_sub_items, sub_item, fields_of,
}
use ads_go.Serializer.Value.{Value, Values, Fields, slice, no_fields, field}
use ads_go.Serializer.Convert.{FloatConversions}
use ads_go.Serializer.Write.{
  SerializedField, serialize, serialize_fields, serialize_branches, serialize_array_item,
  serialize_array_or_primitive, serialize_primitive, place_fields, place_struct,
  has_explicit_offsets, is_empty, write_array,
}
use ads_go.Serializer.Read.{
  deserialize, deserialize_fields, deserialize_branches, deserialize_array_item,
  deserialize_array_or_primitive, deserialize_struct, deserialize_primitive, read_array,
}
use ads_go.Serializer.Typed.{
  IsScalar, IsTyped, AreTyped, scalar_typed, array_typed, struct_typed, none_typed, field_typed,
  type_width, scalar_width, last_offset, NamesDiffer, IsArray, elements,
}
use ads_go.Serializer.Scalars.{scalar_codes, slice_from-append}
use ads_go.Serializer.Arrays.{array-Codes, scalar_element}
use ads_go.Serializer.Places.{
  last_offset_within, explicit_kept, place_field, field_laid, length-laid,
}
use ads_go.Serializer.Layout.{
  append_fields, append_fields_assoc, NoneOf, NoneOf-append, NoneOf-empty, get_field-append,
  set_field-append,
}

append_nothing : (before : Fields) → append_fields before no_fields ≡ before
append_nothing no_fields = refl
append_nothing (field name v before) = ap (field name v) (append_nothing before)

whole : (n : ℕ) → n - 0 ≡ n
whole n = omega arith

nonzero : (n : ℕ) → 0 < n → (n == 0) ≡ false
nonzero n h = ground arith

module _ (floats : FloatConversions) (to_runes : Bytes → List ℕ) where
  -- A value's bytes, from which it is read back at its type's offset among others.
  abbrev Reads : AdsDataType → Value → Type 0
  Reads ty v =
      (b : Bytes) × (serialize floats to_runes ty v ≡ ok b)
      × (length b ≡ type_width ty)
      × ((p rest : Bytes)
          → length p ≡ (fields_of ty).offset
          → deserialize ty (p ++ (b ++ rest)) ≡ ok v)

  scalar-Reads :
      (t : AdsTypeFields) (v : Value)
      → is_empty t.array_info ≡ true
      → IsScalar t v
      → Reads (ads_type t no_sub_items) v
  unfolding serialize deserialize serialize_branches deserialize_branches
      serialize_array_or_primitive deserialize_array_or_primitive
  scalar-Reads t v e h =
      let (b, wrote, long, back) = scalar_codes floats to_runes t h in
      (b, rw e wrote, rw e long, λ p rest l. rw e (back p rest l))

  -- An array item without sub-items is a scalar.
  item_by_empty :
      (empty : Bool) (r s : Result Value) → (if (empty || true) && false then s else r) ≡ r
  item_by_empty true r s = refl
  item_by_empty false r s = refl

  array-Reads :
      (t : AdsTypeFields) (vs : Values)
      → is_empty t.array_info ≡ false
      → (b : Bytes) × (write_array (serialize_primitive floats to_runes t) t.array_info vs ≡ ok b)
        × (length b ≡ elements t.array_info * t.size)
        × ((front rest : Bytes) (pos : ℕ)
            → pos + t.offset ≡ length front
            → read_array (deserialize_primitive t) t.size (front ++ (b ++ rest)) t.array_info pos
              ≡ ok (vs, pos + elements t.array_info * t.size))
      → Reads (ads_type t no_sub_items) (slice vs)
  unfolding serialize deserialize serialize_branches deserialize_branches
      serialize_array_or_primitive deserialize_array_or_primitive serialize_array_item
      deserialize_array_item
  array-Reads t vs e (b, wrote, long, back) =
      (b, rw e wrote, rw e long, λ p rest l. rw (e, scalar_item, back p rest 0 (omega arith)) refl)
    where
      scalar_item :
          deserialize_array_item t false (λ bytes entries. ok entries) ≡ deserialize_primitive t
      scalar_item =
          fun_ext (λ bytes. item_by_empty (is_empty t.array_info) (deserialize_primitive t bytes) _)

  abbrev FieldsRead : AdsSubItems → ℕ → ℕ → Fields → Type 0
  FieldsRead items pos end entries =
      (parts : List SerializedField) × (laid : Bytes) × (pos ≤ end)
      × (last_offset items ≤ end)
      × (length laid ≡ end - pos)
      × (0 < last_offset items → has_explicit_offsets parts ≡ true)
      × ((before : Fields)
          → NoneOf before items
          → serialize_fields floats to_runes items (append_fields before entries) ≡ ok parts)
      × ((size : ℕ) (front : Bytes)
          → length front ≡ pos
          → place_fields size parts (front ++ make_bytes (end - pos)) ≡ ok (front ++ laid))
      × ((front rest : Bytes) (before : Fields)
          → length front ≡ pos
          → NoneOf before items
          → deserialize_fields items (front ++ (laid ++ rest)) before
            ≡ ok (append_fields before entries))

  no_fields_read : (pos end : ℕ) → pos ≤ end → FieldsRead no_sub_items pos end no_fields
  unfolding serialize_fields place_fields deserialize_fields
  no_fields_read pos end l = (
    [],
    make_bytes (end - pos),
    l,
    omega arith,
    length-replicate (end - pos) 0,
    λ h. absurd (omega arith),
    λ before h. refl,
    λ size front e. refl,
    λ front rest before e h. ap ok (sym (append_nothing before)),
  )

  field_in_front :
      (t : AdsTypeFields) (own items : AdsSubItems) (pos end : ℕ) (v : Value) (entries : Fields)
      (b : Bytes)
      → pos ≤ t.offset
      → NamesDiffer t.name items
      → serialize floats to_runes (ads_type t own) v ≡ ok b
      → ((p rest : Bytes)
          → length p ≡ t.offset
          → deserialize (ads_type t own) (p ++ (b ++ rest)) ≡ ok v)
      → FieldsRead items (t.offset + length b) end entries
      → FieldsRead (sub_item (ads_type t own) items) pos end (field t.name v entries)
  unfolding serialize_fields deserialize_fields
  field_in_front t own items pos end v entries b starts differ wrote back
        (parts, laid, ends, last, long, explicit, write_others, place_others, read_others) =
      (
        record { offset = t.offset; field_bytes = b } ∷ parts,
        make_bytes (t.offset - pos) ++ (b ++ laid),
        omega arith,
        last_offset_within t own items end (omega arith) last,
        length-laid t pos end b laid parts starts ends long,
        explicit_kept t own items b parts explicit,
        λ before none_of.
            let others : serialize_fields floats to_runes items
                  (append_fields before (field t.name v entries))
                ≡ ok parts =
              subst (λ m. serialize_fields floats to_runes items m ≡ ok parts)
                (append_fields_assoc before t.name v entries)
                (write_others (append_fields before (field t.name v no_fields))
                  (NoneOf-append t.name v before items none_of.1 differ)) in
            rw (get_field-append t.name v before entries none_of.0, wrote, others) refl,
        λ size front l.
            place_field t pos end b laid parts starts ends size front l (place_others size),
        λ front rest before l none_of.
            let gap : Bytes = make_bytes (t.offset - pos) in
            let places : front ++ ((gap ++ (b ++ laid)) ++ rest)
                ≡ (front ++ gap) ++ (b ++ (laid ++ rest)) =
              field_laid t pos end b laid parts starts ends front rest in
            let at_offset : length (front ++ gap) ≡ t.offset =
              omega (arith, length-append front gap, length-replicate {A = ℕ} (t.offset - pos) 0) in
            let first : deserialize (ads_type t own) (front ++ ((gap ++ (b ++ laid)) ++ rest))
                ≡ ok v =
              subst (λ x. deserialize (ads_type t own) x ≡ ok v) (sym places)
                (back (front ++ gap) (laid ++ rest) at_offset) in
            let later : Fields = append_fields before (field t.name v no_fields) in
            let others : deserialize_fields items (front ++ ((gap ++ (b ++ laid)) ++ rest)) later
                ≡ ok (append_fields later entries) =
              subst (λ x. deserialize_fields items x later ≡ ok (append_fields later entries))
                (append_assoc (front ++ gap) b (laid ++ rest) ∙ sym places)
                (read_others ((front ++ gap) ++ b) rest later
                  (omega (arith, length-append (front ++ gap) b, at_offset))
                  (NoneOf-append t.name v before items none_of.1 differ)) in
            rw (first, set_field-append t.name v before none_of.0, others)
              (ap ok (append_fields_assoc before t.name v entries)),
      )

  struct-Reads :
      (t : AdsTypeFields) (first : AdsDataType) (items : AdsSubItems) (entries : Fields)
      → is_empty t.array_info ≡ true
      → 0 < last_offset (sub_item first items)
      → FieldsRead (sub_item first items) 0 t.size entries
      → Reads (ads_type t (sub_item first items)) (Value.map entries)
  unfolding serialize deserialize serialize_branches deserialize_branches deserialize_struct
      place_struct
  struct-Reads t first items entries e offset
        (parts, laid, ends, last, long, explicit, write, place, read) =
      (
        laid,
        rw
            (
              e,
              write no_fields (NoneOf-empty (sub_item first items)),
              explicit offset,
              nonzero t.size (omega (arith, offset, last)),
            )
            (subst (λ n. place_fields t.size parts (make_bytes n) ≡ ok laid) (whole t.size)
              (place t.size [] refl)),
        omega (arith, long),
        λ p rest l.
            rw
              (
                e,
                slice_from-append t.offset p (laid ++ rest) l,
                read [] rest no_fields refl (NoneOf-empty (sub_item first items)),
              )
              refl,
      )

  array_typed-Reads :
      (t : AdsTypeFields) (vs : Values)
      → is_empty t.array_info ≡ false
      → scalar_width t.data_type t.size ≡ t.size
      → IsArray (IsScalar t) t.array_info vs
      → Reads (ads_type t no_sub_items) (slice vs)
  array_typed-Reads t vs e w h = array-Reads t vs e (
      array-Codes t.offset (IsScalar t) t.size (serialize_primitive floats to_runes t)
        (deserialize_primitive t) (λ v s. scalar_element t.offset floats to_runes t v refl w s)
        t.array_info vs h)

  field-Reads :
      (t : AdsTypeFields) (own items : AdsSubItems) (pos end : ℕ) (v : Value) (entries : Fields)
      → pos ≤ t.offset
      → NamesDiffer t.name items
      → Reads (ads_type t own) v
      → FieldsRead items (t.offset + type_width (ads_type t own)) end entries
      → FieldsRead (sub_item (ads_type t own) items) pos end (field t.name v entries)
  field-Reads t own items pos end v entries l d (b, wrote, long, back) g =
      field_in_front t own items pos end v entries b l d wrote back
        (subst (λ k. FieldsRead items (t.offset + k) end entries) (sym long) g)

  mutual
    typed-Reads : {ty : AdsDataType} {v : Value} → IsTyped ty v → Reads ty v
    typed-Reads (scalar_typed e h) = scalar-Reads _ _ e h
    typed-Reads (array_typed e w h) = array_typed-Reads _ _ e w h
    typed-Reads (struct_typed e o h) = struct-Reads _ _ _ _ e o (AreTyped-read h)

    AreTyped-read :
        {items : AdsSubItems} {pos end : ℕ} {entries : Fields}
        → AreTyped items pos end entries
        → FieldsRead items pos end entries
    AreTyped-read (none_typed l) = no_fields_read _ _ l
    AreTyped-read (field_typed l d h g) =
        field-Reads _ _ _ _ _ _ _ l d (typed-Reads h) (AreTyped-read g)

  -- Of a scalar in range, of an array of scalars that fill their places, and of a structure of such
  -- values and structures that do not overlap, `Serialize` makes the bytes, as many as the type
  -- takes, and `Deserialize` gives the same value back, at the type's offset and among other bytes.
  pub deserialize-serialize :
      (ty : AdsDataType) (v : Value) (before behind : Bytes)
      → IsTyped ty v
      → length before ≡ (fields_of ty).offset
      → (b : Bytes) × (serialize floats to_runes ty v ≡ ok b)
        × (length b ≡ type_width ty)
        × (deserialize ty (before ++ (b ++ behind)) ≡ ok v)
  deserialize-serialize ty v before behind h l =
      let (b, wrote, long, back) = typed-Reads h in (b, wrote, long, back before behind l)
