-- ===== src/DataType/Optionals.antt =====
-- pkg/ads/ads-datatype/parse.go: the optional blocks of a type, one after the other.
use ads_go.Base.{
  ℕ, ◌+◌, ◌-◌, ◌%◌, ◌^◌, ◌<◌, ◌≡◌, refl, ap, sym, ◌∙◌, Bool, true, false, List, [], ◌∷◌, ◌++◌,
  length, map, ok, type_invalid_data, arith, All, drop-append, drop-length, append_assoc,
}
use ads_go.Wire.{Bytes, Reader, le_bytes, read_some}
use ads_go.Wire.Readers.{read_uint-le_bytes, read_some-append}
use ads_go.Symbol.{hex}
use ads_go.DataType.Types.{Attribute, EnumInfo, TypeFields}
use ads_go.DataType.Optional.{
  skip_method, read_times, read_attribute, read_enum_info, extend_enum_info, parse_type_guid,
  parse_copy_mask, parse_method_infos, parse_attributes, parse_enum_infos, parse_extended_flags,
  parse_deref_type_item, parse_extended_enum_infos, parse_optional_fields, when_flag, has_type_guid,
  has_copy_mask, has_method_infos, has_deref_type_item, has_attributes, has_enum_infos,
  has_extended_flags, has_extended_enum_infos,
}
use ads_go.DataType.Image.{
  images, unhex, attribute_image, enum_image, extension_image, announced, optional_image,
  IsAttribute, IsEnumValue, IsEnumInfo, Announced, IsFields, Skipped, method_image, itself, IsEntry,
  IsTypeGuid,
}
use ads_go.DataType.Blocks.{
  read_times-images, read_each-images, read_attribute-image, read_enum_info-image,
  extend_enum_info-image, bare,
}

-- A block behind its flag, with what is known where it is there and where it is not.
when_flag-announced :
    {P Q : Type 0} (there : Bool) (parse : TypeFields → Reader TypeFields) (s s' : TypeFields)
    (block rest : Bytes)
    → (P → parse s (block ++ rest) ≡ ok (s', rest))
    → (Q → s ≡ s')
    → Announced there P Q
    → when_flag there parse s (announced there block ++ rest) ≡ ok (s', rest)
unfolding when_flag
when_flag-announced true parse s s' block rest h k a = h a
when_flag-announced false parse s s' block rest h k a = ap (λ t. ok (t, rest)) (k a)

guid_block :
    (s : TypeFields) (guid rest : Bytes)
    → s.guid ≡ []
    → Announced
        (has_type_guid s.flags)
        ((hex (unhex guid) ≡ guid) × (length (unhex guid) ≡ 16))
        (guid ≡ [])
    → when_flag
        (has_type_guid s.flags)
        parse_type_guid
        s
        (announced (has_type_guid s.flags) (unhex guid) ++ rest)
      ≡ ok (record s { guid = guid }, rest)
unfolding parse_type_guid
guid_block s guid rest e =
    when_flag-announced (has_type_guid s.flags) parse_type_guid s (record s { guid = guid })
      (unhex guid) rest (λ h. rw (read16 h.1) (λ i. ok (record s { guid = h.0 i }, rest)))
      (λ (q : guid ≡ []). λ i. record s { guid = (e ∙ sym q) i })
  where
    read16 :
        length (unhex guid) ≡ 16
        → read_some 16 type_invalid_data (unhex guid ++ rest) ≡ ok (unhex guid, rest)
    read16 l = rw l at (read_some-append (unhex guid) rest type_invalid_data (omega arith))

copy_mask_skipped :
    (there : Bool) (s : TypeFields) (mask rest : Bytes)
    → Announced there (length mask ≡ s.size) Unit
    → when_flag there parse_copy_mask s (announced there mask ++ rest) ≡ ok (s, rest)
unfolding parse_copy_mask when_flag
copy_mask_skipped true s mask rest h =
    ap (λ bytes. ok (s, bytes))
      (drop-append s.size mask rest (omega (arith, h))
        ∙ ap (λ (bytes : Bytes). bytes ++ rest) (drop-length s.size mask (omega (arith, h))))
copy_mask_skipped false s mask rest h = refl

skip_method-image :
    (entry rest : Bytes)
    → IsEntry entry
    → skip_method (method_image entry ++ rest) ≡ ok (entry, rest)
unfolding skip_method
skip_method-image entry rest h =
    rw
      (
        read_uint-le_bytes 4 (length entry + 4) type_invalid_data (entry ++ rest) h.1,
        size,
        read_some-append entry rest type_invalid_data h.0,
      )
      refl
  where
    size : (length entry + 4 + 2 ^ 32 - 4) % 2 ^ 32 ≡ length entry
    size = omega (arith, h.1)

methods_skipped :
    (there : Bool) (s : TypeFields) (entries : List Bytes) (rest : Bytes)
    → Announced there ((length entries < 2 ^ 16) × All IsEntry entries) Unit
    → when_flag there parse_method_infos s
        (announced there (le_bytes 2 (length entries) ++ images method_image entries) ++ rest)
      ≡ ok (s, rest)
unfolding parse_method_infos when_flag
methods_skipped true s entries rest h =
    rw
      (
        read_uint-le_bytes 2 (length entries) type_invalid_data
            (images method_image entries ++ rest) h.0,
        read_times-images IsEntry skip_method method_image skip_method-image entries rest h.1,
      )
      refl
methods_skipped false s entries rest h = refl

read_type_guid :
    (guid rest : Bytes)
    → IsTypeGuid guid
    → read_some 16 type_invalid_data (guid ++ rest) ≡ ok (guid, rest)
read_type_guid guid rest h =
    rw h at (read_some-append guid rest type_invalid_data (omega (arith, h)))

derefs_skipped :
    (there : Bool) (s : TypeFields) (guids : List Bytes) (rest : Bytes)
    → Announced there ((length guids < 2 ^ 16) × All IsTypeGuid guids) Unit
    → when_flag there parse_deref_type_item s
        (announced there (le_bytes 2 (length guids) ++ images itself guids) ++ rest)
      ≡ ok (s, rest)
unfolding parse_deref_type_item when_flag
derefs_skipped true s guids rest h =
    rw
      (
        read_uint-le_bytes 2 (length guids) type_invalid_data (images itself guids ++ rest) h.0,
        read_times-images IsTypeGuid (read_some 16 type_invalid_data) itself read_type_guid guids
            rest h.1,
      )
      refl
derefs_skipped false s guids rest h = refl

attribute_block :
    (s : TypeFields) (attributes : List Attribute) (rest : Bytes)
    → s.attributes ≡ []
    → Announced
        (has_attributes s.flags)
        ((length attributes < 2 ^ 16) × All IsAttribute attributes)
        (attributes ≡ [])
    → when_flag (has_attributes s.flags) parse_attributes s (
        announced
          (has_attributes s.flags)
          (le_bytes 2 (length attributes) ++ images attribute_image attributes)
        ++ rest)
      ≡ ok (record s { attributes = attributes }, rest)
unfolding parse_attributes
attribute_block s attributes rest e =
    when_flag-announced (has_attributes s.flags) parse_attributes s
      (record s { attributes = attributes })
      (le_bytes 2 (length attributes) ++ images attribute_image attributes) rest
      (λ h.
        rw
          (
            read_uint-le_bytes 2 (length attributes) type_invalid_data
                (images attribute_image attributes ++ rest) h.0,
            read_times-images IsAttribute read_attribute attribute_image read_attribute-image
                attributes rest h.1,
          )
          refl)
      (λ (q : attributes ≡ []). λ i. record s { attributes = (e ∙ sym q) i })

named :
    (extended : Bool) (size : ℕ) (info : EnumInfo)
    → IsEnumInfo extended size info
    → (length info.name < 256) × IsEnumValue size info.value
named true size info h = (h.0, h.1)
named false size info h = (h.0, h.1)

-- The entries of the block of enumeration values leave out comments and attributes.
read_bare_infos :
    (extended : Bool) (size : ℕ) (infos : List EnumInfo) (rest : Bytes)
    → All (IsEnumInfo extended size) infos
    → read_times (length infos) (read_enum_info size) (images (enum_image size) infos ++ rest)
      ≡ ok (map bare infos, rest)
unfolding read_times
read_bare_infos extended size [] rest h = refl
read_bare_infos extended size (info ∷ infos) rest h =
    rw
      (
        append_assoc (enum_image size info) (images (enum_image size) infos) rest,
        read_enum_info-image size info (images (enum_image size) infos ++ rest)
            (named extended size info h.0).0 (named extended size info h.0).1,
        read_bare_infos extended size infos rest h.1,
      )
      refl

enum_block :
    (s : TypeFields) (infos : List EnumInfo) (rest : Bytes)
    → s.enum_info ≡ []
    → Announced
        (has_enum_infos s.flags)
        ((length infos < 2 ^ 16) × All (IsEnumInfo (has_extended_enum_infos s.flags) s.size) infos)
        (infos ≡ [])
    → when_flag (has_enum_infos s.flags) parse_enum_infos s (
        announced
          (has_enum_infos s.flags)
          (le_bytes 2 (length infos) ++ images (enum_image s.size) infos)
        ++ rest)
      ≡ ok (record s { enum_info = map bare infos }, rest)
unfolding parse_enum_infos
enum_block s infos rest e =
    when_flag-announced (has_enum_infos s.flags) parse_enum_infos s
      (record s { enum_info = map bare infos })
      (le_bytes 2 (length infos) ++ images (enum_image s.size) infos) rest
      (λ h.
        rw
          (
            read_uint-le_bytes 2 (length infos) type_invalid_data
                (images (enum_image s.size) infos ++ rest) h.0,
            read_bare_infos (has_extended_enum_infos s.flags) s.size infos rest h.1,
          )
          refl)
      (λ (q : infos ≡ []). λ i. record s { enum_info = (e ∙ ap (map bare) (sym q)) i })

extended_flags_block :
    (s : TypeFields) (flags : ℕ) (rest : Bytes)
    → s.extended_flags ≡ 0
    → Announced (has_extended_flags s.flags) (flags < 2 ^ 32) (flags ≡ 0)
    → when_flag
        (has_extended_flags s.flags)
        parse_extended_flags
        s
        (announced (has_extended_flags s.flags) (le_bytes 4 flags) ++ rest)
      ≡ ok (record s { extended_flags = flags }, rest)
unfolding parse_extended_flags
extended_flags_block s flags rest e =
    when_flag-announced (has_extended_flags s.flags) parse_extended_flags s
      (record s { extended_flags = flags }) (le_bytes 4 flags) rest
      (λ h. rw (read_uint-le_bytes 4 flags type_invalid_data rest h) refl)
      (λ (q : flags ≡ 0). λ i. record s { extended_flags = (e ∙ sym q) i })

-- Where the values have no comments and attributes, the bare ones are all.
bare_is_whole :
    (size : ℕ) (infos : List EnumInfo) → All (IsEnumInfo false size) infos → map bare infos ≡ infos
bare_is_whole size [] h = refl
bare_is_whole size (info ∷ infos) h = λ i.
    (record info { comment = sym h.0.2 i; attributes = sym h.0.3 i }
      ∷ bare_is_whole size infos h.1 i)

extended_infos :
    (extended : Bool) (s : TypeFields) (infos : List EnumInfo) (rest : Bytes)
    → s.enum_info ≡ map bare infos
    → All (IsEnumInfo extended s.size) infos
    → when_flag extended parse_extended_enum_infos s
        (announced extended (images extension_image infos) ++ rest)
      ≡ ok (record s { enum_info = infos }, rest)
unfolding parse_extended_enum_infos when_flag
extended_infos true s infos rest e h =
    rw
      (
        e,
        read_each-images (IsEnumInfo true s.size) bare extend_enum_info extension_image
            (λ info more g. extend_enum_info-image info more (g.2, g.3, g.4)) infos rest h,
      )
      refl
extended_infos false s infos rest e h =
    λ i. ok (record s { enum_info = (e ∙ bare_is_whole s.size infos h) i }, rest)

-- The fields as they stand in front of the sub-items.
abbrev pub fields_at_first : TypeFields → TypeFields
fields_at_first t = record t {
  guid = [];
  attributes = [];
  enum_info = [];
  extended_flags = 0;
  methods = [];
  copy_mask = 0;
}

-- The values of a type are whole in either case.
infos_whole :
    (there extended : Bool) (size : ℕ) (infos : List EnumInfo)
    → Announced there ((length infos < 2 ^ 16) × All (IsEnumInfo extended size) infos) (infos ≡ [])
    → All (IsEnumInfo extended size) infos
infos_whole true extended size infos h = h.1
infos_whole false extended size infos h = rw h tt

pub parse_optional_fields-image :
    (sent : TypeFields → Skipped) (t : TypeFields) (rest : Bytes)
    → IsFields sent t
    → parse_optional_fields (fields_at_first t) (optional_image sent t rest) ≡ ok (t, rest)
unfolding parse_optional_fields
parse_optional_fields-image sent t rest h =
    rw
      (
        guid_block (fields_at_first t) t.guid _ refl h.guid_block,
        copy_mask_skipped (has_copy_mask t.flags) (record (fields_at_first t) { guid = t.guid })
            (sent t).mask _ h.mask_block,
        methods_skipped (has_method_infos t.flags) (record (fields_at_first t) { guid = t.guid })
            (sent t).methods _ h.method_block,
        attribute_block (record (fields_at_first t) { guid = t.guid }) t.attributes _ refl
            h.attribute_block,
        enum_block (record (fields_at_first t) { guid = t.guid; attributes = t.attributes })
            t.enum_info _ refl h.enum_block,
        extended_flags_block
            (record (fields_at_first t) {
              guid = t.guid;
              attributes = t.attributes;
              enum_info = map bare t.enum_info;
            })
            t.extended_flags _ refl h.flags_block,
        derefs_skipped (has_deref_type_item t.flags)
            (record t { enum_info = map bare t.enum_info; methods = []; copy_mask = 0 })
            (sent t).type_guids _ h.deref_block,
        extended_infos (has_extended_enum_infos t.flags)
            (record t { enum_info = map bare t.enum_info; methods = []; copy_mask = 0 }) t.enum_info
            rest refl
            (infos_whole (has_enum_infos t.flags) (has_extended_enum_infos t.flags) t.size
              t.enum_info h.enum_block),
      )
      (λ i. ok (record t { methods = sym h.methods_empty i; copy_mask = sym h.mask_zero i }, rest))
