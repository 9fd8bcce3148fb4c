-- ===== src/DataType/Image.antt =====
-- The response with which a device describes a type, as pkg/ads/ads-datatype/parse.go lays it out.
use ads_go.Base.{
  ℕ, ◌+◌, ◌-◌, ◌*◌, ◌^◌, ◌<◌, ◌≡◌, ◌⊎◌, Bool, true, false, List, [], ◌∷◌, ◌++◌, length, All, ltb,
  if◌then◌else◌,
}
use ads_go.Base.Integer.{ℤ, pos, pattern_of, Fits}
use ads_go.Wire.{Bytes, le_bytes}
use ads_go.Symbol.{hex}
use ads_go.DataType.Types.{
  ArrayInfo, Attribute, EnumInfo, TypeFields, DataType, SubItems, described, no_items, item,
  count_items,
}
use ads_go.DataType.Optional.{
  has_type_guid, has_copy_mask, has_method_infos, has_attributes, has_enum_infos,
  has_extended_flags, has_deref_type_item, has_extended_enum_infos,
}

-- A text with its terminator.
abbrev pub text_image : Bytes → Bytes
text_image text = text ++ (0 ∷ [])

abbrev pub images : {A : Type 0} → (A → Bytes) → List A → Bytes
images image [] = []
images image (x ∷ xs) = image x ++ images image xs

abbrev pub array_image : ArrayInfo → Bytes
array_image info = le_bytes 4 (pattern_of (2 ^ 31) info.start_index) ++ le_bytes 4 info.entries

-- The fields behind the data length, up to the sub-items.
abbrev pub header_image : TypeFields → ℕ → Bytes → Bytes
header_image t num_sub_items rest =
    le_bytes 4 t.version
    ++ (le_bytes 4 t.hash_value
        ++ (le_bytes 4 t.type_hash
            ++ (le_bytes 4 t.size
                ++ (le_bytes 4 t.offset
                    ++ (le_bytes 4 t.data_type
                        ++ (le_bytes 4 t.flags
                            ++ (le_bytes 2 (length t.name)
                                ++ (le_bytes 2 (length t.type_name)
                                    ++ (le_bytes 2 (length t.comment)
                                        ++ (le_bytes 2 t.array_dim
                                            ++ (le_bytes 2 num_sub_items
                                                ++ (text_image t.name
                                                    ++ (text_image t.type_name
                                                        ++ (text_image t.comment
                                                            ++ (images array_image t.array_info
                                                            ++ rest)))))))))))))))

-- The digits of `hex`, read back.
abbrev pub nibble : ℕ → ℕ
nibble c = if ltb c b'a' then c - b'0' else c - b'a' + 10

abbrev pub unhex : Bytes → Bytes
unhex [] = []
unhex (c ∷ []) = []
unhex (c ∷ d ∷ text) = (16 * nibble c + nibble d) ∷ unhex text

abbrev pub attribute_image : Attribute → Bytes
attribute_image a =
    le_bytes 1 (length a.name)
    ++ (le_bytes 1 (length a.value) ++ (text_image a.name ++ text_image a.value))

abbrev pub enum_image : ℕ → EnumInfo → Bytes
enum_image size info =
    le_bytes 1 (length info.name)
    ++ (text_image info.name ++ le_bytes size (pattern_of (2 ^ 63) info.value))

abbrev pub extension_image : EnumInfo → Bytes
extension_image info =
    le_bytes 2 (length info.comment + 5)
    ++ (le_bytes 1 (length info.comment)
        ++ (le_bytes 1 (length info.attributes)
            ++ (text_image info.comment ++ images attribute_image info.attributes)))

-- A block that is there when its flag is set.
abbrev pub announced : Bool → Bytes → Bytes
announced there block = if there then block else []

-- What a device sends of a type and the parser passes over: a copy mask, the entries of methods, and
-- the GUIDs of dereferenced types.
pub record Skipped : Type 0 where
  pub mask : Bytes
  pub methods : List Bytes
  pub type_guids : List Bytes

abbrev pub method_image : Bytes → Bytes
method_image entry = le_bytes 4 (length entry + 4) ++ entry

abbrev pub itself : Bytes → Bytes
itself bytes = bytes

abbrev pub IsAttribute : Attribute → Type 0
IsAttribute a = (length a.name < 256) × (length a.value < 256)

abbrev pub IsArrayEntry : ArrayInfo → Type 0
IsArrayEntry info = Fits (2 ^ 31) info.start_index × (info.entries < 2 ^ 32)

-- 1, 2 and 4 bytes hold an unsigned value, 8 a signed one.
abbrev pub IsEnumValue : ℕ → ℤ → Type 0
IsEnumValue size value =
    ((size ≡ 8) × Fits (2 ^ 63) value)
    ⊎ (((size ≡ 1) ⊎ (size ≡ 2) ⊎ (size ≡ 4)) × ((n : ℕ) × (value ≡ pos n) × (n < 256 ^ size)))

-- Comments and attributes come in the block of extended enumeration values only.
abbrev pub IsEnumInfo : Bool → ℕ → EnumInfo → Type 0
IsEnumInfo true size info =
    (length info.name < 256)
    × IsEnumValue size info.value
    × (length info.comment < 256)
    × (length info.attributes < 256)
    × All IsAttribute info.attributes
IsEnumInfo false size info =
    (length info.name < 256)
    × IsEnumValue size info.value
    × (info.comment ≡ [])
    × (info.attributes ≡ [])

-- What a block holds when it is there, and what the field is when it is not.
abbrev pub Announced : Bool → Type 0 → Type 0 → Type 0
Announced true present absent = present
Announced false present absent = absent

abbrev pub IsEntry : Bytes → Type 0
IsEntry entry = (0 < length entry) × (length entry + 4 < 2 ^ 32)

abbrev pub IsTypeGuid : Bytes → Type 0
IsTypeGuid guid = length guid ≡ 16

-- Given what is sent of each type beside what is read.
module _ (sent : TypeFields → Skipped) where
  abbrev pub optional_image : TypeFields → Bytes → Bytes
  optional_image t rest =
      announced (has_type_guid t.flags) (unhex t.guid)
      ++ (announced (has_copy_mask t.flags) (sent t).mask
          ++ (announced (has_method_infos t.flags)
                (le_bytes 2 (length (sent t).methods) ++ images method_image (sent t).methods)
              ++ (announced (has_attributes t.flags)
                    (le_bytes 2 (length t.attributes) ++ images attribute_image t.attributes)
                  ++ (announced (has_enum_infos t.flags)
                        (le_bytes 2 (length t.enum_info) ++ images (enum_image t.size) t.enum_info)
                      ++ (announced (has_extended_flags t.flags) (le_bytes 4 t.extended_flags)
                          ++ (announced (has_deref_type_item t.flags) (
                                le_bytes 2 (length (sent t).type_guids)
                                ++ images itself (sent t).type_guids)
                              ++ (announced (has_extended_enum_infos t.flags)
                                    (images extension_image t.enum_info)
                                  ++ rest)))))))

  -- A type behind its data length; a sub-item has the length of its entry there.
  abbrev mutual
    pub type_image : DataType → Bytes → Bytes
    type_image (described t items) rest =
        header_image t (count_items items) (items_image items (optional_image t rest))

    pub items_image : SubItems → Bytes → Bytes
    items_image no_items rest = rest
    items_image (item t items) rest =
        le_bytes 4 (length (type_image t []) + 4) ++ (type_image t [] ++ items_image items rest)

  abbrev pub response_image : ℕ → DataType → Bytes → Bytes
  response_image data_len t rest = le_bytes 4 data_len ++ type_image t rest

  -- Fields that fit their places. The parser keeps no methods and no mask.
  pub record IsFields (t : TypeFields) : Type 0 where
    pub version_word : t.version < 2 ^ 32
    pub hash_word : t.hash_value < 2 ^ 32
    pub type_hash_word : t.type_hash < 2 ^ 32
    pub size_word : t.size < 2 ^ 32
    pub offset_word : t.offset < 2 ^ 32
    pub data_type_word : t.data_type < 2 ^ 32
    pub flags_word : t.flags < 2 ^ 32
    pub name_short : length t.name < 65535
    pub type_short : length t.type_name < 65535
    pub comment_short : length t.comment < 65535
    pub dims_short : t.array_dim < 2 ^ 16
    pub dims : length t.array_info ≡ t.array_dim
    pub arrays : All IsArrayEntry t.array_info
    pub guid_block :
        Announced
          (has_type_guid t.flags)
          ((hex (unhex t.guid) ≡ t.guid) × (length (unhex t.guid) ≡ 16))
          (t.guid ≡ [])
    pub attribute_block :
        Announced
          (has_attributes t.flags)
          ((length t.attributes < 2 ^ 16) × All IsAttribute t.attributes)
          (t.attributes ≡ [])
    pub enum_block :
        Announced
          (has_enum_infos t.flags)
          ((length t.enum_info < 2 ^ 16)
            × All (IsEnumInfo (has_extended_enum_infos t.flags) t.size) t.enum_info)
          (t.enum_info ≡ [])
    pub flags_block :
        Announced (has_extended_flags t.flags) (t.extended_flags < 2 ^ 32) (t.extended_flags ≡ 0)
    pub mask_block : Announced (has_copy_mask t.flags) (length (sent t).mask ≡ t.size) Unit
    pub method_block :
        Announced
          (has_method_infos t.flags)
          ((length (sent t).methods < 2 ^ 16) × All IsEntry (sent t).methods)
          Unit
    pub deref_block :
        Announced
          (has_deref_type_item t.flags)
          ((length (sent t).type_guids < 2 ^ 16) × All IsTypeGuid (sent t).type_guids)
          Unit
    pub methods_empty : t.methods ≡ []
    pub mask_zero : t.copy_mask ≡ 0

  abbrev mutual
    pub IsWireType : DataType → Type 0
    IsWireType (described t items) = IsFields t × (count_items items < 2 ^ 16) × AreWireTypes items

    pub AreWireTypes : SubItems → Type 0
    AreWireTypes no_items = Unit
    AreWireTypes (item t items) =
        IsWireType t × (length (type_image t []) + 4 < 2 ^ 32) × AreWireTypes items
