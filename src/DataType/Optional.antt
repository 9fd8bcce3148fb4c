-- ===== src/DataType/Optional.antt =====
-- pkg/ads/ads-datatype/parse.go: the blocks that the flags of a type announce, in their order.
use ads_go.Base.{
  ℕ, zero, suc, ◌+◌, ◌-◌, ◌%◌, ◌^◌, Bool, ◌||◌, List, [], ◌∷◌, ◌==◌, if◌then◌else◌, ok,
  type_invalid_data, ◌>>=◌, length, take, drop,
}
use ads_go.Base.Integer.{ℤ, pos, signed}
use ads_go.Wire.{Bytes, Reader, read_uint, read_some, le_value}
use ads_go.Symbol.{has_flag, hex}
use ads_go.DataType.Types.{TypeFields, Attribute, EnumInfo}

-- A loop of `count` rounds that appends what each reads.
unfoldable pub read_times : {A : Type 0} → ℕ → Reader A → Reader (List A)
read_times zero read bytes = ok ([], bytes)
read_times (suc count) read bytes = do
  (x, bytes1) ← read bytes
  (xs, bytes2) ← read_times count read bytes1
  ok (x ∷ xs, bytes2)

-- A loop over a list that is updated in place.
unfoldable pub read_each : {A : Type 0} → (A → Reader A) → List A → Reader (List A)
read_each read [] bytes = ok ([], bytes)
read_each read (x ∷ xs) bytes = do
  (y, bytes1) ← read x bytes
  (ys, bytes2) ← read_each read xs bytes1
  ok (y ∷ ys, bytes2)

abbrev pub has_type_guid : ℕ → Bool
has_type_guid flags = has_flag 0x80 flags

abbrev pub has_copy_mask : ℕ → Bool
has_copy_mask flags = has_flag 0x200 flags

abbrev pub has_method_infos : ℕ → Bool
has_method_infos flags = has_flag 0x800 flags

abbrev pub has_attributes : ℕ → Bool
has_attributes flags = has_flag 0x1000 flags

abbrev pub has_enum_infos : ℕ → Bool
has_enum_infos flags = has_flag 0x2000 flags

abbrev pub has_extended_flags : ℕ → Bool
has_extended_flags flags = has_flag 0x80000000 flags

abbrev pub has_deref_type_item : ℕ → Bool
has_deref_type_item flags = has_flag 0x10000000 flags

abbrev pub has_extended_enum_infos : ℕ → Bool
has_extended_enum_infos flags = has_flag 0x20000000 flags

unfoldable pub parse_type_guid : TypeFields → Reader TypeFields
parse_type_guid t bytes = do
  (guid, bytes1) ← read_some 16 type_invalid_data bytes
  ok (record t { guid = hex guid }, bytes1)

-- `Seek` may go past the end, where every later read fails.
unfoldable pub parse_copy_mask : TypeFields → Reader TypeFields
parse_copy_mask t bytes = ok (t, drop t.size bytes)

-- `entryLen-4` wraps around below 4.
unfoldable pub skip_method : Reader Bytes
skip_method bytes = do
  (entry_len, bytes1) ← read_uint 4 type_invalid_data bytes
  read_some ((entry_len + 2 ^ 32 - 4) % 2 ^ 32) type_invalid_data bytes1

unfoldable pub parse_method_infos : TypeFields → Reader TypeFields
parse_method_infos t bytes = do
  (method_count, bytes1) ← read_uint 2 type_invalid_data bytes
  (skipped, bytes2) ← read_times method_count skip_method bytes1
  ok (t, bytes2)

-- A text of a length and one byte more, which is dropped.
unfoldable pub read_text : ℕ → Reader Bytes
read_text len bytes = do
  (buffer, bytes1) ← read_some (len + 1) type_invalid_data bytes
  ok (take len buffer, bytes1)

unfoldable pub read_attribute : Reader Attribute
read_attribute bytes = do
  (name_len, bytes1) ← read_uint 1 type_invalid_data bytes
  (val_len, bytes2) ← read_uint 1 type_invalid_data bytes1
  (name, bytes3) ← read_text name_len bytes2
  (value, bytes4) ← read_text val_len bytes3
  ok (record { name = name; value = value }, bytes4)

unfoldable pub parse_attributes : TypeFields → Reader TypeFields
parse_attributes t bytes = do
  (attribute_count, bytes1) ← read_uint 2 type_invalid_data bytes
  (attributes, bytes2) ← read_times attribute_count read_attribute bytes1
  ok (record t { attributes = attributes }, bytes2)

-- 1, 2 and 4 bytes are read as unsigned; 8 as a signed number, and so are the other sizes, after
-- they are cut or filled up to 8.
abbrev pub enum_value : Bytes → ℤ
enum_value buffer =
    if (length buffer == 1) || (length buffer == 2) || (length buffer == 4)
    then pos (le_value buffer)
    else signed (2 ^ 63) (le_value (take 8 buffer))

unfoldable pub read_enum_info : ℕ → Reader EnumInfo
read_enum_info size bytes = do
  (name_len, bytes1) ← read_uint 1 type_invalid_data bytes
  (name, bytes2) ← read_text name_len bytes1
  (value, bytes3) ← read_some size type_invalid_data bytes2
  ok (record { name = name; value = enum_value value; comment = []; attributes = [] }, bytes3)

unfoldable pub parse_enum_infos : TypeFields → Reader TypeFields
parse_enum_infos t bytes = do
  (enum_info_count, bytes1) ← read_uint 2 type_invalid_data bytes
  (infos, bytes2) ← read_times enum_info_count (read_enum_info t.size) bytes1
  ok (record t { enum_info = infos }, bytes2)

unfoldable pub parse_extended_flags : TypeFields → Reader TypeFields
parse_extended_flags t bytes = do
  (ext_flags, bytes1) ← read_uint 4 type_invalid_data bytes
  ok (record t { extended_flags = ext_flags }, bytes1)

unfoldable pub parse_deref_type_item : TypeFields → Reader TypeFields
parse_deref_type_item t bytes = do
  (count, bytes1) ← read_uint 2 type_invalid_data bytes
  (guids, bytes2) ← read_times count (read_some 16 type_invalid_data) bytes1
  ok (t, bytes2)

-- The entry's length is read and not used.
unfoldable pub extend_enum_info : EnumInfo → Reader EnumInfo
extend_enum_info info bytes = do
  (entry_len, bytes1) ← read_uint 2 type_invalid_data bytes
  (comment_len, bytes2) ← read_uint 1 type_invalid_data bytes1
  (attr_count, bytes3) ← read_uint 1 type_invalid_data bytes2
  (comment, bytes4) ← read_text comment_len bytes3
  (attributes, bytes5) ← read_times attr_count read_attribute bytes4
  ok (record info { comment = comment; attributes = attributes }, bytes5)

-- Without a block of enumeration values there is none to extend.
unfoldable pub parse_extended_enum_infos : TypeFields → Reader TypeFields
parse_extended_enum_infos t bytes = do
  (infos, bytes1) ← read_each extend_enum_info t.enum_info bytes
  ok (record t { enum_info = infos }, bytes1)

-- `if dataType.Flags&flag != 0 { if err := parse(...); err != nil { return err } }`
unfoldable pub when_flag : Bool → (TypeFields → Reader TypeFields) → TypeFields → Reader TypeFields
when_flag announced parse t bytes = if announced then parse t bytes else ok (t, bytes)

unfoldable pub parse_optional_fields : TypeFields → Reader TypeFields
parse_optional_fields t0 bytes = do
  (t1, bytes1) ← when_flag (has_type_guid t0.flags) parse_type_guid t0 bytes
  (t2, bytes2) ← when_flag (has_copy_mask t1.flags) parse_copy_mask t1 bytes1
  (t3, bytes3) ← when_flag (has_method_infos t2.flags) parse_method_infos t2 bytes2
  (t4, bytes4) ← when_flag (has_attributes t3.flags) parse_attributes t3 bytes3
  (t5, bytes5) ← when_flag (has_enum_infos t4.flags) parse_enum_infos t4 bytes4
  (t6, bytes6) ← when_flag (has_extended_flags t5.flags) parse_extended_flags t5 bytes5
  (t7, bytes7) ← when_flag (has_deref_type_item t6.flags) parse_deref_type_item t6 bytes6
  when_flag (has_extended_enum_infos t7.flags) parse_extended_enum_infos t7 bytes7
