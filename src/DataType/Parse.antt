-- ===== src/DataType/Parse.antt =====
-- pkg/ads/ads-datatype/parse.go: the response to a request for a type, parsed with its sub-items.
use ads_go.Base.{
  ℕ, zero, suc, ◌+◌, ◌-◌, ◌%◌, ◌^◌, List, [], ◌++◌, Result, ok, panic, type_invalid_data,
  type_insufficient_data, type_invalid_entry_length, ◌>>=◌, ◌>>◌, fail_if, ltb, length, slice_to,
}
use ads_go.Base.Integer.{signed}
use ads_go.Wire.{Bytes, Reader, read_uint, read_full, read_some, le_value}
use ads_go.DataType.Types.{ArrayInfo, TypeFields, DataType, SubItems, described, no_items, item}
use ads_go.DataType.Optional.{read_times, parse_optional_fields}

-- `length+1` is a uint16: at 65535 it is 0, and the slice of the empty buffer panics.
unfoldable pub parse_string : ℕ → Reader Bytes
parse_string len bytes = do
  (buffer, bytes1) ← read_full ((len + 1) % 2 ^ 16) type_invalid_data bytes
  text ← slice_to len buffer
  ok (text, bytes1)

unfoldable pub read_array_info : Reader ArrayInfo
read_array_info bytes = do
  (start_index, bytes1) ← read_uint 4 type_invalid_data bytes
  (entries, bytes2) ← read_uint 4 type_invalid_data bytes1
  ok (record { start_index = signed (2 ^ 31) start_index; entries = entries }, bytes2)

unfoldable pub parse_array_info : ℕ → Reader (List ArrayInfo)
parse_array_info array_dim bytes = read_times array_dim read_array_info bytes

-- The fields and texts in front of the sub-items, and the number of these.
unfoldable pub parse_header : Reader (TypeFields × ℕ)
parse_header bytes = do
  (data_len, bytes1) ← read_uint 4 type_invalid_data bytes
  (version, bytes2) ← read_uint 4 type_invalid_data bytes1
  (hash_value, bytes3) ← read_uint 4 type_invalid_data bytes2
  (type_hash, bytes4) ← read_uint 4 type_invalid_data bytes3
  (size, bytes5) ← read_uint 4 type_invalid_data bytes4
  (offset, bytes6) ← read_uint 4 type_invalid_data bytes5
  (data_type, bytes7) ← read_uint 4 type_invalid_data bytes6
  (flags, bytes8) ← read_uint 4 type_invalid_data bytes7
  (name_len, bytes9) ← read_uint 2 type_invalid_data bytes8
  (type_len, bytes10) ← read_uint 2 type_invalid_data bytes9
  (comment_len, bytes11) ← read_uint 2 type_invalid_data bytes10
  (array_dim, bytes12) ← read_uint 2 type_invalid_data bytes11
  (num_sub_items, bytes13) ← read_uint 2 type_invalid_data bytes12
  (name, bytes14) ← parse_string name_len bytes13
  (type_name, bytes15) ← parse_string type_len bytes14
  (comment, bytes16) ← parse_string comment_len bytes15
  (array_info, bytes17) ← parse_array_info array_dim bytes16
  let fields : TypeFields = record {
    name = name;
    type_name = type_name;
    version = version;
    hash_value = hash_value;
    type_hash = type_hash;
    size = size;
    offset = offset;
    data_type = data_type;
    flags = flags;
    array_dim = array_dim;
    comment = comment;
    array_info = array_info;
    enum_info = [];
    attributes = [];
    methods = [];
    guid = [];
    extended_flags = 0;
    copy_mask = 0;
  }
  ok ((fields, num_sub_items), bytes17)

-- An entry with its length in front, cut out of the reader; a short entry is filled with zeros.
unfoldable pub read_entry : ℕ → Reader Bytes
read_entry i bytes = do
  (entry_len_buf, bytes1) ← read_some 4 type_invalid_data bytes
  fail_if (ltb (le_value entry_len_buf) 4) (type_invalid_entry_length (le_value entry_len_buf) i)
  (sub_item_buf, bytes2) ← read_some (le_value entry_len_buf - 4) type_invalid_data bytes1
  ok (entry_len_buf ++ sub_item_buf, bytes2)

-- The loop from round i on, with the parser of an entry.
unfoldable pub parse_sub_items : (Bytes → Result DataType) → ℕ → ℕ → Reader SubItems
parse_sub_items parse zero i bytes = ok (no_items, bytes)
parse_sub_items parse (suc count) i bytes = do
  (full_sub_item, bytes1) ← read_entry i bytes
  sub_item ← parse full_sub_item
  (items, bytes2) ← parse_sub_items parse count (suc i) bytes1
  ok (item sub_item items, bytes2)

-- One call of `ParseDataType`, with the recursive one.
unfoldable pub parse_with : (Bytes → Result DataType) → Bytes → Result DataType
parse_with parse bytes = do
  fail_if (ltb (length bytes) 4) type_insufficient_data
  ((fields, num_sub_items), bytes1) ← parse_header bytes
  (items, bytes2) ← parse_sub_items parse num_sub_items 0 bytes1
  (t, bytes3) ← parse_optional_fields fields bytes2
  ok (described t items)

-- The recursion to a depth, and what is called below it. The program knows no such bound.
unfoldable pub parse_nested : (Bytes → Result DataType) → ℕ → Bytes → Result DataType
parse_nested below zero bytes = below bytes
parse_nested below (suc depth) bytes = parse_with (parse_nested below depth) bytes

unfoldable pub parse_data_type : Bytes → Result DataType
parse_data_type bytes = parse_nested (λ _. panic) (suc (length bytes)) bytes

unfoldable pub check_data_type : Bytes → Result (Unit {0})
check_data_type bytes = fail_if (ltb (length bytes) 42) type_insufficient_data
