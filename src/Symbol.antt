-- ===== src/Symbol.antt =====
-- pkg/ads/ads-symbol: types.go and parse.go; and the symbol table of client_symbols.go.
pub mod RoundTrip
pub mod Checks
pub mod Upload
use ads_go.Base.{
  ℕ, zero, suc, ◌+◌, ◌-◌, ◌*◌, ◌/◌, ◌%◌, ◌^◌, Bool, true, false, not, ◌&&◌, ◌||◌, List, [], ◌∷◌,
  ◌++◌, Result, ok, err, panic, Error, unexpected_eof, invalid_symbol_length,
  symbol_insufficient_data, ◌>>=◌, ◌>>◌, fail_if, ltb, leb, ◌==◌, if◌then◌else◌, length, take, drop,
}
use ads_go.Base.Integer.{ℤ, signed}
use ads_go.Wire.{Bytes, Reader, read_uint, read_full, read_some, uint_at, le_value}
use ads_go.NetId.{decode_plc_string_buffer}

pub record SymbolAttribute : Type 0 where
  pub name : Bytes
  pub value : Bytes

pub record ArrayInfoEntry : Type 0 where
  pub start_index : ℤ
  pub entries : ℕ

-- `type_guid` is empty where there is none.
pub record AdsSymbol : Type 0 where
  pub index_group : ℕ
  pub index_offset : ℕ
  pub size : ℕ
  pub data_type : ℕ
  pub flags : ℕ
  pub name_length : ℕ
  pub type_length : ℕ
  pub comment_length : ℕ
  pub name : Bytes
  pub type_name : Bytes
  pub comment : Bytes
  pub array_info : List ArrayInfoEntry
  pub type_guid : Bytes
  pub attributes : List SymbolAttribute

-- `symbol.Flags&flag != 0` of a flag of one bit.
abbrev pub has_flag : ℕ → ℕ → Bool
has_flag flag flags = not (flags / flag % 2 == 0)

abbrev pub flag_type_guid : ℕ
flag_type_guid = 0x8

abbrev pub flag_attributes : ℕ
flag_attributes = 0x1000

-- An entry that is cut short ends the loop, and its bytes are gone from the reader.
unfoldable pub parse_array_info : ℕ → Bytes → List ArrayInfoEntry × Bytes
parse_array_info zero bytes = ([], bytes)
parse_array_info (suc count) bytes = elim (read_uint 4 unexpected_eof bytes) [
  | ok (start_index, bytes1) ↦ elim (read_uint 4 unexpected_eof bytes1) [
    | ok (entries, bytes2) ↦
        let rest = parse_array_info count bytes2 in
        (record { start_index = signed (2 ^ 31) start_index; entries = entries } ∷ rest.0, rest.1)
    | err e ↦ ([], [])
    | panic ↦ ([], [])
  ]
  | err e ↦ ([], [])
  | panic ↦ ([], [])
]

-- `fmt.Sprintf("%x", buf)`.
abbrev pub hex_digit : ℕ → ℕ
hex_digit d = if ltb d 10 then b'0' + d else b'a' + d - 10

abbrev pub hex : Bytes → Bytes
hex [] = []
hex (b ∷ bytes) = hex_digit (b / 16) ∷ hex_digit (b % 16) ∷ hex bytes

unfoldable pub parse_type_guid : Bytes → Bytes × Bytes
parse_type_guid bytes = elim (read_some 16 unexpected_eof bytes) [
  | ok (guid, rest) ↦ (hex guid, rest)
  | err e ↦ ([], bytes)
  | panic ↦ ([], bytes)
]

-- Each attribute: two lengths, and two texts a byte longer than these.
unfoldable pub parse_attributes : ℕ → Bytes → List SymbolAttribute
parse_attributes zero bytes = []
parse_attributes (suc count) [] = []
parse_attributes (suc count) (b ∷ []) = []
parse_attributes (suc count) (name_len ∷ value_len ∷ bytes) =
    elim (read_some (name_len + 1) unexpected_eof bytes) [
      | ok (name, bytes1) ↦ elim (read_some (value_len + 1) unexpected_eof bytes1) [
        | ok (value, bytes2) ↦
            record { name = decode_plc_string_buffer name; value = decode_plc_string_buffer value }
            ∷ parse_attributes count bytes2
        | err e ↦ []
        | panic ↦ []
      ]
      | err e ↦ []
      | panic ↦ []
    ]

unfoldable pub parse_attribute_block : Bytes → List SymbolAttribute
parse_attribute_block bytes = elim (read_uint 2 unexpected_eof bytes) [
  | ok (count, rest) ↦ parse_attributes count rest
  | err e ↦ []
  | panic ↦ []
]

unfoldable pub parse_symbol : Bytes → Result AdsSymbol
parse_symbol bytes = do
  fail_if (ltb (length bytes) 30) (invalid_symbol_length (length bytes))
  (data_len, bytes1) ← read_uint 4 unexpected_eof bytes
  (index_group, bytes2) ← read_uint 4 unexpected_eof bytes1
  (index_offset, bytes3) ← read_uint 4 unexpected_eof bytes2
  (size, bytes4) ← read_uint 4 unexpected_eof bytes3
  (data_type, bytes5) ← read_uint 4 unexpected_eof bytes4
  (flags, bytes6) ← read_uint 4 unexpected_eof bytes5
  (name_length, bytes7) ← read_uint 2 unexpected_eof bytes6
  (type_length, bytes8) ← read_uint 2 unexpected_eof bytes7
  (comment_length, bytes9) ← read_uint 2 unexpected_eof bytes8
  let required = (name_length + 1) + (type_length + 1) + (comment_length + 1)
  fail_if (ltb (length bytes9) required) (symbol_insufficient_data required (length bytes9))
  (name, bytes10) ← read_full (name_length + 1) unexpected_eof bytes9
  (type_name, bytes11) ← read_full (type_length + 1) unexpected_eof bytes10
  (comment, bytes12) ← read_full (comment_length + 1) unexpected_eof bytes11
  let arrays = parse_array_info (flags / 2 ^ 16) bytes12
  let guid = if has_flag flag_type_guid flags then parse_type_guid arrays.1 else ([], arrays.1)
  let has_attributes = has_flag flag_attributes flags && leb 2 (length guid.1)
  ok (record {
    index_group = index_group;
    index_offset = index_offset;
    size = size;
    data_type = data_type;
    flags = flags;
    name_length = name_length;
    type_length = type_length;
    comment_length = comment_length;
    name = decode_plc_string_buffer name;
    type_name = decode_plc_string_buffer type_name;
    comment = decode_plc_string_buffer comment;
    array_info = arrays.0;
    type_guid = guid.0;
    attributes = if has_attributes then parse_attribute_block guid.1 else [];
  })

unfoldable pub check_symbol : Bytes → Result (Unit {0})
check_symbol bytes = do
  fail_if (ltb (length bytes) 30) (invalid_symbol_length (length bytes))
  name_len ← uint_at 24 26 bytes
  type_len ← uint_at 26 28 bytes
  comment_len ← uint_at 28 30 bytes
  let required = 30 + name_len + 1 + type_len + 1 + comment_len
  fail_if (ltb (length bytes) required) (symbol_insufficient_data required (length bytes))

-- The loop of `UploadSymbols` over the blob: an entry that cannot be parsed is left out, one of
-- length 0 or past the end ends the loop.
abbrev pub add_parsed : Result AdsSymbol → List AdsSymbol → List AdsSymbol
add_parsed (ok symbol) symbols = symbol ∷ symbols
add_parsed (err e) symbols = symbols
add_parsed panic symbols = symbols

unfoldable pub parse_entries : ℕ → Bytes → List AdsSymbol
parse_entries zero blob = []
parse_entries (suc fuel) blob =
    let entry_len = le_value (take 4 blob) in
    let rest = parse_entries fuel (drop entry_len blob) in
    if ltb (length blob) 4 || (entry_len == 0) || ltb (length blob) entry_len
    then []
    else add_parsed (parse_symbol (take entry_len blob)) rest
