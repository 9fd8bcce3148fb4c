-- ===== src/Wstring.antt =====
-- The WSTRING half of pkg/ads/utils/utils.go. A text is its runes here: its bytes in UTF-8 are what
-- the language makes of them.
pub mod RoundTrip
use ads_go.Base.{
  ℕ, ◌+◌, ◌-◌, ◌*◌, ◌/◌, ◌%◌, Bool, true, false, ◌&&◌, ◌||◌, List, [], ◌∷◌, ◌++◌, ltb, leb,
  if◌then◌else◌,
}
use ads_go.Wire.{Bytes, le_bytes, le_value}
use ads_go.NetId.{trim_plc_string}

-- `utf16.Encode`: one unit, a surrogate pair, or the replacement character.
abbrev pub is_single : ℕ → Bool
is_single r = ltb r 55296 || (leb 57344 r && ltb r 65536)

unfoldable pub encode_rune : ℕ → List ℕ
encode_rune r =
    if is_single r
    then r ∷ []
    else if leb 65536 r && leb r 1114111
    then (55296 + (r - 65536) / 1024) ∷ (56320 + (r - 65536) % 1024) ∷ []
    else 65533 ∷ []

unfoldable pub encode_runes : List ℕ → List ℕ
encode_runes [] = []
encode_runes (r ∷ runes) = encode_rune r ++ encode_runes runes

-- `utf16.Decode`: a high surrogate takes the low one behind it; one alone is replaced.
abbrev pub is_pair : ℕ → ℕ → Bool
is_pair u v = (leb 55296 u && ltb u 56320) && (leb 56320 v && ltb v 57344)

abbrev pub decode_unit : ℕ → ℕ
decode_unit u = if ltb u 55296 || leb 57344 u then u else 65533

unfoldable pub decode_units : List ℕ → List ℕ
decode_units [] = []
decode_units (u ∷ []) = decode_unit u ∷ []
decode_units (u ∷ v ∷ units) = elim (is_pair u v) [
  | true ↦ ((u - 55296) * 1024 + (v - 56320) + 65536) ∷ decode_units units
  | false ↦ decode_unit u ∷ decode_units (v ∷ units)
]

-- `binary.Read` into half as many uint16 as there are bytes, and `binary.Write` of uint16.
unfoldable pub read_units : Bytes → List ℕ
read_units [] = []
read_units (a ∷ []) = []
read_units (a ∷ b ∷ bytes) = le_value (a ∷ b ∷ []) ∷ read_units bytes

unfoldable pub write_units : List ℕ → Bytes
write_units [] = []
write_units (u ∷ units) = le_bytes 2 u ++ write_units units

unfoldable pub decode_plc_wstring_buffer : Bytes → List ℕ
unfolding decode_units read_units trim_plc_string
decode_plc_wstring_buffer buffer = trim_plc_string (decode_units (read_units buffer))

unfoldable pub encode_string_to_plc_wstring_buffer : List ℕ → Bytes
unfolding encode_runes write_units
encode_string_to_plc_wstring_buffer runes = write_units (encode_runes runes)
