-- ===== src/NetId.antt =====
-- pkg/ads/utils: amsNetId.go and the STRING half of utils.go. Text is a list of its bytes.
pub mod Decimal
pub mod RoundTrip
use ads_go.Base.{
  ℕ, zero, suc, ◌+◌, ◌-◌, ◌*◌, ◌/◌, ◌%◌, ◌^◌, Bool, true, false, ◌&&◌, List, [], ◌∷◌, ◌++◌, map,
  length, Option, none, some, Result, ok, err, panic, Error, invalid_ams_net_id,
  invalid_ams_net_id_part, ◌>>=◌, ◌>>◌, fail_if, ltb, leb, ◌==◌, if◌then◌else◌, not,
}
use ads_go.Base.Integer.{ℤ, pos, negsuc, pattern_of}
use ads_go.Wire.{Bytes}

-- `strings.Split(s, ".")`: the current part, and the parts behind it.
abbrev pub push_front : ℕ → List Bytes → List Bytes
push_front c [] = (c ∷ []) ∷ []
push_front c (part ∷ parts) = (c ∷ part) ∷ parts

unfoldable pub split_dots : Bytes → List Bytes
split_dots [] = [] ∷ []
split_dots (c ∷ s) = if c == b'.' then [] ∷ split_dots s else push_front c (split_dots s)

-- `strings.Join(parts, ".")`.
unfoldable pub join_dots : List Bytes → Bytes
join_dots [] = []
join_dots (part ∷ []) = part
join_dots (part ∷ next ∷ parts) = part ++ (b'.' ∷ join_dots (next ∷ parts))

-- The digits of `strconv.Atoi`: at least one, and nothing else.
abbrev pub is_digit : ℕ → Bool
is_digit c = leb b'0' c && leb c b'9'

unfoldable pub digits_value : ℕ → Bytes → Option ℕ
digits_value acc [] = some acc
digits_value acc (c ∷ s) =
    let rest = digits_value (acc * 10 + (c - b'0')) s in if is_digit c then rest else none

unfoldable pub atoi_digits : Bytes → Option ℕ
unfolding digits_value
atoi_digits [] = none
atoi_digits (c ∷ s) = digits_value 0 (c ∷ s)

-- `strconv.Atoi`: an optional sign, digits, and the range of a 64-bit int.
abbrev positive : Option ℕ → Option ℤ
positive none = none
positive (some n) = if ltb n (2 ^ 63) then some (pos n) else none

abbrev negative : Option ℕ → Option ℤ
negative none = none
negative (some zero) = some (pos 0)
negative (some (suc n)) = if ltb n (2 ^ 63) then some (negsuc n) else none

unfoldable pub atoi : Bytes → Option ℤ
unfolding atoi_digits
atoi [] = none
atoi (c ∷ s) =
    if c == b'-'
    then negative (atoi_digits s)
    else if c == b'+'
    then positive (atoi_digits s)
    else positive (atoi_digits (c ∷ s))

-- The loop over the parts; `byte(val)` keeps the low eight bits.
unfoldable pub part_bytes : List Bytes → Result Bytes
part_bytes [] = ok []
part_bytes (part ∷ parts) = elim (atoi part) [
  | none ↦ err (invalid_ams_net_id_part part)
  | some val ↦ part_bytes parts >>= λ bytes. ok (pattern_of (2 ^ 7) val ∷ bytes)
]

unfoldable pub ams_net_id_str_to_byte_array : Bytes → Result Bytes
ams_net_id_str_to_byte_array s = do
  fail_if (not (length (split_dots s) == 6)) invalid_ams_net_id
  part_bytes (split_dots s)

-- `fmt.Sprintf("%d", b)` of a byte: at most three digits.
unfoldable pub decimal : ℕ → Bytes
decimal b =
    if ltb b 10
    then (b'0' + b) ∷ []
    else if ltb b 100
    then (b'0' + b / 10) ∷ (b'0' + b % 10) ∷ []
    else (b'0' + b / 100) ∷ (b'0' + b / 10 % 10) ∷ (b'0' + b % 10) ∷ []

unfoldable pub byte_array_to_ams_net_id_str : Bytes → Bytes
byte_array_to_ams_net_id_str b = join_dots (map decimal b)

-- The text of a port number, `strconv.Itoa(int(adsPort))`, below 100000.
unfoldable pub port_decimal : ℕ → Bytes
unfolding decimal
port_decimal p =
    if ltb p 1000
    then decimal p
    else if ltb p 10000
    then (b'0' + p / 1000) ∷ (b'0' + p / 100 % 10) ∷ (b'0' + p / 10 % 10) ∷ (b'0' + p % 10) ∷ []
    else (b'0' + p / 10000)
      ∷ (b'0' + p / 1000 % 10)
      ∷ (b'0' + p / 100 % 10)
      ∷ (b'0' + p / 10 % 10)
      ∷ (b'0' + p % 10)
      ∷ []

unfoldable pub ams_address_to_string : Bytes → ℕ → Bytes
unfolding port_decimal
ams_address_to_string ams_net_id ads_port = ams_net_id ++ (b':' ∷ port_decimal ads_port)

-- utils.go: the text in front of the first zero byte; STRINGs are their bytes.
unfoldable pub trim_plc_string : Bytes → Bytes
trim_plc_string [] = []
trim_plc_string (c ∷ s) = if c == 0 then [] else c ∷ trim_plc_string s

unfoldable pub decode_plc_string_buffer : Bytes → Bytes
unfolding trim_plc_string
decode_plc_string_buffer buffer = trim_plc_string buffer

unfoldable pub encode_string_to_plc_string_buffer : Bytes → Bytes
encode_string_to_plc_string_buffer s = s
