-- ===== src/Wstring/RoundTrip.antt =====
-- utils.go: what is encoded as a WSTRING is decoded as the same runes, up to the terminator.
use ads_go.Base.{
  ℕ, ◌+◌, ◌-◌, ◌*◌, ◌/◌, ◌%◌, ◌≤◌, ◌<◌, ◌≡◌, refl, ap, ◌∙◌, Bool, ◌⊎◌, inl, inr, true, false, List,
  [], ◌∷◌, ◌++◌, All, arith, append_assoc, append-nil, sym, leb, ◌==◌, ◌&&◌,
}
use ads_go.Wire.{Bytes}
use ads_go.Wire.Numbers.{le_value-le_bytes}
use ads_go.NetId.{trim_plc_string}
use ads_go.Wstring.{
  is_single, is_pair, encode_rune, encode_runes, decode_unit, decode_units, read_units, write_units,
  decode_plc_wstring_buffer, encode_string_to_plc_wstring_buffer,
}

-- A Unicode scalar value other than 0, below the surrogates, above them, or in need of a pair.
pub data IsRune (r : ℕ) : Type 0 where
  low : 0 < r → r < 55296 → IsRune r
  high : 57344 ≤ r → r < 65536 → IsRune r
  paired : 65536 ≤ r → r ≤ 1114111 → IsRune r

-- What is decoded at two units, by the test of the pair.
abbrev decoded_pair : Bool → ℕ → ℕ → List ℕ → List ℕ
decoded_pair b u v units = elim b [
  | true ↦ ((u - 55296) * 1024 + (v - 56320) + 65536) ∷ decode_units units
  | false ↦ decode_unit u ∷ decode_units (v ∷ units)
]

pair_or_not :
    (u v : ℕ) (units : List ℕ) (b : Bool)
    → is_pair u v ≡ b
    → decode_units (u ∷ v ∷ units) ≡ decoded_pair b u v units
unfolding decode_units
pair_or_not u v units b e = ap (λ t. decoded_pair t u v units) e

decode_units-single :
    (u : ℕ) (units : List ℕ)
    → (u < 55296) ⊎ (57344 ≤ u)
    → decode_units (u ∷ units) ≡ u ∷ decode_units units
unfolding decode_units
decode_units-single u [] h = ap (λ (x : ℕ). x ∷ []) (ground arith)
decode_units-single u (v ∷ units) h =
    let alone : is_pair u v ≡ false = ground arith in
    let same : decode_unit u ≡ u = ground arith in
    pair_or_not u v units false alone ∙ ap (λ (x : ℕ). x ∷ decode_units (v ∷ units)) same

decode_units-encode_rune :
    (r : ℕ) (units : List ℕ)
    → IsRune r
    → decode_units (encode_rune r ++ units) ≡ r ∷ decode_units units
unfolding encode_rune
decode_units-encode_rune r units (low a b) =
    let one : is_single r ≡ true = ground arith in rw one (decode_units-single r units (inl b))
decode_units-encode_rune r units (high a b) =
    let one : is_single r ≡ true = ground arith in rw one (decode_units-single r units (inr a))
decode_units-encode_rune r units (paired a b) =
    let more : is_single r ≡ false = ground arith in
    let some_pair : (leb 65536 r && leb r 1114111) ≡ true = ground arith in
    let q : ℕ = (r - 65536) / 1024 in
    let m : ℕ = (r - 65536) % 1024 in
    let parts : q * 1024 + m ≡ r - 65536 = omega arith in
    let test : is_pair (55296 + q) (56320 + m) ≡ true = ground arith in
    rw (more, some_pair)
      (pair_or_not (55296 + q) (56320 + m) units true test
        ∙ ap (λ (x : ℕ). x ∷ decode_units units) (omega arith))

decode_units-encode_runes :
    (runes units : List ℕ)
    → All IsRune runes
    → decode_units (encode_runes runes ++ units) ≡ runes ++ decode_units units
unfolding encode_runes
decode_units-encode_runes [] units h = refl
decode_units-encode_runes (r ∷ runes) units h =
    ap decode_units (append_assoc (encode_rune r) (encode_runes runes) units)
    ∙ (decode_units-encode_rune r (encode_runes runes ++ units) h.0
        ∙ ap (λ (x : List ℕ). r ∷ x) (decode_units-encode_runes runes units h.1))

read_units-write_units :
    (units : List ℕ) (behind : Bytes)
    → All (λ u. u < 65536) units
    → read_units (write_units units ++ behind) ≡ units ++ read_units behind
unfolding read_units write_units
read_units-write_units [] behind h = refl
read_units-write_units (u ∷ units) behind h =
    ap (λ (x : ℕ). x ∷ read_units (write_units units ++ behind)) (le_value-le_bytes 2 u h.0)
    ∙ ap (λ (x : List ℕ). u ∷ x) (read_units-write_units units behind h.1)

All-append : (P : ℕ → Type 0) (xs ys : List ℕ) → All P xs → All P ys → All P (xs ++ ys)
All-append P [] ys h k = k
All-append P (x ∷ xs) ys h k = (h.0, All-append P xs ys h.1 k)

encode_rune-IsUnit : (r : ℕ) → IsRune r → All (λ u. u < 65536) (encode_rune r)
unfolding encode_rune
encode_rune-IsUnit r (low a b) =
    let one : is_single r ≡ true = ground arith in rw one (omega arith, tt)
encode_rune-IsUnit r (high a b) = let one : is_single r ≡ true = ground arith in rw one (b, tt)
encode_rune-IsUnit r (paired a b) =
    let more : is_single r ≡ false = ground arith in
    let some_pair : (leb 65536 r && leb r 1114111) ≡ true = ground arith in
    rw (more, some_pair) (omega arith, (omega arith, tt))

encode_runes-IsUnit :
    (runes : List ℕ) → All IsRune runes → All (λ u. u < 65536) (encode_runes runes)
unfolding encode_runes
encode_runes-IsUnit [] h = tt
encode_runes-IsUnit (r ∷ runes) h =
    All-append _ (encode_rune r) (encode_runes runes) (encode_rune-IsUnit r h.0)
      (encode_runes-IsUnit runes h.1)

IsRune-positive : (r : ℕ) → IsRune r → (r == 0) ≡ false
IsRune-positive r (low a b) = ground arith
IsRune-positive r (high a b) = ground arith
IsRune-positive r (paired a b) = ground arith

trim_plc_string-runes :
    (runes behind : List ℕ)
    → All IsRune runes
    → trim_plc_string (runes ++ behind) ≡ runes ++ trim_plc_string behind
unfolding trim_plc_string
trim_plc_string-runes [] behind h = refl
trim_plc_string-runes (r ∷ runes) behind h =
    rw (IsRune-positive r h.0) (ap (λ (x : List ℕ). r ∷ x) (trim_plc_string-runes runes behind h.1))

decoded :
    (runes : List ℕ) (behind : Bytes)
    → All IsRune runes
    → decode_plc_wstring_buffer (encode_string_to_plc_wstring_buffer runes ++ behind)
      ≡ runes ++ trim_plc_string (decode_units (read_units behind))
unfolding decode_plc_wstring_buffer encode_string_to_plc_wstring_buffer
decoded runes behind h =
    ap (λ us. trim_plc_string (decode_units us))
      (read_units-write_units (encode_runes runes) behind (encode_runes-IsUnit runes h))
    ∙ (ap trim_plc_string (decode_units-encode_runes runes (read_units behind) h)
        ∙ trim_plc_string-runes runes (decode_units (read_units behind)) h)

terminated : (behind : Bytes) → trim_plc_string (decode_units (read_units (0 ∷ 0 ∷ behind))) ≡ []
unfolding trim_plc_string read_units
terminated behind =
    ap trim_plc_string (decode_units-single 0 (read_units behind) (inl (omega arith)))

-- Runes that are Unicode scalar values other than 0, those that take a surrogate pair included, come
-- back from what they are encoded as, alone, with one byte behind it, and with a terminator and any
-- bytes behind it.
pub decode_plc_wstring_buffer-encode :
    (runes : List ℕ) (b : ℕ) (behind : Bytes)
    → All IsRune runes
    → (decode_plc_wstring_buffer (encode_string_to_plc_wstring_buffer runes) ≡ runes)
      × (decode_plc_wstring_buffer (encode_string_to_plc_wstring_buffer runes ++ (b ∷ [])) ≡ runes)
      × (decode_plc_wstring_buffer (encode_string_to_plc_wstring_buffer runes ++ (0 ∷ 0 ∷ behind))
          ≡ runes)
unfolding decode_units read_units trim_plc_string
decode_plc_wstring_buffer-encode runes b behind h = (
  ap decode_plc_wstring_buffer (sym (append-nil (encode_string_to_plc_wstring_buffer runes)))
      ∙ (decoded runes [] h ∙ append-nil runes),
  decoded runes (b ∷ []) h ∙ append-nil runes,
  decoded runes (0 ∷ 0 ∷ behind) h
      ∙ (ap (λ (x : List ℕ). runes ++ x) (terminated behind) ∙ append-nil runes),
)
