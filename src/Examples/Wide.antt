-- ===== src/Examples/Wide.antt =====
-- A WSTRING with a letter, a sign above the surrogates and a rune that takes a pair.
use ads_go.Base.{◌≡◌, [], ◌∷◌, ◌++◌, List, ℕ, arith}
use ads_go.Wstring.{decode_plc_wstring_buffer, encode_string_to_plc_wstring_buffer}
use ads_go.Wstring.RoundTrip.{low, high, paired, decode_plc_wstring_buffer-encode}

abbrev runes : List ℕ
runes = 65 ∷ 65281 ∷ 128512 ∷ []

decode_plc_wstring_buffer-encode_example :
    (decode_plc_wstring_buffer (encode_string_to_plc_wstring_buffer runes) ≡ runes)
    × (decode_plc_wstring_buffer (encode_string_to_plc_wstring_buffer runes ++ (7 ∷ [])) ≡ runes)
    × (decode_plc_wstring_buffer (encode_string_to_plc_wstring_buffer runes ++ (0 ∷ 0 ∷ 66 ∷ []))
        ≡ runes)
decode_plc_wstring_buffer-encode_example = decode_plc_wstring_buffer-encode runes 7 (66 ∷ []) (
  low (omega arith) (omega arith),
  (high (omega arith) (omega arith), (paired (omega arith) (omega arith), tt)),
)
