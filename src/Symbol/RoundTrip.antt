-- ===== src/Symbol/RoundTrip.antt =====
-- A symbol as a device sends it is read back.
use ads_go.Base.{
  ℕ, ◌+◌, ◌/◌, ◌^◌, ◌≤◌, ◌<◌, ◌≡◌, refl, ap, sym, ◌∙◌, false, List, [], ◌∷◌, ◌++◌, length, ok,
  unexpected_eof, arith, lengths, le→ltb, All, length-append,
}
use ads_go.Base.Integer.{pattern_of, Fits, signed-pattern_of, pattern_of-lt}
use ads_go.Wire.{Bytes, le_bytes, read_full}
use ads_go.Wire.Readers.{read_uint-le_bytes, read_full-append}
use ads_go.NetId.{decode_plc_string_buffer, trim_plc_string}
use ads_go.Symbol.{
  AdsSymbol, ArrayInfoEntry, has_flag, flag_type_guid, flag_attributes, parse_array_info,
  parse_symbol,
}

abbrev pub IsText : Bytes → Type 0
IsText = All (λ b. 0 < b)

decode-text : (s : Bytes) → IsText s → decode_plc_string_buffer (s ++ (0 ∷ [])) ≡ s
unfolding decode_plc_string_buffer trim_plc_string
decode-text [] h = refl
decode-text (b ∷ s) h = ground (arith, decode-text s h.1)

abbrev pub arrays_image : List ArrayInfoEntry → Bytes
arrays_image [] = []
arrays_image (entry ∷ entries) =
    le_bytes 4 (pattern_of (2 ^ 31) entry.start_index)
    ++ (le_bytes 4 entry.entries ++ arrays_image entries)

abbrev pub IsArrayInfo : ArrayInfoEntry → Type 0
IsArrayInfo entry = Fits (2 ^ 31) entry.start_index × (entry.entries < 2 ^ 32)

parse_array_info-image :
    (entries : List ArrayInfoEntry) (rest : Bytes)
    → All IsArrayInfo entries
    → parse_array_info (length entries) (arrays_image entries ++ rest) ≡ (entries, rest)
unfolding parse_array_info
parse_array_info-image [] rest h = refl
parse_array_info-image (entry ∷ entries) rest h =
    rw
      (
        read_uint-le_bytes 4 (pattern_of (2 ^ 31) entry.start_index) unexpected_eof
            (le_bytes 4 entry.entries ++ (arrays_image entries ++ rest))
            (pattern_of-lt (2 ^ 31) entry.start_index (omega arith)),
        read_uint-le_bytes 4 entry.entries unexpected_eof (arrays_image entries ++ rest) h.0.1,
        parse_array_info-image entries rest h.1,
        parse_array_info,
      )
      (λ i. (
        record {
          start_index = signed-pattern_of (2 ^ 31) entry.start_index h.0.0 i;
          entries = entry.entries;
        }
            ∷ entries,
        rest,
      ))

-- The texts of a symbol, each with its terminator.
abbrev pub texts_image : Bytes → Bytes → Bytes → Bytes → Bytes
texts_image name type_name comment rest =
    (name ++ (0 ∷ [])) ++ ((type_name ++ (0 ∷ [])) ++ ((comment ++ (0 ∷ [])) ++ rest))

abbrev pub symbol_image : ℕ → AdsSymbol → Bytes → Bytes
symbol_image data_len s rest =
    le_bytes 4 data_len
    ++ (le_bytes 4 s.index_group
        ++ (le_bytes 4 s.index_offset
            ++ (le_bytes 4 s.size
                ++ (le_bytes 4 s.data_type
                    ++ (le_bytes 4 s.flags
                        ++ (le_bytes 2 s.name_length
                            ++ (le_bytes 2 s.type_length
                                ++ (le_bytes 2 s.comment_length
                                    ++ texts_image s.name s.type_name s.comment
                                        (arrays_image s.array_info ++ rest)))))))))

-- A symbol whose numbers fit and whose lengths are those of its texts, with as many array entries as
-- its flags say, and with neither a type GUID nor attributes.
pub record IsPlainSymbol (s : AdsSymbol) : Type 0 where
  pub group_word : s.index_group < 2 ^ 32
  pub offset_word : s.index_offset < 2 ^ 32
  pub size_word : s.size < 2 ^ 32
  pub type_word : s.data_type < 2 ^ 32
  pub flags_word : s.flags < 2 ^ 32
  pub name_half : s.name_length < 2 ^ 16
  pub type_half : s.type_length < 2 ^ 16
  pub comment_half : s.comment_length < 2 ^ 16
  pub name_long : length s.name ≡ s.name_length
  pub type_long : length s.type_name ≡ s.type_length
  pub comment_long : length s.comment ≡ s.comment_length
  pub texts : IsText s.name × IsText s.type_name × IsText s.comment
  pub arrays : s.flags / 2 ^ 16 ≡ length s.array_info
  pub entries_fit : All IsArrayInfo s.array_info
  pub no_guid : has_flag flag_type_guid s.flags ≡ false
  pub no_attributes : has_flag flag_attributes s.flags ≡ false
  pub guid_empty : s.type_guid ≡ []
  pub attributes_empty : s.attributes ≡ []

read_text :
    (s rest : Bytes) (n : ℕ)
    → length s ≡ n
    → read_full (n + 1) unexpected_eof ((s ++ (0 ∷ [])) ++ rest) ≡ ok (s ++ (0 ∷ []), rest)
read_text s rest n e =
    ap (λ k. read_full k unexpected_eof ((s ++ (0 ∷ [])) ++ rest))
      (omega (arith, length-append s (0 ∷ [])))
    ∙ read_full-append (s ++ (0 ∷ [])) rest unexpected_eof

-- A plain symbol is read back with all its fields and texts and its array entries, whatever the
-- length field holds and whatever bytes follow.
pub parse_symbol-image :
    (data_len : ℕ) (s : AdsSymbol) (rest : Bytes)
    → data_len < 2 ^ 32
    → IsPlainSymbol s
    → parse_symbol (symbol_image data_len s rest) ≡ ok s
unfolding parse_symbol
parse_symbol-image data_len s rest hd h =
    rw
      (
        le→ltb (length (symbol_image data_len s rest)) 30 (omega arith),
        read_uint-le_bytes 4 data_len unexpected_eof _ hd,
        read_uint-le_bytes 4 s.index_group unexpected_eof _ h.group_word,
        read_uint-le_bytes 4 s.index_offset unexpected_eof _ h.offset_word,
        read_uint-le_bytes 4 s.size unexpected_eof _ h.size_word,
        read_uint-le_bytes 4 s.data_type unexpected_eof _ h.type_word,
        read_uint-le_bytes 4 s.flags unexpected_eof _ h.flags_word,
        read_uint-le_bytes 2 s.name_length unexpected_eof _ h.name_half,
        read_uint-le_bytes 2 s.type_length unexpected_eof _ h.type_half,
        read_uint-le_bytes 2 s.comment_length unexpected_eof _ h.comment_half,
        le→ltb (length (texts_image s.name s.type_name s.comment tail)) required enough,
        read_text s.name _ s.name_length h.name_long,
        read_text s.type_name _ s.type_length h.type_long,
        read_text s.comment _ s.comment_length h.comment_long,
        h.arrays,
        parse_array_info-image s.array_info rest h.entries_fit,
        h.no_guid,
        h.no_attributes,
      )
      (ap ok (λ i. record s {
        name = decode-text s.name h.texts.0 i;
        type_name = decode-text s.type_name h.texts.1 i;
        comment = decode-text s.comment h.texts.2 i;
        type_guid = sym h.guid_empty i;
        attributes = sym h.attributes_empty i;
      }))
  where
    tail : Bytes
    tail = arrays_image s.array_info ++ rest

    required : ℕ
    required = (s.name_length + 1) + (s.type_length + 1) + (s.comment_length + 1)

    enough : required ≤ length (texts_image s.name s.type_name s.comment tail)
    enough = grind (lengths, h.name_long, h.type_long, h.comment_long)
