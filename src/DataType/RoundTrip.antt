-- ===== src/DataType/RoundTrip.antt =====
-- pkg/ads/ads-datatype/parse.go: a type as a device describes it is read back, sub-items included.
use ads_go.Base.{
  ℕ, zero, suc, Result, ◌+◌, ◌-◌, ◌%◌, ◌^◌, ◌<◌, ◌≤◌, ◌≡◌, refl, sym, [], ◌∷◌, ◌++◌, length, ok,
  panic, type_invalid_data, arith, lengths, length-append, take-append, take-length, slice_to-take,
  le→ltb,
}
use ads_go.Base.Integer.{pattern_of, signed-pattern_of, pattern_of-lt}
use ads_go.Wire.{Bytes, le_bytes, le_value}
use ads_go.Wire.Numbers.{le_value-le_bytes}
use ads_go.Wire.Readers.{read_uint-le_bytes, read_full-append, read_some-append}
use ads_go.DataType.Types.{
  ArrayInfo, TypeFields, DataType, SubItems, described, no_items, item, count_items,
}
use ads_go.DataType.Parse.{
  parse_string, read_array_info, parse_array_info, parse_header, read_entry, parse_sub_items,
  parse_with, parse_nested, parse_data_type,
}
use ads_go.DataType.Image.{
  text_image, images, array_image, header_image, optional_image, type_image, items_image,
  response_image, Skipped, IsFields, IsArrayEntry, IsWireType, AreWireTypes,
}
use ads_go.DataType.Blocks.{read_times-images}
use ads_go.DataType.Optionals.{fields_at_first, parse_optional_fields-image}

parse_string-text_image :
    (s rest : Bytes)
    → length s < 65535
    → parse_string (length s) (text_image s ++ rest) ≡ ok (s, rest)
unfolding parse_string
parse_string-text_image s rest h =
    rw
      (
        long,
        read_full-append (text_image s) rest type_invalid_data,
        slice_to-take (length s) (text_image s) (grind lengths),
        take-append (length s) s (0 ∷ []) (omega arith),
        take-length (length s) s (omega arith),
      )
      refl
  where
    long : (length s + 1) % 2 ^ 16 ≡ length (text_image s)
    long = omega (arith, length-append s (0 ∷ []))

read_array_info-image :
    (info : ArrayInfo) (rest : Bytes)
    → IsArrayEntry info
    → read_array_info (array_image info ++ rest) ≡ ok (info, rest)
unfolding read_array_info
read_array_info-image info rest h =
    rw
      (
        read_uint-le_bytes 4 (pattern_of (2 ^ 31) info.start_index) type_invalid_data
            (le_bytes 4 info.entries ++ rest)
            (pattern_of-lt (2 ^ 31) info.start_index (omega arith)),
        read_uint-le_bytes 4 info.entries type_invalid_data rest h.1,
      )
      (λ i. ok (
        record {
          start_index = signed-pattern_of (2 ^ 31) info.start_index h.0 i;
          entries = info.entries;
        },
        rest,
      ))

parse_array_info-images :
    (sent : TypeFields → Skipped) (t : TypeFields) (rest : Bytes)
    → IsFields sent t
    → parse_array_info t.array_dim (images array_image t.array_info ++ rest)
      ≡ ok (t.array_info, rest)
unfolding parse_array_info
parse_array_info-images sent t rest h = rw (sym h.dims) (
    read_times-images IsArrayEntry read_array_info array_image read_array_info-image t.array_info
      rest h.arrays)

parse_header-image :
    (sent : TypeFields → Skipped) (data_len : ℕ) (t : TypeFields) (count : ℕ) (rest : Bytes)
    → data_len < 2 ^ 32
    → count < 2 ^ 16
    → IsFields sent t
    → parse_header (le_bytes 4 data_len ++ header_image t count rest)
      ≡ ok ((fields_at_first t, count), rest)
unfolding parse_header
parse_header-image sent data_len t count rest hd hc h =
    rw
      (
        read_uint-le_bytes 4 data_len type_invalid_data _ hd,
        read_uint-le_bytes 4 t.version type_invalid_data _ h.version_word,
        read_uint-le_bytes 4 t.hash_value type_invalid_data _ h.hash_word,
        read_uint-le_bytes 4 t.type_hash type_invalid_data _ h.type_hash_word,
        read_uint-le_bytes 4 t.size type_invalid_data _ h.size_word,
        read_uint-le_bytes 4 t.offset type_invalid_data _ h.offset_word,
        read_uint-le_bytes 4 t.data_type type_invalid_data _ h.data_type_word,
        read_uint-le_bytes 4 t.flags type_invalid_data _ h.flags_word,
        read_uint-le_bytes 2 (length t.name) type_invalid_data _ (omega (arith, h.name_short)),
        read_uint-le_bytes 2 (length t.type_name) type_invalid_data _ (omega (arith, h.type_short)),
        read_uint-le_bytes 2 (length t.comment) type_invalid_data _
            (omega (arith, h.comment_short)),
        read_uint-le_bytes 2 t.array_dim type_invalid_data _ h.dims_short,
        read_uint-le_bytes 2 count type_invalid_data _ hc,
        parse_string-text_image t.name _ h.name_short,
        parse_string-text_image t.type_name _ h.type_short,
        parse_string-text_image t.comment _ h.comment_short,
        parse_array_info-images sent t rest h,
      )
      refl

-- An entry of a length below 2^32, and the bytes that it holds.
read_entry-append :
    (i : ℕ) (body rest : Bytes)
    → 0 < length body
    → length body + 4 < 2 ^ 32
    → read_entry i (le_bytes 4 (length body + 4) ++ (body ++ rest))
      ≡ ok (le_bytes 4 (length body + 4) ++ body, rest)
unfolding read_entry
read_entry-append i body rest hp hl =
    rw
      (
        read_some-append (le_bytes 4 (length body + 4)) (body ++ rest) type_invalid_data
            (omega arith),
        entry_len,
        le→ltb (length body + 4) 4 (omega arith),
        room,
        read_some-append body rest type_invalid_data hp,
      )
      refl
  where
    entry_len : le_value (le_bytes 4 (length body + 4)) ≡ length body + 4
    entry_len = le_value-le_bytes 4 (length body + 4) hl

    room : length body + 4 - 4 ≡ length body
    room = omega arith

type_image_positive :
    (sent : TypeFields → Skipped) (t : DataType) → 0 < length (type_image sent t [])
type_image_positive sent (described t items) = omega arith

-- How deep the sub-items of a type are nested.
abbrev mutual
  pub depth : DataType → ℕ
  depth (described t items) = suc (depth_items items)

  pub depth_items : SubItems → ℕ
  depth_items no_items = 0
  depth_items (item t items) = depth t + depth_items items

mutual
  unfolding parse_nested parse_with parse_sub_items

  pub parse_nested-image :
      (sent : TypeFields → Skipped) (t : DataType) (data_len : ℕ) (rest : Bytes) (fuel : ℕ)
      (below : Bytes → Result DataType)
      → data_len < 2 ^ 32
      → IsWireType sent t
      → depth t ≤ fuel
      → parse_nested below fuel (response_image sent data_len t rest) ≡ ok t
  parse_nested-image sent (described t items) data_len rest zero below hd h f = absurd (omega arith)
  parse_nested-image sent (described t items) data_len rest (suc fuel) below hd h f =
      rw
        (
          le→ltb (length (response_image sent data_len (described t items) rest)) 4 (omega arith),
          parse_header-image sent data_len t (count_items items)
              (items_image sent items (optional_image sent t rest)) hd h.1 h.0,
          parse_sub_items-image sent items 0 (optional_image sent t rest) fuel below h.2
              (omega (arith, f)),
          parse_optional_fields-image sent t rest h.0,
        )
        refl

  parse_sub_items-image :
      (sent : TypeFields → Skipped) (items : SubItems) (i : ℕ) (rest : Bytes) (fuel : ℕ)
      (below : Bytes → Result DataType)
      → AreWireTypes sent items
      → depth_items items ≤ fuel
      → parse_sub_items
          (parse_nested below fuel)
          (count_items items)
          i
          (items_image sent items rest)
        ≡ ok (items, rest)
  parse_sub_items-image sent no_items i rest fuel below h f = refl
  parse_sub_items-image sent (item t items) i rest fuel below h f =
      rw
        (
          read_entry-append i (type_image sent t []) (items_image sent items rest)
              (type_image_positive sent t) h.1,
          parse_nested-image sent t (length (type_image sent t []) + 4) [] fuel below h.1 h.0
              (omega (arith, f)),
          parse_sub_items-image sent items (suc i) rest fuel below h.2 (omega (arith, f)),
        )
        refl

header_positive :
    (t : TypeFields) (count : ℕ) (rest : Bytes) → length rest < length (header_image t count rest)
header_positive t count rest = omega (
  arith,
  length-append (text_image t.name) (
      text_image t.type_name
      ++ (text_image t.comment ++ (images array_image t.array_info ++ rest))),
  length-append (text_image t.type_name)
      (text_image t.comment ++ (images array_image t.array_info ++ rest)),
  length-append (text_image t.comment) (images array_image t.array_info ++ rest),
  length-append (images array_image t.array_info) rest,
)

-- A type is longer than it is deep.
mutual
  depth-le-length :
      (sent : TypeFields → Skipped) (t : DataType) (rest : Bytes)
      → depth t ≤ length (type_image sent t rest)
  depth-le-length sent (described t items) rest = omega (
    arith,
    header_positive t (count_items items) (items_image sent items (optional_image sent t rest)),
    depth_items-le-length sent items (optional_image sent t rest),
  )

  depth_items-le-length :
      (sent : TypeFields → Skipped) (items : SubItems) (rest : Bytes)
      → depth_items items ≤ length (items_image sent items rest)
  depth_items-le-length sent no_items rest = omega arith
  depth_items-le-length sent (item t items) rest = omega (
    arith,
    length-append (type_image sent t []) (items_image sent items rest),
    depth-le-length sent t [],
    depth_items-le-length sent items rest,
  )

-- A type of which no methods and no copy mask are kept, whose fields fit the format and whose
-- enumeration values take 1, 2, 4 or 8 bytes, is read back from the response that describes it: its
-- fields, texts, array bounds, GUID, attributes, enumeration values and extended flags, and all of
-- its sub-items of this kind to any depth, whatever the length in front says and whatever bytes
-- follow. Blocks of a copy mask, of methods and of dereferenced types may stand in between, each
-- with any contents that fit: they are passed over.
pub parse_data_type-image :
    (sent : TypeFields → Skipped) (t : DataType) (data_len : ℕ) (rest : Bytes)
    → data_len < 2 ^ 32
    → IsWireType sent t
    → parse_data_type (response_image sent data_len t rest) ≡ ok t
unfolding parse_data_type
parse_data_type-image sent t data_len rest hd h =
    parse_nested-image sent t data_len rest (suc (length (response_image sent data_len t rest)))
      (λ _. panic) hd h (omega (arith, depth-le-length sent t rest))
