-- ===== src/DataType/Blocks.antt =====
-- The blocks of pkg/ads/ads-datatype/parse.go, read back from the bytes that a device sends.
use ads_go.Base.{
  ℕ, ◌+◌, ◌*◌, ◌%◌, ◌^◌, ◌<◌, ◌≡◌, ◌⊎◌, inl, inr, refl, ap, ◌∙◌, List, [], ◌∷◌, ◌++◌, length, map,
  ok, type_invalid_data, arith, lengths, All, append_assoc, take-append, take-length,
}
use ads_go.Base.Integer.{ℤ, pos, signed, pattern_of, signed-pattern_of, pattern_of-lt}
use ads_go.Wire.{Bytes, Reader, le_bytes, read_some}
use ads_go.Wire.Numbers.{le_value-le_bytes, length-le_bytes}
use ads_go.Wire.Readers.{read_uint-le_bytes, read_some-append}
use ads_go.DataType.Types.{Attribute, EnumInfo}
use ads_go.DataType.Optional.{
  read_times, read_each, read_text, read_attribute, enum_value, read_enum_info, extend_enum_info,
}
use ads_go.DataType.Image.{
  text_image, images, attribute_image, enum_image, extension_image, IsAttribute, IsEnumValue,
}

pub read_times-images :
    {A : Type 0} (P : A → Type 0) (read : Reader A) (image : A → Bytes)
    → ((x : A) (rest : Bytes) → P x → read (image x ++ rest) ≡ ok (x, rest))
    → (xs : List A) (rest : Bytes) → All P xs
    → read_times (length xs) read (images image xs ++ rest) ≡ ok (xs, rest)
unfolding read_times
read_times-images P read image each [] rest h = refl
read_times-images P read image each (x ∷ xs) rest h =
    rw
      (
        append_assoc (image x) (images image xs) rest,
        each x (images image xs ++ rest) h.0,
        read_times-images P read image each xs rest h.1,
      )
      refl

-- A loop over a list of what `image` leaves out of each element.
pub read_each-images :
    {A : Type 0} (P : A → Type 0) (forget : A → A) (read : A → Reader A) (image : A → Bytes)
    → ((x : A) (rest : Bytes) → P x → read (forget x) (image x ++ rest) ≡ ok (x, rest))
    → (xs : List A) (rest : Bytes) → All P xs
    → read_each read (map forget xs) (images image xs ++ rest) ≡ ok (xs, rest)
unfolding read_each
read_each-images P forget read image each [] rest h = refl
read_each-images P forget read image each (x ∷ xs) rest h =
    rw
      (
        append_assoc (image x) (images image xs) rest,
        each x (images image xs ++ rest) h.0,
        read_each-images P forget read image each xs rest h.1,
      )
      refl

pub read_text-text_image :
    (s rest : Bytes) → read_text (length s) (text_image s ++ rest) ≡ ok (s, rest)
unfolding read_text
read_text-text_image s rest =
    rw (long, read_some-append (text_image s) rest type_invalid_data (grind lengths))
      (ap (λ k. ok (k, rest))
        (take-append (length s) s (0 ∷ []) (omega arith) ∙ take-length (length s) s (omega arith)))
  where
    long : length s + 1 ≡ length (text_image s)
    long = grind lengths

pub read_attribute-image :
    (a : Attribute) (rest : Bytes)
    → IsAttribute a
    → read_attribute (attribute_image a ++ rest) ≡ ok (a, rest)
unfolding read_attribute
read_attribute-image a rest h =
    rw
      (
        append_assoc (text_image a.name) (text_image a.value) rest,
        read_uint-le_bytes 1 (length a.name) type_invalid_data
            (le_bytes 1 (length a.value) ++ (text_image a.name ++ (text_image a.value ++ rest)))
            h.0,
        read_uint-le_bytes 1 (length a.value) type_invalid_data
            (text_image a.name ++ (text_image a.value ++ rest)) h.1,
        read_text-text_image a.name (text_image a.value ++ rest),
        read_text-text_image a.value rest,
      )
      refl

-- A value of 1, 2 or 4 bytes is its pattern of 64 bits.
fits_double : (n : ℕ) → n < 2 ^ 32 → n % (2 * 2 ^ 63) ≡ n
fits_double n h = omega arith

unsigned_value :
    (size n : ℕ)
    → ((size ≡ 1) ⊎ (size ≡ 2) ⊎ (size ≡ 4))
    → n < 256 ^ size
    → enum_value (le_bytes size (n % (2 * 2 ^ 63))) ≡ pos n
unsigned_value size n (inl e) h =
    let h1 : n < 256 ^ 1 = rw e at h in
    rw (e, fits_double n (omega (arith, h1))) (ap pos (le_value-le_bytes 1 n h1))
unsigned_value size n (inr (inl e)) h =
    let h2 : n < 256 ^ 2 = rw e at h in
    rw (e, fits_double n (omega (arith, h2))) (ap pos (le_value-le_bytes 2 n h2))
unsigned_value size n (inr (inr e)) h =
    let h4 : n < 256 ^ 4 = rw e at h in
    rw (e, fits_double n (omega (arith, h4))) (ap pos (le_value-le_bytes 4 n h4))

pub enum_value-image :
    (size : ℕ) (value : ℤ)
    → IsEnumValue size value
    → enum_value (le_bytes size (pattern_of (2 ^ 63) value)) ≡ value
enum_value-image size value (inl (e, fits)) = rw e (
    ap (signed (2 ^ 63))
      (le_value-le_bytes 8 (pattern_of (2 ^ 63) value) (pattern_of-lt (2 ^ 63) value (omega arith)))
    ∙ signed-pattern_of (2 ^ 63) value fits)
enum_value-image size value (inr (sizes, (n, e, h))) = rw e (unsigned_value size n sizes h)

size_positive : (size : ℕ) (value : ℤ) → IsEnumValue size value → 0 < size
size_positive size value (inl (e, fits)) = omega arith
size_positive size value (inr (inl e, rest)) = omega arith
size_positive size value (inr (inr (inl e), rest)) = omega arith
size_positive size value (inr (inr (inr e), rest)) = omega arith

-- The entry of an enumeration value holds its name and its number.
abbrev pub bare : EnumInfo → EnumInfo
bare info = record { name = info.name; value = info.value; comment = []; attributes = [] }

pub read_enum_info-image :
    (size : ℕ) (info : EnumInfo) (rest : Bytes)
    → length info.name < 256
    → IsEnumValue size info.value
    → read_enum_info size (enum_image size info ++ rest) ≡ ok (bare info, rest)
unfolding read_enum_info
read_enum_info-image size info rest h v =
    rw
      (
        append_assoc (text_image info.name) image rest,
        read_uint-le_bytes 1 (length info.name) type_invalid_data
            (text_image info.name ++ (image ++ rest)) h,
        read_text-text_image info.name (image ++ rest),
        read_value,
      )
      (λ i. ok (
        record {
          name = info.name;
          value = enum_value-image size info.value v i;
          comment = [];
          attributes = [];
        },
        rest,
      ))
  where
    image : Bytes
    image = le_bytes size (pattern_of (2 ^ 63) info.value)

    read_value : read_some size type_invalid_data (image ++ rest) ≡ ok (image, rest)
    read_value = rw (length-le_bytes size (pattern_of (2 ^ 63) info.value)) at (
        read_some-append image rest type_invalid_data (
          omega (
            arith,
            length-le_bytes size (pattern_of (2 ^ 63) info.value),
            size_positive size info.value v,
          )))

pub extend_enum_info-image :
    (info : EnumInfo) (rest : Bytes)
    → (length info.comment < 256) × (length info.attributes < 256) × All IsAttribute info.attributes
    → extend_enum_info (bare info) (extension_image info ++ rest) ≡ ok (info, rest)
unfolding extend_enum_info
extend_enum_info-image info rest h =
    rw
      (
        append_assoc (text_image info.comment) attributes rest,
        read_uint-le_bytes 2 (length info.comment + 5) type_invalid_data
            (le_bytes 1 (length info.comment)
              ++ (le_bytes 1 (length info.attributes)
                  ++ (text_image info.comment ++ (attributes ++ rest))))
            (omega (arith, h.0)),
        read_uint-le_bytes 1 (length info.comment) type_invalid_data
            (le_bytes 1 (length info.attributes)
              ++ (text_image info.comment ++ (attributes ++ rest)))
            h.0,
        read_uint-le_bytes 1 (length info.attributes) type_invalid_data
            (text_image info.comment ++ (attributes ++ rest)) h.1,
        read_text-text_image info.comment (attributes ++ rest),
        read_times-images IsAttribute read_attribute attribute_image read_attribute-image
            info.attributes rest h.2,
      )
      refl
  where
    attributes : Bytes
    attributes = images attribute_image info.attributes
