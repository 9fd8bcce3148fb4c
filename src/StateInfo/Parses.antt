-- ===== src/StateInfo/Parses.antt =====
-- The three state parsers: they read back the wire image, and agree with their checks on all bytes.
use ads_go.Base.{
  ℕ, zero, suc, ◌+◌, ◌-◌, ◌^◌, ◌≤◌, ◌<◌, ◌≡◌, refl, ap, ◌∙◌, false, [], ◌∷◌, ◌++◌, length, ok,
  ◌>>=◌, arith, ltb, ltb→le, le→ltb, Bool-cases, inl, inr, ◌==◌, All, All-append, replicate, slice,
  length-append, length-replicate, slice_to, slice_to-take, take-length, take-append,
}
use ads_go.Wire.{Bytes, le_bytes, make_bytes}
use ads_go.Wire.Numbers.{le_value-le_bytes}
use ads_go.Wire.Slices.{slice-take-drop, uint_at-take-drop, index-byte_at}
use mathlib.Core.List.{reverse, reverse-append, reverse-cons, reverse-reverse}
use ads_go.StateInfo.{
  SystemState, ExtendedSystemState, DeviceInfo, parse_system_state, check_system_state,
  parse_extended_system_state, check_extended_system_state, parse_device_info, check_device_info,
  trim_front, trim_zeros,
}

-- A state is read back from its four bytes, whatever follows them.
pub parse_system_state-image :
    (s : SystemState) (rest : Bytes)
    → s.ads_state < 2 ^ 16
    → s.device_state < 2 ^ 16
    → parse_system_state (le_bytes 2 s.ads_state ++ (le_bytes 2 s.device_state ++ rest)) ≡ ok s
unfolding parse_system_state slice
parse_system_state-image s rest ha hd =
    rw
      (le→ltb (length (le_bytes 2 s.ads_state ++ (le_bytes 2 s.device_state ++ rest))) 4
        (omega arith))
      (ap ok (λ i. record {
        ads_state = le_value-le_bytes 2 s.ads_state ha i;
        device_state = le_value-le_bytes 2 s.device_state hd i;
      }))

-- The sixteen bytes of an extended state, with the two reserved ones.
abbrev pub extended_image : ExtendedSystemState → ℕ → ℕ → Bytes → Bytes
extended_image s reserved0 reserved1 rest =
    le_bytes 2 s.ads_state
    ++ (le_bytes 2 s.device_state
        ++ (le_bytes 2 s.restart_index
            ++ (s.version
                ∷ s.revision
                ∷ (le_bytes 2 s.build
                    ++ (s.platform
                        ∷ s.os_type
                        ∷ (le_bytes 2 s.flags ++ (reserved0 ∷ reserved1 ∷ rest)))))))

-- An extended state whose fields fit is read back from its sixteen bytes, whatever the reserved two
-- hold and whatever follows.
pub parse_extended_system_state-image :
    (s : ExtendedSystemState) (reserved0 reserved1 : ℕ) (rest : Bytes)
    → s.ads_state < 2 ^ 16
    → s.device_state < 2 ^ 16
    → s.restart_index < 2 ^ 16
    → s.build < 2 ^ 16
    → s.flags < 2 ^ 16
    → parse_extended_system_state (extended_image s reserved0 reserved1 rest) ≡ ok s
unfolding parse_extended_system_state slice
parse_extended_system_state-image s reserved0 reserved1 rest ha hd hr hb hf =
    rw (le→ltb (length (extended_image s reserved0 reserved1 rest)) 16 (omega arith)) (
      ap ok (λ i. record {
        ads_state = le_value-le_bytes 2 s.ads_state ha i;
        device_state = le_value-le_bytes 2 s.device_state hd i;
        restart_index = le_value-le_bytes 2 s.restart_index hr i;
        version = s.version;
        revision = s.revision;
        build = le_value-le_bytes 2 s.build hb i;
        platform = s.platform;
        os_type = s.os_type;
        flags = le_value-le_bytes 2 s.flags hf i;
      }))

abbrev pub IsNonzero : ℕ → Type 0
IsNonzero b = 0 < b

trim_front-zeros : (n : ℕ) (bytes : Bytes) → trim_front (replicate n 0 ++ bytes) ≡ trim_front bytes
trim_front-zeros zero bytes = refl
trim_front-zeros (suc n) bytes = trim_front-zeros n bytes

trim_front-all_zeros : (n : ℕ) → trim_front (replicate n 0) ≡ []
trim_front-all_zeros zero = refl
trim_front-all_zeros (suc n) = trim_front-all_zeros n

trim_front-nonzero_head : (b : ℕ) (bytes : Bytes) → 0 < b → trim_front (b ∷ bytes) ≡ b ∷ bytes
trim_front-nonzero_head b bytes h = ground arith

trim_front-nonzero : (bytes : Bytes) → All IsNonzero bytes → trim_front bytes ≡ bytes
trim_front-nonzero [] h = refl
trim_front-nonzero (b ∷ bytes) h = ground arith

All-reverse : (bytes : Bytes) → All IsNonzero bytes → All IsNonzero (reverse bytes)
All-reverse [] h = tt
All-reverse (b ∷ bytes) h =
    rw (reverse-cons b bytes)
      (All-append IsNonzero (reverse bytes) (b ∷ []) (All-reverse bytes h.1) (h.0, tt))

replicate-snoc : (n : ℕ) → ◌≡◌ {A = Bytes} (replicate n 0 ++ (0 ∷ [])) (0 ∷ replicate n 0)
replicate-snoc zero = refl
replicate-snoc (suc n) = ap (◌∷◌ 0) (replicate-snoc n)

reverse-zeros : (n : ℕ) → ◌≡◌ {A = Bytes} (reverse (replicate n 0)) (replicate n 0)
reverse-zeros zero = refl
reverse-zeros (suc n) =
    reverse-cons 0 (replicate n 0)
    ∙ ap (λ (z : Bytes). z ++ (0 ∷ [])) (reverse-zeros n)
    ∙ replicate-snoc n

trim_zeros-padded :
    (name : Bytes) (n : ℕ) → All IsNonzero name → trim_zeros (name ++ replicate n 0) ≡ name
unfolding trim_zeros
trim_zeros-padded [] n h = rw (trim_front-all_zeros n)
trim_zeros-padded (b ∷ name) n h =
    ap (λ t. reverse (trim_front (reverse t)))
      (trim_front-nonzero_head b (name ++ replicate n 0) h.0)
    ∙ ap (λ t. reverse (trim_front t)) flipped
    ∙ ap reverse (trim_front-zeros n (reverse (b ∷ name)))
    ∙ ap reverse (trim_front-nonzero (reverse (b ∷ name)) (All-reverse (b ∷ name) h))
    ∙ reverse-reverse (b ∷ name)
  where
    flipped : reverse ((b ∷ name) ++ replicate n 0) ≡ replicate n 0 ++ reverse (b ∷ name)
    flipped =
        reverse-append (b ∷ name) (replicate n 0)
        ∙ ap (λ (z : Bytes). z ++ reverse (b ∷ name)) (reverse-zeros n)

-- A device's version, if its build fits 16 bits, and its name of at most sixteen nonzero bytes,
-- padded with zeros, are read back, whatever follows them; and an empty response is a device with
-- zero version and no name.
pub parse_device_info-image :
    (d : DeviceInfo) (rest : Bytes)
    → d.version_build < 2 ^ 16
    → All IsNonzero d.device_name
    → length d.device_name ≤ 16
    → (parse_device_info (
          d.major_version
          ∷ d.minor_version
          ∷ (le_bytes 2 d.version_build
              ++ ((d.device_name ++ make_bytes (16 - length d.device_name)) ++ rest)))
        ≡ ok d)
      × (parse_device_info []
          ≡ ok (record {
            major_version = 0;
            minor_version = 0;
            version_build = 0;
            device_name = [];
          }))
unfolding parse_device_info slice
parse_device_info-image d rest hb hn hl = (
  rw (some_bytes, le→ltb (length image) 20 (omega (arith, image_length)), name_field)
      (ap ok (λ i. record {
        major_version = d.major_version;
        minor_version = d.minor_version;
        version_build = le_value-le_bytes 2 d.version_build hb i;
        device_name = trim_zeros-padded d.device_name (16 - length d.device_name) hn i;
      })),
  refl,
)
  where
    padded : Bytes
    padded = d.device_name ++ make_bytes (16 - length d.device_name)

    padded_length : length padded ≡ 16
    padded_length = omega (
      arith,
      length-append d.device_name (make_bytes (16 - length d.device_name)),
      length-replicate {A = ℕ} (16 - length d.device_name) 0,
    )

    image : Bytes
    image = d.major_version ∷ d.minor_version ∷ (le_bytes 2 d.version_build ++ (padded ++ rest))

    image_length : length image ≡ 20 + length rest
    image_length = omega (arith, length-append padded rest, padded_length)

    some_bytes : (length image == 0) ≡ false
    some_bytes = ground (arith, image_length)

    name_field : slice_to 16 (padded ++ rest) ≡ ok padded
    name_field =
        slice_to-take 16 (padded ++ rest) (omega (arith, length-append padded rest, padded_length))
        ∙ ap ok (
            take-append 16 padded rest (omega (arith, padded_length))
            ∙ take-length 16 padded (omega (arith, padded_length)))

-- The checks answer exactly as the parsers do, without the value.
pub checks-parse :
    (bytes : Bytes)
    → (check_system_state bytes ≡ (parse_system_state bytes >>= λ _. ok tt))
      × (check_extended_system_state bytes ≡ (parse_extended_system_state bytes >>= λ _. ok tt))
      × (check_device_info bytes ≡ (parse_device_info bytes >>= λ _. ok tt))
unfolding check_system_state parse_system_state check_extended_system_state
    parse_extended_system_state check_device_info parse_device_info
checks-parse bytes = (
  elim (Bool-cases (ltb (length bytes) 4)) [
    | inl short ↦ rw short
    | inr enough ↦
        let n : 4 ≤ length bytes = ltb→le _ _ enough in
        rw (
          enough,
          uint_at-take-drop 0 2 bytes (omega arith) (omega arith),
          uint_at-take-drop 2 4 bytes (omega arith) (omega arith),
        )
  ],
  elim (Bool-cases (ltb (length bytes) 16)) [
    | inl short ↦ rw short
    | inr enough ↦
        let n : 16 ≤ length bytes = ltb→le _ _ enough in
        rw (
          enough,
          uint_at-take-drop 0 2 bytes (omega arith) (omega arith),
          uint_at-take-drop 2 4 bytes (omega arith) (omega arith),
          uint_at-take-drop 4 6 bytes (omega arith) (omega arith),
          index-byte_at 6 bytes (omega arith),
          index-byte_at 7 bytes (omega arith),
          uint_at-take-drop 8 10 bytes (omega arith) (omega arith),
          index-byte_at 10 bytes (omega arith),
          index-byte_at 11 bytes (omega arith),
          uint_at-take-drop 12 14 bytes (omega arith) (omega arith),
        )
  ],
  elim (Bool-cases (length bytes == 0)) [
    | inl empty ↦ rw empty
    | inr some_bytes ↦ elim (Bool-cases (ltb (length bytes) 20)) [
      | inl short ↦ rw (some_bytes, short)
      | inr enough ↦
          let n : 20 ≤ length bytes = ltb→le _ _ enough in
          rw (
            some_bytes,
            enough,
            index-byte_at 0 bytes (omega arith),
            index-byte_at 1 bytes (omega arith),
            uint_at-take-drop 2 4 bytes (omega arith) (omega arith),
            slice-take-drop 4 20 bytes (omega arith) (omega arith),
          )
    ]
  ],
)
