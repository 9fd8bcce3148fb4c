-- ===== src/NetId/RoundTrip.antt =====
-- AmsNetIds: the text of six bytes is read back as those bytes.
use ads_go.Base.{
  suc, ◌^◌, ◌≡◌, refl, ap, ◌∙◌, true, List, [], ◌∷◌, ◌++◌, map, arith, ◌==◌, All, length, ok,
  Option-cases, inl, inr, >>=-eq-ok, Bool-cases, eqb→eq,
}
use ads_go.Base.Integer.{pattern_of-lt}
use native.Mathlib.Nat.{mod-eq_of_lt}
use ads_go.Wire.{Bytes, IsByte}
use ads_go.NetId.{
  atoi, decimal, split_dots, join_dots, part_bytes, ams_net_id_str_to_byte_array,
  byte_array_to_ams_net_id_str,
}
use ads_go.NetId.Decimal.{atoi-decimal, IsNotDot, decimal-IsNotDot}

split_dots-part : (s : Bytes) → All IsNotDot s → split_dots s ≡ s ∷ []
unfolding split_dots
split_dots-part [] h = refl
split_dots-part (c ∷ s) h = rw (h.0, split_dots-part s h.1)

split_dots-append :
    (s rest : Bytes) → All IsNotDot s → split_dots (s ++ (b'.' ∷ rest)) ≡ s ∷ split_dots rest
unfolding split_dots
split_dots-append [] rest h = refl
split_dots-append (c ∷ s) rest h = rw (h.0, split_dots-append s rest h.1)

-- Splitting undoes joining, where no part holds a dot and there is a part.
pub split_dots-join_dots :
    (p : Bytes) (ps : List Bytes)
    → All (All IsNotDot) (p ∷ ps)
    → split_dots (join_dots (p ∷ ps)) ≡ p ∷ ps
unfolding join_dots
split_dots-join_dots p [] h = split_dots-part p h.0
split_dots-join_dots p (q ∷ ps) h =
    split_dots-append p (join_dots (q ∷ ps)) h.0 ∙ ap (◌∷◌ p) (split_dots-join_dots q ps h.1)

decimals-IsNotDot : (b : Bytes) → All IsByte b → All (All IsNotDot) (map decimal b)
decimals-IsNotDot [] h = tt
decimals-IsNotDot (c ∷ b) h = (decimal-IsNotDot c h.0, decimals-IsNotDot b h.1)

part_bytes-decimals : (b : Bytes) → All IsByte b → part_bytes (map decimal b) ≡ ok b
unfolding part_bytes
part_bytes-decimals [] h = refl
part_bytes-decimals (c ∷ b) h =
    rw (atoi-decimal c h.0, part_bytes, part_bytes-decimals b h.1)
      (ap (λ x. ok (x ∷ b)) (mod-eq_of_lt h.0))

length-map-decimal : (b : Bytes) → length (map decimal b) ≡ length b
length-map-decimal [] = refl
length-map-decimal (c ∷ b) = ap suc (length-map-decimal b)

-- Six bytes are read back from their text, for every six bytes.
pub net_id_round_trip :
    (b : Bytes)
    → All IsByte b
    → length b ≡ 6
    → ams_net_id_str_to_byte_array (byte_array_to_ams_net_id_str b) ≡ ok b
unfolding ams_net_id_str_to_byte_array byte_array_to_ams_net_id_str
net_id_round_trip [] h n = absurd (omega arith)
net_id_round_trip (c ∷ b) h n = rw (parts, six) (part_bytes-decimals (c ∷ b) h)
  where
    parts : split_dots (byte_array_to_ams_net_id_str (c ∷ b)) ≡ map decimal (c ∷ b)
    parts = split_dots-join_dots (decimal c) (map decimal b) (decimals-IsNotDot (c ∷ b) h)

    six : (suc (length (map decimal b)) == 6) ≡ true
    six = ground (arith, length-map-decimal b)

part_bytes_shape :
    (parts : List Bytes) (b : Bytes)
    → part_bytes parts ≡ ok b
    → All IsByte b × (length b ≡ length parts)
unfolding part_bytes
part_bytes_shape [] b e = ground arith
part_bytes_shape (part ∷ parts) b e = elim (Option-cases (atoi part)) [
  | inl bad ↦ cc (rw (bad, part_bytes) at e)
  | inr (val, good) ↦
      let (bytes, e', r) = >>=-eq-ok (part_bytes parts) _ (rw (good, part_bytes) at e) in
      ground (arith, part_bytes_shape parts bytes e', pattern_of-lt (2 ^ 7) val)
]

-- Whatever text is accepted gives six bytes.
pub net_id_shape :
    (s b : Bytes) → ams_net_id_str_to_byte_array s ≡ ok b → All IsByte b × (length b ≡ 6)
unfolding ams_net_id_str_to_byte_array
net_id_shape s b e = elim (Bool-cases (length (split_dots s) == 6)) [
  | inl six ↦
      let shape = part_bytes_shape (split_dots s) b (rw six at e) in
      (shape.0, shape.1 ∙ eqb→eq _ _ six)
  | inr other ↦ cc (rw other at e)
]
