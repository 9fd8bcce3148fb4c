-- ===== src/Serializer/Places.antt =====
-- serialize.go: the place of a field in front of the fields behind it.
use ads_go.Base.{
  ℕ, ◌+◌, ◌-◌, ◌≡◌, ◌≤◌, ◌<◌, refl, ap, sym, ◌∙◌, true, List, ◌∷◌, ◌++◌, length, ok, arith,
  length-append, length-replicate, append_assoc, le→ltb,
}
use ads_go.Wire.{Bytes, copy_at, make_bytes}
use ads_go.AdsTypes.{AdsTypeFields, AdsSubItems, ads_type, no_sub_items, sub_item}
use ads_go.Serializer.Write.{SerializedField, place_fields, has_explicit_offsets}
use ads_go.Serializer.Typed.{last_offset}
use ads_go.Serializer.Layout.{copy_at_behind}

pub last_offset_within :
    (t : AdsTypeFields) (own items : AdsSubItems) (end : ℕ)
    → t.offset ≤ end
    → last_offset items ≤ end
    → last_offset (sub_item (ads_type t own) items) ≤ end
last_offset_within t own no_sub_items end h k = h
last_offset_within t own (sub_item next items) end h k = k

pub explicit_kept :
    (t : AdsTypeFields) (own items : AdsSubItems) (b : Bytes) (parts : List SerializedField)
    → (0 < last_offset items → has_explicit_offsets parts ≡ true)
    → 0 < last_offset (sub_item (ads_type t own) items)
    → has_explicit_offsets (record { offset = t.offset; field_bytes = b } ∷ parts) ≡ true
explicit_kept t own no_sub_items b parts h k = ground arith
explicit_kept t own (sub_item next items) b parts h k = let e = h k in ground arith

-- A field in front of others that lie behind it.
module _ (t : AdsTypeFields) (pos end : ℕ) (b laid : Bytes) (parts : List SerializedField)
    (starts : pos ≤ t.offset) (ends : t.offset + length b ≤ end) where
  pub place_field :
      (size : ℕ) (front : Bytes)
      → length front ≡ pos
      → ((front' : Bytes)
          → length front' ≡ t.offset + length b
          → place_fields size parts (front' ++ make_bytes (end - (t.offset + length b)))
            ≡ ok (front' ++ laid))
      → place_fields size
          (record { offset = t.offset; field_bytes = b } ∷ parts)
          (front ++ make_bytes (end - pos))
        ≡ ok (front ++ (make_bytes (t.offset - pos) ++ (b ++ laid)))
  unfolding place_fields
  place_field size front l others =
      rw
        (
          le→ltb (length (front ++ make_bytes (end - pos))) (t.offset + length b) room,
          copied,
          others (front ++ (make_bytes (t.offset - pos) ++ b)) long,
          append_assoc front (make_bytes (t.offset - pos) ++ b) laid,
          append_assoc (make_bytes (t.offset - pos)) b laid,
        )
        refl
    where
      zeros : (n : ℕ) → length (make_bytes n) ≡ n
      zeros n = length-replicate {A = ℕ} n 0

      room : t.offset + length b ≤ length (front ++ make_bytes (end - pos))
      room = omega (arith, length-append front (make_bytes (end - pos)), zeros (end - pos))

      long : length (front ++ (make_bytes (t.offset - pos) ++ b)) ≡ t.offset + length b
      long = omega (
        arith,
        length-append front (make_bytes (t.offset - pos) ++ b),
        length-append (make_bytes (t.offset - pos)) b,
        zeros (t.offset - pos),
      )

      copied :
          copy_at t.offset b (front ++ make_bytes (end - pos))
          ≡ (front ++ (make_bytes (t.offset - pos) ++ b))
            ++ make_bytes (end - (t.offset + length b))
      copied =
          let gap : ℕ = t.offset - pos in
          let tail : ℕ = end - (t.offset + length b) in
          let at_offset : t.offset ≡ length front + (t.offset - pos) = omega arith in
          let size_left : end - pos ≡ t.offset - pos + (length b + (end - (t.offset + length b))) =
            omega arith in
          (λ i. copy_at (at_offset i) b (front ++ make_bytes (size_left i)))
          ∙ (copy_at_behind front gap b tail
              ∙ sym (
                  append_assoc front (make_bytes gap ++ b) (make_bytes tail)
                  ∙ ap (λ (x : Bytes). front ++ x)
                      (append_assoc (make_bytes gap) b (make_bytes tail))))

  pub field_laid :
      (front rest : Bytes)
      → front ++ ((make_bytes (t.offset - pos) ++ (b ++ laid)) ++ rest)
        ≡ (front ++ make_bytes (t.offset - pos)) ++ (b ++ (laid ++ rest))
  field_laid front rest =
      ap (λ (x : Bytes). front ++ x)
        (append_assoc (make_bytes (t.offset - pos)) (b ++ laid) rest
          ∙ ap (λ (x : Bytes). make_bytes (t.offset - pos) ++ x) (append_assoc b laid rest))
      ∙ sym (append_assoc front (make_bytes (t.offset - pos)) (b ++ (laid ++ rest)))

  pub length-laid :
      length laid ≡ end - (t.offset + length b)
      → length (make_bytes (t.offset - pos) ++ (b ++ laid)) ≡ end - pos
  length-laid h = omega (
    arith,
    length-append (make_bytes (t.offset - pos)) (b ++ laid),
    length-append b laid,
    length-replicate {A = ℕ} (t.offset - pos) 0,
  )
