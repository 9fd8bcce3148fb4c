-- ===== src/Serializer/Arrays.antt =====
-- pkg/ads/ads-serializer: the elements of an array, dimension by dimension, written and read back.
use ads_go.Base.{
  ℕ, zero, suc, ◌+◌, ◌*◌, ◌≡◌, ◌≤◌, refl, ap, sym, subst, ◌∙◌, List, [], ◌∷◌, ◌++◌, length, drop,
  Result, ok, ◌>>=◌, arith, length-append, length-drop, append_assoc, slice_from,
}
use ads_go.Wire.{Bytes}
use ads_go.AdsTypes.{AdsArrayInfo, AdsTypeFields}
use ads_go.Serializer.Value.{Value, Values, slice, no_values, value}
use ads_go.Serializer.Convert.{FloatConversions}
use ads_go.Serializer.Write.{serialize_primitive, write_elements, write_array, any_slice}
use ads_go.Serializer.Read.{deserialize_primitive, read_elements, read_element, read_array}
use ads_go.Serializer.Typed.{
  IsScalar, IsArray, IsSlice, AllValues, count_values, elements, scalar_width,
}
use ads_go.Serializer.Scalars.{scalar_codes}

slice_from_inside :
    (n : ℕ) (p xs : Bytes) → n ≤ length p → slice_from n (p ++ xs) ≡ ok (drop n p ++ xs)
slice_from_inside zero p xs h = refl
slice_from_inside (suc n) [] xs h = absurd (omega arith)
slice_from_inside (suc n) (b ∷ p) xs h = slice_from_inside n p xs (omega arith)

mul_assoc : (a b c : ℕ) → a * b * c ≡ a * (b * c)
mul_assoc a b c = grind arith

-- What is read stands `o` bytes behind the position of its element.
module _ (o : ℕ) where
  -- A value's bytes, and the value read back at a position, which then is the next one's.
  abbrev pub Codes : ℕ → (Value → Result Bytes) → (Bytes → ℕ → Result (Value × ℕ)) → Value → Type 0
  Codes w write read v =
      (b : Bytes) × (write v ≡ ok b)
      × (length b ≡ w)
      × ((front rest : Bytes) (pos : ℕ)
          → pos + o ≡ length front
          → read (front ++ (b ++ rest)) pos ≡ ok (v, pos + w))

  abbrev pub CodesAll :
      ℕ → (Values → Result Bytes) → (Bytes → ℕ → Result (Values × ℕ)) → Values → Type 0
  CodesAll w write read vs =
      (b : Bytes) × (write vs ≡ ok b)
      × (length b ≡ w)
      × ((front rest : Bytes) (pos : ℕ)
          → pos + o ≡ length front
          → read (front ++ (b ++ rest)) pos ≡ ok (vs, pos + w))

  elements-Codes :
      (P : Value → Type 0) (w : ℕ) (write : Value → Result Bytes)
      (read : Bytes → ℕ → Result (Value × ℕ))
      → ((v : Value) → P v → Codes w write read v)
      → (vs : Values) → AllValues P vs
      → CodesAll
          (count_values vs * w)
          (write_elements write (count_values vs))
          (λ whole. read_elements (read whole) (count_values vs))
          vs
  unfolding write_elements read_elements
  elements-Codes P w write read each no_values h =
      ([], refl, omega arith, λ front rest pos l. ap (λ k. ok (no_values, k)) (omega arith))
  elements-Codes P w write read each (value v vs) h =
      let (b, wrote, long, back) = each v h.0 in
      let (bs, wrote_all, long_all, back_all) = elements-Codes P w write read each vs h.1 in
      (
        b ++ bs,
        rw (wrote, wrote_all) refl,
        omega (arith, length-append b bs, long, long_all),
        λ front rest pos l.
            let whole : front ++ (b ++ (bs ++ rest)) ≡ front ++ ((b ++ bs) ++ rest) =
              ap (λ (x : Bytes). front ++ x) (sym (append_assoc b bs rest)) in
            let first : read (front ++ ((b ++ bs) ++ rest)) pos ≡ ok (v, pos + w) =
              subst (λ x. read x pos ≡ ok (v, pos + w)) whole (back front (bs ++ rest) pos l) in
            let others : read_elements (read (front ++ ((b ++ bs) ++ rest))) (count_values vs)
                  (pos + w)
                ≡ ok (vs, pos + w + count_values vs * w) =
              subst
                (λ x.
                  read_elements (read x) (count_values vs) (pos + w)
                  ≡ ok (vs, pos + w + count_values vs * w))
                (append_assoc front b (bs ++ rest) ∙ whole)
                (back_all (front ++ b) rest (pos + w)
                  (omega (arith, length-append front b, long, l))) in
            rw (first, others) (ap (λ k. ok (value v vs, k)) (omega arith)),
      )

  counted :
      (P : Value → Type 0) (w : ℕ) (write : Value → Result Bytes)
      (read : Bytes → ℕ → Result (Value × ℕ))
      → ((v : Value) → P v → Codes w write read v)
      → (vs : Values) → AllValues P vs
      → (n : ℕ) → count_values vs ≡ n
      → CodesAll (n * w) (write_elements write n) (λ whole. read_elements (read whole) n) vs
  counted P w write read each vs h n e =
      subst
        (λ k. CodesAll (k * w) (write_elements write k) (λ whole. read_elements (read whole) k) vs)
        e (elements-Codes P w write read each vs h)

  -- A scalar as an element.
  pub scalar_element :
      (floats : FloatConversions) (to_runes : Bytes → List ℕ) (t : AdsTypeFields) (v : Value)
      → t.offset ≡ o
      → scalar_width t.data_type t.size ≡ t.size
      → IsScalar t v
      → Codes t.size
          (serialize_primitive floats to_runes t)
          (read_element (deserialize_primitive t) t.size)
          v
  unfolding read_element
  scalar_element floats to_runes t v e w h =
      let (b, wrote, long, back) = scalar_codes floats to_runes t h in
      (
        b,
        wrote,
        long ∙ w,
        λ front rest pos l.
            rw
              (
                slice_from_inside pos front (b ++ rest) (omega arith),
                back (drop pos front) rest (omega (arith, length-drop pos front)),
              )
              refl,
      )

  sub_array :
      (v : Value) (dims : List AdsArrayInfo) (w : ℕ) (write : Value → Result Bytes)
      (read : Bytes → Result Value) (Q : Values → Type 0) (k : ℕ)
      → ((sub : Values)
          → Q sub
          → CodesAll k (write_array write dims) (λ whole. read_array read w whole dims) sub)
      → IsSlice Q v
      → Codes k
          (λ u. any_slice u >>= λ sub. write_array write dims sub)
          (λ whole p. read_array read w whole dims p >>= λ r. ok (slice r.0, r.1))
          v
  sub_array v dims w write read Q k each (sub, e, inner) =
      let (b, wrote, long, back) = each sub inner in
      (b, rw e wrote, long, λ front rest pos l. rw (back front rest pos l, e) refl)

  pub array-Codes :
      (P : Value → Type 0) (w : ℕ) (write : Value → Result Bytes) (read : Bytes → Result Value)
      → ((v : Value) → P v → Codes w write (read_element read w) v)
      → (dims : List AdsArrayInfo) (vs : Values) → IsArray P dims vs
      → CodesAll
          (elements dims * w)
          (write_array write dims)
          (λ whole. read_array read w whole dims)
          vs
  unfolding write_array read_array
  array-Codes P w write read each [] vs h = elim h [ ]
  array-Codes P w write read each (dim ∷ []) vs h =
      counted P w write (read_element read w) each vs h.1 dim.entries h.0
  array-Codes P w write read each (dim ∷ next ∷ dims) vs h =
      subst
        (λ k.
          CodesAll k (write_array write (dim ∷ next ∷ dims))
            (λ whole. read_array read w whole (dim ∷ next ∷ dims)) vs)
        (sym (mul_assoc dim.entries (elements (next ∷ dims)) w))
        (counted (IsSlice (IsArray P (next ∷ dims))) (elements (next ∷ dims) * w)
          (λ v. any_slice v >>= λ sub. write_array write (next ∷ dims) sub)
          (λ whole p. read_array read w whole (next ∷ dims) p >>= λ r. ok (slice r.0, r.1))
          (λ v s.
            sub_array v (next ∷ dims) w write read (IsArray P (next ∷ dims))
              (elements (next ∷ dims) * w)
              (λ sub g. array-Codes P w write read each (next ∷ dims) sub g) s)
          vs h.1 dim.entries h.0)
