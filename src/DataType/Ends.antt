-- ===== src/DataType/Ends.antt =====
-- pkg/ads/ads-datatype/parse.go: the recursion over sub-items ends. An entry may announce more
-- bytes than there are, and is filled up with zeros; the bytes in front of these get fewer.
use ads_go.Base.{
  ℕ, zero, suc, ◌+◌, ◌-◌, ◌≤◌, ◌<◌, ◌≡◌, ◌⊎◌, inl, inr, refl, sym, [], ◌∷◌, ◌++◌, length, take,
  drop, Result, ok, err, panic, Error, ◌>>=◌, arith, ◌>>◌, Bool, true, false, ltb, ltb→lt, ltb→le,
  Bool-cases, subst, fail_if, type_invalid_data, type_invalid_entry_length, type_insufficient_data,
}
use ads_go.Wire.{Bytes, read_some, le_value, overwrite, make_bytes}
use ads_go.Wire.Buffers.{length-overwrite}
use ads_go.DataType.Types.{TypeFields, DataType}
use ads_go.DataType.Parse.{
  parse_header, read_entry, parse_sub_items, parse_with, parse_nested, parse_data_type,
}
use ads_go.DataType.Zeros.{
  ZeroPast, ZeroPast-le, drop-ZeroPast, ZeroPast-length, overwrite-ZeroPast, append-ZeroPast,
  le_value_zero,
}
use ads_go.DataType.Ahead.{Ahead, parse_header-Ahead}

-- What is read of an entry behind its length, and what is left.
body_zeros :
    (n k : ℕ) (buffer bytes full rest : Bytes)
    → length buffer ≡ 4
    → ZeroPast k bytes
    → (◌>>=◌ {B = Bytes × Bytes} (read_some n type_invalid_data bytes) λ r. ok (buffer ++ r.0, r.1))
      ≡ ok (full, rest)
    → ZeroPast (4 + k) full × ZeroPast k rest
unfolding read_some
body_zeros n k buffer [] full rest l h e = absurd (cc)
body_zeros n k buffer (b ∷ bytes) full rest l h e =
    let f : buffer ++ overwrite (take n (b ∷ bytes)) (make_bytes n) ≡ full = cc in
    let g : drop n (b ∷ bytes) ≡ rest = cc in
    (
      subst (λ t. ZeroPast (4 + k) t) f
          (subst (λ w. ZeroPast (w + k) (buffer ++ overwrite (take n (b ∷ bytes)) (make_bytes n))) l
            (append-ZeroPast buffer (overwrite (take n (b ∷ bytes)) (make_bytes n)) k
              (overwrite-ZeroPast n k (b ∷ bytes) h))),
      subst (λ t. ZeroPast k t) g (drop-ZeroPast k k n (b ∷ bytes) (omega arith) h),
    )

-- A guard that was passed.
passed :
    {A : Type 0} (test : Bool) (e : Error) (next : Result A) (x : A)
    → (fail_if test e >> next) ≡ ok x
    → (test ≡ false) × (next ≡ ok x)
passed true e next x h = absurd (cc)
passed false e next x h = (refl, h)

abbrev entry_len_buf : Bytes → Bytes
entry_len_buf bytes = overwrite (take 4 bytes) (make_bytes 4)

-- An entry is read where there is a byte in front of the zeros.
read_entry_zeros :
    (i m : ℕ) (bytes full rest : Bytes)
    → ZeroPast m bytes
    → read_entry i bytes ≡ ok (full, rest)
    → (0 < m) × ZeroPast (4 + (m - 4)) full × ZeroPast (m - 4) rest
unfolding read_entry read_some
read_entry_zeros i m [] full rest h e = absurd (cc)
read_entry_zeros i m (b ∷ bytes) full rest h e =
    let guarded =
      passed (ltb (le_value (entry_len_buf (b ∷ bytes))) 4)
        (type_invalid_entry_length (le_value (entry_len_buf (b ∷ bytes))) i)
        (◌>>=◌ {B = Bytes × Bytes}
          (read_some (le_value (entry_len_buf (b ∷ bytes)) - 4) type_invalid_data
            (drop 4 (b ∷ bytes)))
          λ r. ok (entry_len_buf (b ∷ bytes) ++ r.0, r.1))
        (full, rest) e in
    let zeros =
      body_zeros (le_value (entry_len_buf (b ∷ bytes)) - 4) (m - 4) (entry_len_buf (b ∷ bytes))
        (drop 4 (b ∷ bytes)) full rest (length-overwrite (take 4 (b ∷ bytes)) (make_bytes 4))
        (drop-ZeroPast m (m - 4) 4 (b ∷ bytes) (omega arith) h) guarded.1 in
    (positive m h guarded.0, zeros.0, zeros.1)
  where
    positive :
        (m : ℕ)
        → ZeroPast m (b ∷ bytes)
        → ltb (le_value (entry_len_buf (b ∷ bytes))) 4 ≡ false
        → 0 < m
    positive zero h l =
        let v : le_value (entry_len_buf (b ∷ bytes)) ≡ 0 =
          le_value_zero (entry_len_buf (b ∷ bytes)) (overwrite-ZeroPast 4 0 (b ∷ bytes) h) in
        absurd (ground (arith, v, l))
    positive (suc m) h l = omega arith

-- Two parsers of entries that agree where few bytes stand in front of the zeros.
abbrev Agree : ℕ → (Bytes → Result DataType) → (Bytes → Result DataType) → Type 0
Agree n p q = (m : ℕ) (bytes : Bytes) → m < n → ZeroPast m bytes → p bytes ≡ q bytes

>>=_cong :
    {A B : Type 0} (r : Result A) (f g : A → Result B)
    → ((a : A) → r ≡ ok a → f a ≡ g a)
    → (r >>= f) ≡ (r >>= g)
>>=_cong (ok a) f g h = h a refl
>>=_cong (err e) f g h = refl
>>=_cong panic f g h = refl

-- Too few bytes for a further header and an entry, or none.
abbrev Few : ℕ → ℕ → Type 0
Few n m = (m + 5 ≤ n) ⊎ (m ≡ 0)

parse_sub_items_agree :
    (n : ℕ) (p q : Bytes → Result DataType)
    → Agree n p q
    → (count i m : ℕ) (bytes : Bytes) → Few n m
    → ZeroPast m bytes
    → parse_sub_items p count i bytes ≡ parse_sub_items q count i bytes
unfolding parse_sub_items
parse_sub_items_agree n p q agree zero i m bytes l h = refl
parse_sub_items_agree n p q agree (suc count) i m bytes l h =
    >>=_cong (read_entry i bytes) _ _ λ (entry : Bytes × Bytes) e.
      let z = read_entry_zeros i m bytes entry.0 entry.1 h e in
      rw
        (
          agree (4 + (m - 4)) entry.0 (ground (arith, z.0, l)) z.1,
          parse_sub_items_agree n p q agree count (suc i) (m - 4) entry.1 (fewer l) z.2,
        )
        refl
  where
    fewer : Few n m → Few n (m - 4)
    fewer (inl k) = inl (omega arith)
    fewer (inr k) = inr (omega arith)

-- One call more of the recursion changes nothing where it was deep enough.
parse_with_agree :
    (n : ℕ) (p q : Bytes → Result DataType) (bytes : Bytes)
    → Agree n p q
    → ZeroPast n bytes
    → parse_with p bytes ≡ parse_with q bytes
unfolding parse_with
parse_with_agree n p q bytes agree h =
    >>=_cong (fail_if (ltb (length bytes) 4) type_insufficient_data) _ _ λ (u : Unit {0}) _.
      >>=_cong (parse_header bytes) _ _ λ (head : (TypeFields × ℕ) × Bytes) e.
        let (j, l, d) = subst (λ r. Ahead 42 bytes r) e (parse_header-Ahead bytes) in
        let zeros : ZeroPast (n - 42) head.1 =
          subst (λ b. ZeroPast (n - 42) b) (sym d)
            (drop-ZeroPast n (n - 42) j bytes (omega arith) h) in
        rw (parse_sub_items_agree n p q agree head.0.1 0 (n - 42) head.1 (few n) zeros) refl
  where
    few : (n : ℕ) → Few n (n - 42)
    few n = elim (Bool-cases (ltb n 42)) [
      | inl small ↦ inr (omega (arith, ltb→lt n 42 small))
      | inr large ↦ inl (omega (arith, ltb→le n 42 large))
    ]

nested_agree :
    (p q : Bytes → Result DataType) (n : ℕ) → Agree n (parse_nested p n) (parse_nested q n)
unfolding parse_nested
nested_agree p q zero m bytes l h = absurd (omega arith)
nested_agree p q (suc n) m bytes l h =
    parse_with_agree n (parse_nested p n) (parse_nested q n) bytes (nested_agree p q n)
      (ZeroPast-le m n bytes (omega arith) h)

-- The recursion ends by itself: it never gets deeper than the response is long, so it makes no
-- difference what a deeper call does, also where entries announce bytes that are not there.
pub parse_nested_ends :
    (below : Bytes → Result DataType) (bytes : Bytes)
    → parse_nested below (suc (length bytes)) bytes ≡ parse_data_type bytes
unfolding parse_data_type
parse_nested_ends below bytes =
    nested_agree below (λ _. panic) (suc (length bytes)) (length bytes) bytes (omega arith)
      (ZeroPast-length bytes (length bytes) (omega arith))
