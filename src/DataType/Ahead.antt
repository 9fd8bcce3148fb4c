-- ===== src/DataType/Ahead.antt =====
-- What the reads of pkg/ads/ads-datatype/parse.go take from the reader at least.
use ads_go.Base.{
  ℕ, zero, suc, ◌+◌, ◌≤◌, ◌≡◌, inl, inr, refl, ap, ◌∙◌, [], ◌∷◌, length, drop, Result, ok, err,
  panic, Error, ◌>>=◌, arith, ltb, ltb→lt, ltb→le, Bool-cases, subst, drop-length, slice_to, ◌%◌,
  ◌^◌, type_invalid_data,
}
use ads_go.Wire.{Bytes, Reader, read_uint, read_full}
use ads_go.Wire.Readers.{read_uint_short, read_uint-take, read_full_short, read_full-take}
use ads_go.DataType.Parse.{parse_string, read_array_info, parse_array_info, parse_header}
use ads_go.DataType.Optional.{read_times}

-- A reader drops at least some bytes.
abbrev pub Ahead : {A : Type 0} → ℕ → Bytes → Result (A × Bytes) → Type 0
Ahead k bytes (ok (x, rest)) = (j : ℕ) × (k ≤ j) × (rest ≡ drop j bytes)
Ahead k bytes (err e) = Unit
Ahead k bytes panic = Unit

pub drop-drop : (n m : ℕ) (bytes : Bytes) → drop n (drop m bytes) ≡ drop (m + n) bytes
drop-drop n zero bytes = ap (λ k. drop k bytes) (omega arith)
drop-drop n (suc m) [] =
    let e : suc m + n ≡ suc (m + n) = omega arith in rw e (drop-length n [] (omega arith))
drop-drop n (suc m) (b ∷ bytes) =
    let e : suc m + n ≡ suc (m + n) = omega arith in rw e (drop-drop n m bytes)

pub read_uint-Ahead : (n : ℕ) (e : Error) (bytes : Bytes) → Ahead n bytes (read_uint n e bytes)
read_uint-Ahead n e bytes = elim (Bool-cases (ltb (length bytes) n)) [
  | inl short ↦ rw (read_uint_short n e bytes (ltb→lt _ _ short)) tt
  | inr long ↦ rw (read_uint-take n e bytes (ltb→le _ _ long)) (n, omega arith, refl)
]

pub read_full-Ahead : (n : ℕ) (e : Error) (bytes : Bytes) → Ahead 0 bytes (read_full n e bytes)
read_full-Ahead n e bytes = elim (Bool-cases (ltb (length bytes) n)) [
  | inl short ↦ rw (read_full_short n e bytes (ltb→lt _ _ short)) tt
  | inr long ↦ rw (read_full-take n e bytes (ltb→le _ _ long)) (n, omega arith, refl)
]

pub Ahead-shift :
    {B : Type 0} (k l j : ℕ) (bytes : Bytes) (r : Result (B × Bytes))
    → k ≤ j
    → Ahead l (drop j bytes) r
    → Ahead (k + l) bytes r
Ahead-shift k l j bytes (ok (x, rest)) h (i, m, e) = (j + i, omega arith, e ∙ drop-drop i j bytes)
Ahead-shift k l j bytes (err e) h g = tt
Ahead-shift k l j bytes panic h g = tt

pub Ahead-less :
    {B : Type 0} (k : ℕ) (bytes : Bytes) (r : Result (B × Bytes))
    → Ahead k bytes r
    → Ahead 0 bytes r
Ahead-less k bytes (ok (x, rest)) (j, h, e) = (j, omega arith, e)
Ahead-less k bytes (err e) h = tt
Ahead-less k bytes panic h = tt

pub Ahead-bind :
    {A B : Type 0} (k l : ℕ) (bytes : Bytes) (r : Result (A × Bytes))
    (next : A × Bytes → Result (B × Bytes))
    → Ahead k bytes r
    → ((x : A) (rest : Bytes) → Ahead l rest (next (x, rest)))
    → Ahead (k + l) bytes (r >>= next)
Ahead-bind k l bytes (ok (x, rest)) next (j, h, e) g =
    Ahead-shift k l j bytes (next (x, rest)) h
      (subst (λ b. Ahead l b (next (x, rest))) e (g x rest))
Ahead-bind k l bytes (err e) next h g = tt
Ahead-bind k l bytes panic next h g = tt

-- A number of a width, and what is read behind it.
pub next_uint :
    {B : Type 0} (l w : ℕ) (bytes : Bytes) (next : ℕ × Bytes → Result (B × Bytes))
    → ((x : ℕ) (rest : Bytes) → Ahead l rest (next (x, rest)))
    → Ahead (w + l) bytes (read_uint w type_invalid_data bytes >>= next)
next_uint l w bytes next =
    Ahead-bind w l bytes (read_uint w type_invalid_data bytes) next
      (read_uint-Ahead w type_invalid_data bytes)

pub read_times-Ahead :
    {A : Type 0} (read : Reader A)
    → ((bytes : Bytes) → Ahead 0 bytes (read bytes))
    → (count : ℕ) (bytes : Bytes) → Ahead 0 bytes (read_times count read bytes)
unfolding read_times
read_times-Ahead read each zero bytes = (0, omega arith, refl)
read_times-Ahead read each (suc count) bytes =
    Ahead-bind 0 0 bytes (read bytes) _ (each bytes) λ x rest.
      Ahead-bind 0 0 rest (read_times count read rest) _ (read_times-Ahead read each count rest)
        λ xs more. (0, omega arith, refl)

pub read_array_info-Ahead : (bytes : Bytes) → Ahead 0 bytes (read_array_info bytes)
unfolding read_array_info
read_array_info-Ahead bytes = Ahead-less 8 bytes _ (
    next_uint 4 4 bytes _
      λ start_index rest. next_uint 0 4 rest _ λ entries more. (0, omega arith, refl))

pub slice-Ahead :
    {A : Type 0} (r : Result A) (bytes : Bytes) → Ahead 0 bytes (r >>= λ x. ok (x, bytes))
slice-Ahead (ok x) bytes = (0, omega arith, refl)
slice-Ahead (err e) bytes = tt
slice-Ahead panic bytes = tt

pub parse_string-Ahead : (n : ℕ) (bytes : Bytes) → Ahead 0 bytes (parse_string n bytes)
unfolding parse_string
parse_string-Ahead n bytes =
    Ahead-bind 0 0 bytes (read_full ((n + 1) % 2 ^ 16) type_invalid_data bytes) _
      (read_full-Ahead _ _ bytes) λ buffer rest. slice-Ahead (slice_to n buffer) rest

pub parse_array_info-Ahead : (n : ℕ) (bytes : Bytes) → Ahead 0 bytes (parse_array_info n bytes)
unfolding parse_array_info
parse_array_info-Ahead n bytes = read_times-Ahead read_array_info read_array_info-Ahead n bytes

-- The header takes 42 bytes and its texts.
pub parse_header-Ahead : (bytes : Bytes) → Ahead 42 bytes (parse_header bytes)
unfolding parse_header
parse_header-Ahead bytes = next_uint 38 4 bytes _ λ data_len b1. next_uint 34 4 b1 _ λ version b2.
    next_uint 30 4 b2 _ λ hash_value b3. next_uint 26 4 b3 _ λ type_hash b4.
      next_uint 22 4 b4 _ λ size b5. next_uint 18 4 b5 _ λ offset b6.
        next_uint 14 4 b6 _ λ data_type b7. next_uint 10 4 b7 _ λ flags b8.
          next_uint 8 2 b8 _ λ name_len b9. next_uint 6 2 b9 _ λ type_len b10.
            next_uint 4 2 b10 _ λ comment_len b11. next_uint 2 2 b11 _ λ array_dim b12.
              next_uint 0 2 b12 _ λ num_sub_items b13.
                Ahead-bind 0 0 b13 _ _ (parse_string-Ahead name_len b13) λ name b14.
                  Ahead-bind 0 0 b14 _ _ (parse_string-Ahead type_len b14) λ type_name b15.
                    Ahead-bind 0 0 b15 _ _ (parse_string-Ahead comment_len b15) λ comment b16.
                      Ahead-bind 0 0 b16 _ _ (parse_array_info-Ahead array_dim b16)
                        λ array_info b17. (0, omega arith, refl)
