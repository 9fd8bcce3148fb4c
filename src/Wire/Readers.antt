-- ===== src/Wire/Readers.antt =====
-- What the two reads of a bytes.Reader do on enough bytes, and on too few.
use ads_go.Base.{
  ℕ, zero, suc, ◌^◌, ◌≤◌, ◌<◌, ◌≡◌, refl, ap, [], ◌∷◌, ◌++◌, length, take, drop, arith, ok, err,
  Error,
}
use ads_go.Wire.{Bytes, le_bytes, le_value, read_full, read_uint, read_some, overwrite, make_bytes}
use ads_go.Wire.Numbers.{length-le_bytes, le_value-le_bytes}

pub read_full-append :
    (xs ys : Bytes) (e : Error) → read_full (length xs) e (xs ++ ys) ≡ ok (xs, ys)
unfolding read_full
read_full-append [] ys e = refl
read_full-append (x ∷ xs) ys e = rw (read_full-append xs ys e)

pub read_full_short : (n : ℕ) (e : Error) (bs : Bytes) → length bs < n → read_full n e bs ≡ err e
unfolding read_full
read_full_short zero e bs h = absurd (omega arith)
read_full_short (suc n) e [] h = refl
read_full_short (suc n) e (b ∷ bs) h = rw (read_full_short n e bs (omega arith))

pub read_uint-le_bytes :
    (w v : ℕ) (e : Error) (rest : Bytes)
    → v < 256 ^ w
    → read_uint w e (le_bytes w v ++ rest) ≡ ok (v, rest)
unfolding read_uint
read_uint-le_bytes w v e rest h = rw at_width (ap ok (pair (le_value-le_bytes w v h)))
  where
    at_width : read_full w e (le_bytes w v ++ rest) ≡ ok (le_bytes w v, rest)
    at_width = rw (length-le_bytes w v) at (read_full-append (le_bytes w v) rest e)

    pair :
        le_value (le_bytes w v) ≡ v → ◌≡◌ {A = ℕ × Bytes} (le_value (le_bytes w v), rest) (v, rest)
    pair p = λ i. (p i, rest)

pub read_full-take :
    (n : ℕ) (e : Error) (bs : Bytes) → n ≤ length bs → read_full n e bs ≡ ok (take n bs, drop n bs)
unfolding read_full
read_full-take zero e bs h = refl
read_full-take (suc n) e [] h = absurd (omega arith)
read_full-take (suc n) e (b ∷ bs) h = rw (read_full-take n e bs (omega arith))

pub read_uint-take :
    (n : ℕ) (e : Error) (bs : Bytes)
    → n ≤ length bs
    → read_uint n e bs ≡ ok (le_value (take n bs), drop n bs)
unfolding read_uint
read_uint-take n e bs h = rw (read_full-take n e bs h)

pub read_uint_short : (n : ℕ) (e : Error) (bs : Bytes) → length bs < n → read_uint n e bs ≡ err e
unfolding read_uint
read_uint_short n e bs h = rw (read_full_short n e bs h)

pub overwrite_all : (xs : Bytes) → overwrite xs (make_bytes (length xs)) ≡ xs
overwrite_all [] = refl
overwrite_all (x ∷ xs) = ap (◌∷◌ x) (overwrite_all xs)

take_self : (xs ys : Bytes) → take (length xs) (xs ++ ys) ≡ xs
take_self [] ys = refl
take_self (x ∷ xs) ys = ap (◌∷◌ x) (take_self xs ys)

drop_self : (xs ys : Bytes) → drop (length xs) (xs ++ ys) ≡ ys
drop_self [] ys = refl
drop_self (x ∷ xs) ys = drop_self xs ys

-- A read of n bytes, n positive, that are there.
pub read_some-append :
    (xs ys : Bytes) (e : Error) → 0 < length xs → read_some (length xs) e (xs ++ ys) ≡ ok (xs, ys)
unfolding read_some
read_some-append [] ys e h = absurd (omega arith)
read_some-append (x ∷ xs) ys e h = rw (take_self xs ys, drop_self xs ys, overwrite_all xs)
