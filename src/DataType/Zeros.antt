-- ===== src/DataType/Zeros.antt =====
-- Bytes behind which there are only zeros, as the reads of pkg/ads/ads-datatype/parse.go leave them.
use ads_go.Base.{ℕ, zero, suc, ◌+◌, ◌≤◌, ◌≡◌, refl, [], ◌∷◌, ◌++◌, length, take, drop, arith}
use ads_go.Wire.{Bytes, le_value, overwrite, make_bytes}

-- Only zeros from a place on.
abbrev pub ZeroPast : ℕ → Bytes → Type 0
ZeroPast n [] = Unit
ZeroPast zero (b ∷ bytes) = (b ≡ 0) × ZeroPast zero bytes
ZeroPast (suc n) (b ∷ bytes) = ZeroPast n bytes

pub ZeroPast-le : (n m : ℕ) (bytes : Bytes) → n ≤ m → ZeroPast n bytes → ZeroPast m bytes
ZeroPast-le n m [] l h = tt
ZeroPast-le zero zero (b ∷ bytes) l h = h
ZeroPast-le zero (suc m) (b ∷ bytes) l h = ZeroPast-le zero m bytes (omega arith) h.1
ZeroPast-le (suc n) zero (b ∷ bytes) l h = absurd (omega arith)
ZeroPast-le (suc n) (suc m) (b ∷ bytes) l h = ZeroPast-le n m bytes (omega arith) h

pub drop-ZeroPast :
    (n m j : ℕ) (bytes : Bytes) → n ≤ j + m → ZeroPast n bytes → ZeroPast m (drop j bytes)
drop-ZeroPast n m zero bytes l h = ZeroPast-le n m bytes (omega arith) h
drop-ZeroPast n m (suc j) [] l h = tt
drop-ZeroPast zero m (suc j) (b ∷ bytes) l h = drop-ZeroPast zero m j bytes (omega arith) h.1
drop-ZeroPast (suc n) m (suc j) (b ∷ bytes) l h = drop-ZeroPast n m j bytes (omega arith) h

pub zeros-ZeroPast : (m n : ℕ) → ZeroPast m (make_bytes n)
zeros-ZeroPast m zero = tt
zeros-ZeroPast zero (suc n) = (refl, zeros-ZeroPast zero n)
zeros-ZeroPast (suc m) (suc n) = zeros-ZeroPast m n

pub ZeroPast-length : (bytes : Bytes) (n : ℕ) → length bytes ≤ n → ZeroPast n bytes
ZeroPast-length [] n l = tt
ZeroPast-length (b ∷ bytes) zero l = absurd (omega arith)
ZeroPast-length (b ∷ bytes) (suc n) l = ZeroPast-length bytes n (omega arith)

-- A read into fresh zeros.
pub overwrite-ZeroPast :
    (n m : ℕ) (bytes : Bytes)
    → ZeroPast m bytes
    → ZeroPast m (overwrite (take n bytes) (make_bytes n))
overwrite-ZeroPast zero m bytes h = tt
overwrite-ZeroPast (suc n) m [] h = zeros-ZeroPast m (suc n)
overwrite-ZeroPast (suc n) zero (b ∷ bytes) h = (h.0, overwrite-ZeroPast n zero bytes h.1)
overwrite-ZeroPast (suc n) (suc m) (b ∷ bytes) h = overwrite-ZeroPast n m bytes h

pub append-ZeroPast : (xs ys : Bytes) (m : ℕ) → ZeroPast m ys → ZeroPast (length xs + m) (xs ++ ys)
append-ZeroPast [] ys m h = ZeroPast-le m (0 + m) ys (omega arith) h
append-ZeroPast (x ∷ xs) ys m h =
    let e : length (x ∷ xs) + m ≡ suc (length xs + m) = omega arith in
    rw e (append-ZeroPast xs ys m h)

pub le_value_zero : (bytes : Bytes) → ZeroPast 0 bytes → le_value bytes ≡ 0
le_value_zero [] h = refl
le_value_zero (b ∷ bytes) h = omega (arith, h.0, le_value_zero bytes h.1)
