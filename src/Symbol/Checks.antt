-- ===== src/Symbol/Checks.antt =====
-- `check_symbol` against `parse_symbol`: the check asks for one byte less.
use ads_go.Base.{
  ℕ, zero, suc, ◌+◌, ◌-◌, ◌≤◌, ◌<◌, ◌≡◌, refl, ap, ◌∙◌, [], ◌∷◌, length, take, drop, ok, err,
  unexpected_eof, symbol_insufficient_data, fail_if, arith, ltb, le→ltb, lt→ltb, length-drop,
}
use ads_go.Wire.{Bytes, le_value}
use ads_go.Wire.Readers.{read_uint-take}
use ads_go.Wire.Slices.{uint_at-take-drop}
use ads_go.Symbol.{parse_symbol, check_symbol}

-- The three lengths in a header of thirty bytes.
abbrev pub name_len : Bytes → ℕ
name_len bytes = le_value (take 2 (drop 24 bytes))

abbrev pub type_len : Bytes → ℕ
type_len bytes = le_value (take 2 (drop 26 bytes))

abbrev pub comment_len : Bytes → ℕ
comment_len bytes = le_value (take 2 (drop 28 bytes))

abbrev pub texts_len : Bytes → ℕ
texts_len bytes = name_len bytes + type_len bytes + comment_len bytes

drop-drop : (m n k : ℕ) (bytes : Bytes) → m + n ≡ k → drop n (drop m bytes) ≡ drop k bytes
drop-drop zero n k bytes e = ap (λ k. drop k bytes) (omega arith)
drop-drop (suc m) n zero bytes e = absurd (omega arith)
drop-drop (suc m) zero (suc k) [] e = refl
drop-drop (suc m) (suc n) (suc k) [] e = refl
drop-drop (suc m) n (suc k) (b ∷ bytes) e = drop-drop m n k bytes (omega arith)

check_symbol-eq :
    (bytes : Bytes)
    → 30 ≤ length bytes
    → check_symbol bytes
      ≡ fail_if
          (ltb (length bytes) (32 + texts_len bytes))
          (symbol_insufficient_data (32 + texts_len bytes) (length bytes))
unfolding check_symbol
check_symbol-eq bytes h =
    rw
      (
        le→ltb (length bytes) 30 h,
        uint_at-take-drop 24 26 bytes (omega arith) (omega arith),
        uint_at-take-drop 26 28 bytes (omega arith) (omega arith),
        uint_at-take-drop 28 30 bytes (omega arith) (omega arith),
      )
      (ap (λ n. fail_if (ltb (length bytes) n) (symbol_insufficient_data n (length bytes)))
        (omega arith))

-- What the parser's own check comes to.
parse_symbol_short :
    (bytes : Bytes)
    → 30 ≤ length bytes
    → length bytes < 33 + texts_len bytes
    → parse_symbol bytes ≡ err (symbol_insufficient_data (3 + texts_len bytes) (length bytes - 30))
unfolding parse_symbol
parse_symbol_short bytes h k =
    rw
      (
        le→ltb (length bytes) 30 h,
        read_uint-take 4 unexpected_eof bytes (omega arith),
        read_uint-take 4 unexpected_eof (drop 4 bytes) (omega (arith, length-drop 4 bytes)),
        drop-drop 4 4 8 bytes refl,
        read_uint-take 4 unexpected_eof (drop 8 bytes) (omega (arith, length-drop 8 bytes)),
        drop-drop 8 4 12 bytes refl,
        read_uint-take 4 unexpected_eof (drop 12 bytes) (omega (arith, length-drop 12 bytes)),
        drop-drop 12 4 16 bytes refl,
        read_uint-take 4 unexpected_eof (drop 16 bytes) (omega (arith, length-drop 16 bytes)),
        drop-drop 16 4 20 bytes refl,
        read_uint-take 4 unexpected_eof (drop 20 bytes) (omega (arith, length-drop 20 bytes)),
        drop-drop 20 4 24 bytes refl,
        read_uint-take 2 unexpected_eof (drop 24 bytes) (omega (arith, length-drop 24 bytes)),
        drop-drop 24 2 26 bytes refl,
        read_uint-take 2 unexpected_eof (drop 26 bytes) (omega (arith, length-drop 26 bytes)),
        drop-drop 26 2 28 bytes refl,
        read_uint-take 2 unexpected_eof (drop 28 bytes) (omega (arith, length-drop 28 bytes)),
        drop-drop 28 2 30 bytes refl,
        lt→ltb (length (drop 30 bytes))
            (name_len bytes + 1 + (type_len bytes + 1) + (comment_len bytes + 1))
            (omega (arith, length-drop 30 bytes)),
      )
      (ap (λ p. err (symbol_insufficient_data p.0 p.1)) sizes)
  where
    sizes :
        ◌≡◌ {A = ℕ × ℕ}
          (
            name_len bytes + 1 + (type_len bytes + 1) + (comment_len bytes + 1),
            length (drop 30 bytes),
          )
          (3 + texts_len bytes, length bytes - 30)
    sizes = λ i. (
      (let e : name_len bytes + 1 + (type_len bytes + 1) + (comment_len bytes + 1)
                ≡ 3 + texts_len bytes =
              omega arith in
            e)
          i,
      length-drop 30 bytes i,
    )

-- Bytes that end one short of the last terminator: `check_symbol` lets them pass, and `parse_symbol`
-- refuses them.
pub check_symbol-lax :
    (bytes : Bytes)
    → length bytes ≡ 32 + texts_len bytes
    → (check_symbol bytes ≡ ok tt)
      × (parse_symbol bytes
          ≡ err (symbol_insufficient_data (3 + texts_len bytes) (2 + texts_len bytes)))
check_symbol-lax bytes n = (
  check_symbol-eq bytes (omega arith)
      ∙ rw (le→ltb (length bytes) (32 + texts_len bytes) (omega arith)),
  parse_symbol_short bytes (omega arith) (omega arith)
      ∙ ap (λ k. err (symbol_insufficient_data (3 + texts_len bytes) k)) (omega arith),
)
