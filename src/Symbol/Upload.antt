-- ===== src/Symbol/Upload.antt =====
-- The symbol table that a device uploads.
use ads_go.Base.{
  ℕ, zero, suc, ◌+◌, ◌≤◌, ◌<◌, ◌≡◌, ap, ◌∙◌, false, List, [], ◌∷◌, ◌++◌, length, take, drop, arith,
  le→ltb, lt→ltb, ◌==◌, All, length-append, take-append, drop-append, take-length, drop-length,
  append_assoc,
}
use ads_go.Wire.{Bytes, le_value}
use ads_go.Symbol.{AdsSymbol, parse_symbol, add_parsed, parse_entries}

-- An entry as it stands in the table: it starts with its own length.
pub record IsEntry (entry : Bytes) : Type 0 where
  pub some_bytes : 4 ≤ length entry
  pub own_length : le_value (take 4 entry) ≡ length entry

abbrev pub table_image : List Bytes → Bytes
table_image [] = []
table_image (entry ∷ entries) = entry ++ table_image entries

-- The symbols of the entries that can be parsed.
abbrev pub parsed : List Bytes → List AdsSymbol
parsed [] = []
parsed (entry ∷ entries) = add_parsed (parse_symbol entry) (parsed entries)

parse_entries-step :
    (fuel n : ℕ) (blob : Bytes)
    → le_value (take 4 blob) ≡ n
    → 4 ≤ length blob
    → 4 ≤ n
    → n ≤ length blob
    → parse_entries (suc fuel) blob
      ≡ add_parsed (parse_symbol (take n blob)) (parse_entries fuel (drop n blob))
unfolding parse_entries
parse_entries-step fuel n blob head long some_bytes within =
    rw (head, le→ltb (length blob) 4 long, le→ltb (length blob) n within, nonzero)
  where
    nonzero : (n == 0) ≡ false
    nonzero = ground arith

parse_entries-end : (fuel : ℕ) (blob : Bytes) → length blob < 4 → parse_entries (suc fuel) blob ≡ []
unfolding parse_entries
parse_entries-end fuel blob short = rw (lt→ltb (length blob) 4 short)

-- A table of entries that each start with their length, and fewer than four bytes behind it: exactly
-- the entries that can be parsed are returned, in order, each from its own bytes; an entry that
-- cannot be parsed does not stop those behind it.
pub parse_entries-table :
    (entries : List Bytes) (tail : Bytes) (fuel : ℕ)
    → All IsEntry entries
    → length tail < 4
    → length entries < fuel
    → parse_entries fuel (table_image entries ++ tail) ≡ parsed entries
parse_entries-table entries tail zero h short enough = absurd (omega arith)
parse_entries-table [] tail (suc fuel) h short enough = parse_entries-end fuel tail short
parse_entries-table (entry ∷ entries) tail (suc fuel) h short enough =
    ap (parse_entries (suc fuel)) (append_assoc entry (table_image entries) tail)
    ∙ parse_entries-step fuel n blob head (omega (arith, long)) h.0.some_bytes (omega (arith, long))
    ∙ ap (λ b. add_parsed (parse_symbol b) (parse_entries fuel (drop n blob))) front
    ∙ ap (λ b. add_parsed (parse_symbol entry) (parse_entries fuel b)) back
    ∙ ap (add_parsed (parse_symbol entry))
        (parse_entries-table entries tail fuel h.1 short (omega arith))
  where
    n : ℕ
    n = length entry

    blob : Bytes
    blob = entry ++ (table_image entries ++ tail)

    long : length blob ≡ n + length (table_image entries ++ tail)
    long = length-append entry (table_image entries ++ tail)

    head : le_value (take 4 blob) ≡ n
    head =
        ap le_value (take-append 4 entry (table_image entries ++ tail) h.0.some_bytes)
        ∙ h.0.own_length

    front : take n blob ≡ entry
    front =
        take-append n entry (table_image entries ++ tail) (omega arith)
        ∙ take-length n entry (omega arith)

    back : drop n blob ≡ table_image entries ++ tail
    back =
        drop-append n entry (table_image entries ++ tail) (omega arith)
        ∙ ap (λ b. b ++ (table_image entries ++ tail)) (drop-length n entry (omega arith))
