-- ===== src/Serializer/Layout.antt =====
-- pkg/ads/ads-serializer: fields laid out in a buffer of zeros, and maps by name.
use ads_go.Base.{
  ℕ, zero, suc, ◌+◌, ◌≡◌, refl, ap, ◌∙◌, Bool, true, false, [], ◌∷◌, ◌++◌, length, none, some,
  arith, eqb_self, if◌then◌else◌,
}
use ads_go.Wire.{Bytes, overwrite, copy_at, make_bytes}
use ads_go.AdsTypes.{AdsSubItems, ads_type, no_sub_items, sub_item}
use ads_go.Serializer.Value.{Value, Fields, no_fields, field, same_bytes, get_field, set_field}
use ads_go.Serializer.Typed.{NamesDiffer}

overwrite_zeros :
    (b : Bytes) (tail : ℕ) → overwrite b (make_bytes (length b + tail)) ≡ b ++ make_bytes tail
overwrite_zeros [] tail = ap make_bytes (omega arith)
overwrite_zeros (x ∷ b) tail =
    let e : length (x ∷ b) + tail ≡ suc (length b + tail) = omega arith in
    rw e (ap (◌∷◌ x) (overwrite_zeros b tail))

copy_at_gap :
    (gap : ℕ) (b : Bytes) (tail : ℕ)
    → copy_at gap b (make_bytes (gap + (length b + tail)))
      ≡ make_bytes gap ++ (b ++ make_bytes tail)
copy_at_gap zero b tail =
    ap (λ n. overwrite b (make_bytes n)) (omega arith) ∙ overwrite_zeros b tail
copy_at_gap (suc gap) b tail =
    let e : suc gap + (length b + tail) ≡ suc (gap + (length b + tail)) = omega arith in
    rw e (ap (◌∷◌ 0) (copy_at_gap gap b tail))

-- A field behind what is laid out already and a gap.
pub copy_at_behind :
    (front : Bytes) (gap : ℕ) (b : Bytes) (tail : ℕ)
    → copy_at (length front + gap) b (front ++ make_bytes (gap + (length b + tail)))
      ≡ front ++ (make_bytes gap ++ (b ++ make_bytes tail))
copy_at_behind [] gap b tail =
    ap (λ n. copy_at n b (make_bytes (gap + (length b + tail)))) (omega arith)
    ∙ copy_at_gap gap b tail
copy_at_behind (x ∷ front) gap b tail =
    let e : length (x ∷ front) + gap ≡ suc (length front + gap) = omega arith in
    rw e (ap (◌∷◌ x) (copy_at_behind front gap b tail))

same_bytes_self : (name : Bytes) → same_bytes name name ≡ true
same_bytes_self [] = refl
same_bytes_self (b ∷ name) = rw (eqb_self b) (same_bytes_self name)

abbrev pub append_fields : Fields → Fields → Fields
append_fields no_fields entries = entries
append_fields (field name v before) entries = field name v (append_fields before entries)

-- None of the sub-items' names is in the map yet.
abbrev pub NoneOf : Fields → AdsSubItems → Type 0
NoneOf before no_sub_items = Unit
NoneOf before (sub_item (ads_type t own) items) =
    (get_field t.name before ≡ none) × NoneOf before items

pub get_field-append :
    (name : Bytes) (v : Value) (before entries : Fields)
    → get_field name before ≡ none
    → get_field name (append_fields before (field name v entries)) ≡ some v
get_field-append name v no_fields entries h = rw (same_bytes_self name) refl
get_field-append name v (field key w before) entries h =
    by_key (same_bytes key name) h (get_field-append name v before entries)
  where
    by_key :
        (same : Bool)
        → (if same then some w else get_field name before) ≡ none
        → (get_field name before ≡ none
            → get_field name (append_fields before (field name v entries)) ≡ some v)
        → (if same then some w else get_field name (append_fields before (field name v entries)))
          ≡ some v
    by_key true e ih = absurd (cc)
    by_key false e ih = ih e

pub set_field-append :
    (name : Bytes) (v : Value) (before : Fields)
    → get_field name before ≡ none
    → set_field name v before ≡ append_fields before (field name v no_fields)
set_field-append name v no_fields h = refl
set_field-append name v (field key w before) h =
    by_key (same_bytes key name) h (set_field-append name v before)
  where
    by_key :
        (same : Bool)
        → (if same then some w else get_field name before) ≡ none
        → (get_field name before ≡ none
            → set_field name v before ≡ append_fields before (field name v no_fields))
        → (if same then field key v before else field key w (set_field name v before))
          ≡ field key w (append_fields before (field name v no_fields))
    by_key true e ih = absurd (cc)
    by_key false e ih = ap (field key w) (ih e)

pub append_fields_assoc :
    (before : Fields) (name : Bytes) (v : Value) (entries : Fields)
    → append_fields (append_fields before (field name v no_fields)) entries
      ≡ append_fields before (field name v entries)
append_fields_assoc no_fields name v entries = refl
append_fields_assoc (field key w before) name v entries =
    ap (field key w) (append_fields_assoc before name v entries)

get_field_other :
    (other name : Bytes) (v : Value) (before : Fields)
    → get_field other before ≡ none
    → same_bytes name other ≡ false
    → get_field other (append_fields before (field name v no_fields)) ≡ none
get_field_other other name v no_fields h d = rw d refl
get_field_other other name v (field key w before) h d =
    by_key (same_bytes key other) h (λ k. get_field_other other name v before k d)
  where
    by_key :
        (same : Bool)
        → (if same then some w else get_field other before) ≡ none
        → (get_field other before ≡ none
            → get_field other (append_fields before (field name v no_fields)) ≡ none)
        → (if same then some w else get_field other (append_fields before (field name v no_fields)))
          ≡ none
    by_key true e ih = absurd (cc)
    by_key false e ih = ih e

-- A field more in the map, with a name that the later ones do not have.
pub NoneOf-append :
    (name : Bytes) (v : Value) (before : Fields) (items : AdsSubItems)
    → NoneOf before items
    → NamesDiffer name items
    → NoneOf (append_fields before (field name v no_fields)) items
NoneOf-append name v before no_sub_items h d = tt
NoneOf-append name v before (sub_item (ads_type t own) items) h d =
    (get_field_other t.name name v before h.0 d.0, NoneOf-append name v before items h.1 d.1)

pub NoneOf-empty : (items : AdsSubItems) → NoneOf no_fields items
NoneOf-empty no_sub_items = tt
NoneOf-empty (sub_item (ads_type t own) items) = (refl, NoneOf-empty items)
