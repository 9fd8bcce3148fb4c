-- ===== src/Base/Outcome.antt =====
-- What a Go call comes to: a value with a nil error, a non-nil error, or a run-time panic. The
-- errors are the sentinels of the packages, with the numbers that their messages are built from.
use Prim.Native.Nat.{ℕ, zero, suc, ◌-◌, ◌≤◌, ◌<◌}
use mathlib.Core.Path.{◌≡◌, refl}
use mathlib.Core.Logic.{◌⊎◌, inl, inr}
use mathlib.Core.Bool.{Bool, true, false}
use mathlib.Core.List.{List, [], ◌∷◌}
use native.Mathlib.Omega.{arith}
use ads_go.Base.Tests.{ltb, if◌then◌else◌}
use ads_go.Base.Lists.{length, take, drop}

pub data Error : Type 0 where
  -- encoding/binary: the input ended.
  unexpected_eof : Error
  -- ads-primitives: the bytes needed.
  primitive_insufficient_data : ℕ → Error
  -- ams-header: bytes expected and received; the announced packet length.
  ams_insufficient_data : ℕ → ℕ → Error
  ams_invalid_length : ℕ → Error
  -- utils: the text is no AmsNetId, or one of its parts is no number.
  invalid_ams_net_id : Error
  invalid_ams_net_id_part : List ℕ → Error
  -- ads-errors: the error code, and the length received.
  ads_error : ℕ → Error
  ads_invalid_length : ℕ → Error
  -- ads-header.
  invalid_header_length : ℕ → Error
  invalid_data_length : ℕ → ℕ → Error
  -- ads-stateinfo.
  invalid_state_length : ℕ → Error
  invalid_extended_state_length : ℕ → Error
  invalid_device_info_length : ℕ → Error
  -- ads-symbol and ads-datatype.
  invalid_symbol_length : ℕ → Error
  symbol_insufficient_data : ℕ → ℕ → Error
  type_invalid_data : Error
  type_insufficient_data : Error
  type_invalid_entry_length : ℕ → ℕ → Error
  -- ads-serializer: the type's number; the field's name; the size of the structure.
  invalid_value_type : ℕ → Error
  invalid_bit_value : Error
  missing_field : List ℕ → Error
  struct_size_too_small : ℕ → Error
  unsupported_data_type : ℕ → Error
  -- the client: bytes that a notification lacks, refused operations, transport failures.
  notification_truncated : Error
  invalid_response_length : ℕ → Error
  not_in_run_mode : ℕ → Error
  not_connected : Error
  transport_failure : Error
  response_timeout : Error
  hook_panicked : Error

pub data Result {ℓ} (A : Type ℓ) : Type ℓ where
  ok : A → Result A
  err : Error → Result A
  panic : Result A

infixl 5 ◌>>=◌ ◌>>◌
abbrev pub ◌>>=◌ {ℓ κ} : {A : Type ℓ} {B : Type κ} → Result A → (A → Result B) → Result B
panic >>= next = panic
err e >>= next = err e
ok value >>= next = next value

abbrev pub ◌>>◌ {κ} : {B : Type κ} → Result (Unit {0}) → Result B → Result B
first >> second = first >>= λ _. second

-- `if test { return e }`
abbrev pub fail_if : Bool → Error → Result (Unit {0})
fail_if true e = err e
fail_if false e = ok tt

pub >>=_assoc {ℓ κ ι} :
    {A : Type ℓ} {B : Type κ} {C : Type ι} (m : Result A) (f : A → Result B) (g : B → Result C)
    → ((m >>= f) >>= g) ≡ (m >>= λ x. f x >>= g)
>>=_assoc (ok a) f g = refl
>>=_assoc (err e) f g = refl
>>=_assoc panic f g = refl

-- A chain that came to a value did so at each step.
pub >>=-eq-ok {ℓ κ} :
    {A : Type ℓ} {B : Type κ} (first : Result A) (next : A → Result B) {value : B}
    → (first >>= next) ≡ ok value
    → (middle : A) × (first ≡ ok middle) × (next middle ≡ ok value)
>>=-eq-ok panic next all = cc
>>=-eq-ok (err e) next all = cc
>>=-eq-ok (ok middle) next all = (middle, refl, all)

pub Result-cases {ℓ} :
    {A : Type ℓ} (r : Result A) → ((a : A) × (r ≡ ok a)) ⊎ ((e : Error) × (r ≡ err e)) ⊎ (r ≡ panic)
Result-cases (ok a) = inl (a, refl)
Result-cases (err e) = inr (inl (e, refl))
Result-cases panic = inr (inr refl)

-- `s[:n]`, `s[n:]`, `s[lo:hi]` and `s[i]`. Slices carry no spare capacity, so a bound past the
-- length panics.
module _ {ℓ} {A : Type ℓ} where
  abbrev pub slice_to : ℕ → List A → Result (List A)
  slice_to zero xs = ok []
  slice_to (suc n) [] = panic
  slice_to (suc n) (x ∷ xs) = slice_to n xs >>= λ ys. ok (x ∷ ys)

  abbrev pub slice_from : ℕ → List A → Result (List A)
  slice_from zero xs = ok xs
  slice_from (suc n) [] = panic
  slice_from (suc n) (x ∷ xs) = slice_from n xs

  unfoldable pub slice : ℕ → ℕ → List A → Result (List A)
  slice lo hi xs = if ltb hi lo then panic else (slice_from lo xs >>= λ ys. slice_to (hi - lo) ys)

  abbrev pub index : ℕ → List A → Result A
  index i [] = panic
  index zero (x ∷ xs) = ok x
  index (suc i) (x ∷ xs) = index i xs

  pub slice_to-take : (n : ℕ) (xs : List A) → n ≤ length xs → slice_to n xs ≡ ok (take n xs)
  slice_to-take zero xs h = refl
  slice_to-take (suc n) [] h = absurd (omega arith)
  slice_to-take (suc n) (x ∷ xs) h = rw (slice_to-take n xs (omega arith))

  pub slice_from-drop : (n : ℕ) (xs : List A) → n ≤ length xs → slice_from n xs ≡ ok (drop n xs)
  slice_from-drop zero xs h = refl
  slice_from-drop (suc n) [] h = absurd (omega arith)
  slice_from-drop (suc n) (x ∷ xs) h = slice_from-drop n xs (omega arith)

  pub slice_to_past : (n : ℕ) (xs : List A) → length xs < n → slice_to n xs ≡ panic
  slice_to_past zero xs h = absurd (omega arith)
  slice_to_past (suc n) [] h = refl
  slice_to_past (suc n) (x ∷ xs) h = rw (slice_to_past n xs (omega arith))

  pub slice_from_past : (n : ℕ) (xs : List A) → length xs < n → slice_from n xs ≡ panic
  slice_from_past zero xs h = absurd (omega arith)
  slice_from_past (suc n) [] h = refl
  slice_from_past (suc n) (x ∷ xs) h = slice_from_past n xs (omega arith)
