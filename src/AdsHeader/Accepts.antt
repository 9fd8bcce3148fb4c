-- ===== src/AdsHeader/Accepts.antt =====
-- Exactly which responses pass, and which error the others get.
use ads_go.Base.{
  ℕ, ◌<◌, ◌^◌, ◌≡◌, ◌↔◌, ap, sym, ◌∙◌, not, [], ◌∷◌, ◌++◌, length, All, Result, ok, err, ads_error,
  invalid_header_length, invalid_data_length, ◌>>=◌, ◌>>◌, fail_if, arith, ltb, ◌==◌, le→ltb,
  lt→ltb, eqb_self, ap₂, >>=_assoc, if◌then◌else◌, All-take, Bool-cases, inl, inr,
}
use ads_go.Wire.{Bytes, IsByte, le_bytes, le_value}
use ads_go.Wire.Numbers.{le_value-le_bytes, le_bytes-le_value}
use ads_go.AdsHeader.{
  check_ads_error, strip_ads_error, strip_and_check_length, check_ads_header, strip_ads_header,
}

-- The error code and the announced length of a response of eight bytes or more.
abbrev pub response_answer : ℕ → ℕ → Bytes → Result Bytes
response_answer code announced rest =
    fail_if (not (code == 0)) (ads_error code)
    >> (fail_if (not (length rest == announced)) (invalid_data_length announced (length rest))
        >> ok rest)

strip_ads_error-cons :
    (a b c d : ℕ) (rest : Bytes)
    → strip_ads_error (a ∷ b ∷ c ∷ d ∷ rest) ≡ (
        fail_if
          (not (le_value (a ∷ b ∷ c ∷ d ∷ []) == 0))
          (ads_error (le_value (a ∷ b ∷ c ∷ d ∷ [])))
        >> ok rest)
unfolding strip_ads_error check_ads_error
strip_ads_error-cons a b c d rest = rw (le→ltb (length (a ∷ b ∷ c ∷ d ∷ rest)) 4 (omega arith))

strip_and_check_length-cons :
    (a b c d : ℕ) (rest : Bytes)
    → strip_and_check_length (a ∷ b ∷ c ∷ d ∷ rest) ≡ (
        fail_if
          (not (length rest == le_value (a ∷ b ∷ c ∷ d ∷ [])))
          (invalid_data_length (le_value (a ∷ b ∷ c ∷ d ∷ [])) (length rest))
        >> ok rest)
unfolding strip_and_check_length
strip_and_check_length-cons a b c d rest =
    rw (le→ltb (length (a ∷ b ∷ c ∷ d ∷ rest)) 4 (omega arith))

-- A response is read as its two numbers and what follows them.
pub strip_ads_header-cons :
    (a b c d e f g h : ℕ) (rest : Bytes)
    → strip_ads_header (a ∷ b ∷ c ∷ d ∷ e ∷ f ∷ g ∷ h ∷ rest)
      ≡ response_answer (le_value (a ∷ b ∷ c ∷ d ∷ [])) (le_value (e ∷ f ∷ g ∷ h ∷ [])) rest
unfolding strip_ads_header
strip_ads_header-cons a b c d e f g h rest =
    rw
      (
        le→ltb (length (a ∷ b ∷ c ∷ d ∷ e ∷ f ∷ g ∷ h ∷ rest)) 8 (omega arith),
        strip_ads_error-cons a b c d (e ∷ f ∷ g ∷ h ∷ rest),
      )
      (elim (Bool-cases (le_value (a ∷ b ∷ c ∷ d ∷ []) == 0)) [
        | inl success ↦ rw success (strip_and_check_length-cons e f g h rest)
        | inr failure ↦ rw failure
      ])

strip_ads_header_short :
    (bytes : Bytes)
    → length bytes < 8
    → strip_ads_header bytes ≡ err (invalid_header_length (length bytes))
unfolding strip_ads_header
strip_ads_header_short bytes h = rw (lt→ltb (length bytes) 8 h)

-- What a response with the error code 0 and a right length looks like.
abbrev pub success_image : Bytes → Bytes
success_image payload = le_bytes 4 0 ++ (le_bytes 4 (length payload) ++ payload)

response_answer_ok :
    (code announced : ℕ) (rest payload : Bytes)
    → response_answer code announced rest ≡ ok payload
    → (code ≡ 0) × (rest ≡ payload) × (announced ≡ length payload)
response_answer_ok code announced rest payload e = ground arith

accepted :
    (bytes payload : Bytes)
    → All IsByte bytes
    → strip_ads_header bytes ≡ ok payload
    → bytes ≡ success_image payload
accepted (a ∷ b ∷ c ∷ d ∷ e ∷ f ∷ g ∷ h ∷ rest) payload bs r =
    let (zero_code, same, announced) =
      response_answer_ok _ _ rest payload (sym (strip_ads_header-cons a b c d e f g h rest) ∙ r) in
    let fourth : le_bytes 4 (length payload) ≡ e ∷ f ∷ g ∷ h ∷ [] =
      ap (le_bytes 4) (sym announced)
      ∙ le_bytes-le_value (e ∷ f ∷ g ∷ h ∷ [])
          (All-take IsByte 4 (e ∷ f ∷ g ∷ h ∷ rest) bs.1.1.1.1) in
    let zeros : a ∷ b ∷ c ∷ d ∷ [] ≡ le_bytes 4 0 = ground arith in
    ap₂ ◌++◌ zeros (ap₂ ◌++◌ (sym fourth) same)
accepted short payload bs r = cc (strip_ads_header_short short (omega arith))

-- Of a response, the data, if its length fits 32 bits, is handed on exactly if the response is the
-- error code 0, the length of the data, and the data.
pub strip_ads_header_iff :
    (bytes payload : Bytes)
    → All IsByte bytes
    → length payload < 2 ^ 32
    → (strip_ads_header bytes ≡ ok payload) ↔ (bytes ≡ success_image payload)
strip_ads_header_iff bytes payload bs small = (accepted bytes payload bs, λ e. rw e image)
  where
    announced : le_value (le_bytes 4 (length payload)) ≡ length payload
    announced = le_value-le_bytes 4 (length payload) small

    image : strip_ads_header (success_image payload) ≡ ok payload
    image =
        strip_ads_header-cons _ _ _ _ _ _ _ _ payload
        ∙ ap (λ n. response_answer 0 n payload) announced
        ∙ rw (eqb_self (length payload))

check-strip : (bytes : Bytes) → check_ads_header bytes ≡ (strip_ads_header bytes >>= λ _. ok tt)
unfolding check_ads_header strip_ads_header
check-strip bytes = elim (Bool-cases (ltb (length bytes) 8)) [
  | inl short ↦ rw short
  | inr enough ↦
      rw enough (sym (>>=_assoc (strip_ads_error bytes) strip_and_check_length (λ _. ok tt)))
]

-- Of a response with an error code and a length of 32 bits: one with a non-zero code gets that
-- error, whatever its length says; one whose payload is longer or shorter than announced is refused
-- with both lengths; every other one gives its payload. `check_ads_header` answers the same,
-- without the payload.
pub strip_ads_header_answers :
    (code announced : ℕ) (rest : Bytes)
    → code < 2 ^ 32
    → announced < 2 ^ 32
    → (strip_ads_header (le_bytes 4 code ++ (le_bytes 4 announced ++ rest)) ≡ (
        if code == 0
        then (if length rest == announced
            then ok rest
            else err (invalid_data_length announced (length rest)))
        else err (ads_error code)))
      × (check_ads_header (le_bytes 4 code ++ (le_bytes 4 announced ++ rest))
          ≡ (strip_ads_header (le_bytes 4 code ++ (le_bytes 4 announced ++ rest)) >>= λ _. ok tt))
strip_ads_header_answers code announced rest hc hn = (answer ∙ ground arith, check-strip _)
  where
    answer :
        strip_ads_header (le_bytes 4 code ++ (le_bytes 4 announced ++ rest))
        ≡ response_answer code announced rest
    answer =
        strip_ads_header-cons _ _ _ _ _ _ _ _ rest
        ∙ ap₂ (λ c n. response_answer c n rest) (le_value-le_bytes 4 code hc)
            (le_value-le_bytes 4 announced hn)
