-- ===== src/Client/Receive/Progress.antt =====
-- The loop of client_buffer.go, where an announced length whose total wraps to 0 makes the difference.
use ads_go.Base.{
  ℕ, zero, suc, ◌+◌, ◌-◌, ◌^◌, ◌≤◌, ◌<◌, ◌≡◌, ◌≢◌, ap, sym, subst, false, Bool-cases, ◌∙◌, inl, inr,
  List, [], ◌∷◌, length, take, drop, ok, panic, Result-cases, arith, lengths, length-drop,
  length-take, take-append-drop, All, All-take, All-drop, lt→ltb,
}
use native.Mathlib.Decide.{dec_lt}
use ads_go.Wire.{Bytes, IsByte}
use ads_go.Wire.Numbers.{le_value-lt}
use ads_go.AmsHeader.{check_tcp_packet_length}
use ads_go.AmsHeader.Checks.{
  announced, announced-append, check_tcp_packet_length-bounds, check_tcp_packet_length-frame_check,
  packet_of, parse_packet-packet_of,
}
use ads_go.AmsHeader.Frames.{parse_packet_short}
use ads_go.Client.Receive.{
  AmsPacket, zero_packet, ams_packet_of, parse_ams_packet, Response, Requests, Dispatch, notify,
  respond, discard, dispatch, Takes, all_taken, Process, stopped, blocked, exhausted, prepend,
  hand_on, process_receive_buffer,
}
use ads_go.Client.Receive.Framing.{process_turn, process_step, process_wait, process_no_fuel}

announced-lt : (bs : Bytes) → All IsByte bs → 6 ≤ length bs → announced bs < 2 ^ 32
announced-lt bs h six =
    let four : length (take 4 (drop 2 bs)) ≡ 4 = grind lengths in
    rw four at
      (le_value-lt (take 4 (drop 2 bs)) (All-take IsByte 4 (drop 2 bs) (All-drop IsByte 2 bs h)))

announced-take : (n : ℕ) (bs : Bytes) → 6 ≤ n → n ≤ length bs → announced (take n bs) ≡ announced bs
announced-take n bs h k =
    sym (announced-append (take n bs) (drop n bs) (omega (arith, length-take n bs)))
    ∙ ap announced (take-append-drop n bs)

parse_ams_packet_short : (bs : Bytes) → length bs < 38 → parse_ams_packet bs ≡ ok zero_packet
unfolding parse_ams_packet
parse_ams_packet_short bs h = rw (parse_packet_short bs h, parse_ams_packet)

pub parse_ams_packet_full :
    (bs : Bytes)
    → length bs < 2 ^ 32
    → 32 ≤ announced bs
    → announced bs + 6 ≤ length bs
    → parse_ams_packet bs ≡ ok (ams_packet_of (packet_of bs))
unfolding parse_ams_packet
parse_ams_packet_full bs small head full =
    rw (parse_packet-packet_of bs small head full, parse_ams_packet)

-- A frame that was found is parsed, if only to the zero packet: the loop never panics.
frame_parses :
    (n : ℕ) (bs : Bytes)
    → length bs < 2 ^ 32
    → All IsByte bs
    → check_tcp_packet_length bs ≡ ok n
    → (p : AmsPacket) × (parse_ams_packet (take n bs) ≡ ok p)
frame_parses n bs small bytes hc =
    let (six, head, total, within) = check_tcp_packet_length-bounds bs n small hc in
    let word : announced bs < 2 ^ 32 = announced-lt bs bytes six in
    let cut : length (take n bs) ≡ n = omega (arith, length-take n bs) in
    elim (dec_lt n 38) [
      | yes short ↦ (zero_packet, parse_ams_packet_short (take n bs) (omega arith))
      | no whole ↦
          let same : announced (take n bs) ≡ announced bs =
            announced-take n bs (omega arith) within in
          (
            ams_packet_of (packet_of (take n bs)),
            parse_ams_packet_full (take n bs) (omega arith) (omega arith) (omega arith),
          )
    ]

check_tcp_packet_length-ne-panic : (bs : Bytes) → check_tcp_packet_length bs ≢ panic
unfolding check_tcp_packet_length
check_tcp_packet_length-ne-panic bs e = elim (dec_lt (length bs) 6) [
  | yes short ↦ cc (rw (lt→ltb (length bs) 6 short) at e)
  | no enough ↦
      let checked = check_tcp_packet_length-frame_check bs (omega arith) in
      ground (arith, sym checked ∙ e)
]

-- No place of the buffer announces a length whose total wraps to 0.
abbrev pub NoWrap : Bytes → Type 0
NoWrap [] = Unit {0}
NoWrap (b ∷ bs) = (announced (b ∷ bs) ≢ 2 ^ 32 - 6) × NoWrap bs

NoWrap-drop : (n : ℕ) (bs : Bytes) → NoWrap bs → NoWrap (drop n bs)
NoWrap-drop zero bs h = h
NoWrap-drop (suc n) [] h = tt
NoWrap-drop (suc n) (b ∷ bs) h = NoWrap-drop n bs h.1

NoWrap-head : (bs : Bytes) → NoWrap bs → announced bs ≢ 2 ^ 32 - 6
NoWrap-head [] h = omega arith
NoWrap-head (b ∷ bs) h = h.0

-- How the loop ends: it returns, or it stands at the send of a response that is not taken.
pub data Ends (takes : Takes) : Process → Type 0 where
  returns : (ds : List Dispatch) (rest : Bytes) → Ends takes (stopped ds rest)
  waits :
      (ds : List Dispatch) (channel : ℕ) (response : Response) (rest : Bytes)
      → takes rest channel response ≡ false
      → Ends takes (blocked ds channel response rest)

prepend-Ends :
    (takes : Takes) (d : Dispatch) (r : Process) → Ends takes r → Ends takes (prepend d r)
prepend-Ends takes d _ (returns ds rest) = returns (d ∷ ds) rest
prepend-Ends takes d _ (waits ds channel response rest h) = waits (d ∷ ds) channel response rest h

hand_on-Ends :
    (takes : Takes) (rest : Bytes) (d : Dispatch) (r : Process)
    → Ends takes r
    → Ends takes (hand_on takes rest d r)
hand_on-Ends takes rest (notify bytes) r h = prepend-Ends takes (notify bytes) r h
hand_on-Ends takes rest (discard id) r h = prepend-Ends takes (discard id) r h
hand_on-Ends takes rest (respond channel response) r h =
    elim (Bool-cases (takes rest channel response)) [
      | inl taken ↦ rw taken (prepend-Ends takes (respond channel response) r h)
      | inr kept ↦ rw kept (waits [] channel response rest kept)
    ]

-- On fewer than 2 ^ 32 bytes, none of whose places announces 2 ^ 32 - 6 bytes, and with more fuel
-- than bytes, the loop neither panics nor goes on for ever: it returns, or it stands at the send of a
-- response that the request at the other end does not take.
pub process_terminates :
    (takes : Takes) (requests : Requests) (fuel : ℕ) (buffer : Bytes)
    → length buffer < fuel
    → length buffer < 2 ^ 32
    → All IsByte buffer
    → NoWrap buffer
    → Ends takes (process_receive_buffer takes fuel requests buffer)
process_terminates takes requests zero buffer le small bytes clean = absurd (omega arith)
process_terminates takes requests (suc fuel) buffer le small bytes clean =
    elim (Result-cases (check_tcp_packet_length buffer)) [
      | inl (n, hc) ↦
          let (six, head, total, within) = check_tcp_packet_length-bounds buffer n small hc in
          let word : announced buffer < 2 ^ 32 = announced-lt buffer bytes six in
          let moves : 0 < n = omega (arith, NoWrap-head buffer clean) in
          let (p, hp) = frame_parses n buffer small bytes hc in
          let shorter : length (drop n buffer) ≡ length buffer - n = length-drop n buffer in
          let later =
            process_terminates takes requests fuel (drop n buffer) (omega arith) (omega arith)
              (All-drop IsByte n buffer bytes) (NoWrap-drop n buffer clean) in
          subst (Ends takes) (sym (process_turn takes requests fuel n buffer hc hp))
            (hand_on-Ends takes (drop n buffer) (dispatch requests p) _ later)
      | inr (inl (e, hc)) ↦
          subst (Ends takes) (sym (process_wait takes requests fuel buffer hc)) (returns [] buffer)
      | inr (inr hc) ↦ absurd (check_tcp_packet_length-ne-panic buffer hc)
    ]

-- A header that announces 2 ^ 32 - 6 bytes stops the client: for no number of rounds does the loop
-- return, even if every response is taken, whatever else is in the buffer.
pub process_spins :
    (requests : Requests) (fuel : ℕ) (buffer : Bytes)
    → 6 ≤ length buffer
    → announced buffer ≡ 2 ^ 32 - 6
    → process_receive_buffer all_taken fuel requests buffer ≡ exhausted
process_spins requests zero buffer six wraps = process_no_fuel all_taken requests buffer
process_spins requests (suc fuel) buffer six wraps =
    process_step requests fuel 0 buffer nothing (parse_ams_packet_short [] (omega arith))
    ∙ ap (prepend (dispatch requests zero_packet)) (process_spins requests fuel buffer six wraps)
  where
    nothing : check_tcp_packet_length buffer ≡ ok 0
    nothing = check_tcp_packet_length-frame_check buffer six ∙ ground arith
