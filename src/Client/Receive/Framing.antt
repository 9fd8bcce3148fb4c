-- ===== src/Client/Receive/Framing.antt =====
-- However the stream is cut into reads, the same packets are handed on.
use ads_go.Base.{
  ℕ, zero, suc, ◌+◌, ◌^◌, ◌≤◌, ◌<◌, ◌≡◌, refl, ap, sym, ◌∙◌, inl, inr, List, [], ◌∷◌, ◌++◌, length,
  take, drop, ok, err, Error, Result-cases, arith, lengths, length-append, take-append, drop-append,
}
use ads_go.Wire.{Bytes}
use ads_go.AmsHeader.{check_tcp_packet_length}
use ads_go.AmsHeader.Checks.{check_tcp_packet_length-bounds, check_tcp_packet_length-append}
use ads_go.Client.Receive.{
  AmsPacket, parse_ams_packet, Requests, Dispatch, notify, respond, discard, dispatch, Takes,
  all_taken, Process, stopped, blocked, crashed, exhausted, prepend, hand_on,
  process_receive_buffer,
}

module _ (takes : Takes) (requests : Requests) where
  pub process_no_fuel :
      (buffer : Bytes) → process_receive_buffer takes zero requests buffer ≡ exhausted
  unfolding process_receive_buffer
  process_no_fuel buffer = refl

  pub process_turn :
      (fuel n : ℕ) (buffer : Bytes) {p : AmsPacket}
      → check_tcp_packet_length buffer ≡ ok n
      → parse_ams_packet (take n buffer) ≡ ok p
      → process_receive_buffer takes (suc fuel) requests buffer
        ≡ hand_on takes
            (drop n buffer)
            (dispatch requests p)
            (process_receive_buffer takes fuel requests (drop n buffer))
  unfolding process_receive_buffer
  process_turn fuel n buffer hc hp = rw (hc, hp)

  pub process_wait :
      (fuel : ℕ) (buffer : Bytes) {e : Error}
      → check_tcp_packet_length buffer ≡ err e
      → process_receive_buffer takes (suc fuel) requests buffer ≡ stopped [] buffer
  unfolding process_receive_buffer
  process_wait fuel buffer hc = rw hc

hand_on-all_taken :
    (rest : Bytes) (d : Dispatch) (more : Process) → hand_on all_taken rest d more ≡ prepend d more
hand_on-all_taken rest (notify bytes) more = refl
hand_on-all_taken rest (discard id) more = refl
hand_on-all_taken rest (respond channel response) more = refl

-- Where every response is taken.
module _ (requests : Requests) where
  pub process_step :
      (fuel n : ℕ) (buffer : Bytes) {p : AmsPacket}
      → check_tcp_packet_length buffer ≡ ok n
      → parse_ams_packet (take n buffer) ≡ ok p
      → process_receive_buffer all_taken (suc fuel) requests buffer
        ≡ prepend
            (dispatch requests p)
            (process_receive_buffer all_taken fuel requests (drop n buffer))
  process_step fuel n buffer {p} hc hp =
      process_turn all_taken requests fuel n buffer hc hp
      ∙ hand_on-all_taken (drop n buffer) (dispatch requests p)
          (process_receive_buffer all_taken fuel requests (drop n buffer))

  -- How a run of the loop that returned began.
  data Begins (fuel : ℕ) (buffer : Bytes) (ds : List Dispatch) (rest : Bytes) : Type 0 where
    waits :
        (e : Error)
        → check_tcp_packet_length buffer ≡ err e
        → ds ≡ []
        → rest ≡ buffer
        → Begins fuel buffer ds rest
    takes :
        (n : ℕ) (p : AmsPacket) (ds' : List Dispatch)
        → check_tcp_packet_length buffer ≡ ok n
        → parse_ams_packet (take n buffer) ≡ ok p
        → ds ≡ dispatch requests p ∷ ds'
        → process_receive_buffer all_taken fuel requests (drop n buffer) ≡ stopped ds' rest
        → Begins fuel buffer ds rest

  prepend-stopped :
      (d : Dispatch) (r : Process) (ds : List Dispatch) (rest : Bytes)
      → prepend d r ≡ stopped ds rest
      → (ds' : List Dispatch) × (r ≡ stopped ds' rest) × (ds ≡ d ∷ ds')
  prepend-stopped d (stopped ds' rest') ds rest e = (ds', cc, cc)
  prepend-stopped d (blocked ds' channel response rest') ds rest e = cc
  prepend-stopped d crashed ds rest e = cc
  prepend-stopped d exhausted ds rest e = cc

  begins :
      (fuel : ℕ) (buffer : Bytes) (ds : List Dispatch) (rest : Bytes)
      → process_receive_buffer all_taken (suc fuel) requests buffer ≡ stopped ds rest
      → Begins fuel buffer ds rest
  unfolding process_receive_buffer
  begins fuel buffer ds rest h = elim (Result-cases (check_tcp_packet_length buffer)) [
    | inl (n, hc) ↦ elim (Result-cases (parse_ams_packet (take n buffer))) [
      | inl (p, hp) ↦
          let (ds', r, e) =
            prepend-stopped (dispatch requests p)
              (process_receive_buffer all_taken fuel requests (drop n buffer)) ds rest
              (sym (process_step fuel n buffer hc hp) ∙ h) in
          takes n p ds' hc hp e r
      | inr (inl (e, hp)) ↦ cc (rw (hc, hp) at h)
      | inr (inr hp) ↦ cc (rw (hc, hp) at h)
    ]
    | inr (inl (e, hc)) ↦
        let h' : stopped [] buffer ≡ stopped ds rest = rw hc at h in waits e hc (cc) (cc)
    | inr (inr hc) ↦ cc (rw hc at h)
  ]

  -- More fuel changes nothing.
  pub process_more_fuel :
      (f g : ℕ) (buffer : Bytes) (ds : List Dispatch) (rest : Bytes)
      → f ≤ g
      → process_receive_buffer all_taken f requests buffer ≡ stopped ds rest
      → process_receive_buffer all_taken g requests buffer ≡ stopped ds rest
  process_more_fuel zero g buffer ds rest le h = cc (process_no_fuel all_taken requests buffer)
  process_more_fuel (suc f) zero buffer ds rest le h = absurd (omega arith)
  process_more_fuel (suc f) (suc g) buffer ds rest le h = elim (begins f buffer ds rest h) [
    | waits e hc none_out all_left ↦ process_wait all_taken requests g buffer hc ∙ ground arith
    | takes n p ds' hc hp e r ↦
        process_step g n buffer hc hp
        ∙ rw (process_more_fuel f g (drop n buffer) ds' rest (omega arith) r)
            (ap (λ x. stopped x rest) (sym e))
  ]

  -- Where every response is taken, of two parts of fewer than 2 ^ 32 bytes together: if the first is worked off, and then what was
  -- left with the second behind it, the two parts received at once come, with the fuel of both, to
  -- the same packets in the same order, and the same bytes left.
  pub process_split :
      (f g h : ℕ) (a b : Bytes) (ds ds' : List Dispatch) (rest rest' : Bytes)
      → length (a ++ b) < 2 ^ 32
      → f + g ≤ h
      → process_receive_buffer all_taken f requests a ≡ stopped ds rest
      → process_receive_buffer all_taken g requests (rest ++ b) ≡ stopped ds' rest'
      → process_receive_buffer all_taken h requests (a ++ b) ≡ stopped (ds ++ ds') rest'
  process_split zero g h a b ds ds' rest rest' small le first second =
      cc (process_no_fuel all_taken requests a)
  process_split (suc f) g zero a b ds ds' rest rest' small le first second = absurd (omega arith)
  process_split (suc f) g (suc h) a b ds ds' rest rest' small le first second =
      elim (begins f a ds rest first) [
        | waits e hc none_out all_left ↦
            rw none_out
              (process_more_fuel g (suc h) (a ++ b) ds' rest' (omega arith) (rw all_left at second))
        | takes n p more hc hp e r ↦
            let joined : length (a ++ b) ≡ length a + length b = length-append a b in
            let (six, head, total, within) = check_tcp_packet_length-bounds a n (omega arith) hc in
            let left : drop n (a ++ b) ≡ drop n a ++ b = drop-append n a b within in
            let front : parse_ams_packet (take n (a ++ b)) ≡ ok p =
              ap parse_ams_packet (take-append n a b within) ∙ hp in
            let smaller : length (drop n a ++ b) < 2 ^ 32 = grind lengths in
            process_step h n (a ++ b) (check_tcp_packet_length-append a b n small hc) front
            ∙ rw
                (
                  left,
                  process_split f g h (drop n a) b more ds' rest rest' smaller (omega arith) r
                      second,
                )
                (ap (λ x. stopped (x ++ ds') rest') (sym e))
      ]
