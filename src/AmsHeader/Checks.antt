-- ===== src/AmsHeader/Checks.antt =====
-- The three checks of ams-header agree, and which packets they accept.
use ads_go.Base.{
  ℕ, ◌+◌, ◌-◌, ◌%◌, ◌^◌, ◌≤◌, ◌<◌, ◌≡◌, inl, inr, ap, sym, ◌∙◌, ◌++◌, length, take, drop, Result,
  ok, ◌>>◌, fail_if, arith, ltb, le→ltb, ltb→le, Bool-cases, slice, slice_to-take, slice_from-drop,
  ams_insufficient_data, ams_invalid_length, length-take, length-drop, length-append, take-append,
  drop-append,
}
use ads_go.Wire.{Bytes, uint_at, le_value}
use ads_go.Wire.Slices.{slice-take-drop}
use ads_go.NetId.{byte_array_to_ams_net_id_str}
use native.Mathlib.Nat.{mod-eq_of_lt}
use ads_go.AmsHeader.{Packet, parse_packet, check_tcp_packet_length, total_length}

-- The packet length that a header announces.
abbrev pub announced : Bytes → ℕ
announced bs = le_value (take 4 (drop 2 bs))

pub uint_at-announced : (bs : Bytes) → 6 ≤ length bs → uint_at 2 6 bs ≡ ok (announced bs)
uint_at-announced bs h = rw (slice-take-drop 2 6 bs (omega arith) h)

pub announced-append : (bs more : Bytes) → 6 ≤ length bs → announced (bs ++ more) ≡ announced bs
announced-append bs more h =
    ap (λ t. le_value (take 4 t)) (drop-append 2 bs more (omega arith))
    ∙ ap le_value (take-append 4 (drop 2 bs) more (omega (arith, length-drop 2 bs)))

-- What the frame check answers, by the bytes there are and the length they announce.
abbrev pub frame_check : Bytes → Result ℕ
frame_check bs =
    fail_if (ltb (announced bs) 32) (ams_invalid_length (announced bs))
    >> (fail_if (ltb (length bs % 2 ^ 32) (total_length (announced bs)))
          (ams_insufficient_data (total_length (announced bs)) (length bs))
        >> ok (total_length (announced bs)))

pub check_tcp_packet_length-frame_check :
    (bs : Bytes) → 6 ≤ length bs → check_tcp_packet_length bs ≡ frame_check bs
unfolding check_tcp_packet_length
check_tcp_packet_length-frame_check bs h = rw (le→ltb (length bs) 6 h, uint_at-announced bs h)

-- The length that `check_tcp_packet_length` returns is within the bytes there are, and belongs to
-- an announced length of at least a header.
pub check_tcp_packet_length-bounds :
    (bs : Bytes) (n : ℕ)
    → length bs < 2 ^ 32
    → check_tcp_packet_length bs ≡ ok n
    → (6 ≤ length bs) × (32 ≤ announced bs) × (n ≡ total_length (announced bs)) × (n ≤ length bs)
unfolding check_tcp_packet_length
check_tcp_packet_length-bounds bs n small e = elim (Bool-cases (ltb (length bs) 6)) [
  | inl short ↦ cc (rw short at e)
  | inr enough ↦
      let six : 6 ≤ length bs = ltb→le _ _ enough in
      let fits : length bs % 2 ^ 32 ≡ length bs = mod-eq_of_lt small in
      let checked : frame_check bs ≡ ok n = sym (check_tcp_packet_length-frame_check bs six) ∙ e in
      ground arith
]

-- A frame that is complete stays complete, with the same length, whatever arrives behind it.
pub check_tcp_packet_length-append :
    (bs more : Bytes) (n : ℕ)
    → length (bs ++ more) < 2 ^ 32
    → check_tcp_packet_length bs ≡ ok n
    → check_tcp_packet_length (bs ++ more) ≡ ok n
check_tcp_packet_length-append bs more n small e =
    let grown : length (bs ++ more) ≡ length bs + length more = length-append bs more in
    let below : length bs < 2 ^ 32 = omega arith in
    let (six, head, total, within) = check_tcp_packet_length-bounds bs n below e in
    let fits : length (bs ++ more) % 2 ^ 32 ≡ length (bs ++ more) = mod-eq_of_lt small in
    let same : announced (bs ++ more) ≡ announced bs = announced-append bs more six in
    check_tcp_packet_length-frame_check (bs ++ more) (omega arith) ∙ ground arith

-- The packet that the bytes of a complete frame hold.
abbrev pub packet_of : Bytes → Packet
packet_of bs = record {
  target_net_id = byte_array_to_ams_net_id_str (take 6 header);
  target_port = le_value (take 2 (drop 6 header));
  source_net_id = byte_array_to_ams_net_id_str (take 6 (drop 8 header));
  source_port = le_value (take 2 (drop 14 header));
  command = le_value (take 2 (drop 16 header));
  state_flags = le_value (take 2 (drop 18 header));
  data_length = le_value (take 4 (drop 20 header));
  error_code = le_value (take 4 (drop 24 header));
  invoke_id = le_value (take 4 (drop 28 header));
  payload = take (announced bs - 32) (drop 32 (drop 6 bs));
}
  where
    header : Bytes
    header = take 32 (drop 6 bs)

pub parse_packet-packet_of :
    (bs : Bytes)
    → length bs < 2 ^ 32
    → 32 ≤ announced bs
    → announced bs + 6 ≤ length bs
    → parse_packet bs ≡ ok (packet_of bs)
unfolding parse_packet
parse_packet-packet_of bs small head full = rw (
  le→ltb (length bs) 38 (omega arith),
  uint_at-announced bs (omega arith),
  le→ltb (announced bs) 32 head,
  le→ltb (length bs % 2 ^ 32) (total_length (announced bs)) within,
  slice_from-drop 6 bs (omega arith),
  slice_to-take 32 (drop 6 bs) (omega (arith, length-drop 6 bs)),
  slice-take-drop 32 (announced bs) (drop 6 bs) head (omega (arith, length-drop 6 bs)),
  field 0 6 (omega arith) (omega arith),
  field 6 8 (omega arith) (omega arith),
  field 8 14 (omega arith) (omega arith),
  field 14 16 (omega arith) (omega arith),
  field 16 18 (omega arith) (omega arith),
  field 18 20 (omega arith) (omega arith),
  field 20 24 (omega arith) (omega arith),
  field 24 28 (omega arith) (omega arith),
  field 28 32 (omega arith) (omega arith),
)
  where
    within : total_length (announced bs) ≤ length bs % 2 ^ 32
    within = omega arith

    field :
        (lo hi : ℕ)
        → lo ≤ hi
        → hi ≤ 32
        → slice lo hi (take 32 (drop 6 bs)) ≡ ok (take (hi - lo) (drop lo (take 32 (drop 6 bs))))
    field lo hi h k =
        slice-take-drop lo hi (take 32 (drop 6 bs)) h
          (omega (arith, length-take 32 (drop 6 bs), length-drop 6 bs))
