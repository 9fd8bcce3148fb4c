-- ===== src/AmsHeader/Frames.antt =====
-- `check_packet` against `parse_packet`: they accept the same packets but for announced lengths
-- within six of 2 ^ 32, whose sum with the header length wraps.
use ads_go.Base.{
  ◌+◌, ◌-◌, ◌%◌, ◌^◌, ◌≤◌, ◌<◌, ◌≡◌, ◌⊎◌, inl, inr, ◌∙◌, length, drop, ok, err, panic, Error, ◌>>◌,
  fail_if, arith, ltb, le→ltb, lt→ltb, slice, slice_to-take, slice_from-drop, slice_to_past,
  ams_insufficient_data, ams_invalid_length, length-drop,
}
use ads_go.Wire.{Bytes}
use native.Mathlib.Decide.{dec_lt}
use ads_go.AmsHeader.{parse_packet, check_packet, total_length}
use ads_go.AmsHeader.Checks.{announced, uint_at-announced, packet_of, parse_packet-packet_of}

-- What the fuller check comes to on bytes of a packet's minimal length.
check_packet-eq :
    (bs : Bytes)
    → 38 ≤ length bs
    → check_packet bs ≡ (
        fail_if (ltb (announced bs) 32) (ams_invalid_length (announced bs))
        >> fail_if
            (ltb (length bs % 2 ^ 32) (total_length (announced bs)))
            (ams_insufficient_data (total_length (announced bs)) (length bs)))
unfolding check_packet
check_packet-eq bs h = rw (le→ltb (length bs) 38 h, uint_at-announced bs (omega arith))

pub parse_packet_short :
    (bs : Bytes) → length bs < 38 → parse_packet bs ≡ err (ams_insufficient_data 38 (length bs))
unfolding parse_packet
parse_packet_short bs h = rw (lt→ltb (length bs) 38 h)

parse_packet_invalid :
    (bs : Bytes)
    → 38 ≤ length bs
    → announced bs < 32
    → parse_packet bs ≡ err (ams_invalid_length (announced bs))
unfolding parse_packet
parse_packet_invalid bs h k =
    rw (le→ltb (length bs) 38 h, uint_at-announced bs (omega arith), lt→ltb (announced bs) 32 k)

parse_packet_incomplete :
    (bs : Bytes)
    → 38 ≤ length bs
    → 32 ≤ announced bs
    → length bs % 2 ^ 32 < total_length (announced bs)
    → parse_packet bs ≡ err (ams_insufficient_data (total_length (announced bs)) (length bs))
unfolding parse_packet
parse_packet_incomplete bs h k n = rw (
  le→ltb (length bs) 38 h,
  uint_at-announced bs (omega arith),
  le→ltb (announced bs) 32 k,
  lt→ltb (length bs % 2 ^ 32) (total_length (announced bs)) n,
)

-- On fewer than 2 ^ 32 bytes whose announced length does not wrap with the header: what
-- `check_packet` lets pass is parsed, into the packet that its bytes hold, and what it refuses
-- `parse_packet` refuses with the same error.
pub parse_packet-check_packet :
    (bs : Bytes)
    → length bs < 2 ^ 32
    → announced bs + 6 < 2 ^ 32
    → ((check_packet bs ≡ ok tt) × (parse_packet bs ≡ ok (packet_of bs)))
      ⊎ ((e : Error) × (check_packet bs ≡ err e) × (parse_packet bs ≡ err e))
parse_packet-check_packet bs small nowrap = elim (dec_lt (length bs) 38) [
  | yes short ↦ inr (
    ams_insufficient_data 38 (length bs),
    unfold check_packet in rw (lt→ltb (length bs) 38 short),
    parse_packet_short bs short,
  )
  | no long ↦ elim (dec_lt (announced bs) 32) [
    | yes invalid ↦ inr (
      ams_invalid_length (announced bs),
      check_packet-eq bs (omega arith) ∙ rw (lt→ltb (announced bs) 32 invalid),
      parse_packet_invalid bs (omega arith) invalid,
    )
    | no head ↦ elim (dec_lt (length bs % 2 ^ 32) (total_length (announced bs))) [
      | yes part ↦ inr (
        ams_insufficient_data (total_length (announced bs)) (length bs),
        check_packet-eq bs (omega arith)
            ∙ rw (
              le→ltb (announced bs) 32 (omega arith),
              lt→ltb (length bs % 2 ^ 32) (total_length (announced bs)) part,
            ),
        parse_packet_incomplete bs (omega arith) (omega arith) part,
      )
      | no whole ↦ inl (
        check_packet-eq bs (omega arith)
            ∙ rw (
              le→ltb (announced bs) 32 (omega arith),
              le→ltb (length bs % 2 ^ 32) (total_length (announced bs)) (omega arith),
            ),
        parse_packet-packet_of bs small (omega arith) (omega arith),
      )
    ]
  ]
]

-- On 38 bytes or more whose announced length wraps with the header, fewer than the least such
-- length, `check_packet` lets the packet pass and `parse_packet` panics.
pub parse_packet_wrapped :
    (bs : Bytes)
    → 38 ≤ length bs
    → length bs < 2 ^ 32 - 6
    → 2 ^ 32 - 6 ≤ announced bs
    → announced bs < 2 ^ 32
    → (check_packet bs ≡ ok tt) × (parse_packet bs ≡ panic)
parse_packet_wrapped bs enough small big word = (
  check_packet-eq bs enough
      ∙ rw (
        le→ltb (announced bs) 32 (omega arith),
        le→ltb (length bs % 2 ^ 32) (total_length (announced bs)) (omega arith),
      ),
  unfold parse_packet in
      rw (
        le→ltb (length bs) 38 enough,
        uint_at-announced bs (omega arith),
        le→ltb (announced bs) 32 (omega arith),
        le→ltb (length bs % 2 ^ 32) (total_length (announced bs)) (omega arith),
        slice_from-drop 6 bs (omega arith),
        slice_to-take 32 (drop 6 bs) (omega (arith, length-drop 6 bs)),
        past,
      ),
)
  where
    past : slice 32 (announced bs) (drop 6 bs) ≡ panic
    past =
        unfold slice in
        rw (
          le→ltb (announced bs) 32 (omega arith),
          slice_from-drop 32 (drop 6 bs) (omega (arith, length-drop 6 bs)),
          slice_to_past (announced bs - 32) (drop 32 (drop 6 bs))
              (omega (arith, length-drop 6 bs, length-drop 32 (drop 6 bs))),
        )
