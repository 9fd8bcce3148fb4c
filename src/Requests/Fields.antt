-- ===== src/Requests/Fields.antt =====
-- The device's view of a request: its numbers at their places, and the data behind them.
use ads_go.Base.{
  ℕ, ◌+◌, ◌^◌, ◌<◌, ◌≡◌, refl, ap, sym, ◌∙◌, [], ◌∷◌, ◌++◌, length, ok, arith, slice, slice_from,
  length-append,
}
use ads_go.Wire.{Bytes, uint_at}
use ads_go.Wire.Numbers.{le_value-le_bytes}
use ads_go.Requests.{
  build_read_request, build_write_request, build_read_write_request,
  build_read_write_request_with_null_terminator, build_write_control_request,
}

-- A device finds in a read request the group, the offset and the length, and no more bytes.
pub read_request_fields :
    (group offset read_length : ℕ)
    → group < 2 ^ 32
    → offset < 2 ^ 32
    → read_length < 2 ^ 32
    → let request = build_read_request group offset read_length in
      (uint_at 0 4 request ≡ ok group)
      × (uint_at 4 8 request ≡ ok offset)
      × (uint_at 8 12 request ≡ ok read_length)
      × (slice_from 12 request ≡ ok [])
unfolding build_read_request slice
read_request_fields group offset read_length hg ho hr = (
  ap ok (le_value-le_bytes 4 group hg),
  ap ok (le_value-le_bytes 4 offset ho),
  ap ok (le_value-le_bytes 4 read_length hr),
  refl,
)

-- In a write request whose numbers fit 32 bits: the group, the offset, the number of bytes to
-- write, and those bytes.
pub write_request_fields :
    (group offset : ℕ) (payload : Bytes)
    → group < 2 ^ 32
    → offset < 2 ^ 32
    → length payload < 2 ^ 32
    → let request = build_write_request group offset payload in
      (uint_at 0 4 request ≡ ok group)
      × (uint_at 4 8 request ≡ ok offset)
      × (uint_at 8 12 request ≡ ok (length payload))
      × (slice_from 12 request ≡ ok payload)
unfolding build_write_request slice
write_request_fields group offset payload hg ho hn = (
  ap ok (le_value-le_bytes 4 group hg),
  ap ok (le_value-le_bytes 4 offset ho),
  ap ok (le_value-le_bytes 4 (length payload) hn),
  refl,
)

-- In both read-write requests, if the numbers fit 32 bits: the group, the offset, the length to
-- read, the number of bytes that follow, and those bytes, with a zero byte behind them in the
-- terminated form.
pub read_write_request_fields :
    (group offset read_length : ℕ) (write_data : Bytes)
    → group < 2 ^ 32
    → offset < 2 ^ 32
    → read_length < 2 ^ 32
    → length write_data + 1 < 2 ^ 32
    → let request = build_read_write_request group offset read_length write_data in
      let terminated =
        build_read_write_request_with_null_terminator group offset read_length write_data in
      (uint_at 0 4 request ≡ ok group)
      × (uint_at 4 8 request ≡ ok offset)
      × (uint_at 8 12 request ≡ ok read_length)
      × (uint_at 12 16 request ≡ ok (length write_data))
      × (slice_from 16 request ≡ ok write_data)
      × (uint_at 0 4 terminated ≡ ok group)
      × (uint_at 4 8 terminated ≡ ok offset)
      × (uint_at 8 12 terminated ≡ ok read_length)
      × (uint_at 12 16 terminated ≡ ok (length (write_data ++ (0 ∷ []))))
      × (slice_from 16 terminated ≡ ok (write_data ++ (0 ∷ [])))
unfolding build_read_write_request build_read_write_request_with_null_terminator slice
read_write_request_fields group offset read_length write_data hg ho hr hn = (
  ap ok (le_value-le_bytes 4 group hg),
  ap ok (le_value-le_bytes 4 offset ho),
  ap ok (le_value-le_bytes 4 read_length hr),
  ap ok (le_value-le_bytes 4 (length write_data) (omega arith)),
  refl,
  ap ok (le_value-le_bytes 4 group hg),
  ap ok (le_value-le_bytes 4 offset ho),
  ap ok (le_value-le_bytes 4 read_length hr),
  ap ok (le_value-le_bytes 4 (length write_data + 1) hn ∙ sym (length-append write_data (0 ∷ []))),
  refl,
)

-- In a control request: the two states, and the length 0 of the data that it does not have.
pub write_control_request_fields :
    (ads_state device_state : ℕ)
    → ads_state < 2 ^ 16
    → device_state < 2 ^ 16
    → let request = build_write_control_request ads_state device_state in
      (uint_at 0 2 request ≡ ok ads_state)
      × (uint_at 2 4 request ≡ ok device_state)
      × (uint_at 4 8 request ≡ ok 0)
      × (slice_from 8 request ≡ ok [])
unfolding build_write_control_request slice
write_control_request_fields ads_state device_state ha hd = (
  ap ok (le_value-le_bytes 2 ads_state ha),
  ap ok (le_value-le_bytes 2 device_state hd),
  refl,
  refl,
)
