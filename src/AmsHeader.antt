-- ===== src/AmsHeader.antt =====
-- pkg/ads/ams-header: types.go and parse.go.
pub mod Checks
pub mod RoundTrip
pub mod Frames
use ads_go.Base.{
  ℕ, ◌+◌, ◌%◌, ◌^◌, List, [], ◌∷◌, Result, ok, err, panic, Error, ams_insufficient_data,
  ams_invalid_length, ◌>>=◌, ◌>>◌, fail_if, ltb, length, slice, slice_to, slice_from,
}
use ads_go.Wire.{Bytes, uint_at}
use ads_go.NetId.{byte_array_to_ams_net_id_str}

abbrev pub ams_tcp_header_length : ℕ
ams_tcp_header_length = 6

abbrev pub ams_header_length : ℕ
ams_header_length = 32

abbrev pub min_packet_length : ℕ
min_packet_length = 38

pub record Packet : Type 0 where
  pub target_net_id : Bytes
  pub target_port : ℕ
  pub source_net_id : Bytes
  pub source_port : ℕ
  pub command : ℕ
  pub state_flags : ℕ
  pub data_length : ℕ
  pub error_code : ℕ
  pub invoke_id : ℕ
  pub payload : Bytes

-- `AMSTCPHeaderLength + packetLength`, a uint32.
abbrev pub total_length : ℕ → ℕ
total_length packet_length = (ams_tcp_header_length + packet_length) % 2 ^ 32

unfoldable pub parse_packet : Bytes → Result Packet
parse_packet bytes = do
  fail_if (ltb (length bytes) min_packet_length)
      (ams_insufficient_data min_packet_length (length bytes))
  packet_length ← uint_at 2 6 bytes
  fail_if (ltb packet_length ams_header_length) (ams_invalid_length packet_length)
  fail_if (ltb (length bytes % 2 ^ 32) (total_length packet_length))
      (ams_insufficient_data (total_length packet_length) (length bytes))
  ams_packet ← slice_from ams_tcp_header_length bytes
  ams_header ← slice_to ams_header_length ams_packet
  ams_data ← slice ams_header_length packet_length ams_packet
  target_net_id ← slice 0 6 ams_header
  target_port ← uint_at 6 8 ams_header
  source_net_id ← slice 8 14 ams_header
  source_port ← uint_at 14 16 ams_header
  command ← uint_at 16 18 ams_header
  state_flags ← uint_at 18 20 ams_header
  data_length ← uint_at 20 24 ams_header
  error_code ← uint_at 24 28 ams_header
  invoke_id ← uint_at 28 32 ams_header
  ok (record {
    target_net_id = byte_array_to_ams_net_id_str target_net_id;
    target_port = target_port;
    source_net_id = byte_array_to_ams_net_id_str source_net_id;
    source_port = source_port;
    command = command;
    state_flags = state_flags;
    data_length = data_length;
    error_code = error_code;
    invoke_id = invoke_id;
    payload = ams_data;
  })

unfoldable pub check_packet : Bytes → Result (Unit {0})
check_packet bytes = do
  fail_if (ltb (length bytes) min_packet_length)
      (ams_insufficient_data min_packet_length (length bytes))
  packet_length ← uint_at 2 6 bytes
  fail_if (ltb packet_length ams_header_length) (ams_invalid_length packet_length)
  fail_if (ltb (length bytes % 2 ^ 32) (total_length packet_length))
      (ams_insufficient_data (total_length packet_length) (length bytes))

unfoldable pub check_tcp_packet_length : Bytes → Result ℕ
check_tcp_packet_length bytes = do
  fail_if (ltb (length bytes) ams_tcp_header_length)
      (ams_insufficient_data ams_tcp_header_length (length bytes))
  packet_length ← uint_at 2 6 bytes
  fail_if (ltb packet_length ams_header_length) (ams_invalid_length packet_length)
  fail_if (ltb (length bytes % 2 ^ 32) (total_length packet_length))
      (ams_insufficient_data (total_length packet_length) (length bytes))
  ok (total_length packet_length)
