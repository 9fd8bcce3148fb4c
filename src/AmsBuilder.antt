-- ===== src/AmsBuilder.antt =====
-- pkg/ads/ams-builder/build.go, with the constants and command numbers that it uses.
pub mod Layout
use ads_go.Base.{ℕ, ◌+◌, ◌%◌, ◌^◌, List, [], ◌∷◌, ◌++◌, Result, ok, err, panic, ◌>>=◌, take}
use ads_go.Wire.{Bytes, make_bytes, put_uint16, put_uint32, copy_at}
use ads_go.NetId.{ams_net_id_str_to_byte_array}

abbrev pub ams_tcp_header_length : ℕ
ams_tcp_header_length = 6

abbrev pub ams_header_length : ℕ
ams_header_length = 32

-- types.ADSStateFlagAdsCommand.
abbrev pub state_flag_ads_command : ℕ
state_flag_ads_command = 4

pub record AmsAddress : Type 0 where
  pub net_id : Bytes
  pub port : ℕ

unfoldable pub build_ams_tcp_header : ℕ → ℕ → Bytes
build_ams_tcp_header command data_length =
    put_uint32 2 data_length (put_uint16 0 command (make_bytes ams_tcp_header_length))

-- The copies and puts into the zeroed header, in the order of the source.
unfoldable pub fill_ams_header : Bytes → ℕ → Bytes → ℕ → ℕ → ℕ → ℕ → Bytes
fill_ams_header target_net_id target_port source_net_id source_port command data_length invoke_id =
    let buf0 = make_bytes ams_header_length in
    let buf1 = copy_at 0 (take 6 target_net_id) buf0 in
    let buf2 = put_uint16 6 target_port buf1 in
    let buf3 = copy_at 8 (take 6 source_net_id) buf2 in
    let buf4 = put_uint16 14 source_port buf3 in
    let buf5 = put_uint16 16 command buf4 in
    let buf6 = put_uint16 18 state_flag_ads_command buf5 in
    let buf7 = put_uint32 20 data_length buf6 in
    let buf8 = put_uint32 24 0 buf7 in put_uint32 28 invoke_id buf8

unfoldable pub build_ams_header : AmsAddress → AmsAddress → ℕ → ℕ → ℕ → Result Bytes
build_ams_header target source command data_length invoke_id = do
  target_net_id ← ams_net_id_str_to_byte_array target.net_id
  source_net_id ← ams_net_id_str_to_byte_array source.net_id
  ok (
      fill_ams_header target_net_id target.port source_net_id source.port command data_length
        invoke_id)
