-- ===== src/Client/Exchange/Packet.antt =====
-- The bytes that `send` writes for a request.
use ads_go.Base.{
  ℕ, ◌+◌, ◌%◌, ◌^◌, ◌<◌, ◌≡◌, refl, ap, ◌∙◌, [], ◌++◌, length, Result, ok, ◌>>=◌, arith, append-nil,
  subst,
}
use native.Mathlib.Nat.{mod-eq_of_lt}
use ads_go.Wire.{Bytes}
use ads_go.NetId.{ams_net_id_str_to_byte_array}
use ads_go.NetId.RoundTrip.{net_id_shape}
use ads_go.AmsBuilder.{AmsAddress, build_ams_tcp_header, build_ams_header}
use ads_go.AmsBuilder.Layout.{
  IsSix, six, IsSix-of_length, ams_header_image, build_ams_header-layout,
}
use ads_go.AmsHeader.{parse_packet, check_tcp_packet_length}
use ads_go.AmsHeader.RoundTrip.{frame_packet, parse_packet-build}

-- types.AMSTCPPortAMSCommand.
abbrev pub tcp_port_ams_command : ℕ
tcp_port_ams_command = 0

unfoldable pub build_packet : AmsAddress → AmsAddress → ℕ → ℕ → Bytes → Result Bytes
build_packet target source command invoke_id payload = do
  ams_header ← build_ams_header target source command (length payload % 2 ^ 32) invoke_id
  let data_len = (length ams_header + length payload) % 2 ^ 32
  ok (build_ams_tcp_header tcp_port_ams_command data_len ++ (ams_header ++ payload))

header_size :
    {tn sn : Bytes} (tp sp command flags data_length error invoke_id : ℕ)
    → IsSix tn
    → IsSix sn
    → length (ams_header_image tn tp sn sp command flags data_length error invoke_id) ≡ 32
header_size tp sp command flags data_length error invoke_id (six a b c d e f) (six g h i j k l) =
    refl

-- For two NetIds that are accepted and numbers and a payload that fit, the packet is built, and the
-- receiving side finds all of it to be one frame, with the addresses, the command, the invoke id
-- and the payload of the request.
pub build_packet-received :
    (command invoke_id : ℕ) (target source : AmsAddress) (tn sn payload : Bytes)
    → ams_net_id_str_to_byte_array target.net_id ≡ ok tn
    → ams_net_id_str_to_byte_array source.net_id ≡ ok sn
    → target.port < 2 ^ 16
    → source.port < 2 ^ 16
    → command < 2 ^ 16
    → invoke_id < 2 ^ 32
    → 38 + length payload < 2 ^ 32
    → (packet : Bytes) × (build_packet target source command invoke_id payload ≡ ok packet)
      × (check_tcp_packet_length packet ≡ ok (38 + length payload))
      × (parse_packet packet
          ≡ ok (frame_packet tn target.port sn source.port command 4 0 invoke_id payload))
unfolding build_packet
build_packet-received command invoke_id target source tn sn payload ht hs htp hsp hc hi small = (
  packet,
  built,
  subst (λ p. check_tcp_packet_length p ≡ ok (38 + length payload)) whole found,
  subst
      (λ p.
        parse_packet p
        ≡ ok (frame_packet tn target.port sn source.port command 4 0 invoke_id payload))
      whole parsed,
)
  where
    header : Bytes
    header = ams_header_image tn target.port sn source.port command 4 (length payload) 0 invoke_id

    packet : Bytes
    packet = build_ams_tcp_header 0 (32 + length payload) ++ (header ++ payload)

    header_built : build_ams_header target source command (length payload) invoke_id ≡ ok header
    header_built =
        build_ams_header-layout target source command (length payload) invoke_id tn sn ht hs

    fits : length payload % 2 ^ 32 ≡ length payload
    fits = mod-eq_of_lt (omega arith)

    size : (length header + length payload) % 2 ^ 32 ≡ 32 + length payload
    size =
        ap (λ n. (n + length payload) % 2 ^ 32)
          (header_size target.port source.port command 4 (length payload) 0 invoke_id
            (IsSix-of_length tn (net_id_shape _ tn ht).1)
            (IsSix-of_length sn (net_id_shape _ sn hs).1))
        ∙ mod-eq_of_lt (omega arith)

    built : build_packet target source command invoke_id payload ≡ ok packet
    built =
        rw (fits, header_built)
          (ap (λ n. ok (build_ams_tcp_header 0 n ++ (header ++ payload))) size)

    whole : packet ++ [] ≡ packet
    whole = append-nil packet

    both :
        (check_tcp_packet_length (packet ++ []) ≡ ok (38 + length payload))
        × (parse_packet (packet ++ [])
            ≡ ok (frame_packet tn target.port sn source.port command 4 0 invoke_id payload))
    both =
        parse_packet-build 0 command invoke_id target source tn sn header payload [] ht hs htp hsp
          hc hi (omega arith) header_built

    found : check_tcp_packet_length (packet ++ []) ≡ ok (38 + length payload)
    found = both.0

    parsed :
        parse_packet (packet ++ [])
        ≡ ok (frame_packet tn target.port sn source.port command 4 0 invoke_id payload)
    parsed = both.1
