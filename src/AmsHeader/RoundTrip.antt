-- ===== src/AmsHeader/RoundTrip.antt =====
-- ams-header reads what ams-builder wrote.
use ads_go.Base.{
  ℕ, ◌+◌, ◌-◌, ◌^◌, ◌<◌, ◌≡◌, ap, sym, ◌∙◌, [], ◌∷◌, ◌++◌, length, take, ok, arith, length-append,
  take-append, take-length,
}
use ads_go.Wire.{Bytes, le_bytes, le_value}
use ads_go.Wire.Numbers.{le_value-le_bytes}
use ads_go.NetId.{ams_net_id_str_to_byte_array, byte_array_to_ams_net_id_str}
use ads_go.NetId.RoundTrip.{net_id_shape}
use ads_go.AmsBuilder.{AmsAddress, build_ams_tcp_header, build_ams_header}
use ads_go.AmsBuilder.Layout.{
  ams_header_image, IsSix, six, IsSix-of_length, build_ams_header-layout,
  build_ams_tcp_header-layout,
}
use ads_go.AmsHeader.{Packet, parse_packet, check_tcp_packet_length}
use ads_go.AmsHeader.Checks.{packet_of, parse_packet-packet_of, check_tcp_packet_length-frame_check}

-- A whole frame in plain fields: the TCP header, the AMS header, the payload.
abbrev pub frame_image : ℕ → Bytes → ℕ → Bytes → ℕ → ℕ → ℕ → ℕ → ℕ → Bytes → Bytes
frame_image flag tn tp sn sp command state_flags error invoke_id payload =
    (le_bytes 2 flag ++ le_bytes 4 (32 + length payload))
    ++ (ams_header_image tn tp sn sp command state_flags (length payload) error invoke_id
        ++ payload)

abbrev pub frame_packet : Bytes → ℕ → Bytes → ℕ → ℕ → ℕ → ℕ → ℕ → Bytes → Packet
frame_packet tn tp sn sp command state_flags error invoke_id payload = record {
  target_net_id = byte_array_to_ams_net_id_str tn;
  target_port = tp;
  source_net_id = byte_array_to_ams_net_id_str sn;
  source_port = sp;
  command = command;
  state_flags = state_flags;
  data_length = length payload;
  error_code = error;
  invoke_id = invoke_id;
  payload = payload;
}

pub length-frame_image :
    {tn sn : Bytes} (flag tp sp command state_flags error invoke_id : ℕ) (payload : Bytes)
    → IsSix tn
    → IsSix sn
    → length (frame_image flag tn tp sn sp command state_flags error invoke_id payload)
      ≡ 38 + length payload
length-frame_image flag tp sp command state_flags error invoke_id payload (six a b c d e f)
      (six g h i j k l) =
    omega arith

module _ (flag tp sp command state_flags error invoke_id : ℕ) (payload rest : Bytes)
    (htp : tp < 2 ^ 16) (hsp : sp < 2 ^ 16) (hcommand : command < 2 ^ 16)
    (hflags : state_flags < 2 ^ 16) (herror : error < 2 ^ 32) (hid : invoke_id < 2 ^ 32)
    (small : 38 + length payload + length rest < 2 ^ 32) where
  payload_back : take (32 + length payload - 32) (payload ++ rest) ≡ payload
  payload_back =
      let n : 32 + length payload - 32 ≡ length payload = omega arith in
      rw (n, take-append (length payload) payload rest (omega arith))
        (take-length (length payload) payload (omega arith))

  -- The ten fields, each from its own bytes.
  fields :
      {tn sn : Bytes}
      → IsSix tn
      → IsSix sn
      → packet_of (frame_image flag tn tp sn sp command state_flags error invoke_id payload ++ rest)
        ≡ frame_packet tn tp sn sp command state_flags error invoke_id payload
  fields (six a b c d e f) (six g h i j k l) = λ t. record {
    target_net_id = byte_array_to_ams_net_id_str (a ∷ b ∷ c ∷ d ∷ e ∷ f ∷ []);
    target_port = le_value-le_bytes 2 tp htp t;
    source_net_id = byte_array_to_ams_net_id_str (g ∷ h ∷ i ∷ j ∷ k ∷ l ∷ []);
    source_port = le_value-le_bytes 2 sp hsp t;
    command = le_value-le_bytes 2 command hcommand t;
    state_flags = le_value-le_bytes 2 state_flags hflags t;
    data_length = le_value-le_bytes 4 (length payload) (omega arith) t;
    error_code = le_value-le_bytes 4 error herror t;
    invoke_id = le_value-le_bytes 4 invoke_id hid t;
    payload = payload_path t;
  }
    where
      announced_length : le_value (le_bytes 4 (32 + length payload)) ≡ 32 + length payload
      announced_length = le_value-le_bytes 4 (32 + length payload) (omega arith)

      payload_path :
          take (le_value (le_bytes 4 (32 + length payload)) - 32) (payload ++ rest) ≡ payload
      payload_path = ap (λ n. take (n - 32) (payload ++ rest)) announced_length ∙ payload_back

  pub frame_back :
      {tn sn : Bytes}
      → IsSix tn
      → IsSix sn
      → parse_packet
          (frame_image flag tn tp sn sp command state_flags error invoke_id payload ++ rest)
        ≡ ok (frame_packet tn tp sn sp command state_flags error invoke_id payload)
  frame_back (six a b c d e f) (six g h i j k l) =
      let n : length (payload ++ rest) ≡ length payload + length rest =
        length-append payload rest in
      parse_packet-packet_of _ (omega arith) (omega arith) (omega arith)
      ∙ ap ok (fields (six a b c d e f) (six g h i j k l))

  -- The frame is found at its length, whatever follows it.
  pub frame_length :
      {tn sn : Bytes}
      → IsSix tn
      → IsSix sn
      → check_tcp_packet_length
          (frame_image flag tn tp sn sp command state_flags error invoke_id payload ++ rest)
        ≡ ok (38 + length payload)
  frame_length (six a b c d e f) (six g h i j k l) =
      let n : length (payload ++ rest) ≡ length payload + length rest =
        length-append payload rest in
      check_tcp_packet_length-frame_check _ (omega arith) ∙ ground arith

-- What ams-builder makes of two addresses whose NetIds are accepted, a command, an invoke id and a
-- payload, each of which fits its field, ams-header parses back: both NetIds in their canonical
-- text, the ports, the command, the request flag, no error, the invoke id, and exactly the payload,
-- whatever bytes follow the frame in the buffer.
pub parse_packet-build :
    (flag command invoke_id : ℕ) (target source : AmsAddress) (tn sn header payload rest : Bytes)
    → ams_net_id_str_to_byte_array target.net_id ≡ ok tn
    → ams_net_id_str_to_byte_array source.net_id ≡ ok sn
    → target.port < 2 ^ 16
    → source.port < 2 ^ 16
    → command < 2 ^ 16
    → invoke_id < 2 ^ 32
    → 38 + length payload + length rest < 2 ^ 32
    → build_ams_header target source command (length payload) invoke_id ≡ ok header
    → let frame = build_ams_tcp_header flag (32 + length payload) ++ (header ++ payload) in
      (check_tcp_packet_length (frame ++ rest) ≡ ok (38 + length payload))
      × (parse_packet (frame ++ rest)
          ≡ ok (frame_packet tn target.port sn source.port command 4 0 invoke_id payload))
parse_packet-build flag command invoke_id target source tn sn header payload rest ht hs htp hsp hc
      hi small built =
    let head : ok
          (ams_header_image tn target.port sn source.port command 4 (length payload) 0 invoke_id)
        ≡ ok header =
      sym (build_ams_header-layout target source command (length payload) invoke_id tn sn ht hs)
      ∙ built in
    let image : ams_header_image tn target.port sn source.port command 4 (length payload) 0
          invoke_id
        ≡ header =
      cc in
    let tcp : build_ams_tcp_header flag (32 + length payload)
        ≡ le_bytes 2 flag ++ le_bytes 4 (32 + length payload) =
      build_ams_tcp_header-layout flag (32 + length payload) in
    let is6t = IsSix-of_length tn (net_id_shape _ tn ht).1 in
    let is6s = IsSix-of_length sn (net_id_shape _ sn hs).1 in
    rw (tcp, ← image)
      (
        frame_length flag target.port source.port command 4 0 invoke_id payload rest htp hsp hc
            (omega arith) (omega arith) hi small is6t is6s,
        frame_back flag target.port source.port command 4 0 invoke_id payload rest htp hsp hc
            (omega arith) (omega arith) hi small is6t is6s,
      )
