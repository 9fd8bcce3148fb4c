-- ===== src/Client/Receive/Streams.antt =====
-- A stream of well-formed frames: each is handed on, in order, and a frame that has not arrived
-- whole stays in the buffer.
use ads_go.Base.{
  ℕ, zero, suc, ◌+◌, ◌^◌, ◌<◌, ◌≡◌, ap, sym, ◌∙◌, List, [], ◌∷◌, ◌++◌, map, length, take, drop, ok,
  err, Error, arith, length-append, append_assoc, append-nil, All, take-append, take-length,
  drop-append, drop-length,
}
use ads_go.Wire.{Bytes}
use ads_go.NetId.{byte_array_to_ams_net_id_str}
use ads_go.AmsBuilder.Layout.{IsSix-of_length}
use ads_go.AmsHeader.{parse_packet, check_tcp_packet_length}
use ads_go.AmsHeader.RoundTrip.{
  frame_image, frame_packet, frame_length, frame_back, length-frame_image,
}
use ads_go.Client.Receive.{
  AmsPacket, parse_ams_packet, Requests, dispatch, all_taken, stopped, prepend,
  process_receive_buffer,
}
use ads_go.Client.Receive.Framing.{process_step, process_wait}

-- The contents of a frame as a router sends it.
pub record Frame : Type 0 where
  pub flag : ℕ
  pub target_net_id : Bytes
  pub target_port : ℕ
  pub source_net_id : Bytes
  pub source_port : ℕ
  pub command : ℕ
  pub state_flags : ℕ
  pub error : ℕ
  pub invoke_id : ℕ
  pub payload : Bytes

pub record IsFrame (f : Frame) : Type 0 where
  pub target_six : length f.target_net_id ≡ 6
  pub source_six : length f.source_net_id ≡ 6
  pub target_port_word : f.target_port < 2 ^ 16
  pub source_port_word : f.source_port < 2 ^ 16
  pub command_word : f.command < 2 ^ 16
  pub flags_word : f.state_flags < 2 ^ 16
  pub error_word : f.error < 2 ^ 32
  pub invoke_id_word : f.invoke_id < 2 ^ 32

abbrev pub image : Frame → Bytes
image f =
    frame_image f.flag f.target_net_id f.target_port f.source_net_id f.source_port f.command
      f.state_flags f.error f.invoke_id f.payload

-- The packet that a frame holds.
abbrev pub packet : Frame → AmsPacket
packet f = record {
  target_ams_address = record {
    net_id = byte_array_to_ams_net_id_str f.target_net_id;
    port = f.target_port;
  };
  source_ams_address = record {
    net_id = byte_array_to_ams_net_id_str f.source_net_id;
    port = f.source_port;
  };
  ads_command = f.command;
  state_flags = f.state_flags;
  data_length = length f.payload;
  error_code = f.error;
  invoke_id = f.invoke_id;
  payload = f.payload;
}

abbrev pub images : List Frame → Bytes
images [] = []
images (f ∷ fs) = image f ++ images fs

frame_found :
    (f : Frame) (rest : Bytes)
    → IsFrame f
    → 38 + length f.payload + length rest < 2 ^ 32
    → check_tcp_packet_length (image f ++ rest) ≡ ok (38 + length f.payload)
frame_found f rest h small =
    frame_length f.flag f.target_port f.source_port f.command f.state_flags f.error f.invoke_id
      f.payload rest h.target_port_word h.source_port_word h.command_word h.flags_word h.error_word
      h.invoke_id_word small (IsSix-of_length f.target_net_id h.target_six)
      (IsSix-of_length f.source_net_id h.source_six)

length-image : (f : Frame) → IsFrame f → length (image f) ≡ 38 + length f.payload
length-image f h =
    length-frame_image f.flag f.target_port f.source_port f.command f.state_flags f.error
      f.invoke_id f.payload (IsSix-of_length f.target_net_id h.target_six)
      (IsSix-of_length f.source_net_id h.source_six)

frame_parsed :
    (f : Frame)
    → IsFrame f
    → 38 + length f.payload < 2 ^ 32
    → parse_ams_packet (image f) ≡ ok (packet f)
unfolding parse_ams_packet
frame_parsed f h small = rw (parsed, parse_ams_packet)
  where
    parsed :
        parse_packet (image f)
        ≡ ok (
            frame_packet f.target_net_id f.target_port f.source_net_id f.source_port f.command
              f.state_flags f.error f.invoke_id f.payload)
    parsed =
        ap parse_packet (sym (append-nil (image f)))
        ∙ frame_back f.flag f.target_port f.source_port f.command f.state_flags f.error f.invoke_id
            f.payload [] h.target_port_word h.source_port_word h.command_word h.flags_word
            h.error_word h.invoke_id_word (omega arith)
            (IsSix-of_length f.target_net_id h.target_six)
            (IsSix-of_length f.source_net_id h.source_six)

-- Where every response is taken, the loop over a stream of frames whose fields fit, fewer than 2 ^ 32 bytes in all and with more
-- fuel than frames, hands each of them on, in order and each once, with its own fields, and leaves
-- behind exactly the tail, if the tail holds no whole frame.
pub process_frames :
    (requests : Requests) (fs : List Frame) (tail : Bytes) (fuel : ℕ) (e : Error)
    → All IsFrame fs
    → check_tcp_packet_length tail ≡ err e
    → length (images fs ++ tail) < 2 ^ 32
    → length fs < fuel
    → process_receive_buffer all_taken fuel requests (images fs ++ tail)
      ≡ stopped (map (λ f. dispatch requests (packet f)) fs) tail
process_frames requests fs tail zero e valid waits small enough = absurd (omega arith)
process_frames requests [] tail (suc fuel) e valid waits small enough =
    process_wait all_taken requests fuel tail waits
process_frames requests (f ∷ fs) tail (suc fuel) e valid waits small enough =
    ap (process_receive_buffer all_taken (suc fuel) requests)
      (append_assoc (image f) (images fs) tail)
    ∙ process_step requests fuel n whole found
        (ap parse_ams_packet front ∙ frame_parsed f valid.0 (omega (arith, joined)))
    ∙ ap
        (λ b.
          prepend (dispatch requests (packet f)) (process_receive_buffer all_taken fuel requests b))
        back
    ∙ ap (prepend (dispatch requests (packet f)))
        (process_frames requests fs tail fuel e valid.1 waits (omega (arith, joined)) (omega arith))
  where
    n : ℕ
    n = 38 + length f.payload

    whole : Bytes
    whole = image f ++ (images fs ++ tail)

    size : length (image f) ≡ n
    size = length-image f valid.0

    joined : length ((image f ++ images fs) ++ tail) ≡ n + length (images fs ++ tail)
    joined =
        ap length (append_assoc (image f) (images fs) tail)
        ∙ length-append (image f) (images fs ++ tail)
        ∙ ap (λ t. t + length (images fs ++ tail)) size

    found : check_tcp_packet_length whole ≡ ok n
    found = frame_found f (images fs ++ tail) valid.0 (omega (arith, joined))

    front : take n whole ≡ image f
    front =
        take-append n (image f) (images fs ++ tail) (omega (arith, size))
        ∙ take-length n (image f) (omega (arith, size))

    back : drop n whole ≡ images fs ++ tail
    back =
        drop-append n (image f) (images fs ++ tail) (omega (arith, size))
        ∙ ap (λ t. t ++ (images fs ++ tail)) (drop-length n (image f) (omega (arith, size)))
