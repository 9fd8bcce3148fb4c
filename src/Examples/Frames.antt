-- ===== src/Examples/Frames.antt =====
-- Frames and streams of frames at concrete bytes.
use ads_go.Base.{
  ◌≡◌, ◌⊎◌, refl, [], ◌∷◌, ◌++◌, map, ok, err, false, Error, arith, ams_insufficient_data, slice,
  take, drop,
}
use ads_go.Wire.{Bytes}
use ads_go.Examples.{all_bytes-IsByte}
use ads_go.NetId.{ams_net_id_str_to_byte_array, byte_array_to_ams_net_id_str}
use ads_go.NetId.RoundTrip.{net_id_round_trip}
use ads_go.AmsBuilder.{AmsAddress, build_ams_tcp_header}
use ads_go.AmsBuilder.Layout.{ams_header_image, build_ams_header-layout}
use ads_go.AmsHeader.{parse_packet, check_packet, check_tcp_packet_length}
use ads_go.AmsHeader.Checks.{packet_of}
use ads_go.AmsHeader.RoundTrip.{frame_packet, parse_packet-build}
use ads_go.AmsHeader.Frames.{parse_packet-check_packet}
use ads_go.Client.Receive.{
  Requests, dispatch, stopped, all_taken, exhausted, process_receive_buffer,
}
use ads_go.Client.Exchange.Packet.{build_packet, build_packet-received}
use ads_go.Client.Receive.Framing.{process_split}
use ads_go.Client.Receive.Progress.{Ends, process_terminates, process_spins}
use ads_go.Client.Receive.Streams.{Frame, IsFrame, image, images, packet, process_frames}

abbrev target_six : Bytes
target_six = 192 ∷ 168 ∷ 1 ∷ 20 ∷ 1 ∷ 1 ∷ []

abbrev source_six : Bytes
source_six = 10 ∷ 0 ∷ 0 ∷ 7 ∷ 1 ∷ 1 ∷ []

abbrev target : AmsAddress
target = record { net_id = byte_array_to_ams_net_id_str target_six; port = 851 }

abbrev source : AmsAddress
source = record { net_id = byte_array_to_ams_net_id_str source_six; port = 32905 }

target_read : ams_net_id_str_to_byte_array target.net_id ≡ ok target_six
target_read = net_id_round_trip target_six (all_bytes-IsByte target_six refl) refl

source_read : ams_net_id_str_to_byte_array source.net_id ≡ ok source_six
source_read = net_id_round_trip source_six (all_bytes-IsByte source_six refl) refl

parse_packet-build_example :
    let frame =
      build_ams_tcp_header 0 35
      ++ (ams_header_image target_six 851 source_six 32905 2 4 3 0 7 ++ (11 ∷ 12 ∷ 13 ∷ [])) in
    (check_tcp_packet_length (frame ++ (99 ∷ [])) ≡ ok 41)
    × (parse_packet (frame ++ (99 ∷ []))
        ≡ ok (frame_packet target_six 851 source_six 32905 2 4 0 7 (11 ∷ 12 ∷ 13 ∷ [])))
parse_packet-build_example =
    parse_packet-build 0 2 7 target source target_six source_six
      (ams_header_image target_six 851 source_six 32905 2 4 3 0 7) (11 ∷ 12 ∷ 13 ∷ []) (99 ∷ [])
      target_read source_read (omega arith) (omega arith) (omega arith) (omega arith) (omega arith)
      (build_ams_header-layout target source 2 3 7 target_six source_six target_read source_read)

build_packet-received_example :
    (bytes : Bytes) × (build_packet target source 2 7 (11 ∷ 12 ∷ []) ≡ ok bytes)
    × (check_tcp_packet_length bytes ≡ ok 40)
    × (parse_packet bytes
        ≡ ok (frame_packet target_six 851 source_six 32905 2 4 0 7 (11 ∷ 12 ∷ [])))
build_packet-received_example =
    build_packet-received 2 7 target source target_six source_six (11 ∷ 12 ∷ []) target_read
      source_read (omega arith) (omega arith) (omega arith) (omega arith) (omega arith)

abbrev answer : Frame
answer = record {
  flag = 0;
  target_net_id = source_six;
  target_port = 32905;
  source_net_id = target_six;
  source_port = 851;
  command = 2;
  state_flags = 5;
  error = 0;
  invoke_id = 7;
  payload = 1 ∷ 2 ∷ [];
}

answer-IsFrame : IsFrame answer
answer-IsFrame = record {
  target_six = refl;
  source_six = refl;
  target_port_word = omega arith;
  source_port_word = omega arith;
  command_word = omega arith;
  flags_word = omega arith;
  error_word = omega arith;
  invoke_id_word = omega arith;
}

abbrev front : Bytes
front = 0 ∷ 0 ∷ 34 ∷ []

front_waits : check_tcp_packet_length front ≡ err (ams_insufficient_data 6 3)
unfolding check_tcp_packet_length
front_waits = refl

answer_found : check_tcp_packet_length (image answer) ≡ ok 40
unfolding check_tcp_packet_length slice
answer_found = refl

process_frames_example :
    process_receive_buffer all_taken 3 ((7, 1) ∷ []) (images (answer ∷ answer ∷ []) ++ front)
    ≡ stopped (map (λ f. dispatch ((7, 1) ∷ []) (packet f)) (answer ∷ answer ∷ [])) front
process_frames_example =
    process_frames ((7, 1) ∷ []) (answer ∷ answer ∷ []) front 3 (ams_insufficient_data 6 3)
      (answer-IsFrame, (answer-IsFrame, tt)) front_waits (omega arith) (omega arith)

abbrev none_waiting : Requests
none_waiting = []

front_process : process_receive_buffer all_taken 1 none_waiting front ≡ stopped [] front
front_process =
    process_frames none_waiting [] front 1 (ams_insufficient_data 6 3) tt front_waits (omega arith)
      (omega arith)

nothing_waits : check_tcp_packet_length [] ≡ err (ams_insufficient_data 6 0)
unfolding check_tcp_packet_length
nothing_waits = refl

answer_process :
    process_receive_buffer all_taken 2 none_waiting (image answer)
    ≡ stopped (dispatch none_waiting (packet answer) ∷ []) []
answer_process =
    process_frames none_waiting (answer ∷ []) [] 2 (ams_insufficient_data 6 0) (answer-IsFrame, tt)
      nothing_waits (omega arith) (omega arith)

process_split_example :
    process_receive_buffer all_taken 3 none_waiting (take 3 (image answer) ++ drop 3 (image answer))
    ≡ stopped ([] ++ (dispatch none_waiting (packet answer) ∷ [])) []
process_split_example =
    process_split none_waiting 1 2 3 (take 3 (image answer)) (drop 3 (image answer)) []
      (dispatch none_waiting (packet answer) ∷ []) (take 3 (image answer)) [] (omega arith)
      (omega arith) front_process answer_process

process_terminates_example :
    Ends
      (λ rest channel response. false)
      (process_receive_buffer (λ rest channel response. false) 50 ((7, 1) ∷ []) (image answer))
process_terminates_example =
    process_terminates (λ rest channel response. false) ((7, 1) ∷ []) 50 (image answer)
      (omega arith) (omega arith) (all_bytes-IsByte (image answer) refl) (ground arith)

process_spins_example :
    process_receive_buffer all_taken 1000 none_waiting (0 ∷ 0 ∷ 250 ∷ 255 ∷ 255 ∷ 255 ∷ 1 ∷ [])
    ≡ exhausted
process_spins_example =
    process_spins none_waiting 1000 (0 ∷ 0 ∷ 250 ∷ 255 ∷ 255 ∷ 255 ∷ 1 ∷ []) (omega arith) refl

parse_packet-check_packet_example :
    ((check_packet (image answer) ≡ ok tt)
      × (parse_packet (image answer) ≡ ok (packet_of (image answer))))
    ⊎ ((e : Error) × (check_packet (image answer) ≡ err e) × (parse_packet (image answer) ≡ err e))
parse_packet-check_packet_example =
    parse_packet-check_packet (image answer) (omega arith) (omega arith)
