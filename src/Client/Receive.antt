-- ===== src/Client/Receive.antt =====
-- client_buffer.go: whole frames are taken off the receive buffer and handed on.
pub mod Framing
pub mod Streams
pub mod Progress
use ads_go.Base.{
  ℕ, zero, suc, ◌+◌, Bool, true, List, [], ◌∷◌, ◌++◌, Option, none, some, Result, ok, err, panic,
  Error, ads_error, ◌>>=◌, ◌==◌, if◌then◌else◌, take, drop, length,
}
use ads_go.Wire.{Bytes}
use ads_go.AmsBuilder.{AmsAddress}
use ads_go.AmsHeader.{Packet, parse_packet, check_tcp_packet_length}

-- types.ADSCommandNotification.
abbrev pub command_notification : ℕ
command_notification = 8

pub record AmsPacket : Type 0 where
  pub target_ams_address : AmsAddress
  pub source_ams_address : AmsAddress
  pub ads_command : ℕ
  pub state_flags : ℕ
  pub data_length : ℕ
  pub error_code : ℕ
  pub invoke_id : ℕ
  pub payload : Bytes

-- `AmsPacket{}`.
abbrev pub zero_packet : AmsPacket
zero_packet = record {
  target_ams_address = record { net_id = []; port = 0 };
  source_ams_address = record { net_id = []; port = 0 };
  ads_command = 0;
  state_flags = 0;
  data_length = 0;
  error_code = 0;
  invoke_id = 0;
  payload = [];
}

abbrev pub ams_packet_of : Packet → AmsPacket
ams_packet_of p = record {
  target_ams_address = record { net_id = p.target_net_id; port = p.target_port };
  source_ams_address = record { net_id = p.source_net_id; port = p.source_port };
  ads_command = p.command;
  state_flags = p.state_flags;
  data_length = p.data_length;
  error_code = p.error_code;
  invoke_id = p.invoke_id;
  payload = p.payload;
}

-- A parse error is logged and gives the zero packet; a panic of the parser goes through.
unfoldable pub parse_ams_packet : Bytes → Result AmsPacket
parse_ams_packet bytes = elim (parse_packet bytes) [
  | ok p ↦ ok (ams_packet_of p)
  | err e ↦ ok zero_packet
  | panic ↦ panic
]

-- `Response{Data}` or `Response{Error}`.
abbrev pub Response : Type 0
Response = Result Bytes

-- `c.requests`: the channel that waits under an invoke id. Channels are numbered.
abbrev pub Requests : Type 0
Requests = List (ℕ × ℕ)

abbrev pub lookup : ℕ → Requests → Option ℕ
lookup id [] = none
lookup id ((key, channel) ∷ requests) = if key == id then some channel else lookup id requests

-- Where a packet goes: to `handleNotification`, into the channel of its request, or nowhere.
pub data Dispatch : Type 0 where
  notify : Bytes → Dispatch
  respond : ℕ → Response → Dispatch
  discard : ℕ → Dispatch

abbrev pub response_of : AmsPacket → Response
response_of p = if p.error_code == 0 then ok p.payload else err (ads_error p.error_code)

unfoldable pub dispatch : Requests → AmsPacket → Dispatch
dispatch requests p =
    if p.ads_command == command_notification
    then notify p.payload
    else elim (lookup p.invoke_id requests) [
      | some channel ↦ respond channel (response_of p)
      | none ↦ discard p.invoke_id
    ]

-- Whether the request at the other end of a channel takes a response that is sent into it, by what is
-- left in the buffer then: a channel has no buffer, and a send waits until it is taken.
abbrev pub Takes : Type 0
Takes = Bytes → ℕ → Response → Bool

abbrev pub all_taken : Takes
all_taken rest channel response = true

-- `stopped`: the loop returned, with what it handed on and what is left in the buffer. `blocked`: it
-- stands for good at the send of a response into a channel. `exhausted`: the fuel ran out, which is
-- no outcome of the code.
pub data Process : Type 0 where
  stopped : List Dispatch → Bytes → Process
  blocked : List Dispatch → ℕ → Response → Bytes → Process
  crashed : Process
  exhausted : Process

abbrev pub prepend : Dispatch → Process → Process
prepend d (stopped ds rest) = stopped (d ∷ ds) rest
prepend d (blocked ds channel response rest) = blocked (d ∷ ds) channel response rest
prepend d crashed = crashed
prepend d exhausted = exhausted

-- `ch <- Response{...}`; a notification is handled at once, and a packet nobody waits for is dropped.
abbrev pub hand_on : Takes → Bytes → Dispatch → Process → Process
hand_on takes rest (notify bytes) more = prepend (notify bytes) more
hand_on takes rest (discard id) more = prepend (discard id) more
hand_on takes rest (respond channel response) more =
    if takes rest channel response
    then prepend (respond channel response) more
    else blocked [] channel response rest

-- `processReceiveBuffer`: the body of the loop, with the rest of the loop as an argument. A frame
-- that was found is complete, so the read of the buffer gives all of it. The table of requests is as
-- it is while the loop runs.
abbrev pub take_frame : Takes → (Bytes → Process) → Requests → Bytes → Result AmsPacket → Process
take_frame takes continue requests rest (ok packet) =
    hand_on takes rest (dispatch requests packet) (continue rest)
take_frame takes continue requests rest (err e) = crashed
take_frame takes continue requests rest panic = crashed

abbrev pub next_frame : Takes → (Bytes → Process) → Requests → Bytes → Result ℕ → Process
next_frame takes continue requests buffer (ok total) =
    take_frame takes continue requests (drop total buffer) (parse_ams_packet (take total buffer))
next_frame takes continue requests buffer (err e) = stopped [] buffer
next_frame takes continue requests buffer panic = crashed

unfoldable pub process_receive_buffer : Takes → ℕ → Requests → Bytes → Process
process_receive_buffer takes zero requests buffer = exhausted
process_receive_buffer takes (suc fuel) requests buffer =
    next_frame takes (process_receive_buffer takes fuel requests) requests buffer
      (check_tcp_packet_length buffer)

-- One round of `receive`: the bytes of a read go behind the buffer, and the buffer is worked off.
-- Each round of the loop takes a byte at least (but see `Progress`), so this fuel is enough.
unfoldable pub receive_chunk : Takes → Requests → Bytes → Bytes → Process
receive_chunk takes requests buffer chunk =
    process_receive_buffer takes (suc (length (buffer ++ chunk))) requests (buffer ++ chunk)
