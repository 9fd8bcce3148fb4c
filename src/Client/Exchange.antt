-- ===== src/Client/Exchange.antt =====
-- client_send.go, client_send_utils.go and the dispatch of client_buffer.go: requests in flight, each
-- a goroutine in `send`, and the receive goroutine, which hands responses over unbuffered channels.
pub mod Packet
pub mod Sound
pub mod Ownership
pub mod Drains
pub mod Stuck
use ads_go.Base.{
  ℕ, ◌+◌, ◌%◌, ◌^◌, ◌≡◌, List, [], ◌∷◌, ◌++◌, Result, ok, err, Error, response_timeout,
  invalid_ams_net_id, invalid_ams_net_id_part, transport_failure, ◌==◌, if◌then◌else◌,
}
use ads_go.Wire.{Bytes}
use ads_go.Client.Receive.{
  AmsPacket, Response, Requests, Dispatch, notify, respond, discard, response_of, dispatch,
}

-- Where a call of `send` is: it has its invoke id and is building or writing its packet; it waits in
-- the `select`; or it has its result, and its deferred cleanup is to come.
pub data Phase : Type 0 where
  preparing : Phase
  waiting : Phase
  returned : Response → Phase

pub record Sender : Type 0 where
  pub id : ℕ
  pub channel : ℕ
  pub phase : Phase

-- The receive goroutine: between packets, or at `ch <- Response{...}` for a packet and a channel.
pub data Receiver : Type 0 where
  idle : Receiver
  sending : AmsPacket → ℕ → Receiver

-- `invoke_id` is the last one used, `channels` the number of channels made.
pub record World : Type 0 where
  pub invoke_id : ℕ
  pub requests : Requests
  pub channels : ℕ
  pub senders : List Sender
  pub receiver : Receiver

abbrev pub start : World
start = record { invoke_id = 0; requests = []; channels = 0; senders = []; receiver = idle }

-- `delete(c.requests, id)`.
abbrev pub remove_invoke_id : ℕ → Requests → Requests
remove_invoke_id id [] = []
remove_invoke_id id ((key, channel) ∷ requests) =
    let rest = remove_invoke_id id requests in if key == id then rest else (key, channel) ∷ rest

-- The next invoke id, a uint32, with a new channel under it.
abbrev pub next_invoke_id : World → ℕ
next_invoke_id w = (w.invoke_id + 1) % 2 ^ 32

abbrev pub get_invoke_id : World → World
get_invoke_id w = record {
  invoke_id = next_invoke_id w;
  requests = (next_invoke_id w, w.channels) ∷ remove_invoke_id (next_invoke_id w) w.requests;
  channels = w.channels + 1;
  senders = record { id = next_invoke_id w; channel = w.channels; phase = preparing } ∷ w.senders;
  receiver = w.receiver;
}

-- A packet is looked up; notifications and packets that nobody waits for keep the goroutine idle.
abbrev pub receiver_for : AmsPacket → Dispatch → Receiver
receiver_for p (respond channel response) = sending p channel
receiver_for p (notify bytes) = idle
receiver_for p (discard id) = idle

abbrev pub receive_packet : AmsPacket → World → World
receive_packet p w = record w { receiver = receiver_for p (dispatch w.requests p) }

-- The errors of `send` itself before the wait: of the header's two NetIds, and of the write.
pub data IsSendError : Error → Type 0 where
  bad_net_id : IsSendError invalid_ams_net_id
  bad_net_id_part : (part : Bytes) → IsSendError (invalid_ams_net_id_part part)
  not_written : IsSendError transport_failure

-- What a request can do, and what becomes of the receiver: the packet is written, or cannot be built
-- or written; the `select` takes the timeout, or the response that is being sent into its channel.
pub data Turn (receiver : Receiver) (s : Sender) : Phase → Receiver → Type 0 where
  written : s.phase ≡ preparing → Turn receiver s waiting receiver
  failed :
      (e : Error)
      → IsSendError e
      → s.phase ≡ preparing
      → Turn receiver s (returned (err e)) receiver
  timed_out : s.phase ≡ waiting → Turn receiver s (returned (err response_timeout)) receiver
  answered :
      (p : AmsPacket)
      → s.phase ≡ waiting
      → receiver ≡ sending p s.channel
      → Turn receiver s (returned (response_of p)) idle

pub data Step : World → World → Type 0 where
  begin : (w : World) → Step w (get_invoke_id w)
  receive : (w : World) (p : AmsPacket) → w.receiver ≡ idle → Step w (receive_packet p w)
  turn :
      (w : World) (front : List Sender) (s : Sender) (behind : List Sender) (phase : Phase)
      (receiver : Receiver)
      → w.senders ≡ front ++ (s ∷ behind)
      → Turn w.receiver s phase receiver
      → Step w (record w {
        senders = front ++ (record s { phase = phase } ∷ behind);
        receiver = receiver;
      })
  finish :
      (w : World) (front : List Sender) (s : Sender) (behind : List Sender) (result : Response)
      → w.senders ≡ front ++ (s ∷ behind)
      → s.phase ≡ returned result
      → Step w (record w { senders = front ++ behind; requests = remove_invoke_id s.id w.requests })

pub data Reach (v : World) : World → Type 0 where
  here : Reach v v
  next : {w x : World} → Reach v w → Step w x → Reach v x
