-- ===== src/Client/Ports.antt =====
-- client.go and client_connect.go: the settings with their defaults, and the port that the router
-- assigns, over what the socket does.
pub mod Registration
use ads_go.Base.{
  ℕ, Bool, true, false, List, [], ◌∷◌, ◌++◌, Result, ok, err, panic, ◌>>=◌, ◌==◌, ltb, take, slice,
  if◌then◌else◌,
}
use ads_go.Base.Integer.{ℤ, pos, negsuc}
use ads_go.Wire.{Bytes, make_bytes, put_uint16, copy_at, uint_at}
use ads_go.NetId.{byte_array_to_ams_net_id_str}
use ads_go.AmsBuilder.{AmsAddress, ams_tcp_header_length, build_ams_tcp_header}
use ads_go.Client.Commands.{Action, and_then, pure}
use ads_go.Client.Poller.{Settings}
use ads_go.Serializer.Value.{same_bytes}

-- types.AMSTCPPortConnect and types.AMSTCPPortClose.
abbrev pub ams_tcp_port_connect : ℕ
ams_tcp_port_connect = 4096

abbrev pub ams_tcp_port_close : ℕ
ams_tcp_port_close = 1

-- constants.LoopbackAmsNetID, "127.0.0.1.1.1", and "127.0.0.1" in front of its last two parts.
abbrev pub local_host : Bytes
local_host = b'1' ∷ b'2' ∷ b'7' ∷ b'.' ∷ b'0' ∷ b'.' ∷ b'0' ∷ b'.' ∷ b'1' ∷ []

abbrev pub loopback_ams_net_id : Bytes
loopback_ams_net_id = local_host ++ (b'.' ∷ b'1' ∷ b'.' ∷ b'1' ∷ [])

-- Durations are nanoseconds. The hook of the connect call is a parameter of `connect`.
pub record ClientSettings : Type 0 where
  pub target_net_id : Bytes
  pub router_host : Bytes
  pub router_port : ℤ
  pub timeout : ℤ
  pub state_polling_interval : ℤ
  pub max_consecutive_read_failures : ℤ
  pub has_state_hook : Bool

abbrev pub is_localhost : Bytes → Bool
is_localhost [] = true
is_localhost (c ∷ s) =
    same_bytes (c ∷ s) (b'l' ∷ b'o' ∷ b'c' ∷ b'a' ∷ b'l' ∷ b'h' ∷ b'o' ∷ b's' ∷ b't' ∷ [])

abbrev pub or_host : Bytes → Bytes
or_host [] = local_host
or_host (c ∷ s) = c ∷ s

abbrev pub or_number : ℕ → ℤ → ℤ
or_number default (pos n) = if n == 0 then pos default else pos n
or_number default (negsuc n) = negsuc n

unfoldable pub load_defaults : ClientSettings → ClientSettings
load_defaults cs = record {
  target_net_id = if is_localhost cs.target_net_id then loopback_ams_net_id else cs.target_net_id;
  router_host = or_host cs.router_host;
  router_port = or_number 48898 cs.router_port;
  timeout = or_number 2000000000 cs.timeout;
  state_polling_interval = or_number 2000000000 cs.state_polling_interval;
  max_consecutive_read_failures = or_number 1 cs.max_consecutive_read_failures;
  has_state_hook = cs.has_state_hook;
}

-- `interval > 0`; a negative limit is reached at once, as a limit of 0 is.
abbrev pub is_positive : ℤ → Bool
is_positive (pos n) = ltb 0 n
is_positive (negsuc n) = false

abbrev pub at_least_zero : ℤ → ℕ
at_least_zero (pos n) = n
at_least_zero (negsuc n) = 0

abbrev pub poller_settings : ClientSettings → Settings
poller_settings cs = record {
  polling = is_positive cs.state_polling_interval;
  max_consecutive_read_failures = at_least_zero cs.max_consecutive_read_failures;
  has_state_hook = cs.has_state_hook;
}

-- The socket: `net.DialTimeout` by host, port and timeout, `Write`, `Read` into a buffer of so many
-- bytes, which may bring fewer, and `Close`.
pub record Socket (S : Type 0) : Type 0 where
  pub dial : Bytes → ℤ → ℤ → Action S (Unit {0})
  pub write : Bytes → Action S (Unit {0})
  pub read : ℕ → Action S Bytes
  pub close : Action S (Unit {0})

-- The address in a router's answer; the slices may panic.
abbrev pub assigned_address : Bytes → Result AmsAddress
assigned_address resp_data = do
  net_id ← slice 0 6 resp_data
  port ← uint_at 6 8 resp_data
  ok (record { net_id = byte_array_to_ams_net_id_str net_id; port = port })

module _ {S : Type 0} (socket : Socket S) where
  -- One `Read` into a fresh buffer: what it did not fill stays zero.
  abbrev pub read_buffer : ℕ → Action S Bytes
  read_buffer n =
      and_then (socket.read n) (λ got. pure (ok (copy_at 0 (take n got) (make_bytes n))))

  unfoldable pub register_ads_port : Action S AmsAddress
  register_ads_port =
      and_then
        (socket.write
          (build_ams_tcp_header ams_tcp_port_connect 2 ++ put_uint16 0 0 (make_bytes 2)))
        (λ _. and_then (read_buffer ams_tcp_header_length) (λ header.
          and_then (pure (uint_at 2 6 header)) (λ data_length.
            and_then (read_buffer data_length) (λ resp_data. pure (assigned_address resp_data)))))

  unfoldable pub unregister_ads_port : AmsAddress → Action S (Unit {0})
  unregister_ads_port local =
      socket.write
        (build_ams_tcp_header ams_tcp_port_close 2 ++ put_uint16 0 local.port (make_bytes 2))
