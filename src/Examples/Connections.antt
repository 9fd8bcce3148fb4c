-- ===== src/Examples/Connections.antt =====
-- A connection to a router whose answers are fixed, and a device in run mode behind it.
use ads_go.Base.{
  ℕ, suc, ◌≡◌, refl, [], ◌∷◌, ◌++◌, none, some, true, ok, panic, arith, ◌==◌, if◌then◌else◌, slice,
  take,
}
use ads_go.Base.Integer.{pos}
use ads_go.Wire.{Bytes, le_bytes}
use ads_go.NetId.{ams_net_id_str_to_byte_array}
use ads_go.AmsBuilder.{AmsAddress, build_ams_tcp_header}
use ads_go.StateInfo.{parse_system_state, parse_device_info}
use ads_go.AdsHeader.{strip_ads_error, check_ads_error}
use ads_go.Client.Commands.{AdsCommandRequest, Action, read_device_info, read_tc_system_state}
use ads_go.Client.Poller.{Poller}
use ads_go.Client.Ports.{ClientSettings, Socket, load_defaults, register_ads_port}
use ads_go.Client.Ports.Registration.{register_ads_port-assigned, piece, register_ads_port_unfit}
use ads_go.Client.Connection.{
  Connection, new_client, connect, establish, disconnect, hook_answered, first_state, receiving,
}
use ads_go.Client.Connection.Lifecycle.{IsDown, disconnect-IsDown, Scheduled, connect-Scheduled}

-- The router counts the calls; it assigns 5.1.2.3.1.1 and port 32800.
abbrev router : Socket ℕ
router = record {
  dial = λ host port timeout calls. (ok tt, suc calls);
  write = λ packet calls. (ok tt, suc calls);
  read = λ n calls. (
    ok (
        if n == 6
        then le_bytes 2 4096 ++ le_bytes 4 8
        else (5 ∷ 1 ∷ 2 ∷ 3 ∷ 1 ∷ 1 ∷ []) ++ le_bytes 2 32800),
    suc calls,
  );
  close = λ calls. (ok tt, suc calls);
}

register_ads_port-assigned_example :
    (local : AmsAddress) × (register_ads_port router 0 ≡ (ok local, 3))
    × (ams_net_id_str_to_byte_array local.net_id ≡ ok (5 ∷ 1 ∷ 2 ∷ 3 ∷ 1 ∷ 1 ∷ []))
    × (local.port ≡ 32800)
register_ads_port-assigned_example =
    register_ads_port-assigned router (5 ∷ 1 ∷ 2 ∷ 3 ∷ 1 ∷ 1 ∷ []) 32800 4096 0 1 2 3
      (omega arith, (omega arith, (omega arith, (omega arith, (omega arith, (omega arith, tt))))))
      refl (omega arith) refl refl refl

-- The first two bytes of the header come alone.
abbrev slow_router : Socket ℕ
slow_router = record router { read = λ n calls. (ok (take n (0 ∷ 16 ∷ [])), suc calls) }

register_ads_port_unfit_example : register_ads_port slow_router 0 ≡ (panic, 3)
register_ads_port_unfit_example =
    register_ads_port_unfit slow_router (0 ∷ 16 ∷ []) (λ n. take n (0 ∷ 16 ∷ [])) 0 1 2 3
      (piece (0 ∷ 16 ∷ []) (omega arith)) refl refl (λ n h. refl)

abbrev device : AdsCommandRequest → Action ℕ Bytes
device request calls = (ok (le_bytes 4 0 ++ (le_bytes 2 5 ++ le_bytes 2 1)), suc calls)

abbrev polled : Poller
polled = record {
  current_state = some (record { ads_state = 5; device_state = 1 });
  state_poller_id = 3;
  timer = some 3;
  extended_state_supported = none;
  last_restart_index = none;
  consecutive_read_failures = 1;
}

abbrev open_connection : Connection ℕ ℕ
open_connection = record {
  session = record {
    device = 0;
    subscriptions =
        (
          9,
          record {
            handle = 9;
            port = 851;
            receiver = 0;
            settings = record { cycle_time = 200000000; send_on_change = true; max_delay = 0 };
          },
        )
        ∷ [];
  };
  connected = true;
  local_ams_addr = record { net_id = []; port = 32800 };
  receive_buffer = [];
  poller = polled;
  started = receiving ∷ [];
}

disconnect-IsDown_example : IsDown open_connection (disconnect router device open_connection).1
disconnect-IsDown_example =
    disconnect-IsDown router device (λ port handle s. (_, _, refl)) open_connection refl (refl, tt)

abbrev no_settings : ClientSettings
no_settings = record {
  target_net_id = [];
  router_host = [];
  router_port = pos 0;
  timeout = pos 0;
  state_polling_interval = pos 0;
  max_consecutive_read_failures = pos 0;
  has_state_hook = true;
}

abbrev fresh : Connection ℕ ℕ
fresh = (new_client no_settings 0).1

connects :
    connect router device (load_defaults no_settings) none fresh
    ≡ (ok tt, (connect router device (load_defaults no_settings) none fresh).1)
unfolding connect establish register_ads_port build_ams_tcp_header slice read_device_info
    strip_ads_error check_ads_error parse_device_info hook_answered first_state read_tc_system_state
    parse_system_state
connects = refl

connect-Scheduled_example :
    Scheduled (connect router device (load_defaults no_settings) none fresh).1.poller
connect-Scheduled_example =
    connect-Scheduled router device no_settings none fresh
      (connect router device (load_defaults no_settings) none fresh).1 0 refl connects
