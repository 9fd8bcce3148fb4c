-- ===== src/Client/Connection.antt =====
-- client_connect.go and the hooks of client.go: the life of a connection, over the socket and over
-- `send`.
pub mod Lifecycle
use ads_go.Base.{
  ℕ, Bool, true, false, not, List, [], ◌∷◌, ◌++◌, map, Option, none, some, Result, ok, err, panic,
  Error, hook_panicked, not_in_run_mode, fail_if, ◌==◌, if◌then◌else◌,
}
use ads_go.Wire.{Bytes}
use ads_go.AmsBuilder.{AmsAddress}
use ads_go.StateInfo.{SystemState}
use ads_go.Client.Commands.{
  AdsCommandRequest, Action, go_on, and_then, pure, read_device_info, read_tc_system_state,
}
use ads_go.Client.Poller.{
  ads_state_run, Poller, Hook, start_state_poller, stop_state_poller, invoke_state_change_hook,
}
use ads_go.Client.Subscriptions.{Session, unsubscribe_all}
use ads_go.Client.Ports.{
  ClientSettings, load_defaults, poller_settings, Socket, register_ads_port, unregister_ads_port,
}

-- What the calls start: the receive goroutine and the hooks, the last one first.
pub data Started : Type 0 where
  receiving : Started
  disconnected : Started
  hook : Hook → Started

pub record Connection (S C : Type 0) : Type 0 where
  pub session : Session S C
  pub connected : Bool
  pub local_ams_addr : AmsAddress
  pub receive_buffer : Bytes
  pub poller : Poller
  pub started : List Started

-- An error that is only logged.
abbrev pub logged : {A S : Type 0} → Result A × S → Result (Unit {0}) × S
logged (ok a, s) = (ok tt, s)
logged (err e, s) = (ok tt, s)
logged (panic, s) = (panic, s)

-- `recover` in `invokeConnectHook`.
abbrev pub recovered : {S : Type 0} → Result (Unit {0}) × S → Result (Unit {0}) × S
recovered (ok u, s) = (ok u, s)
recovered (err e, s) = (err e, s)
recovered (panic, s) = (err hook_panicked, s)

module _ {S C : Type 0} where
  -- `NewClient`: the settings with their defaults, and the client at rest before its device.
  abbrev pub new_client : ClientSettings → S → ClientSettings × Connection S C
  new_client settings device = (
    load_defaults settings,
    record {
      session = record { device = device; subscriptions = [] };
      connected = false;
      local_ams_addr = record { net_id = []; port = 0 };
      receive_buffer = [];
      poller = record {
        current_state = none;
        state_poller_id = 0;
        timer = none;
        extended_state_supported = none;
        last_restart_index = none;
        consecutive_read_failures = 0;
      };
      started = [];
    },
  )

  abbrev pub on_socket : {A : Type 0} → Action S A → Action (Connection S C) A
  on_socket call c =
      let out = call c.session.device in
      (out.0, record c { session = record c.session { device = out.1 } })

  abbrev pub on_session : {A : Type 0} → Action (Session S C) A → Action (Connection S C) A
  on_session call c = let out = call c.session in (out.0, record c { session = out.1 })

  abbrev pub changed : (Connection S C → Connection S C) → Action (Connection S C) (Unit {0})
  changed change c = (ok tt, change c)

  abbrev pub starting : List Started → Connection S C → Connection S C
  starting more c = record c { started = more ++ c.started }

  -- The poller, the cached state and the failures, when the connection ends.
  abbrev pub quiet : Connection S C → Connection S C
  quiet c = record c {
    poller = record (stop_state_poller c.poller) {
      current_state = none;
      consecutive_read_failures = 0;
    };
  }

  -- The state that was read is cached and handed to the hook, with no state before it.
  unfoldable pub first_state :
      ClientSettings → Result SystemState × Connection S C → Result (Unit {0}) × Connection S C
  first_state settings (ok state, c) = (
    ok tt,
    starting (map hook (invoke_state_change_hook (poller_settings settings) state none))
        (record c { poller = record c.poller { current_state = some state } }),
  )
  first_state settings (err e, c) = (ok tt, c)
  first_state settings (panic, c) = (panic, c)

  abbrev pub invoke_connect_hook :
      Option (AmsAddress → Action (Connection S C) (Unit {0})) → Action (Connection S C) (Unit {0})
  invoke_connect_hook none c = (ok tt, c)
  invoke_connect_hook (some on_connect) c = recovered (on_connect c.local_ams_addr c)

module _ {S : Type 0} (send : AdsCommandRequest → Action S Bytes) where
  abbrev pub setup_plc_connection : Action S (Unit {0})
  setup_plc_connection = and_then (read_device_info send) (λ info.
      and_then (read_tc_system_state send) (λ state.
        pure (fail_if (not (state.ads_state == ads_state_run)) (not_in_run_mode state.ads_state))))

module _ {S C : Type 0} (socket : Socket S) where
  -- The deferred close keeps the result of the call.
  abbrev pub closing : Result (Unit {0}) × Connection S C → Result (Unit {0}) × Connection S C
  closing (panic, c) = (panic, c)
  closing (err e, c) = and_then (λ d. logged (on_socket socket.close d)) (λ u. pure (err e)) c
  closing (ok u, c) = logged (on_socket socket.close c)

  abbrev pub registered : Result AmsAddress × Connection S C → Result (Unit {0}) × Connection S C
  registered (ok local, c) = (ok tt, record c { local_ams_addr = local })
  registered (err e, c) = closing (err e, c)
  registered (panic, c) = (panic, c)

module _ {S C : Type 0} (socket : Socket S) (send : AdsCommandRequest → Action S Bytes) where
  abbrev pub take_down : Action (Connection S C) (Unit {0})
  take_down = and_then (changed quiet) (λ u.
      and_then (λ c. logged (on_session (unsubscribe_all send) c))
        (λ u.
          and_then (changed (starting (disconnected ∷ [])))
            (λ u c. closing socket (on_socket (unregister_ads_port socket c.local_ams_addr) c))))

  -- `c.conn` stays set.
  unfoldable pub disconnect : Action (Connection S C) (Unit {0})
  disconnect c = if c.connected then take_down c else (ok tt, c)

  -- A hook that fails ends the connection again.
  unfoldable pub hook_answered :
      Result (Unit {0}) × Connection S C → Result (Unit {0}) × Connection S C
  unfolding disconnect
  hook_answered (ok u, c) = (ok tt, c)
  hook_answered (err e, c) = and_then (λ d. logged (disconnect d)) (λ u. pure (err e)) c
  hook_answered (panic, c) = (panic, c)

  -- `Connect` up to the poller.
  unfoldable pub establish :
      ClientSettings
      → Option (AmsAddress → Action (Connection S C) (Unit {0}))
      → Action (Connection S C) (Unit {0})
  establish settings on_connect =
      and_then (on_socket (socket.dial settings.router_host settings.router_port settings.timeout))
        (λ u. and_then (changed (λ c. record c { connected = true; receive_buffer = [] })) (λ u.
          and_then (λ c. registered socket (on_socket (register_ads_port socket) c))
            (λ u. and_then (changed (starting (receiving ∷ []))) (λ u.
              and_then (λ c. logged (on_socket (setup_plc_connection send) c))
                (λ u.
                  and_then (λ c. hook_answered (invoke_connect_hook on_connect c))
                    (λ u c. first_state settings (on_socket (read_tc_system_state send) c)))))))

  unfoldable pub connect :
      ClientSettings
      → Option (AmsAddress → Action (Connection S C) (Unit {0}))
      → Action (Connection S C) (Unit {0})
  connect settings on_connect = and_then (establish settings on_connect) (λ u.
      changed (λ c. record c { poller = start_state_poller (poller_settings settings) c.poller }))
