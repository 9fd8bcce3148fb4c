-- ===== src/Client/Commands.antt =====
-- client_raw.go, client_control.go, client_control_info.go and client_control_actions.go: the commands,
-- over what `send` does with the connection and the device behind it, whose state is a parameter.
pub mod Memory
pub mod Control
use ads_go.Base.{
  ℕ, ◌%◌, ◌^◌, Bool, not, [], Result, ok, err, panic, Error, invalid_response_length, not_connected,
  ◌>>=◌, ◌>>◌, fail_if, ltb, length, slice_to,
}
use ads_go.Wire.{Bytes}
use ads_go.AdsHeader.{check_ads_error, strip_ads_error, strip_ads_header}
use ads_go.Requests.{
  build_read_request, build_write_request, build_read_write_request,
  build_read_write_request_with_null_terminator, build_write_control_request,
}
use ads_go.StateInfo.{
  SystemState, ExtendedSystemState, DeviceInfo, parse_system_state, parse_extended_system_state,
  parse_device_info,
}

pub record AdsCommandRequest : Type 0 where
  pub command : ℕ
  pub target_port : ℕ
  pub data_bytes : Bytes

-- types.ADSCommand and types.ADSState.
abbrev pub command_read_device_info : ℕ
command_read_device_info = 1

abbrev pub command_read : ℕ
command_read = 2

abbrev pub command_write : ℕ
command_write = 3

abbrev pub command_read_state : ℕ
command_read_state = 4

abbrev pub command_write_control : ℕ
command_write_control = 5

abbrev pub command_read_write : ℕ
command_read_write = 9

abbrev pub state_reset : ℕ
state_reset = 2

abbrev pub state_reconfig : ℕ
state_reconfig = 16

abbrev pub port_system_service : ℕ
port_system_service = 10000

-- A call that may change the device, and what it returns; one call after another.
abbrev pub Action : Type 0 → Type 0 → Type 0
Action S A = S → Result A × S

module _ {S : Type 0} where
  abbrev pub go_on : {A B : Type 0} → (A → Action S B) → Result A × S → Result B × S
  go_on f (ok a, s) = f a s
  go_on f (err e, s) = (err e, s)
  go_on f (panic, s) = (panic, s)

  abbrev pub and_then : {A B : Type 0} → Action S A → (A → Action S B) → Action S B
  and_then m f s = go_on f (m s)

  abbrev pub pure : {A : Type 0} → Result A → Action S A
  pure r s = (r, s)

-- The response of a control command: at least four bytes, of which the first four are looked at.
abbrev pub control_answer : Bytes → Result (Unit {0})
control_answer response = do
  fail_if (ltb (length response) 4) (invalid_response_length (length response))
  front ← slice_to 4 response
  check_ads_error front

abbrev pub state_answer : Bytes → Result SystemState
state_answer response = do
  fail_if (ltb (length response) 8) (invalid_response_length (length response))
  payload ← strip_ads_error response
  parse_system_state payload

abbrev pub device_info_answer : Bytes → Result DeviceInfo
device_info_answer response = do
  fail_if (ltb (length response) 4) (invalid_response_length (length response))
  payload ← strip_ads_error response
  parse_device_info payload

module _ {S : Type 0} (send : AdsCommandRequest → Action S Bytes) where
  unfoldable pub read_raw : ℕ → ℕ → ℕ → ℕ → Action S Bytes
  read_raw port index_group index_offset size =
      and_then
        (send (record {
          command = command_read;
          target_port = port;
          data_bytes = build_read_request index_group index_offset size;
        }))
        (λ response. pure (strip_ads_header response))

  unfoldable pub write_raw : ℕ → ℕ → ℕ → Bytes → Action S (Unit {0})
  write_raw port index_group index_offset payload =
      and_then
        (send (record {
          command = command_write;
          target_port = port;
          data_bytes = build_write_request index_group index_offset payload;
        }))
        (λ response. pure (strip_ads_error response >>= λ _. ok tt))

  unfoldable pub read_write_raw_binary : ℕ → ℕ → ℕ → ℕ → Bytes → Action S Bytes
  read_write_raw_binary port index_group index_offset read_length write_data =
      and_then
        (send (record {
          command = command_read_write;
          target_port = port;
          data_bytes = build_read_write_request index_group index_offset read_length write_data;
        }))
        (λ response. pure (strip_ads_header response))

  unfoldable pub read_write_raw : ℕ → ℕ → ℕ → ℕ → Bytes → Action S Bytes
  read_write_raw port index_group index_offset read_length write_data =
      and_then
        (send (record {
          command = command_read_write;
          target_port = port;
          data_bytes =
              build_read_write_request_with_null_terminator index_group index_offset read_length
                write_data;
        }))
        (λ response. pure (strip_ads_header response))

  unfoldable pub write_control : ℕ → ℕ → ℕ → Action S (Unit {0})
  write_control ads_state device_state target_port =
      and_then
        (send (record {
          command = command_write_control;
          target_port = target_port;
          data_bytes = build_write_control_request (ads_state % 2 ^ 16) device_state;
        }))
        (λ response. pure (control_answer response))

  unfoldable pub read_tc_system_state : Action S SystemState
  read_tc_system_state =
      and_then
        (send (record {
          command = command_read_state;
          target_port = port_system_service;
          data_bytes = [];
        }))
        (λ response. pure (state_answer response))

  unfoldable pub read_tc_system_extended_state : Action S ExtendedSystemState
  read_tc_system_extended_state =
      and_then (read_raw 10000 240 0 16) (λ payload. pure (parse_extended_system_state payload))

  unfoldable pub read_device_info : Action S DeviceInfo
  read_device_info =
      and_then
        (send (record {
          command = command_read_device_info;
          target_port = port_system_service;
          data_bytes = [];
        }))
        (λ response. pure (device_info_answer response))

  -- The device state is read and written back with the new ADS state.
  unfoldable pub set_tc_system_to_config : Action S (Unit {0})
  set_tc_system_to_config =
      and_then read_tc_system_state
        (λ state. write_control state_reconfig state.device_state port_system_service)

  unfoldable pub set_tc_system_to_run : Bool → Action S (Unit {0})
  set_tc_system_to_run connected = and_then (pure (fail_if (not connected) not_connected)) (λ _.
      and_then read_tc_system_state
        (λ state. write_control state_reset state.device_state port_system_service))
