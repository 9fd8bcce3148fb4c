-- ===== src/Client/Commands/Control.antt =====
-- Switching the TwinCAT system between its modes.
use ads_go.Base.{
  ℕ, ◌^◌, ◌<◌, ◌≡◌, refl, ap, ◌∙◌, true, false, [], ◌++◌, length, Result, ok, err, arith, ◌==◌,
  if◌then◌else◌, ads_error, not_connected, le→ltb,
}
use native.Mathlib.Nat.{mod-eq_of_lt}
use ads_go.Wire.{Bytes, le_bytes}
use ads_go.Wire.Numbers.{le_value-le_bytes}
use ads_go.AdsHeader.{strip_ads_error, check_ads_error}
use ads_go.StateInfo.{SystemState}
use ads_go.StateInfo.Parses.{parse_system_state-image}
use ads_go.Requests.{build_write_control_request}
use ads_go.Client.Commands.{
  AdsCommandRequest, Action, go_on, and_then, pure, write_control, control_answer, state_answer,
  read_tc_system_state, set_tc_system_to_config, set_tc_system_to_run,
}

abbrev pub state_request : AdsCommandRequest
state_request = record { command = 4; target_port = 10000; data_bytes = [] }

abbrev pub control_request : ℕ → ℕ → AdsCommandRequest
control_request ads_state device_state = record {
  command = 5;
  target_port = 10000;
  data_bytes = le_bytes 2 ads_state ++ (le_bytes 2 device_state ++ le_bytes 4 0);
}

-- The answer to a state request: no error, and the state.
abbrev pub state_image : SystemState → Bytes → Bytes
state_image s rest = le_bytes 4 0 ++ (le_bytes 2 s.ads_state ++ (le_bytes 2 s.device_state ++ rest))

abbrev pub control_outcome : ℕ → Result (Unit {0})
control_outcome code = if code == 0 then ok tt else err (ads_error code)

state_answer-image :
    (s : SystemState) (rest : Bytes)
    → s.ads_state < 2 ^ 16
    → s.device_state < 2 ^ 16
    → state_answer (state_image s rest) ≡ ok s
unfolding strip_ads_error check_ads_error
state_answer-image s rest ha hd =
    rw
      (
        le→ltb (length (state_image s rest)) 8 (omega arith),
        le→ltb (length (state_image s rest)) 4 (omega arith),
      )
      (parse_system_state-image s rest ha hd)

control_answer-code :
    (code : ℕ) (rest : Bytes)
    → code < 2 ^ 32
    → control_answer (le_bytes 4 code ++ rest) ≡ control_outcome code
unfolding check_ads_error
control_answer-code code rest h =
    rw (le→ltb (length (le_bytes 4 code ++ rest)) 4 (omega arith), le_value-le_bytes 4 code h)
      (ground arith)

module _ {S : Type 0} (send : AdsCommandRequest → Action S Bytes) where
  switches :
      (target : ℕ) (state : SystemState) (code : ℕ) (rest rest' : Bytes) (s s1 s2 : S)
      → target < 2 ^ 16
      → state.ads_state < 2 ^ 16
      → state.device_state < 2 ^ 16
      → code < 2 ^ 32
      → send state_request s ≡ (ok (state_image state rest), s1)
      → send (control_request target state.device_state) s1 ≡ (ok (le_bytes 4 code ++ rest'), s2)
      → and_then
          (read_tc_system_state send)
          (λ found. write_control send target found.device_state 10000)
          s
        ≡ (control_outcome code, s2)
  unfolding read_tc_system_state write_control build_write_control_request
  switches target state code rest rest' s s1 s2 ht ha hd hc reads writes =
      ap (λ r. go_on write (go_on (λ response. pure (state_answer response)) r)) reads
      ∙ ap (λ r. go_on write (r, s1)) (state_answer-image state rest ha hd)
      ∙ ap
          (λ t.
            go_on (λ response. pure (control_answer response))
              (send (control_request t state.device_state) s1))
          (mod-eq_of_lt ht)
      ∙ ap (go_on (λ response. pure (control_answer response))) writes
      ∙ ap (λ r. (r, s2)) (control_answer-code code rest' hc)
    where
      write : SystemState → Action S (Unit {0})
      write found = write_control send target found.device_state 10000

  -- A device that answers the request for its state, and after it the request for a new one, with
  -- the reset for run mode and the reconfiguration for config mode, its numbers fitting their
  -- fields: the call leaves the device as it is after those two requests, the second with the
  -- device state that was read, and the code of the last answer decides whether it succeeds.
  -- Without a connection run mode is refused, and the device is left as it was.
  pub set_tc_system_to-sends :
      (state : SystemState) (code code' : ℕ) (rest rest' rest'' : Bytes) (s s1 s2 s3 : S)
      → state.ads_state < 2 ^ 16
      → state.device_state < 2 ^ 16
      → code < 2 ^ 32
      → code' < 2 ^ 32
      → send state_request s ≡ (ok (state_image state rest), s1)
      → send (control_request 16 state.device_state) s1 ≡ (ok (le_bytes 4 code ++ rest'), s2)
      → send (control_request 2 state.device_state) s1 ≡ (ok (le_bytes 4 code' ++ rest''), s3)
      → (set_tc_system_to_config send s ≡ (control_outcome code, s2))
        × (set_tc_system_to_run send true s ≡ (control_outcome code', s3))
        × (set_tc_system_to_run send false s ≡ (err not_connected, s))
  unfolding set_tc_system_to_config set_tc_system_to_run
  set_tc_system_to-sends state code code' rest rest' rest'' s s1 s2 s3 ha hd hc hc' reads config
        run =
      (
        switches 16 state code rest rest' s s1 s2 (omega arith) ha hd hc reads config,
        switches 2 state code' rest rest'' s s1 s3 (omega arith) ha hd hc' reads run,
        refl,
      )
