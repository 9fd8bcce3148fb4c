-- ===== src/Client/Poller.antt =====
-- client_state.go: the cached TwinCAT state and the poller that keeps it. A check reads the device
-- between its two halves, and other calls may run in between.
pub mod Outcomes
pub mod Support
pub mod Tokens
pub mod Places
pub mod Single
use ads_go.Base.{
  ℕ, zero, suc, ◌+◌, Bool, true, false, not, List, [], ◌∷◌, ◌++◌, Option, none, some, Result, ok,
  err, panic, Error, not_in_run_mode, ◌>>=◌, ◌==◌, leb, if◌then◌else◌,
}
use ads_go.StateInfo.{SystemState, ExtendedSystemState}

-- types.ADSStateRun.
abbrev pub ads_state_run : ℕ
ads_state_run = 5

-- The settings that the poller reads. The interval is on or off, and the limit is not negative.
pub record Settings : Type 0 where
  pub polling : Bool
  pub max_consecutive_read_failures : ℕ
  pub has_state_hook : Bool

-- `timer`: the poller id under which the next check is scheduled.
pub record Poller : Type 0 where
  pub current_state : Option SystemState
  pub state_poller_id : ℕ
  pub timer : Option ℕ
  pub extended_state_supported : Option Bool
  pub last_restart_index : Option ℕ
  pub consecutive_read_failures : ℕ

-- The hooks that are started, each in its own goroutine.
pub data Hook : Type 0 where
  state_changed : SystemState → Option SystemState → Hook
  connection_lost : Hook

unfoldable pub start_state_poller : Settings → Poller → Poller
start_state_poller settings c =
    if settings.polling
    then record c { state_poller_id = c.state_poller_id + 1; timer = some (c.state_poller_id + 1) }
    else c

unfoldable pub stop_state_poller : Poller → Poller
stop_state_poller c = record c { state_poller_id = c.state_poller_id + 1; timer = none }

unfoldable pub restart_state_poller : Settings → Poller → Poller
unfolding start_state_poller
restart_state_poller settings c = start_state_poller settings c

abbrev pub get_current_state : Poller → Option SystemState
get_current_state c = c.current_state

unfoldable pub schedule_next_state_check : ℕ → Poller → Poller
schedule_next_state_check poller_id c =
    if poller_id == c.state_poller_id then record c { timer = some poller_id } else c

unfoldable pub invoke_connection_lost_hook : Poller → Poller × List Hook
invoke_connection_lost_hook c = (record c { current_state = none }, connection_lost ∷ [])

unfoldable pub invoke_state_change_hook : Settings → SystemState → Option SystemState → List Hook
invoke_state_change_hook settings new_state old_state =
    if settings.has_state_hook then state_changed new_state old_state ∷ [] else []

-- What a check remembers from before its reads.
pub record Snapshot : Type 0 where
  pub old_state : Option SystemState
  pub extended_supported : Option Bool
  pub old_restart_index : Option ℕ

-- The first half: a check of another poller id does nothing.
unfoldable pub begin_check : ℕ → Poller → Option Snapshot
begin_check poller_id c =
    if poller_id == c.state_poller_id
    then some (record {
      old_state = c.current_state;
      extended_supported = c.extended_state_supported;
      old_restart_index = c.last_restart_index;
    })
    else none

-- What the reads come to: the new state with the restart index if it was read, or a failure; and the
-- client with what the read found out about the device.
pub record Reading : Type 0 where
  pub client : Poller
  pub new_state : Option SystemState
  pub new_restart_index : Option ℕ

abbrev pub basic_reading : Poller → Result SystemState → Reading
basic_reading c (ok s) = record { client = c; new_state = some s; new_restart_index = none }
basic_reading c (err e) = record { client = c; new_state = none; new_restart_index = none }
basic_reading c panic = record { client = c; new_state = none; new_restart_index = none }

abbrev pub extended_reading : Poller → ExtendedSystemState → Reading
extended_reading c e = record {
  client = record c { last_restart_index = some e.restart_index };
  new_state = some (record { ads_state = e.ads_state; device_state = e.device_state });
  new_restart_index = some e.restart_index;
}

abbrev pub failed_reading : Poller → Reading
failed_reading c = record { client = c; new_state = none; new_restart_index = none }

-- By what the snapshot says of the extended state: unknown, unsupported, supported.
unfoldable pub read_states :
    Option Bool → Result ExtendedSystemState → Result SystemState → Poller → Reading
read_states none (ok e) basic c =
    extended_reading (record c { extended_state_supported = some true }) e
read_states none (err e) basic c =
    basic_reading (record c { extended_state_supported = some false }) basic
read_states none panic basic c =
    basic_reading (record c { extended_state_supported = some false }) basic
read_states (some false) extended basic c = basic_reading c basic
read_states (some true) (ok e) basic c = extended_reading c e
read_states (some true) (err e) basic c = failed_reading c
read_states (some true) panic basic c = failed_reading c

-- A failed read: the limit of consecutive failures, or the next check.
unfoldable pub read_failed : Settings → ℕ → Poller → Poller × List Hook
unfolding schedule_next_state_check invoke_connection_lost_hook
read_failed settings poller_id c =
    let failures = c.consecutive_read_failures + 1 in
    if leb settings.max_consecutive_read_failures failures
    then invoke_connection_lost_hook (record c { consecutive_read_failures = 0 })
    else (
      schedule_next_state_check poller_id (record c { consecutive_read_failures = failures }),
      [],
    )

abbrev pub differ : Option ℕ → Option ℕ → Bool
differ (some a) (some b) = not (a == b)
differ _ _ = false

-- A successful read: the hooks by what changed.
abbrev pub restarted : Settings → Poller → SystemState → Option SystemState → Poller × List Hook
restarted settings c new_state old_state =
    let (c', hooks) = invoke_connection_lost_hook c in
    (c', invoke_state_change_hook settings new_state old_state ++ hooks)

unfoldable pub read_succeeded :
    Settings → ℕ → Option SystemState → Bool → SystemState → Poller → Poller × List Hook
unfolding schedule_next_state_check invoke_connection_lost_hook invoke_state_change_hook
read_succeeded settings poller_id none restart new_state c = (
  schedule_next_state_check poller_id
      (record c { consecutive_read_failures = 0; current_state = some new_state }),
  invoke_state_change_hook settings new_state none,
)
read_succeeded settings poller_id (some old_state) restart new_state c =
    let committed = record c { consecutive_read_failures = 0; current_state = some new_state } in
    if not (new_state.ads_state == old_state.ads_state)
    then (
      schedule_next_state_check poller_id committed,
      invoke_state_change_hook settings new_state (some old_state),
    )
    else if restart
    then restarted settings committed new_state (some old_state)
    else (schedule_next_state_check poller_id committed, [])

abbrev pub after_read :
    Settings → ℕ → Snapshot → Option ℕ → Option SystemState → Poller → Poller × List Hook
after_read settings poller_id snap new_restart_index none c = read_failed settings poller_id c
after_read settings poller_id snap new_restart_index (some new_state) c =
    read_succeeded settings poller_id snap.old_state
      (differ new_restart_index snap.old_restart_index) new_state c

-- The second half, on the client as it is when the reads are done.
unfoldable pub finish_check :
    Settings
    → ℕ
    → Snapshot
    → Result ExtendedSystemState
    → Result SystemState
    → Poller
    → Poller × List Hook
finish_check settings poller_id snap extended basic c =
    let r = read_states snap.extended_supported extended basic c in
    after_read settings poller_id snap r.new_restart_index r.new_state r.client

-- `checkState` with nothing in between.
unfoldable pub check_state :
    Settings → ℕ → Result ExtendedSystemState → Result SystemState → Poller → Poller × List Hook
check_state settings poller_id extended basic c = elim (begin_check poller_id c) [
  | none ↦ (c, [])
  | some snap ↦ finish_check settings poller_id snap extended basic c
]

-- The gate in front of reads and writes of values.
unfoldable pub check_state_for_operation : Poller → Result (Unit {0})
check_state_for_operation c = elim c.current_state [
  | none ↦ ok tt
  | some state ↦
      if state.ads_state == ads_state_run then ok tt else err (not_in_run_mode state.ads_state)
]
