-- ===== src/Client/Poller/Support.antt =====
-- Whether the device knows the extended state is found out once.
use ads_go.Base.{
  ℕ, ◌≡◌, refl, ◌∙◌, Bool, true, false, Option, none, some, Result, ok, err, panic, arith,
}
use ads_go.StateInfo.{SystemState, ExtendedSystemState}
use ads_go.Client.Poller.{
  Settings, Poller, Snapshot, read_states, read_failed, read_succeeded, after_read, finish_check,
}

after_read-supported :
    (settings : Settings) (k : ℕ) (snap : Snapshot) (index : Option ℕ) (s : Option SystemState)
    (c : Poller)
    → ((after_read settings k snap index s c).0.extended_state_supported
        ≡ c.extended_state_supported)
      × ((after_read settings k snap index s c).0.last_restart_index ≡ c.last_restart_index)
unfolding read_failed read_succeeded
after_read-supported settings k snap index none c = ground arith
after_read-supported settings k snap index (some s) c = succeeded snap.old_state _
  where
    succeeded :
        (old : Option SystemState) (restart : Bool)
        → ((read_succeeded settings k old restart s c).0.extended_state_supported
            ≡ c.extended_state_supported)
          × ((read_succeeded settings k old restart s c).0.last_restart_index
              ≡ c.last_restart_index)
    succeeded none restart = ground arith
    succeeded (some old) true = ground arith
    succeeded (some old) false = ground arith

-- What is known afterwards, from what was known and how the extended read came out.
abbrev pub found : Option Bool → Result ExtendedSystemState → Option Bool → Option Bool
found none (ok e) now = some true
found none (err e) now = some false
found none panic now = some false
found (some b) extended now = now

abbrev pub index_found : Option Bool → Result ExtendedSystemState → Option ℕ → Option ℕ
index_found (some false) extended now = now
index_found none (ok e) now = some e.restart_index
index_found (some true) (ok e) now = some e.restart_index
index_found _ _ now = now

read_states-found :
    (supported : Option Bool) (extended : Result ExtendedSystemState) (basic : Result SystemState)
    (c : Poller)
    → ((read_states supported extended basic c).client.extended_state_supported
        ≡ found supported extended c.extended_state_supported)
      × ((read_states supported extended basic c).client.last_restart_index
          ≡ index_found supported extended c.last_restart_index)
unfolding read_states
read_states-found none (ok e) basic c = (refl, refl)
read_states-found none (err e) (ok s) c = (refl, refl)
read_states-found none (err e) (err f) c = (refl, refl)
read_states-found none (err e) panic c = (refl, refl)
read_states-found none panic (ok s) c = (refl, refl)
read_states-found none panic (err f) c = (refl, refl)
read_states-found none panic panic c = (refl, refl)
read_states-found (some false) (ok e) (ok s) c = (refl, refl)
read_states-found (some false) (ok e) (err f) c = (refl, refl)
read_states-found (some false) (ok e) panic c = (refl, refl)
read_states-found (some false) (err e) (ok s) c = (refl, refl)
read_states-found (some false) (err e) (err f) c = (refl, refl)
read_states-found (some false) (err e) panic c = (refl, refl)
read_states-found (some false) panic (ok s) c = (refl, refl)
read_states-found (some false) panic (err f) c = (refl, refl)
read_states-found (some false) panic panic c = (refl, refl)
read_states-found (some true) (ok e) basic c = (refl, refl)
read_states-found (some true) (err e) basic c = (refl, refl)
read_states-found (some true) panic basic c = (refl, refl)

-- The first check decides by its own extended read whether the device supports it; later checks
-- never revise that; and the restart index is taken over exactly from extended reads that succeed,
-- never where the device was found not to support them.
pub finish_check-found :
    (settings : Settings) (k : ℕ) (snap : Snapshot) (extended : Result ExtendedSystemState)
    (basic : Result SystemState) (c : Poller)
    → ((finish_check settings k snap extended basic c).0.extended_state_supported
        ≡ found snap.extended_supported extended c.extended_state_supported)
      × ((finish_check settings k snap extended basic c).0.last_restart_index
          ≡ index_found snap.extended_supported extended c.last_restart_index)
unfolding finish_check
finish_check-found settings k snap extended basic c =
    let r = read_states snap.extended_supported extended basic c in
    let (a, b) = after_read-supported settings k snap r.new_restart_index r.new_state r.client in
    let (d, e) = read_states-found snap.extended_supported extended basic c in (a ∙ d, b ∙ e)
