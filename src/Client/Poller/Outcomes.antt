-- ===== src/Client/Poller/Outcomes.antt =====
-- What a finished check leaves and which hooks it starts.
use ads_go.Base.{
  ℕ, ◌+◌, ◌<◌, ◌≡◌, inl, inr, refl, Bool, true, false, ◌&&◌, List, [], ◌∷◌, Option, none, some,
  Result, ok, err, panic, arith, leb, ◌==◌, if◌then◌else◌, Bool-cases,
}
use ads_go.StateInfo.{SystemState, ExtendedSystemState}
use ads_go.Client.Poller.{
  Settings, Poller, Hook, state_changed, connection_lost, Snapshot, Reading, read_states,
  read_failed, read_succeeded, after_read, differ, finish_check,
}

-- The counter of failures is the client's own, and the reads do not touch it.
pub read_states-failures :
    (supported : Option Bool) (extended : Result ExtendedSystemState) (basic : Result SystemState)
    (c : Poller)
    → ((read_states supported extended basic c).client.consecutive_read_failures
        ≡ c.consecutive_read_failures)
      × ((read_states supported extended basic c).client.state_poller_id ≡ c.state_poller_id)
      × ((read_states supported extended basic c).client.timer ≡ c.timer)
unfolding read_states
read_states-failures none (ok e) basic c = (refl, refl, refl)
read_states-failures none (err e) (ok s) c = (refl, refl, refl)
read_states-failures none (err e) (err f) c = (refl, refl, refl)
read_states-failures none (err e) panic c = (refl, refl, refl)
read_states-failures none panic (ok s) c = (refl, refl, refl)
read_states-failures none panic (err f) c = (refl, refl, refl)
read_states-failures none panic panic c = (refl, refl, refl)
read_states-failures (some false) extended (ok s) c = (refl, refl, refl)
read_states-failures (some false) extended (err f) c = (refl, refl, refl)
read_states-failures (some false) extended panic c = (refl, refl, refl)
read_states-failures (some true) (ok e) basic c = (refl, refl, refl)
read_states-failures (some true) (err e) basic c = (refl, refl, refl)
read_states-failures (some true) panic basic c = (refl, refl, refl)

after_read-limit :
    (settings : Settings) (k : ℕ) (snap : Snapshot) (index : Option ℕ) (s : Option SystemState)
    (c : Poller)
    → c.consecutive_read_failures < settings.max_consecutive_read_failures
    → (after_read settings k snap index s c).0.consecutive_read_failures
      < settings.max_consecutive_read_failures
unfolding read_failed read_succeeded
after_read-limit settings k snap index none c h = ground arith
after_read-limit settings k snap index (some s) c h = succeeded snap.old_state _
  where
    succeeded :
        (old : Option SystemState) (restart : Bool)
        → (read_succeeded settings k old restart s c).0.consecutive_read_failures
          < settings.max_consecutive_read_failures
    succeeded none restart = ground arith
    succeeded (some old) restart = ground arith

-- If the counter of consecutive failures is below the limit, it is so after every check, whatever
-- the reads come to.
pub finish_check-limit :
    (settings : Settings) (k : ℕ) (snap : Snapshot) (extended : Result ExtendedSystemState)
    (basic : Result SystemState) (c : Poller)
    → c.consecutive_read_failures < settings.max_consecutive_read_failures
    → (finish_check settings k snap extended basic c).0.consecutive_read_failures
      < settings.max_consecutive_read_failures
unfolding finish_check
finish_check-limit settings k snap extended basic c h =
    let (same, _, _) = read_states-failures snap.extended_supported extended basic c in
    after_read-limit settings k snap _ _ _ (omega (arith, same))

abbrev pub has_lost : List Hook → Bool
has_lost [] = false
has_lost (connection_lost ∷ hooks) = true
has_lost (state_changed new old ∷ hooks) = has_lost hooks

-- When the loss of the connection is due: at a failed read that reaches the limit, and at a read of
-- the same state under another restart index.
abbrev pub same_state : SystemState → Option SystemState → Bool
same_state s none = false
same_state s (some old) = s.ads_state == old.ads_state

abbrev pub loss_due : Settings → Snapshot → Reading → Bool
loss_due settings snap r = elim r.new_state [
  | none ↦ leb settings.max_consecutive_read_failures (r.client.consecutive_read_failures + 1)
  | some s ↦ same_state s snap.old_state && differ r.new_restart_index snap.old_restart_index
]

abbrev pub state_after : Option SystemState → Poller → Option SystemState
state_after none c = c.current_state
state_after (some s) c = some s

-- The fields that decide what follows, for any outcome of a check.
abbrev pub Follows : Settings → ℕ → Bool → Option SystemState → Poller → Poller × List Hook → Type 0
Follows settings k loss new_state c out =
    (has_lost out.1 ≡ loss)
    × (out.0.current_state ≡ (if loss then none else state_after new_state c))
    × (out.0.timer ≡ (if loss then c.timer else if k == c.state_poller_id then some k else c.timer))
    × (out.0.state_poller_id ≡ c.state_poller_id)

failed-Follows :
    (settings : Settings) (k : ℕ) (c : Poller)
    → Follows settings k
        (leb settings.max_consecutive_read_failures (c.consecutive_read_failures + 1))
        none
        c
        (read_failed settings k c)
unfolding read_failed
failed-Follows settings k c =
    elim (Bool-cases
      (leb settings.max_consecutive_read_failures (c.consecutive_read_failures + 1))) [
        | inl reached ↦ rw reached (refl, refl, refl, refl)
        | inr below ↦ rw below (elim (Bool-cases (k == c.state_poller_id)) [
          | inl own ↦ rw own (refl, refl, refl, refl)
          | inr other ↦ rw other (refl, refl, refl, refl)
        ])
      ]

succeeded-Follows :
    (settings : Settings) (k : ℕ) (old : Option SystemState) (restart : Bool) (s : SystemState)
    (c : Poller)
    → Follows settings k
        (same_state s old && restart)
        (some s)
        c
        (read_succeeded settings k old restart s c)
unfolding read_succeeded
succeeded-Follows settings k none restart s c = ground arith
succeeded-Follows settings k (some old) true s c = ground arith
succeeded-Follows settings k (some old) false s c = ground arith

-- After every check, however its reads came out and whatever ran in between: the loss of the
-- connection is reported exactly if it is due; then the cached state is forgotten and no check is
-- scheduled; otherwise the state that was read is cached, and the next check is scheduled exactly if
-- this check's poller is still the current one. The poller id stays.
pub finish_check-Follows :
    (settings : Settings) (k : ℕ) (snap : Snapshot) (extended : Result ExtendedSystemState)
    (basic : Result SystemState) (c : Poller)
    → let r = read_states snap.extended_supported extended basic c in
      Follows settings k
        (loss_due settings snap r)
        r.new_state
        r.client
        (finish_check settings k snap extended basic c)
unfolding finish_check
finish_check-Follows settings k snap extended basic c =
    by_reading (read_states snap.extended_supported extended basic c)
  where
    by_state :
        (r : Reading) (s : Option SystemState)
        → r.new_state ≡ s
        → Follows settings k
            (loss_due settings snap (record r { new_state = s }))
            s
            r.client
            (after_read settings k snap r.new_restart_index s r.client)
    by_state r none e = failed-Follows settings k r.client
    by_state r (some s) e =
        succeeded-Follows settings k snap.old_state
          (differ r.new_restart_index snap.old_restart_index) s r.client

    by_reading :
        (r : Reading)
        → Follows settings k
            (loss_due settings snap r)
            r.new_state
            r.client
            (after_read settings k snap r.new_restart_index r.new_state r.client)
    by_reading r = by_state r r.new_state refl
