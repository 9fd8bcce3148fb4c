-- ===== src/Client/Poller/Tokens.antt =====
-- Timers, fired checks and running checks of the poller, with starts, stops and anything else between
-- them.
use ads_go.Base.{
  ℕ, ◌+◌, ◌≤◌, ◌≡◌, refl, Bool, List, [], ◌∷◌, ◌++◌, Option, none, some, Result, arith, ◌==◌,
  if◌then◌else◌, All,
}
use ads_go.StateInfo.{SystemState, ExtendedSystemState}
use ads_go.Client.Poller.{
  Settings, Poller, Snapshot, start_state_poller, stop_state_poller, begin_check, finish_check,
}

-- `fired`: the poller ids of timers that have gone off and whose check has not looked at the id yet;
-- `running`: the checks that are reading the device.
pub record World : Type 0 where
  pub client : Poller
  pub fired : List ℕ
  pub running : List (ℕ × Snapshot)

-- `other` is any call that leaves the timer and the poller id alone.
pub data Step (settings : Settings) : World → World → Type 0 where
  start : (w : World) → Step settings w (record w { client = start_state_poller settings w.client })
  stop : (w : World) → Step settings w (record w { client = stop_state_poller w.client })
  fire :
      (w : World) (k : ℕ)
      → w.client.timer ≡ some k
      → Step settings w
          (record w { client = record w.client { timer = none }; fired = k ∷ w.fired })
  begin :
      (w : World) (front : List ℕ) (k : ℕ) (behind : List ℕ) (snap : Snapshot)
      → w.fired ≡ front ++ (k ∷ behind)
      → begin_check k w.client ≡ some snap
      → Step settings w (record w { fired = front ++ behind; running = (k, snap) ∷ w.running })
  skip :
      (w : World) (front : List ℕ) (k : ℕ) (behind : List ℕ)
      → w.fired ≡ front ++ (k ∷ behind)
      → begin_check k w.client ≡ none
      → Step settings w (record w { fired = front ++ behind })
  finish :
      (w : World) (front : List (ℕ × Snapshot)) (k : ℕ) (snap : Snapshot)
      (behind : List (ℕ × Snapshot)) (extended : Result ExtendedSystemState)
      (basic : Result SystemState)
      → w.running ≡ front ++ ((k, snap) ∷ behind)
      → Step settings w (record w {
        client = (finish_check settings k snap extended basic w.client).0;
        running = front ++ behind;
      })
  other :
      (w : World) (c : Poller)
      → c.timer ≡ w.client.timer
      → c.state_poller_id ≡ w.client.state_poller_id
      → Step settings w (record w { client = c })

pub data Reach (settings : Settings) (v : World) : World → Type 0 where
  here : Reach settings v v
  next : {w x : World} → Reach settings v w → Step settings w x → Reach settings v x

abbrev pub one : Bool → ℕ
one b = if b then 1 else 0

-- How many elements of a list have the id.
abbrev pub live : {A : Type 0} → (A → ℕ) → ℕ → List A → ℕ
live key id [] = 0
live key id (x ∷ xs) = one (key x == id) + live key id xs

abbrev pub armed : ℕ → Option ℕ → ℕ
armed id none = 0
armed id (some k) = one (k == id)

abbrev pub itself : ℕ → ℕ
itself k = k

abbrev pub check_id : ℕ × Snapshot → ℕ
check_id check = check.0

-- The checks of the current poller that are scheduled, have fired or are running.
abbrev pub live_checks : World → ℕ
live_checks w =
    armed w.client.state_poller_id w.client.timer
    + (live itself w.client.state_poller_id w.fired
        + live check_id w.client.state_poller_id w.running)

abbrev pub IsPast : ℕ → Option ℕ → Type 0
IsPast id none = Unit {0}
IsPast id (some k) = k ≤ id

pub record IsSingle (w : World) : Type 0 where
  pub at_most_one : live_checks w ≤ 1
  pub timer_past : IsPast w.client.state_poller_id w.client.timer
  pub fired_past : All (λ k. k ≤ w.client.state_poller_id) w.fired
  pub running_past : All (λ check. check.0 ≤ w.client.state_poller_id) w.running

module _ {A : Type 0} (key : A → ℕ) where
  pub live-middle :
      (id : ℕ) (front : List A) (x : A) (behind : List A)
      → live key id (front ++ (x ∷ behind)) ≡ one (key x == id) + live key id (front ++ behind)
  live-middle id [] x behind = refl
  live-middle id (y ∷ front) x behind = omega (arith, live-middle id front x behind)

  pub live-past : (id : ℕ) (xs : List A) → All (λ x. key x ≤ id) xs → live key (id + 1) xs ≡ 0
  live-past id [] h = refl
  live-past id (x ∷ xs) h = ground (arith, live-past id xs h.1)
