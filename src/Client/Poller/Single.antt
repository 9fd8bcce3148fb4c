-- ===== src/Client/Poller/Single.antt =====
-- The poller runs one chain of checks at a time.
use ads_go.Base.{
  ℕ, ◌+◌, ◌≤◌, ◌≡◌, ap, ap₂, sym, ◌∙◌, Bool, true, false, List, [], ◌∷◌, ◌++◌, Option, none, some,
  Result, arith, ◌==◌, if◌then◌else◌, Bool-cases, inl, inr, All, All-middle, All-without, subst,
}
use ads_go.StateInfo.{SystemState, ExtendedSystemState}
use ads_go.Client.Poller.{Settings, Poller, Snapshot, finish_check, read_states}
use ads_go.Client.Poller.Outcomes.{read_states-failures, finish_check-Follows, loss_due}
use ads_go.Client.Poller.Tokens.{
  World, Step, start, stop, fire, begin, skip, finish, other, Reach, here, next, one, live, armed,
  itself, check_id, live_checks, IsPast, IsSingle, live-middle,
}
use ads_go.Client.Poller.Places.{
  start-IsSingle, stop-IsSingle, fire-IsSingle, begin-IsSingle, skip-IsSingle,
}

-- The timer after a check: as it was, or the check's own, if it is of the current poller.
abbrev timer_after : ℕ → Bool → ℕ → Option ℕ → Option ℕ
timer_after k loss id timer = if loss then timer else if k == id then some k else timer

timer_after-armed :
    (k : ℕ) (loss : Bool) (id : ℕ) (timer : Option ℕ)
    → IsPast id timer
    → k ≤ id
    → (armed id (timer_after k loss id timer) ≤ armed id timer + one (k == id))
      × IsPast id (timer_after k loss id timer)
timer_after-armed k true id timer past own = (omega arith, past)
timer_after-armed k false id timer past own = elim (Bool-cases (k == id)) [
  | inl same ↦ rw same (rw same (omega arith), own)
  | inr different ↦ rw different (omega arith, past)
]

-- A check that finishes hands its own place on to the timer, or gives it up.
finish_check-timer :
    (settings : Settings) (k : ℕ) (snap : Snapshot) (extended : Result ExtendedSystemState)
    (basic : Result SystemState) (c : Poller)
    → IsPast c.state_poller_id c.timer
    → k ≤ c.state_poller_id
    → let out = (finish_check settings k snap extended basic c).0 in
      (out.state_poller_id ≡ c.state_poller_id)
      × (armed c.state_poller_id out.timer
          ≤ armed c.state_poller_id c.timer + one (k == c.state_poller_id))
      × IsPast c.state_poller_id out.timer
finish_check-timer settings k snap extended basic c past own =
    let (_, same_id, same_timer) = read_states-failures snap.extended_supported extended basic c in
    let (_, _, timer, id) = finish_check-Follows settings k snap extended basic c in
    let r = read_states snap.extended_supported extended basic c in
    let after : (finish_check settings k snap extended basic c).0.timer
        ≡ timer_after k (loss_due settings snap r) c.state_poller_id c.timer =
      timer ∙ ap₂ (timer_after k (loss_due settings snap r)) same_id same_timer in
    let (most, past_after) =
      timer_after-armed k (loss_due settings snap r) c.state_poller_id c.timer past own in
    (
      id ∙ same_id,
      subst
          (λ t.
            armed c.state_poller_id t
            ≤ armed c.state_poller_id c.timer + one (k == c.state_poller_id))
          (sym after) most,
      subst (IsPast c.state_poller_id) (sym after) past_after,
    )

finish-IsSingle :
    (settings : Settings) (w : World) (front : List (ℕ × Snapshot)) (k : ℕ) (snap : Snapshot)
    (behind : List (ℕ × Snapshot)) (extended : Result ExtendedSystemState)
    (basic : Result SystemState)
    → w.running ≡ front ++ ((k, snap) ∷ behind)
    → IsSingle w
    → IsSingle (record w {
      client = (finish_check settings k snap extended basic w.client).0;
      running = front ++ behind;
    })
finish-IsSingle settings w front k snap behind extended basic e h =
    let id = w.client.state_poller_id in
    let running = subst (All (λ check. check.0 ≤ id)) e h.running_past in
    let (_, own, _) = All-middle (λ check. check.0 ≤ id) front (k, snap) behind running in
    let (same_id, most, past) =
      finish_check-timer settings k snap extended basic w.client h.timer_past own in
    let split : live check_id id w.running ≡ one (k == id) + live check_id id (front ++ behind) =
      ap (live check_id id) e ∙ live-middle check_id id front (k, snap) behind in
    let timer = (finish_check settings k snap extended basic w.client).0.timer in
    record {
      at_most_one =
          subst
            (λ i. armed i timer + (live itself i w.fired + live check_id i (front ++ behind)) ≤ 1)
            (sym same_id) (omega (arith, split, most, h.at_most_one));
      timer_past = subst (λ i. IsPast i timer) (sym same_id) past;
      fired_past = subst (λ i. All (λ k. k ≤ i) w.fired) (sym same_id) h.fired_past;
      running_past =
          subst (λ i. All (λ check. check.0 ≤ i) (front ++ behind)) (sym same_id)
            (All-without (λ check. check.0 ≤ id) front (k, snap) behind running);
    }

other-IsSingle :
    (w : World) (c : Poller)
    → c.timer ≡ w.client.timer
    → c.state_poller_id ≡ w.client.state_poller_id
    → IsSingle w
    → IsSingle (record w { client = c })
other-IsSingle w c t i h = record {
  at_most_one =
      subst (λ x. armed x.0 x.1 + (live itself x.0 w.fired + live check_id x.0 w.running) ≤ 1) both
        h.at_most_one;
  timer_past = subst (λ x. IsPast x.0 x.1) both h.timer_past;
  fired_past = subst (λ i. All (λ k. k ≤ i) w.fired) (sym i) h.fired_past;
  running_past = subst (λ i. All (λ check. check.0 ≤ i) w.running) (sym i) h.running_past;
}
  where
    both :
        ◌≡◌ {A = ℕ × Option ℕ}
          (w.client.state_poller_id, w.client.timer)
          (c.state_poller_id, c.timer)
    both = λ j. (sym i j, sym t j)

Step-IsSingle : {settings : Settings} {v w : World} → Step settings v w → IsSingle v → IsSingle w
Step-IsSingle {settings} (start w) h = start-IsSingle settings w h
Step-IsSingle (stop w) h = stop-IsSingle w h
Step-IsSingle (fire w k e) h = fire-IsSingle w k e h
Step-IsSingle (begin w front k behind snap e b) h = begin-IsSingle w front k behind snap e h
Step-IsSingle (skip w front k behind e b) h = skip-IsSingle w front k behind e h
Step-IsSingle {settings} (finish w front k snap behind extended basic e) h =
    finish-IsSingle settings w front k snap behind extended basic e h
Step-IsSingle (other w c t i) h = other-IsSingle w c t i h

-- Before anything was started.
abbrev pub IsQuiet : World → Type 0
IsQuiet w = (w.client.timer ≡ none) × (w.fired ≡ []) × (w.running ≡ [])

Quiet-IsSingle : (w : World) → IsQuiet w → IsSingle w
Quiet-IsSingle w (t, f, r) =
    let id = w.client.state_poller_id in
    record {
      at_most_one = omega (arith, ap (armed id) t, ap (live itself id) f, ap (live check_id id) r);
      timer_past = subst (IsPast id) (sym t) tt;
      fired_past = subst (All (λ k. k ≤ id)) (sym f) tt;
      running_past = subst (All (λ check. check.0 ≤ id)) (sym r) tt;
    }

Reach-IsSingle : {settings : Settings} {v w : World} → Reach settings v w → IsSingle v → IsSingle w
Reach-IsSingle here h = h
Reach-IsSingle (next r step) h = Step-IsSingle step (Reach-IsSingle r h)

-- From a poller with no timer and no check, however starts, stops, timers that go off, checks that
-- begin and finish with any outcome, and calls that leave timer and poller id alone follow each
-- other: at most one check of the current poller is scheduled, has fired or is running.
pub live_checks-at_most_one :
    (settings : Settings) (v w : World) → IsQuiet v → Reach settings v w → live_checks w ≤ 1
live_checks-at_most_one settings v w quiet reached =
    (Reach-IsSingle reached (Quiet-IsSingle v quiet)).at_most_one
