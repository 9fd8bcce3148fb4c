-- ===== src/Client/Poller/Places.antt =====
-- Starts, stops, and checks that go off or begin keep to one live check.
use ads_go.Base.{
  ℕ, ◌+◌, ◌≤◌, ◌≡◌, ap, ◌∙◌, Bool, true, false, List, ◌∷◌, ◌++◌, none, some, arith, ◌==◌,
  Bool-cases, inl, inr, All, All-middle, All-without, All-map, subst,
}
use ads_go.Client.Poller.{Settings, Snapshot, start_state_poller, stop_state_poller}
use ads_go.Client.Poller.Tokens.{
  World, one, live, armed, itself, check_id, IsPast, IsSingle, live-middle, live-past,
}

All-later : (n : ℕ) (xs : List ℕ) → All (λ k. k ≤ n) xs → All (λ k. k ≤ n + 1) xs
All-later n xs h = All-map (λ k le. omega (arith, le)) xs h

pub start-IsSingle :
    (settings : Settings) (w : World)
    → IsSingle w
    → IsSingle (record w { client = start_state_poller settings w.client })
unfolding start_state_poller
start-IsSingle settings w h = elim (Bool-cases settings.polling) [
  | inl on ↦ rw on (record {
    at_most_one = omega (
      arith,
      live-past itself w.client.state_poller_id w.fired h.fired_past,
      live-past check_id w.client.state_poller_id w.running h.running_past,
      one-le (w.client.state_poller_id + 1 == w.client.state_poller_id + 1),
    );
    timer_past = omega arith;
    fired_past = All-later w.client.state_poller_id w.fired h.fired_past;
    running_past = All-map (λ check le. omega (arith, le)) w.running h.running_past;
  })
  | inr off ↦ rw off h
]
  where
    one-le : (b : Bool) → one b ≤ 1
    one-le true = omega arith
    one-le false = omega arith

pub stop-IsSingle :
    (w : World) → IsSingle w → IsSingle (record w { client = stop_state_poller w.client })
unfolding stop_state_poller
stop-IsSingle w h = record {
  at_most_one = omega (
    arith,
    live-past itself w.client.state_poller_id w.fired h.fired_past,
    live-past check_id w.client.state_poller_id w.running h.running_past,
  );
  timer_past = tt;
  fired_past = All-later w.client.state_poller_id w.fired h.fired_past;
  running_past = All-map (λ check le. omega (arith, le)) w.running h.running_past;
}

pub fire-IsSingle :
    (w : World) (k : ℕ)
    → w.client.timer ≡ some k
    → IsSingle w
    → IsSingle (record w { client = record w.client { timer = none }; fired = k ∷ w.fired })
fire-IsSingle w k e h =
    let was : armed w.client.state_poller_id w.client.timer ≡ one (k == w.client.state_poller_id) =
      ap (armed w.client.state_poller_id) e in
    record {
      at_most_one = omega (arith, was, h.at_most_one);
      timer_past = tt;
      fired_past = (subst (IsPast w.client.state_poller_id) e h.timer_past, h.fired_past);
      running_past = h.running_past;
    }

pub begin-IsSingle :
    (w : World) (front : List ℕ) (k : ℕ) (behind : List ℕ) (snap : Snapshot)
    → w.fired ≡ front ++ (k ∷ behind)
    → IsSingle w
    → IsSingle (record w { fired = front ++ behind; running = (k, snap) ∷ w.running })
begin-IsSingle w front k behind snap e h =
    let id = w.client.state_poller_id in
    let fired = subst (All (λ k. k ≤ id)) e h.fired_past in
    let (_, past, _) = All-middle (λ k. k ≤ id) front k behind fired in
    let split : live itself id w.fired ≡ one (k == id) + live itself id (front ++ behind) =
      ap (live itself id) e ∙ live-middle itself id front k behind in
    record {
      at_most_one = omega (arith, split, h.at_most_one);
      timer_past = h.timer_past;
      fired_past = All-without (λ k. k ≤ id) front k behind fired;
      running_past = (past, h.running_past);
    }

pub skip-IsSingle :
    (w : World) (front : List ℕ) (k : ℕ) (behind : List ℕ)
    → w.fired ≡ front ++ (k ∷ behind)
    → IsSingle w
    → IsSingle (record w { fired = front ++ behind })
skip-IsSingle w front k behind e h =
    let id = w.client.state_poller_id in
    let split : live itself id w.fired ≡ one (k == id) + live itself id (front ++ behind) =
      ap (live itself id) e ∙ live-middle itself id front k behind in
    record {
      at_most_one = omega (arith, split, h.at_most_one);
      timer_past = h.timer_past;
      fired_past =
          All-without (λ k. k ≤ id) front k behind (subst (All (λ k. k ≤ id)) e h.fired_past);
      running_past = h.running_past;
    }
