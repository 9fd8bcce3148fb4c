-- ===== src/Client/Connection/Lifecycle.antt =====
-- client_connect.go: what a connection leaves behind when it ends, and how it stands when it begins.
use ads_go.Base.{
  ℕ, ◌≡◌, refl, ap, sym, subst, ◌∙◌, true, [], ◌∷◌, Option, none, some, Result, ok, err, panic,
  ◌==◌, ◌+◌, ◌<◌, Bool-cases, inl, inr, eqb_self, arith, if◌then◌else◌,
}
use ads_go.Base.Integer.{pos}
use ads_go.Wire.{Bytes}
use ads_go.AmsBuilder.{AmsAddress}
use ads_go.Client.Commands.{AdsCommandRequest, Action, go_on, pure}
use ads_go.Client.Poller.{
  Settings, Poller, Snapshot, stop_state_poller, start_state_poller, begin_check,
}
use ads_go.Client.Subscriptions.{Session, unsubscribe_all, delete_request}
use ads_go.Client.Subscriptions.Teardown.{IsKeyed, unsubscribe_all-empties}
use ads_go.Client.Ports.{
  ClientSettings, is_positive, or_number, load_defaults, poller_settings, Socket,
  unregister_ads_port,
}
use ads_go.Client.Connection.{
  Connection, disconnected, establish, connect, starting, logged, on_socket, quiet, closing,
  take_down, disconnect,
}

-- All that a call on the socket leaves as it is.
record SameBut {S C : Type 0} (c d : Connection S C) : Type 0 where
  subscriptions : d.session.subscriptions ≡ c.session.subscriptions
  poller : d.poller ≡ c.poller
  started : d.started ≡ c.started
  connected : d.connected ≡ c.connected

-- The client behind the end of its connection.
pub record IsDown {S C : Type 0} (c d : Connection S C) : Type 0 where
  pub no_subscription : d.session.subscriptions ≡ []
  pub no_state : d.poller.current_state ≡ none
  pub no_failure : d.poller.consecutive_read_failures ≡ 0
  pub no_timer : d.poller.timer ≡ none
  pub no_check : begin_check c.poller.state_poller_id d.poller ≡ none
  pub hook_started : d.started ≡ disconnected ∷ c.started
  pub still_connected : d.connected ≡ true

module _ {S C : Type 0} (socket : Socket S) where
  close_kept :
      (r result : Result (Unit {0})) (d x : Connection S C)
      → SameBut d x
      → SameBut d (go_on (λ u. pure result) (logged (r, x))).1
  close_kept (ok u) result d x h = h
  close_kept (err e) result d x h = h
  close_kept panic result d x h = h

  logged_kept :
      (r : Result (Unit {0})) (d x : Connection S C) → SameBut d x → SameBut d (logged (r, x)).1
  logged_kept (ok u) d x h = h
  logged_kept (err e) d x h = h
  logged_kept panic d x h = h

  socket_kept :
      (d : Connection S C) (s : S)
      → SameBut d (record d { session = record d.session { device = s } })
  socket_kept d s = record { subscriptions = refl; poller = refl; started = refl; connected = refl }

  SameBut-trans : {c d e : Connection S C} → SameBut c d → SameBut d e → SameBut c e
  SameBut-trans h k = record {
    subscriptions = k.subscriptions ∙ h.subscriptions;
    poller = k.poller ∙ h.poller;
    started = k.started ∙ h.started;
    connected = k.connected ∙ h.connected;
  }

  closing_kept : (r : Result (Unit {0})) (d : Connection S C) → SameBut d (closing socket (r, d)).1
  closing_kept (ok u) d =
      logged_kept (socket.close d.session.device).0 d _
        (socket_kept d (socket.close d.session.device).1)
  closing_kept (err e) d =
      close_kept (socket.close d.session.device).0 (err e) d _
        (socket_kept d (socket.close d.session.device).1)
  closing_kept panic d = socket_kept d d.session.device

  ended_kept :
      (call : Action S (Unit {0})) (d : Connection S C)
      → SameBut d (closing socket (on_socket call d)).1
  ended_kept call d =
      SameBut-trans (socket_kept d (call d.session.device).1)
        (closing_kept (on_socket call d).0 (on_socket call d).1)

module _ {S C : Type 0} (socket : Socket S) (send : AdsCommandRequest → Action S Bytes) where
  take_down-IsDown :
      (answers : (port handle : ℕ) (s : S)
        → (response : Bytes) × (s' : S) × (send (delete_request port handle) s ≡ (ok response, s')))
      (c : Connection S C)
      → c.connected ≡ true
      → IsKeyed c.session.subscriptions
      → IsDown c (take_down socket send c).1
  unfolding stop_state_poller begin_check
  take_down-IsDown answers c h k = rw fine (record {
    no_subscription = kept.subscriptions ∙ empty;
    no_state = ap (λ p. p.current_state) kept.poller;
    no_failure = ap (λ p. p.consecutive_read_failures) kept.poller;
    no_timer = ap (λ p. p.timer) kept.poller;
    no_check = ap (begin_check c.poller.state_poller_id) kept.poller ∙ stale;
    hook_started = kept.started;
    still_connected = kept.connected ∙ h;
  })
    where
      table : Result (Unit {0}) × Session S C
      table = unsubscribe_all send c.session

      fine : table.0 ≡ ok tt
      fine = (unsubscribe_all-empties send answers c.session k).0

      empty : table.1.subscriptions ≡ []
      empty = (unsubscribe_all-empties send answers c.session k).1

      quieted : Connection S C
      quieted = starting (disconnected ∷ []) (record (quiet c) { session = table.1 })

      kept :
          SameBut quieted
            (closing socket (on_socket (unregister_ads_port socket c.local_ams_addr) quieted)).1
      kept = ended_kept socket (unregister_ads_port socket c.local_ams_addr) quieted

      stale : begin_check c.poller.state_poller_id quieted.poller ≡ none
      stale = ground arith

  -- Whatever the socket does: where each subscription stands under its own handle and every request
  -- to end a notification gets some response, `disconnect` of a client with a connection leaves no
  -- subscription, no cached state, no failure and no timer, a check that was scheduled does nothing,
  -- and the disconnect hook is started; but the client still counts as connected.
  pub disconnect-IsDown :
      (answers : (port handle : ℕ) (s : S)
        → (response : Bytes) × (s' : S) × (send (delete_request port handle) s ≡ (ok response, s')))
      (c : Connection S C)
      → c.connected ≡ true
      → IsKeyed c.session.subscriptions
      → IsDown c (disconnect socket send c).1
  unfolding disconnect
  disconnect-IsDown answers c h k =
      subst (λ b. IsDown c (if b then take_down socket send c else (ok tt, c)).1) (sym h)
        (take_down-IsDown answers c h k)

-- The state in which a chain comes to a value is one in which its last part does.
go_on-ok :
    {S A B : Type 0} (f : A → Action S B) (b : B) (t : S) (r : Result A × S)
    → go_on f r ≡ (ok b, t)
    → (a : A) × (s : S) × (f a s ≡ (ok b, t))
go_on-ok f b t (ok a, s) e = (a, s, e)
go_on-ok f b t (err x, s) e = cc
go_on-ok f b t (panic, s) e = cc

-- A check is scheduled that the poller takes, and that finds the cached state.
abbrev pub Scheduled : Poller → Type 0
Scheduled c =
    (c.timer ≡ some c.state_poller_id)
    × ((snap : Snapshot) × (begin_check c.state_poller_id c ≡ some snap)
        × (snap.old_state ≡ c.current_state))

start_state_poller-Scheduled :
    (settings : Settings) (c : Poller)
    → settings.polling ≡ true
    → Scheduled (start_state_poller settings c)
unfolding start_state_poller begin_check
start_state_poller-Scheduled settings c on =
    rw (on, eqb_self (c.state_poller_id + 1)) (refl, (_, refl, refl))

or_number-positive : (default n : ℕ) → 0 < default → is_positive (or_number default (pos n)) ≡ true
or_number-positive default n h = elim (Bool-cases (n == 0)) [
  | inl zero_n ↦ rw zero_n (ground arith)
  | inr other ↦ rw other (ground arith)
]

load_defaults-polling :
    (settings : ClientSettings) (interval : ℕ)
    → settings.state_polling_interval ≡ pos interval
    → (poller_settings (load_defaults settings)).polling ≡ true
unfolding load_defaults
load_defaults-polling settings interval h =
    rw h (or_number-positive 2000000000 interval (omega arith))

module _ {S C : Type 0} (socket : Socket S) (send : AdsCommandRequest → Action S Bytes) where
  -- Whatever the socket, the device and the hook do: where the settings give an interval that is not
  -- negative, 0 included, and `connect` with the defaults loaded comes to a value, a check is
  -- scheduled under the current poller id, and when it begins it finds the state that is cached.
  pub connect-Scheduled :
      (settings : ClientSettings)
      (on_connect : Option (AmsAddress → Action (Connection S C) (Unit {0}))) (c d : Connection S C)
      (interval : ℕ)
      → settings.state_polling_interval ≡ pos interval
      → connect socket send (load_defaults settings) on_connect c ≡ (ok tt, d)
      → Scheduled d.poller
  unfolding connect
  connect-Scheduled settings on_connect c d interval h e =
      let (u, s, last) =
        go_on-ok _ tt d (establish socket send (load_defaults settings) on_connect c) e in
      subst (λ c. Scheduled c.poller) (ap (λ r. r.1) last)
        (start_state_poller-Scheduled (poller_settings (load_defaults settings)) s.poller
          (load_defaults-polling settings interval h))
