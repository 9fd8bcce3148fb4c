-- ===== src/Examples/Devices.antt =====
-- Notifications and state checks at concrete devices.
use ads_go.Base.{
  ◌≤◌, ◌<◌, ◌≡◌, refl, true, none, some, [], ◌∷◌, ◌++◌, map, Result, ok, err, response_timeout,
  notification_truncated, arith,
}
use ads_go.Wire.{Bytes, make_bytes}
use ads_go.StateInfo.{SystemState}
use ads_go.Client.Notifications.{
  filetime_to_time, NotificationSample, parse_notification, handle_notification,
}
use ads_go.Client.Notifications.RoundTrip.{
  SentStamp, Due, timed, received, notification_image, IsSample, parse_notification-image,
}
use ads_go.Client.Notifications.Cut.{
  cut_notification, parse_notification_empty_last, parse_notification_cut,
}
use ads_go.Client.Poller.{Settings, Poller, Snapshot, start_state_poller, finish_check, read_states}
use ads_go.Client.Poller.Tokens.{World, Reach, here, next, start, fire, live_checks}
use ads_go.Client.Poller.Single.{live_checks-at_most_one}
use ads_go.Client.Poller.Outcomes.{Follows, loss_due, finish_check-limit, finish_check-Follows}

abbrev sample : NotificationSample
sample = record { handle = 3; payload = 1 ∷ 2 ∷ [] }

sample-IsSample : IsSample sample
sample-IsSample = record {
  handle_word = omega arith;
  payload_word = omega arith;
  some_payload = omega arith;
}

abbrev stamp : SentStamp
stamp = record { filetime = 133000000000000000; samples = sample ∷ [] }

abbrev sent : Bytes
sent = notification_image 28 (stamp ∷ []) ++ []

parse_notification-image_example :
    (parse_notification sent ≡ ok (map received (stamp ∷ [])))
    × Due ((3, true) ∷ []) (timed (stamp ∷ [])) (handle_notification ((3, true) ∷ []) sent)
parse_notification-image_example =
    parse_notification-image ((3, true) ∷ []) 28 (stamp ∷ []) [] (omega arith) (omega arith) (
      record {
        filetime_word = omega arith;
        count_word = omega arith;
        each_sample = (sample-IsSample, tt);
      },
      tt,
    )

parse_notification_empty_last_example :
    (parse_notification (cut_notification 36 5 (sample ∷ []) 4 0 []) ≡ err notification_truncated)
    × (handle_notification ((3, true) ∷ []) (cut_notification 36 5 (sample ∷ []) 4 0 []) ≡ [])
parse_notification_empty_last_example =
    parse_notification_empty_last 36 5 4 0 (sample ∷ []) [] (omega arith) (omega arith)
      (omega arith) (omega arith) (omega arith) (sample-IsSample, tt) ((3, true) ∷ []) refl refl

parse_notification_cut_example :
    parse_notification (cut_notification 40 5 [] 4 4 (9 ∷ []))
    ≡ ok (
        record {
          timestamp = filetime_to_time 5;
          samples = [] ++ (record { handle = 4; payload = (9 ∷ []) ++ make_bytes 3 } ∷ []);
        }
        ∷ [])
parse_notification_cut_example =
    parse_notification_cut 40 5 4 4 [] (9 ∷ []) (omega arith) (omega arith) (omega arith)
      (omega arith) (omega arith) tt 9 [] refl (omega arith)

abbrev settings : Settings
settings = record { polling = true; max_consecutive_read_failures = 3; has_state_hook = true }

abbrev run_state : SystemState
run_state = record { ads_state = 5; device_state = 0 }

abbrev client : Poller
client = record {
  current_state = some run_state;
  state_poller_id = 1;
  timer = none;
  extended_state_supported = some true;
  last_restart_index = some 8;
  consecutive_read_failures = 2;
}

abbrev before : Snapshot
before = record {
  old_state = some run_state;
  extended_supported = some true;
  old_restart_index = some 8;
}

abbrev no_answer : {A : Type 0} → Result A
no_answer = err response_timeout

finish_check-limit_example :
    (finish_check settings 1 before no_answer no_answer client).0.consecutive_read_failures < 3
finish_check-limit_example =
    finish_check-limit settings 1 before no_answer no_answer client (omega arith)

finish_check-Follows_example :
    let r = read_states (some true) no_answer no_answer client in
    Follows settings 1
      (loss_due settings before r)
      r.new_state
      r.client
      (finish_check settings 1 before no_answer no_answer client)
finish_check-Follows_example = finish_check-Follows settings 1 before no_answer no_answer client

-- A poller that is started anew after its first timer has gone off, and whose second one goes off.
abbrev unstarted : World
unstarted = record {
  client = record client { state_poller_id = 0; timer = none };
  fired = [];
  running = [];
}

abbrev fired_twice : World
fired_twice = record unstarted {
  client = record client { state_poller_id = 2; timer = none };
  fired = 2 ∷ 1 ∷ [];
}

fired_twice-Reach : Reach settings unstarted fired_twice
unfolding start_state_poller
fired_twice-Reach =
    next (next (next (next here (start unstarted)) (fire _ 1 refl)) (start _)) (fire _ 2 refl)

live_checks-at_most_one_example : live_checks fired_twice ≤ 1
live_checks-at_most_one_example =
    live_checks-at_most_one settings unstarted fired_twice (refl, refl, refl) fired_twice-Reach
