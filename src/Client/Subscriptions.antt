-- ===== src/Client/Subscriptions.antt =====
-- client_subscriptions.go and client_subscriptions_types.go: the table of subscriptions, over `send`.
-- A duration is its nanoseconds, not negative. What a subscription holds for its callback (symbol, data
-- type, callback) is one value of any type.
pub mod Table
pub mod Requests
pub mod Teardown
use ads_go.Base.{
  ℕ, ◌+◌, ◌*◌, ◌/◌, ◌%◌, ◌^◌, Bool, true, false, not, ◌&&◌, List, [], ◌∷◌, Result, ok, err, panic,
  Error, ads_error, invalid_response_length, ◌>>=◌, ◌>>◌, fail_if, ltb, ◌==◌, length, if◌then◌else◌,
}
use ads_go.Wire.{Bytes, uint_at, make_bytes, put_uint32}
use ads_go.Client.Commands.{AdsCommandRequest, Action}

abbrev pub command_add_notification : ℕ
command_add_notification = 6

abbrev pub command_delete_notification : ℕ
command_delete_notification = 7

pub record SubscriptionSettings : Type 0 where
  pub cycle_time : ℕ
  pub send_on_change : Bool
  pub max_delay : ℕ

pub record ActiveSubscription (C : Type 0) : Type 0 where
  pub handle : ℕ
  pub port : ℕ
  pub receiver : C
  pub settings : SubscriptionSettings

-- `settings.CycleTime` of 0 becomes 200 milliseconds if changes are sent.
abbrev pub with_defaults : SubscriptionSettings → SubscriptionSettings
with_defaults settings =
    if (settings.cycle_time == 0) && settings.send_on_change
    then record settings { cycle_time = 200000000 }
    else settings

-- `uint32(d.Milliseconds() * 10000)`.
abbrev pub time_units : ℕ → ℕ
time_units duration = duration / 1000000 * 10000 % 2 ^ 32

abbrev pub transmission_mode : Bool → ℕ
transmission_mode send_on_change = if send_on_change then 4 else 3

-- The 40 bytes of the request, with the settings after their defaults.
unfoldable pub add_notification_payload : ℕ → ℕ → ℕ → SubscriptionSettings → Bytes
add_notification_payload index_group index_offset size settings =
    let payload0 = put_uint32 0 index_group (make_bytes 40) in
    let payload1 = put_uint32 4 index_offset payload0 in
    let payload2 = put_uint32 8 size payload1 in
    let payload3 = put_uint32 12 (transmission_mode settings.send_on_change) payload2 in
    let payload4 = put_uint32 16 (time_units settings.max_delay) payload3 in
    put_uint32 20 (time_units settings.cycle_time) payload4

-- The notification handle in a response.
abbrev pub handle_answer : Bytes → Result ℕ
handle_answer response = do
  fail_if (ltb (length response) 8) (invalid_response_length (length response))
  error_code ← uint_at 0 4 response
  fail_if (not (error_code == 0)) (ads_error error_code)
  uint_at 4 8 response

abbrev pub delete_key : {V : Type 0} → ℕ → List (ℕ × V) → List (ℕ × V)
delete_key key [] = []
delete_key key (entry ∷ table) =
    let rest = delete_key key table in if entry.0 == key then rest else entry ∷ rest

abbrev pub put_key : {V : Type 0} → ℕ → V → List (ℕ × V) → List (ℕ × V)
put_key key value table = (key, value) ∷ delete_key key table

-- The client's table and the device behind it.
pub record Session (S C : Type 0) : Type 0 where
  pub device : S
  pub subscriptions : List (ℕ × ActiveSubscription C)

abbrev pub add_request : ℕ → ℕ → ℕ → ℕ → SubscriptionSettings → AdsCommandRequest
add_request port index_group index_offset size settings = record {
  command = command_add_notification;
  target_port = port;
  data_bytes = add_notification_payload index_group index_offset size settings;
}

abbrev pub delete_request : ℕ → ℕ → AdsCommandRequest
delete_request port handle = record {
  command = command_delete_notification;
  target_port = port;
  data_bytes = put_uint32 0 handle (make_bytes 4);
}

abbrev pub handle_of : {S : Type 0} → Result Bytes × S → Result ℕ × S
handle_of (response, device) = (response >>= handle_answer, device)

module _ {S C : Type 0} where
  -- The subscription is stored under the handle that the device gave.
  abbrev pub store :
      ℕ
      → C
      → SubscriptionSettings
      → List (ℕ × ActiveSubscription C)
      → Result ℕ × S
      → Result (ActiveSubscription C) × Session S C
  store port receiver settings table (ok handle, device) =
      let sub : ActiveSubscription C = record {
        handle = handle;
        port = port;
        receiver = receiver;
        settings = settings;
      } in
      (ok sub, record { device = device; subscriptions = put_key handle sub table })
  store port receiver settings table (err e, device) =
      (err e, record { device = device; subscriptions = table })
  store port receiver settings table (panic, device) =
      (panic, record { device = device; subscriptions = table })

  -- A response of any content removes the subscription; a failed `send` keeps it.
  abbrev pub removed :
      ℕ → List (ℕ × ActiveSubscription C) → Result Bytes × S → Result (Unit {0}) × Session S C
  removed handle table (ok response, device) =
      (ok tt, record { device = device; subscriptions = delete_key handle table })
  removed handle table (err e, device) = (err e, record { device = device; subscriptions = table })
  removed handle table (panic, device) = (panic, record { device = device; subscriptions = table })

  -- The first error is kept, and the rest is gone through all the same.
  abbrev pub keep_error : Error → Result (Unit {0}) × Session S C → Result (Unit {0}) × Session S C
  keep_error e (ok u, session) = (err e, session)
  keep_error e (err f, session) = (err e, session)
  keep_error e (panic, session) = (panic, session)

  abbrev pub each_after :
      (Session S C → Result (Unit {0}) × Session S C)
      → Result (Unit {0}) × Session S C
      → Result (Unit {0}) × Session S C
  each_after rest (ok u, session) = rest session
  each_after rest (err e, session) = keep_error e (rest session)
  each_after rest (panic, session) = (panic, session)

module _ {S C : Type 0} (send : AdsCommandRequest → Action S Bytes) where
  unfoldable pub add_subscription :
      ℕ → ℕ → ℕ → ℕ → SubscriptionSettings → C → Action (Session S C) (ActiveSubscription C)
  add_subscription port index_group index_offset size settings receiver session =
      store port receiver (with_defaults settings) session.subscriptions (
        handle_of (
          send (add_request port index_group index_offset size (with_defaults settings))
            session.device))

  unfoldable pub unsubscribe : ActiveSubscription C → Action (Session S C) (Unit {0})
  unsubscribe sub session =
      removed sub.handle session.subscriptions
        (send (delete_request sub.port sub.handle) session.device)

  unfoldable pub unsubscribe_each :
      List (ℕ × ActiveSubscription C) → Action (Session S C) (Unit {0})
  unsubscribe_each [] session = (ok tt, session)
  unsubscribe_each (entry ∷ subs) session =
      each_after (unsubscribe_each subs) (unsubscribe entry.1 session)

  -- The copy of the table is run through in its own order, for the map's any order.
  unfoldable pub unsubscribe_all : Action (Session S C) (Unit {0})
  unsubscribe_all session = unsubscribe_each session.subscriptions session
