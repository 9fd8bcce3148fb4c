-- ===== src/Client/Values.antt =====
-- client_read.go, client_write.go, and the values of client_subscriptions.go: symbols read, written
-- and subscribed to as values of their types.
pub mod RoundTrip
use ads_go.Base.{
  ℕ, Bool, true, false, not, ◌||◌, List, [], ◌∷◌, Option, none, some, Result, ok, err, panic, ◌>>=◌,
  if◌then◌else◌,
}
use ads_go.Wire.{Bytes}
use ads_go.AdsTypes.{AdsDataType}
use ads_go.Symbol.{AdsSymbol}
use ads_go.Serializer.Value.{Value, Values, uint8, typed_slice, no_values, value}
use ads_go.Serializer.Convert.{FloatConversions}
use ads_go.Serializer.Write.{serialize}
use ads_go.Serializer.Read.{deserialize}
use ads_go.Client.Commands.{AdsCommandRequest, Action, and_then, pure, read_raw, write_raw}
use ads_go.Client.Symbols.{get_symbol}
use ads_go.Client.DataTypes.{get_data_type}
use ads_go.Client.Poller.{Poller, check_state_for_operation}
use ads_go.Client.Notifications.{Time}
use ads_go.Client.Subscriptions.{
  SubscriptionSettings, ActiveSubscription, Session, add_subscription,
}

-- A subscription's `IsRaw` and `DataType`, and what its callback is called with.
pub record Receiver : Type 0 where
  pub is_raw : Bool
  pub data_type : Option AdsDataType

pub record SubscriptionData : Type 0 where
  pub received : Value
  pub raw_value : Bytes
  pub timestamp : Time

-- A `[]byte` as an `any`.
abbrev pub byte_values : Bytes → Values
byte_values [] = no_values
byte_values (b ∷ bytes) = value (uint8 b) (byte_values bytes)

-- A value that cannot be parsed is dropped, and a panic is recovered from.
abbrev pub callback_data : Bytes → Time → Result Value → Option SubscriptionData
callback_data raw_data timestamp (ok v) =
    some (record { received = v; raw_value = raw_data; timestamp = timestamp })
callback_data raw_data timestamp (err e) = none
callback_data raw_data timestamp panic = none

abbrev pub notified : Bool → Option AdsDataType → Bytes → Result Value
notified is_raw none raw_data = ok (typed_slice (byte_values raw_data))
notified true (some ty) raw_data = ok (typed_slice (byte_values raw_data))
notified false (some ty) raw_data = deserialize ty raw_data

unfoldable pub process_notification : Receiver → Bytes → Time → Option SubscriptionData
process_notification sub raw_data timestamp =
    callback_data raw_data timestamp (notified sub.is_raw sub.data_type raw_data)

-- `below` and `depth`: how deep the declarations of a type are followed.
module _ {S : Type 0} (send : AdsCommandRequest → Action S Bytes)
    (below : Bytes → Action S AdsDataType) (depth : ℕ) where
  unfoldable pub read_value : Poller → ℕ → Bytes → Action S Value
  read_value c port path = and_then (pure (check_state_for_operation c)) (λ _.
      and_then (get_symbol send port path) (λ symbol.
        and_then (get_data_type send below depth symbol.type_name port) (λ ty.
          and_then (read_raw send port symbol.index_group symbol.index_offset symbol.size)
            (λ bytes. pure (deserialize ty bytes)))))

  -- Go's conversions of floats and runes are parameters of `serialize`.
  unfoldable pub write_value :
      FloatConversions → (Bytes → List ℕ) → Poller → ℕ → Bytes → Value → Action S (Unit {0})
  write_value floats to_runes c port path v = and_then (pure (check_state_for_operation c)) (λ _.
      and_then (get_symbol send port path) (λ symbol.
        and_then (get_data_type send below depth symbol.type_name port) (λ ty.
          and_then (pure (serialize floats to_runes ty v))
            (λ bytes. write_raw send port symbol.index_group symbol.index_offset bytes))))

  -- A call on the device leaves the table of subscriptions alone.
  abbrev pub on_device : {C A : Type 0} → Action S A → Action (Session S C) A
  on_device call session =
      let out = call session.device in (out.0, record session { device = out.1 })

  unfoldable pub subscribe_value :
      ℕ → Bytes → SubscriptionSettings → Action (Session S Receiver) (ActiveSubscription Receiver)
  subscribe_value port path settings = and_then (on_device (get_symbol send port path)) (λ symbol.
      and_then (on_device (get_data_type send below depth symbol.type_name port)) (λ ty.
        add_subscription send port symbol.index_group symbol.index_offset symbol.size settings
          (record { is_raw = false; data_type = some ty })))
