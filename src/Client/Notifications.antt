-- ===== src/Client/Notifications.antt =====
-- client_subscriptions.go: the notifications that a device sends.
pub mod Clock
pub mod RoundTrip
pub mod Cut
use ads_go.Base.{
  ℕ, zero, suc, ◌+◌, ◌-◌, ◌*◌, ◌/◌, ◌%◌, ◌^◌, List, [], ◌∷◌, ◌++◌, Option, none, some, Result, ok,
  err, panic, Error, notification_truncated, ◌>>=◌, ◌==◌, if◌then◌else◌,
}
use ads_go.Base.Integer.{ℤ, signed}
use ads_go.Wire.{Bytes, Reader, read_uint, read_some}

-- `time.Unix(seconds, nanos)`.
pub record Time : Type 0 where
  pub seconds : ℤ
  pub nanos : ℕ

-- Seconds between the epochs of Windows and Unix. The difference is one of uint64s.
abbrev pub windows_epoch_diff : ℕ
windows_epoch_diff = 11644473600

unfoldable pub filetime_to_time : ℕ → Time
filetime_to_time filetime = record {
  seconds = signed (2 ^ 63) ((filetime / 10000000 + 2 ^ 64 - windows_epoch_diff) % 2 ^ 64);
  nanos = filetime % 10000000 * 100;
}

pub record NotificationSample : Type 0 where
  pub handle : ℕ
  pub payload : Bytes

pub record NotificationStamp : Type 0 where
  pub timestamp : Time
  pub samples : List NotificationSample

unfoldable pub parse_samples : ℕ → Reader (List NotificationSample)
parse_samples zero bytes = ok ([], bytes)
parse_samples (suc count) bytes = do
  (handle, bytes1) ← read_uint 4 notification_truncated bytes
  (data_length, bytes2) ← read_uint 4 notification_truncated bytes1
  (payload, bytes3) ← read_some data_length notification_truncated bytes2
  (samples, bytes4) ← parse_samples count bytes3
  ok (record { handle = handle; payload = payload } ∷ samples, bytes4)

unfoldable pub parse_stamps : ℕ → Reader (List NotificationStamp)
parse_stamps zero bytes = ok ([], bytes)
parse_stamps (suc count) bytes = do
  (filetime, bytes1) ← read_uint 8 notification_truncated bytes
  (sample_count, bytes2) ← read_uint 4 notification_truncated bytes1
  (samples, bytes3) ← parse_samples sample_count bytes2
  (stamps, bytes4) ← parse_stamps count bytes3
  ok (record { timestamp = filetime_to_time filetime; samples = samples } ∷ stamps, bytes4)

-- The length field is read and not looked at, nor are bytes behind the last stamp.
unfoldable pub parse_notification : Bytes → Result (List NotificationStamp)
parse_notification bytes = do
  (length_field, bytes1) ← read_uint 4 notification_truncated bytes
  (stamp_count, bytes2) ← read_uint 4 notification_truncated bytes1
  (stamps, bytes3) ← parse_stamps stamp_count bytes2
  ok stamps

-- `go c.processNotification(sub, sample.Payload, stamp.Timestamp)`.
pub record Delivery (S : Type 0) : Type 0 where
  pub subscription : S
  pub raw_data : Bytes
  pub timestamp : Time

module _ {S : Type 0} where
  abbrev pub lookup : ℕ → List (ℕ × S) → Option S
  lookup handle [] = none
  lookup handle ((key, sub) ∷ subs) = if key == handle then some sub else lookup handle subs

  -- The inner and the outer loop; a sample with an unknown handle is skipped.
  abbrev pub deliver : Option S → Bytes → Time → List (Delivery S) → List (Delivery S)
  deliver none payload timestamp rest = rest
  deliver (some sub) payload timestamp rest =
      record { subscription = sub; raw_data = payload; timestamp = timestamp } ∷ rest

  abbrev pub deliver_samples :
      List (ℕ × S) → Time → List NotificationSample → List (Delivery S) → List (Delivery S)
  deliver_samples subs timestamp [] rest = rest
  deliver_samples subs timestamp (sample ∷ samples) rest =
      deliver (lookup sample.handle subs) sample.payload timestamp
        (deliver_samples subs timestamp samples rest)

  abbrev pub deliver_stamps : List (ℕ × S) → List NotificationStamp → List (Delivery S)
  deliver_stamps subs [] = []
  deliver_stamps subs (stamp ∷ stamps) =
      deliver_samples subs stamp.timestamp stamp.samples (deliver_stamps subs stamps)

  -- A packet that cannot be parsed is logged and dropped.
  abbrev pub deliver_parsed : List (ℕ × S) → Result (List NotificationStamp) → List (Delivery S)
  deliver_parsed subs (ok stamps) = deliver_stamps subs stamps
  deliver_parsed subs (err e) = []
  deliver_parsed subs panic = []

  unfoldable pub handle_notification : List (ℕ × S) → Bytes → List (Delivery S)
  handle_notification subs bytes = deliver_parsed subs (parse_notification bytes)
