-- ===== src/Client/Notifications/RoundTrip.antt =====
-- The samples of a notification are read back and delivered.
use ads_go.Base.{
  ℕ, ◌^◌, ◌<◌, ◌≡◌, refl, sym, subst, Bool-cases, Option-cases, inl, inr, eqb→eq, eqb→ne, ◌≢◌, ◌==◌,
  none, some, List, [], ◌∷◌, ◌++◌, map, length, ok, notification_truncated, append_assoc, All,
}
use ads_go.Wire.{Bytes, le_bytes}
use ads_go.Wire.Readers.{read_uint-le_bytes, read_some-append}
use ads_go.Client.Notifications.{
  filetime_to_time, NotificationSample, NotificationStamp, parse_samples, parse_stamps,
  parse_notification, handle_notification, Time, Delivery, lookup, deliver_samples, deliver_stamps,
  deliver_parsed,
}

-- A stamp as a device sends it, with its time as a file time.
pub record SentStamp : Type 0 where
  pub filetime : ℕ
  pub samples : List NotificationSample

abbrev pub received : SentStamp → NotificationStamp
received s = record { timestamp = filetime_to_time s.filetime; samples = s.samples }

abbrev pub samples_image : List NotificationSample → Bytes
samples_image [] = []
samples_image (s ∷ samples) =
    le_bytes 4 s.handle ++ (le_bytes 4 (length s.payload) ++ (s.payload ++ samples_image samples))

abbrev pub stamps_image : List SentStamp → Bytes
stamps_image [] = []
stamps_image (s ∷ stamps) =
    le_bytes 8 s.filetime
    ++ (le_bytes 4 (length s.samples) ++ (samples_image s.samples ++ stamps_image stamps))

abbrev pub notification_image : ℕ → List SentStamp → Bytes
notification_image length_field stamps =
    le_bytes 4 length_field ++ (le_bytes 4 (length stamps) ++ stamps_image stamps)

-- Each number fits its field, and no payload is empty.
pub record IsSample (s : NotificationSample) : Type 0 where
  pub handle_word : s.handle < 2 ^ 32
  pub payload_word : length s.payload < 2 ^ 32
  pub some_payload : 0 < length s.payload

pub record IsStamp (s : SentStamp) : Type 0 where
  pub filetime_word : s.filetime < 2 ^ 64
  pub count_word : length s.samples < 2 ^ 32
  pub each_sample : All IsSample s.samples

pub parse_samples-image :
    (samples : List NotificationSample) (rest : Bytes)
    → All IsSample samples
    → parse_samples (length samples) (samples_image samples ++ rest) ≡ ok (samples, rest)
unfolding parse_samples
parse_samples-image [] rest h = refl
parse_samples-image (s ∷ samples) rest h = rw (
  read_uint-le_bytes 4 s.handle notification_truncated behind_handle h.0.handle_word,
  read_uint-le_bytes 4 (length s.payload) notification_truncated behind_length h.0.payload_word,
  append_assoc s.payload (samples_image samples) rest,
  read_some-append s.payload (samples_image samples ++ rest) notification_truncated
      h.0.some_payload,
  parse_samples-image samples rest h.1,
)
  where
    behind_length : Bytes
    behind_length = (s.payload ++ samples_image samples) ++ rest

    behind_handle : Bytes
    behind_handle = le_bytes 4 (length s.payload) ++ behind_length

parse_stamps-image :
    (stamps : List SentStamp) (rest : Bytes)
    → All IsStamp stamps
    → parse_stamps (length stamps) (stamps_image stamps ++ rest) ≡ ok (map received stamps, rest)
unfolding parse_stamps
parse_stamps-image [] rest h = refl
parse_stamps-image (s ∷ stamps) rest h = rw (
  read_uint-le_bytes 8 s.filetime notification_truncated behind_time h.0.filetime_word,
  read_uint-le_bytes 4 (length s.samples) notification_truncated behind_count h.0.count_word,
  append_assoc (samples_image s.samples) (stamps_image stamps) rest,
  parse_samples-image s.samples (stamps_image stamps ++ rest) h.0.each_sample,
  parse_stamps-image stamps rest h.1,
)
  where
    behind_count : Bytes
    behind_count = (samples_image s.samples ++ stamps_image stamps) ++ rest

    behind_time : Bytes
    behind_time = le_bytes 4 (length s.samples) ++ behind_count

-- What a table of subscriptions holds under a handle: its first entry with that key, or none.
pub data Subscribed {S : Type 0} (handle : ℕ) : List (ℕ × S) → S → Type 0 where
  first :
      {key : ℕ} {sub : S} {subs : List (ℕ × S)}
      → key ≡ handle
      → Subscribed handle ((key, sub) ∷ subs) sub
  later :
      {key : ℕ} {other sub : S} {subs : List (ℕ × S)}
      → key ≢ handle
      → Subscribed handle subs sub
      → Subscribed handle ((key, other) ∷ subs) sub

abbrev pub IsUnknown : {S : Type 0} → ℕ → List (ℕ × S) → Type 0
IsUnknown handle = All (λ entry. entry.0 ≢ handle)

-- The samples of all stamps, each with the time of its stamp, in order.
abbrev pub timed : List SentStamp → List (Time × NotificationSample)
timed [] = []
timed (s ∷ stamps) = map (λ sample. (filetime_to_time s.filetime, sample)) s.samples ++ timed stamps

-- Which deliveries are due: one for each sample whose handle is subscribed, to that subscription,
-- with the sample's payload and time, in the order of the samples; and none for the others.
pub data Due {S : Type 0} (subs : List (ℕ × S))
    : List (Time × NotificationSample) → List (Delivery S) → Type 0 where
  nothing : Due subs [] []
  delivered :
      {time : Time} {sample : NotificationSample} {sub : S}
      {samples : List (Time × NotificationSample)} {rest : List (Delivery S)}
      → Subscribed sample.handle subs sub
      → Due subs samples rest
      → Due subs
          ((time, sample) ∷ samples)
          (record { subscription = sub; raw_data = sample.payload; timestamp = time } ∷ rest)
  skipped :
      {time : Time} {sample : NotificationSample} {samples : List (Time × NotificationSample)}
      {rest : List (Delivery S)}
      → IsUnknown sample.handle subs
      → Due subs samples rest
      → Due subs ((time, sample) ∷ samples) rest

module _ {S : Type 0} where
  lookup-some :
      (handle : ℕ) (subs : List (ℕ × S)) {sub : S}
      → lookup handle subs ≡ some sub
      → Subscribed handle subs sub
  lookup-some handle [] e = cc
  lookup-some handle ((key, other) ∷ subs) {sub} e = elim (Bool-cases (key == handle)) [
    | inl same ↦
        let found : other ≡ sub = cc (rw same at e) in
        subst (Subscribed handle ((key, other) ∷ subs)) found (first (eqb→eq key handle same))
    | inr differs ↦ later (eqb→ne key handle differs) (lookup-some handle subs (rw differs at e))
  ]

  lookup-none :
      (handle : ℕ) (subs : List (ℕ × S)) → lookup handle subs ≡ none → IsUnknown handle subs
  lookup-none handle [] e = tt
  lookup-none handle ((key, other) ∷ subs) e = elim (Bool-cases (key == handle)) [
    | inl same ↦ cc (rw same at e)
    | inr differs ↦ (eqb→ne key handle differs, lookup-none handle subs (rw differs at e))
  ]

  deliver_samples-Due :
      (subs : List (ℕ × S)) (time : Time) (samples : List NotificationSample)
      (more : List (Time × NotificationSample)) (rest : List (Delivery S))
      → Due subs more rest
      → Due subs
          (map (λ sample. (time, sample)) samples ++ more)
          (deliver_samples subs time samples rest)
  deliver_samples-Due subs time [] more rest h = h
  deliver_samples-Due subs time (sample ∷ samples) more rest h =
      let others = deliver_samples-Due subs time samples more rest h in
      elim (Option-cases (lookup sample.handle subs)) [
        | inl unknown ↦ rw unknown (skipped (lookup-none sample.handle subs unknown) others)
        | inr (sub, found) ↦ rw found (delivered (lookup-some sample.handle subs found) others)
      ]

  deliver_stamps-Due :
      (subs : List (ℕ × S)) (stamps : List SentStamp)
      → Due subs (timed stamps) (deliver_stamps subs (map received stamps))
  deliver_stamps-Due subs [] = nothing
  deliver_stamps-Due subs (s ∷ stamps) =
      deliver_samples-Due subs (filetime_to_time s.filetime) s.samples (timed stamps)
        (deliver_stamps subs (map received stamps)) (deliver_stamps-Due subs stamps)

-- A notification whose numbers fit and whose samples have a payload each is read back: every stamp
-- with its converted time and every sample with its handle and payload, in order, whatever bytes
-- follow. What is delivered is one delivery for each sample whose handle is subscribed, in order, to
-- that subscription, with the sample's payload and its stamp's time, and nothing else.
pub parse_notification-image :
    {S : Type 0} (subs : List (ℕ × S)) (length_field : ℕ) (stamps : List SentStamp) (rest : Bytes)
    → length_field < 2 ^ 32
    → length stamps < 2 ^ 32
    → All IsStamp stamps
    → (parse_notification (notification_image length_field stamps ++ rest)
        ≡ ok (map received stamps))
      × Due subs
          (timed stamps)
          (handle_notification subs (notification_image length_field stamps ++ rest))
unfolding parse_notification handle_notification
parse_notification-image subs length_field stamps rest hl hn h = (
  parsed,
  subst (λ r. Due subs (timed stamps) (deliver_parsed subs r)) (sym parsed)
      (deliver_stamps-Due subs stamps),
)
  where
    behind_count : Bytes
    behind_count = stamps_image stamps ++ rest

    parsed :
        parse_notification (notification_image length_field stamps ++ rest)
        ≡ ok (map received stamps)
    parsed = rw (
      read_uint-le_bytes 4 length_field notification_truncated
          (le_bytes 4 (length stamps) ++ behind_count) hl,
      read_uint-le_bytes 4 (length stamps) notification_truncated behind_count hn,
      parse_stamps-image stamps rest h,
    )
