-- ===== src/Client/Notifications/Cut.antt =====
-- Notifications that end early or with an empty payload.
use ads_go.Base.{
  ℕ, zero, suc, ◌-◌, ◌^◌, ◌≤◌, ◌<◌, ◌≡◌, refl, ap, ◌∙◌, List, [], ◌∷◌, ◌++◌, length, Result, ok,
  err, panic, Error, notification_truncated, ◌>>=◌, arith, append_assoc, All, drop, take-length,
  >>=_assoc, drop-length,
}
use ads_go.Wire.{Bytes, le_bytes, read_some, overwrite, make_bytes}
use ads_go.Wire.Readers.{read_uint-le_bytes, read_some-append}
use ads_go.Client.Notifications.{
  NotificationSample, parse_samples, parse_stamps, parse_notification, handle_notification,
  deliver_parsed, filetime_to_time,
}
use ads_go.Client.Notifications.RoundTrip.{IsSample, samples_image}

-- The start of a sample whose payload is to come.
abbrev pub sample_head : ℕ → ℕ → Bytes
sample_head handle data_length = le_bytes 4 handle ++ le_bytes 4 data_length

-- One more than there are whole samples.
abbrev pub sample_count : List NotificationSample → ℕ
sample_count [] = 1
sample_count (s ∷ samples) = suc (sample_count samples)

-- A packet of one stamp whose samples are `samples` and a last one of which `cut` arrived.
abbrev pub cut_notification : ℕ → ℕ → List NotificationSample → ℕ → ℕ → Bytes → Bytes
cut_notification length_field filetime samples handle data_length cut =
    le_bytes 4 length_field
    ++ (le_bytes 4 1
        ++ (le_bytes 8 filetime
            ++ (le_bytes 4 (sample_count samples)
                ++ (samples_image samples ++ (sample_head handle data_length ++ cut)))))

parse_samples_step :
    (s : NotificationSample) (count : ℕ) (image tail : Bytes)
    → IsSample s
    → parse_samples
        (suc count)
        ((le_bytes 4 s.handle ++ (le_bytes 4 (length s.payload) ++ (s.payload ++ image))) ++ tail)
      ≡ (parse_samples count (image ++ tail) >>= λ r. ok (s ∷ r.0, r.1))
unfolding parse_samples
parse_samples_step s count image tail h = rw (
  read_uint-le_bytes 4 s.handle notification_truncated behind_handle h.handle_word,
  read_uint-le_bytes 4 (length s.payload) notification_truncated behind_length h.payload_word,
  append_assoc s.payload image tail,
  read_some-append s.payload (image ++ tail) notification_truncated h.some_payload,
)
  where
    behind_length : Bytes
    behind_length = (s.payload ++ image) ++ tail

    behind_handle : Bytes
    behind_handle = le_bytes 4 (length s.payload) ++ behind_length

overwrite-short :
    (src : Bytes) (n : ℕ)
    → length src ≤ n
    → overwrite src (make_bytes n) ≡ src ++ make_bytes (n - length src)
overwrite-short [] n h = let e : n ≡ n - 0 = omega arith in ap make_bytes e
overwrite-short (s ∷ src) zero h = absurd (omega arith)
overwrite-short (s ∷ src) (suc n) h =
    let e : n - length src ≡ suc n - suc (length src) = omega arith in
    ap (◌∷◌ s) (overwrite-short src n (omega arith) ∙ ap (λ k. src ++ make_bytes k) e)

read_some_short :
    (n : ℕ) (e : Error) (b : ℕ) (cut : Bytes)
    → length (b ∷ cut) ≤ n
    → read_some n e (b ∷ cut) ≡ ok ((b ∷ cut) ++ make_bytes (n - length (b ∷ cut)), [])
unfolding read_some
read_some_short n e b cut h =
    ap (λ t. ok (overwrite t (make_bytes n), drop n (b ∷ cut))) (take-length n (b ∷ cut) h)
    ∙ ap (λ t. ok (overwrite (b ∷ cut) (make_bytes n), t)) (drop-length n (b ∷ cut) h)
    ∙ ap (λ t. ok (t, [])) (overwrite-short (b ∷ cut) n h)

-- The whole samples in front do not change what becomes of the last.
parse_samples-before :
    (samples : List NotificationSample) (tail : Bytes)
    → All IsSample samples
    → parse_samples (sample_count samples) (samples_image samples ++ tail)
      ≡ (parse_samples 1 tail >>= λ r. ok (samples ++ r.0, r.1))
parse_samples-before [] tail h = keep_all (parse_samples 1 tail)
  where
    keep_all : (r : Result (List NotificationSample × Bytes)) → r ≡ (r >>= λ r. ok ([] ++ r.0, r.1))
    keep_all (ok r) = refl
    keep_all (err e) = refl
    keep_all panic = refl
parse_samples-before (s ∷ samples) tail h =
    parse_samples_step s (sample_count samples) (samples_image samples) tail h.0
    ∙ ap (λ m. m >>= λ r. ok (s ∷ r.0, r.1)) (parse_samples-before samples tail h.1)
    ∙ >>=_assoc (parse_samples 1 tail) (λ r. ok (samples ++ r.0, r.1)) (λ r. ok (s ∷ r.0, r.1))

last_sample :
    (handle data_length : ℕ) (cut : Bytes)
    → handle < 2 ^ 32
    → data_length < 2 ^ 32
    → parse_samples 1 (sample_head handle data_length ++ cut) ≡ (
        read_some data_length notification_truncated cut >>= λ r.
        ok (record { handle = handle; payload = r.0 } ∷ [], r.1))
unfolding parse_samples
last_sample handle data_length cut hh hd = rw (
  read_uint-le_bytes 4 handle notification_truncated (le_bytes 4 data_length ++ cut) hh,
  read_uint-le_bytes 4 data_length notification_truncated cut hd,
)

read_some_end : (n : ℕ) → read_some n notification_truncated [] ≡ err notification_truncated
unfolding read_some
read_some_end n = refl

module _ (length_field filetime handle data_length : ℕ) (samples : List NotificationSample)
    (cut : Bytes) (hl : length_field < 2 ^ 32) (hf : filetime < 2 ^ 64) (hh : handle < 2 ^ 32)
    (hd : data_length < 2 ^ 32) (hc : sample_count samples < 2 ^ 32)
    (hs : All IsSample samples) where
  parse_cut :
      parse_notification (cut_notification length_field filetime samples handle data_length cut) ≡ (
        read_some data_length notification_truncated cut >>= λ r. ok (
          record {
            timestamp = filetime_to_time filetime;
            samples = samples ++ (record { handle = handle; payload = r.0 } ∷ []);
          }
          ∷ []))
  unfolding parse_notification parse_stamps
  parse_cut =
      rw
        (
          read_uint-le_bytes 4 length_field notification_truncated _ hl,
          read_uint-le_bytes 4 1 notification_truncated _ (omega arith),
          read_uint-le_bytes 8 filetime notification_truncated _ hf,
          read_uint-le_bytes 4 (sample_count samples) notification_truncated _ hc,
          parse_samples-before samples (sample_head handle data_length ++ cut) hs,
          last_sample handle data_length cut hh hd,
        )
        (simp >>=_assoc)

  -- One stamp whose last sample is empty and whose other samples are whole, with numbers that fit:
  -- the whole packet is refused, and nothing of it is delivered.
  pub parse_notification_empty_last :
      {S : Type 0} (subs : List (ℕ × S))
      → data_length ≡ 0
      → cut ≡ []
      → (parse_notification (cut_notification length_field filetime samples handle data_length cut)
          ≡ err notification_truncated)
        × (handle_notification subs
              (cut_notification length_field filetime samples handle data_length cut)
            ≡ [])
  unfolding handle_notification
  parse_notification_empty_last subs hz hn = (refused, ap (deliver_parsed subs) refused)
    where
      at_end : read_some data_length notification_truncated cut ≡ err notification_truncated
      at_end = ap (read_some data_length notification_truncated) hn ∙ read_some_end data_length

      refused :
          parse_notification (cut_notification length_field filetime samples handle data_length cut)
          ≡ err notification_truncated
      refused = parse_cut ∙ rw at_end

  -- One stamp of whose last payload only a first part, not empty, has arrived, with numbers that
  -- fit: the packet is accepted, and the bytes that are missing are zeros in the last sample.
  pub parse_notification_cut :
      (b : ℕ) (front : Bytes)
      → cut ≡ b ∷ front
      → length cut ≤ data_length
      → parse_notification (cut_notification length_field filetime samples handle data_length cut)
        ≡ ok (
            record {
              timestamp = filetime_to_time filetime;
              samples =
                  samples
                  ++ (record {
                    handle = handle;
                    payload = cut ++ make_bytes (data_length - length cut);
                  }
                      ∷ []);
            }
            ∷ [])
  parse_notification_cut b front hn short = parse_cut ∙ rw padded
    where
      padded :
          read_some data_length notification_truncated cut
          ≡ ok (cut ++ make_bytes (data_length - length cut), [])
      padded = rw hn (read_some_short data_length notification_truncated b front (rw hn at short))
