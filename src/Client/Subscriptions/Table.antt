-- ===== src/Client/Subscriptions/Table.antt =====
-- The table of subscriptions, by handle, and the deliveries that follow from it.
use ads_go.Base.{
  ads_error, slice, ◌>>=◌, ℕ, ◌^◌, ◌<◌, ◌≡◌, refl, ap, ◌∙◌, false, List, [], ◌∷◌, ◌++◌, Option,
  none, some, Result, ok, err, panic, arith, length, ◌==◌, if◌then◌else◌, Bool-cases, eqb→eq,
  eqb_self, inl, inr, le→ltb,
}
use ads_go.Wire.{Bytes, le_bytes}
use ads_go.Wire.Numbers.{le_value-le_bytes}
use ads_go.Client.Commands.{AdsCommandRequest, Action}
use ads_go.Client.Notifications.{lookup}
use ads_go.Client.Subscriptions.{
  SubscriptionSettings, ActiveSubscription, Session, with_defaults, add_request, delete_request,
  handle_answer, delete_key, add_subscription, unsubscribe,
}

lookup-delete_key :
    {V : Type 0} (key : ℕ) (table : List (ℕ × V)) → lookup key (delete_key key table) ≡ none
lookup-delete_key key [] = refl
lookup-delete_key key ((k, v) ∷ table) = elim (Bool-cases (k == key)) [
  | inl same ↦ rw same (lookup-delete_key key table)
  | inr other ↦ rw (other, other) (lookup-delete_key key table)
]

lookup-delete_key_other :
    {V : Type 0} (key other : ℕ) (table : List (ℕ × V))
    → (key == other) ≡ false
    → lookup other (delete_key key table) ≡ lookup other table
lookup-delete_key_other key other [] h = refl
lookup-delete_key_other key other ((k, v) ∷ table) h = elim (Bool-cases (k == key)) [
  | inl same ↦
      let e : k ≡ key = eqb→eq k key same in
      let skip : (k == other) ≡ false = ap (λ k. k == other) e ∙ h in
      rw (same, skip) (lookup-delete_key_other key other table h)
  | inr kept ↦ elim (Bool-cases (k == other)) [
    | inl found ↦ rw (kept, found)
    | inr further ↦ rw (kept, further) (lookup-delete_key_other key other table h)
  ]
]

handle_answer-image :
    (code handle : ℕ) (rest : Bytes)
    → code < 2 ^ 32
    → handle < 2 ^ 32
    → handle_answer (le_bytes 4 code ++ (le_bytes 4 handle ++ rest))
      ≡ (if code == 0 then ok handle else err (ads_error code))
unfolding slice
handle_answer-image code handle rest hc hh =
    rw
      (
        le→ltb (length (le_bytes 4 code ++ (le_bytes 4 handle ++ rest))) 8 (omega arith),
        le_value-le_bytes 4 code hc,
        le_value-le_bytes 4 handle hh,
      )
      (ground arith)

-- What of an entry is left once its device has answered: only a failed `send` keeps it.
abbrev pub left_after : {V : Type 0} → Result Bytes → Option V → Option V
left_after (ok response) entry = none
left_after (err e) entry = entry
left_after panic entry = entry

module _ {S C : Type 0} (send : AdsCommandRequest → Action S Bytes) where
  -- A device that answers the request for a notification with an error code and a handle: without
  -- error the subscription is returned and stored under that handle, with the settings after their
  -- defaults; with one the error is returned and the table stays. Entries of other handles stay as
  -- they are.
  pub add_subscription-stores :
      (port group offset size : ℕ) (settings : SubscriptionSettings) (receiver : C)
      (session : Session S C) (code handle other : ℕ) (rest : Bytes) (device : S)
      → (handle == other) ≡ false
      → code < 2 ^ 32
      → handle < 2 ^ 32
      → send (add_request port group offset size (with_defaults settings)) session.device
        ≡ (ok (le_bytes 4 code ++ (le_bytes 4 handle ++ rest)), device)
      → let out = add_subscription send port group offset size settings receiver session in
        let sub : ActiveSubscription C = record {
          handle = handle;
          port = port;
          receiver = receiver;
          settings = with_defaults settings;
        } in
        (out.0 ≡ (if code == 0 then ok sub else err (ads_error code)))
        × (out.1.device ≡ device)
        × (lookup handle out.1.subscriptions
            ≡ (if code == 0 then some sub else lookup handle session.subscriptions))
        × (lookup other out.1.subscriptions ≡ lookup other session.subscriptions)
  unfolding add_subscription
  add_subscription-stores port group offset size settings receiver session code handle other rest
        device h hc hh e =
      rw (e, handle_answer-image code handle rest hc hh)
        (elim (Bool-cases (code == 0)) [
          | inl success ↦ rw success (
            refl,
            refl,
            rw (eqb_self handle),
            rw h (lookup-delete_key_other handle other session.subscriptions h),
          )
          | inr failure ↦ rw failure (refl, refl, refl, refl)
        ])

  -- Whatever a device answers to the request to end a notification: a response, an error code in it
  -- or not, ends the subscription; only a failed `send` is reported and keeps it. Entries of other
  -- handles stay as they are.
  pub unsubscribe-deletes :
      (sub : ActiveSubscription C) (session : Session S C) (answer : Result Bytes) (device : S)
      (other : ℕ)
      → (sub.handle == other) ≡ false
      → send (delete_request sub.port sub.handle) session.device ≡ (answer, device)
      → let out = unsubscribe send sub session in
        (out.0 ≡ (answer >>= λ _. ok tt))
        × (out.1.device ≡ device)
        × (lookup sub.handle out.1.subscriptions
            ≡ left_after answer (lookup sub.handle session.subscriptions))
        × (lookup other out.1.subscriptions ≡ lookup other session.subscriptions)
  unfolding unsubscribe
  unsubscribe-deletes sub session (ok response) device other h e = rw e (
    refl,
    refl,
    lookup-delete_key sub.handle session.subscriptions,
    lookup-delete_key_other sub.handle other session.subscriptions h,
  )
  unsubscribe-deletes sub session (err x) device other h e = rw e (refl, refl, refl, refl)
  unsubscribe-deletes sub session panic device other h e = rw e (refl, refl, refl, refl)
