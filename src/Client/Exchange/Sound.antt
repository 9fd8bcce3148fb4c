-- ===== src/Client/Exchange/Sound.antt =====
-- Channels and invoke ids of requests in flight: the invariant, and that a new request and a packet
-- that arrives keep it.
use ads_go.Base.{
  ℕ, ◌<◌, ◌≡◌, ◌⊎◌, inl, inr, refl, ◌∙◌, List, [], ◌∷◌, some, Option-cases, err, Error, arith, All,
  All-map, ◌==◌, Bool-cases, eqb→eq, eqb→ne, ◌≢◌, ok, ads_error, response_timeout, subst,
}
use ads_go.Client.Receive.{
  AmsPacket, Response, Requests, Dispatch, notify, respond, discard, response_of, dispatch, lookup,
  command_notification,
}
use ads_go.Client.Exchange.{
  Phase, preparing, waiting, returned, Sender, Receiver, idle, sending, World, remove_invoke_id,
  IsSendError, next_invoke_id, get_invoke_id, receiver_for, receive_packet,
}

-- A channel belongs to an invoke id: it has been made, and whoever holds it has that id.
abbrev pub Owns : World → ℕ → ℕ → Type 0
Owns w id channel = (channel < w.channels) × All (λ s. s.channel ≡ channel → s.id ≡ id) w.senders

-- The response that a packet carries: its data, or its error code where that is not 0.
pub data Carries (p : AmsPacket) : Response → Type 0 where
  its_data : p.error_code ≡ 0 → Carries p (ok p.payload)
  its_error : p.error_code ≢ 0 → Carries p (err (ads_error p.error_code))

pub response_of-Carries : (p : AmsPacket) → Carries p (response_of p)
response_of-Carries p = elim (Bool-cases (p.error_code == 0)) [
  | inl fine ↦ rw fine (its_data (eqb→eq p.error_code 0 fine))
  | inr failed ↦ rw failed (its_error (eqb→ne p.error_code 0 failed))
]

-- An error of the call itself.
pub data IsOwnError : Error → Type 0 where
  not_sent : {e : Error} → IsSendError e → IsOwnError e
  no_answer : IsOwnError response_timeout

-- Over the packets that have been received.
module _ (Got : AmsPacket → Type 0) where
  abbrev pub ReceiverOwns : World → Receiver → Type 0
  ReceiverOwns w idle = Unit {0}
  ReceiverOwns w (sending p channel) = Got p × Owns w p.invoke_id channel

  -- What a request has returned: the response of a received packet with its own invoke id, or an
  -- error of its own.
  abbrev pub IsAnswered : Sender → Phase → Type 0
  IsAnswered s preparing = Unit {0}
  IsAnswered s waiting = Unit {0}
  IsAnswered s (returned r) =
      ((p : AmsPacket) × Got p × (p.invoke_id ≡ s.id) × Carries p r)
      ⊎ ((e : Error) × IsOwnError e × (r ≡ err e))

  abbrev pub IsFresh : World → Sender → Type 0
  IsFresh w s = (s.channel < w.channels) × IsAnswered s s.phase

  pub record Sound (w : World) : Type 0 where
    pub entries_own : All (λ entry. Owns w entry.0 entry.1) w.requests
    pub receiver_owns : ReceiverOwns w w.receiver
    pub senders_fresh : All (IsFresh w) w.senders

pub All-remove :
    (P : ℕ × ℕ → Type 0) (id : ℕ) (requests : Requests)
    → All P requests
    → All P (remove_invoke_id id requests)
All-remove P id [] h = tt
All-remove P id ((key, channel) ∷ requests) h = elim (Bool-cases (key == id)) [
  | inl same ↦ rw same (All-remove P id requests h.1)
  | inr other ↦ rw other (h.0, All-remove P id requests h.1)
]

lookup-Owns :
    (w : World) (id channel : ℕ) (requests : Requests)
    → All (λ entry. Owns w entry.0 entry.1) requests
    → lookup id requests ≡ some channel
    → Owns w id channel
lookup-Owns w id channel [] h e = cc
lookup-Owns w id channel ((key, found) ∷ requests) h e = elim (Bool-cases (key == id)) [
  | inl same ↦
      let k : key ≡ id = eqb→eq key id same in
      let c : some found ≡ some channel = rw same at e in
      subst (λ k. Owns w k channel) k (subst (λ c. Owns w key c) (cc) h.0)
  | inr other ↦ lookup-Owns w id channel requests h.1 (rw other at e)
]

-- A new channel is nobody's yet.
fresh_unowned :
    (Got : AmsPacket → Type 0) (w : World) (id : ℕ) (senders : List Sender)
    → All (IsFresh Got w) senders
    → All (λ s. s.channel ≡ w.channels → s.id ≡ id) senders
fresh_unowned Got w id [] h = tt
fresh_unowned Got w id (s ∷ senders) h =
    (λ e. absurd (omega (arith, h.0.0, e)), fresh_unowned Got w id senders h.1)

Owns-get_invoke_id :
    (w : World) (id channel : ℕ) → Owns w id channel → Owns (get_invoke_id w) id channel
Owns-get_invoke_id w id channel h = (omega (arith, h.0), (λ e. absurd (omega (arith, h.0, e)), h.1))

pub get_invoke_id-Sound :
    (Got : AmsPacket → Type 0) (w : World) → Sound Got w → Sound Got (get_invoke_id w)
get_invoke_id-Sound Got w h = record {
  entries_own = (
    (omega arith, (λ e. refl, fresh_unowned Got w (next_invoke_id w) w.senders h.senders_fresh)),
    All-map (λ entry own. Owns-get_invoke_id w entry.0 entry.1 own) _
        (All-remove _ (next_invoke_id w) w.requests h.entries_own),
  );
  receiver_owns = kept w.receiver h.receiver_owns;
  senders_fresh = (
    (omega arith, tt),
    All-map (λ s fresh. (omega (arith, fresh.0), fresh.1)) w.senders h.senders_fresh,
  );
}
  where
    kept : (r : Receiver) → ReceiverOwns Got w r → ReceiverOwns Got (get_invoke_id w) r
    kept idle own = tt
    kept (sending p channel) own = (own.0, Owns-get_invoke_id w p.invoke_id channel own.1)

dispatch-channel :
    (requests : Requests) (p : AmsPacket) (channel : ℕ) (r : Response)
    → dispatch requests p ≡ respond channel r
    → lookup p.invoke_id requests ≡ some channel
unfolding dispatch
dispatch-channel requests p channel r e =
    elim (Bool-cases (p.ads_command == command_notification)) [
      | inl notification ↦ cc (rw notification at e)
      | inr answer ↦ elim (Option-cases (lookup p.invoke_id requests)) [
        | inl nobody ↦ cc (rw (answer, nobody) at e)
        | inr (found, waits) ↦
            let same : respond found (response_of p) ≡ respond channel r =
              rw (answer, waits) at e in
            waits ∙ cc
      ]
    ]

pub receive_packet-Sound :
    (Got : AmsPacket → Type 0) (w : World) (p : AmsPacket)
    → Got p
    → Sound Got w
    → Sound Got (receive_packet p w)
receive_packet-Sound Got w p got h = record {
  entries_own = h.entries_own;
  receiver_owns = by_dispatch (dispatch w.requests p) refl;
  senders_fresh = h.senders_fresh;
}
  where
    by_dispatch : (d : Dispatch) → dispatch w.requests p ≡ d → ReceiverOwns Got w (receiver_for p d)
    by_dispatch (notify bytes) e = tt
    by_dispatch (discard id) e = tt
    by_dispatch (respond channel r) e = (
      got,
      lookup-Owns w p.invoke_id channel w.requests h.entries_own
          (dispatch-channel w.requests p channel r e),
    )
