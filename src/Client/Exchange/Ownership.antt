-- ===== src/Client/Exchange/Ownership.antt =====
-- Who gets which response, and what is left in the table of requests.
use ads_go.Base.{
  ℕ, ◌≡◌, ◌⊎◌, inl, inr, refl, sym, List, ◌∷◌, ◌++◌, err, Error, response_timeout, All, All-middle,
  All-replace, All-without, All-map, subst,
}
use ads_go.Client.Receive.{AmsPacket, Response}
use ads_go.Client.Exchange.{
  Phase, waiting, returned, Sender, Receiver, idle, sending, World, start, remove_invoke_id, Turn,
  receive_packet, written, failed, timed_out, answered, Step, begin, receive, turn, finish, Reach,
  here, next,
}
use ads_go.Client.Exchange.Sound.{
  Owns, Carries, response_of-Carries, IsOwnError, not_sent, no_answer, ReceiverOwns, IsAnswered,
  IsFresh, Sound, All-remove, get_invoke_id-Sound, receive_packet-Sound,
}

-- A request that moves on keeps its id and its channel.
Owns-turn :
    (w : World) (front : List Sender) (s : Sender) (behind : List Sender) (phase : Phase)
    (receiver : Receiver) (id channel : ℕ)
    → w.senders ≡ front ++ (s ∷ behind)
    → Owns w id channel
    → Owns
        (record w { senders = front ++ (record s { phase = phase } ∷ behind); receiver = receiver })
        id
        channel
Owns-turn w front s behind phase receiver id channel e h = (
  h.0,
  All-replace (λ s. s.channel ≡ channel → s.id ≡ id) front s (record s { phase = phase }) behind
      (λ own. own) (subst (All (λ s. s.channel ≡ channel → s.id ≡ id)) e h.1),
)

Turn-ReceiverOwns :
    (Got : AmsPacket → Type 0) (w : World) (front : List Sender) (s : Sender) (behind : List Sender)
    {phase : Phase} {receiver : Receiver}
    → w.senders ≡ front ++ (s ∷ behind)
    → Turn w.receiver s phase receiver
    → ReceiverOwns Got w w.receiver
    → ReceiverOwns Got
        (record w { senders = front ++ (record s { phase = phase } ∷ behind); receiver = receiver })
        receiver
Turn-ReceiverOwns Got w front s behind e t h = by_turn t
  where
    kept :
        (phase : Phase) (r : Receiver)
        → ReceiverOwns Got w r
        → ReceiverOwns Got
            (record w {
              senders = front ++ (record s { phase = phase } ∷ behind);
              receiver = w.receiver;
            })
            r
    kept phase idle own = tt
    kept phase (sending p channel) own =
        (own.0, Owns-turn w front s behind phase w.receiver p.invoke_id channel e own.1)

    by_turn :
        {phase : Phase} {receiver : Receiver}
        → Turn w.receiver s phase receiver
        → ReceiverOwns Got
            (record w {
              senders = front ++ (record s { phase = phase } ∷ behind);
              receiver = receiver;
            })
            receiver
    by_turn (written q) = kept waiting w.receiver h
    by_turn (failed x k q) = kept (returned (err x)) w.receiver h
    by_turn (timed_out q) = kept (returned (err response_timeout)) w.receiver h
    by_turn (answered p q r) = tt

-- The response that is taken out of a channel belongs to the one who takes it.
Turn-IsAnswered :
    (Got : AmsPacket → Type 0) (w : World) (front : List Sender) (s : Sender) (behind : List Sender)
    {phase : Phase} {receiver : Receiver}
    → w.senders ≡ front ++ (s ∷ behind)
    → ReceiverOwns Got w w.receiver
    → Turn w.receiver s phase receiver
    → IsAnswered Got s phase
Turn-IsAnswered Got w front s behind e h (written q) = tt
Turn-IsAnswered Got w front s behind e h (failed x k q) = inr (x, not_sent k, refl)
Turn-IsAnswered Got w front s behind e h (timed_out q) = inr (response_timeout, no_answer, refl)
Turn-IsAnswered Got w front s behind e h (answered p q r) =
    let own : Owns w p.invoke_id s.channel = (subst (ReceiverOwns Got w) r h).1 in
    let (_, mine, _) =
      All-middle (λ x. x.channel ≡ s.channel → x.id ≡ p.invoke_id) front s behind
        (subst (All (λ x. x.channel ≡ s.channel → x.id ≡ p.invoke_id)) e own.1) in
    inl (p, (subst (ReceiverOwns Got w) r h).0, sym (mine refl), response_of-Carries p)

Turn-Sound :
    (Got : AmsPacket → Type 0) (w : World) (front : List Sender) (s : Sender) (behind : List Sender)
    (phase : Phase) (receiver : Receiver)
    → w.senders ≡ front ++ (s ∷ behind)
    → Turn w.receiver s phase receiver
    → Sound Got w
    → Sound Got
        (record w { senders = front ++ (record s { phase = phase } ∷ behind); receiver = receiver })
Turn-Sound Got w front s behind phase receiver e t h = record {
  entries_own =
      All-map (λ entry own. Owns-turn w front s behind phase receiver entry.0 entry.1 e own)
        w.requests h.entries_own;
  receiver_owns = Turn-ReceiverOwns Got w front s behind e t h.receiver_owns;
  senders_fresh =
      All-replace (IsFresh Got w) front s (record s { phase = phase }) behind
        (λ fresh. (fresh.0, Turn-IsAnswered Got w front s behind e h.receiver_owns t))
        (subst (All (IsFresh Got w)) e h.senders_fresh);
}

finish-Sound :
    (Got : AmsPacket → Type 0) (w : World) (front : List Sender) (s : Sender) (behind : List Sender)
    → w.senders ≡ front ++ (s ∷ behind)
    → Sound Got w
    → Sound Got
        (record w { senders = front ++ behind; requests = remove_invoke_id s.id w.requests })
finish-Sound Got w front s behind e h = record {
  entries_own =
      All-remove _ s.id w.requests
        (All-map (λ entry own. without entry.0 entry.1 own) w.requests h.entries_own);
  receiver_owns = receiver_kept w.receiver h.receiver_owns;
  senders_fresh =
      All-without (IsFresh Got w) front s behind (subst (All (IsFresh Got w)) e h.senders_fresh);
}
  where
    after : World
    after = record w { senders = front ++ behind; requests = remove_invoke_id s.id w.requests }

    without : (id channel : ℕ) → Owns w id channel → Owns after id channel
    without id channel own = (
      own.0,
      All-without (λ x. x.channel ≡ channel → x.id ≡ id) front s behind
          (subst (All (λ x. x.channel ≡ channel → x.id ≡ id)) e own.1),
    )

    receiver_kept : (r : Receiver) → ReceiverOwns Got w r → ReceiverOwns Got after r
    receiver_kept idle own = tt
    receiver_kept (sending p channel) own = (own.0, without p.invoke_id channel own.1)

start-Sound : (Got : AmsPacket → Type 0) → Sound Got start
start-Sound Got = record { entries_own = tt; receiver_owns = tt; senders_fresh = tt }

-- A packet is received in a run when one of its steps takes it off the connection.
pub data Received (p : AmsPacket) {v : World} : (w : World) → Reach v w → Type 0 where
  latest :
      {w : World} (r : Reach v w) (q : w.receiver ≡ idle)
      → Received p (receive_packet p w) (next r (receive w p q))
  earlier :
      {w x : World} {r : Reach v w} {step : Step w x} → Received p w r → Received p x (next r step)

Reach-Sound :
    (Got : AmsPacket → Type 0) {w : World} (r : Reach start w)
    → ((p : AmsPacket) → Received p w r → Got p)
    → Sound Got w
Reach-Sound Got here all = start-Sound Got
Reach-Sound Got (next r (begin w)) all =
    get_invoke_id-Sound Got w (Reach-Sound Got r (λ p h. all p (earlier h)))
Reach-Sound Got (next r (receive w p q)) all =
    receive_packet-Sound Got w p (all p (latest r q)) (Reach-Sound Got r (λ p h. all p (earlier h)))
Reach-Sound Got (next r (turn w front s behind phase receiver e t)) all =
    Turn-Sound Got w front s behind phase receiver e t
      (Reach-Sound Got r (λ p h. all p (earlier h)))
Reach-Sound Got (next r (finish w front s behind result e q)) all =
    finish-Sound Got w front s behind e (Reach-Sound Got r (λ p h. all p (earlier h)))

-- However calls of `send` and the receive goroutine interleave: a call that has returned a response
-- returned the data or the error code of a packet with the call's own invoke id that was received in
-- this run, or else an error of its own, of a NetId, of the write or the timeout.
pub Reach-IsAnswered :
    (w : World) (front : List Sender) (s : Sender) (behind : List Sender) (r : Response)
    (reached : Reach start w)
    → w.senders ≡ front ++ (s ∷ behind)
    → s.phase ≡ returned r
    → ((p : AmsPacket) × Received p w reached × (p.invoke_id ≡ s.id) × Carries p r)
      ⊎ ((e : Error) × IsOwnError e × (r ≡ err e))
Reach-IsAnswered w front s behind r reached e done =
    let Got : AmsPacket → Type 0 = λ p. Received p w reached in
    let (_, (_, mine), _) =
      All-middle (IsFresh Got w) front s behind
        (subst (All (IsFresh Got w)) e (Reach-Sound Got reached (λ p h. h)).senders_fresh) in
    subst (IsAnswered Got s) done mine
