-- ===== src/Examples/Exchanges.antt =====
-- Requests in flight, in concrete interleavings.
use ads_go.Base.{◌≡◌, ◌⊎◌, refl, [], ◌∷◌, ok, err, Error}
use ads_go.Client.Receive.{AmsPacket, zero_packet, Response, Requests, dispatch}
use ads_go.Client.Exchange.{
  Phase, preparing, waiting, returned, Sender, idle, sending, World, start, get_invoke_id, written,
  answered, begin, receive, turn, finish, Reach, here, next,
}
use ads_go.Client.Exchange.Ownership.{Received, Reach-IsAnswered}
use ads_go.Client.Exchange.Sound.{Carries, IsOwnError}
use ads_go.Client.Exchange.Drains.{requests_drain}

-- The answer to the first request.
abbrev answer : AmsPacket
answer = record zero_packet { ads_command = 2; invoke_id = 1; payload = 7 ∷ [] }

abbrev caller : Phase → Sender
caller phase = record { id = 1; channel = 0; phase = phase }

abbrev asking : World
asking = record {
  invoke_id = 1;
  requests = (1, 0) ∷ [];
  channels = 1;
  senders = caller waiting ∷ [];
  receiver = idle;
}

abbrev served : World
served = record asking { senders = caller (returned (ok (7 ∷ []))) ∷ []; receiver = idle }

asking-Reach : Reach start asking
asking-Reach =
    next (next here (begin start))
      (turn (get_invoke_id start) [] (caller preparing) [] waiting idle refl (written refl))

served-Reach : Reach start served
unfolding dispatch
served-Reach = next (next asking-Reach (receive asking answer refl)) (
    turn (record asking { receiver = sending answer 0 }) [] (caller waiting) []
      (returned (ok (7 ∷ []))) idle refl (answered answer refl refl))

Reach-IsAnswered_example :
    ((p : AmsPacket) × Received p served served-Reach × (p.invoke_id ≡ 1) × Carries p (ok (7 ∷ [])))
    ⊎ ((e : Error) × IsOwnError e × (◌≡◌ {A = Response} (ok (7 ∷ [])) (err e)))
Reach-IsAnswered_example =
    Reach-IsAnswered served [] (caller (returned (ok (7 ∷ [])))) [] (ok (7 ∷ [])) served-Reach refl
      refl

abbrev finished : World
finished = record served { senders = []; requests = [] }

finished-Reach : Reach start finished
finished-Reach =
    next served-Reach
      (finish served [] (caller (returned (ok (7 ∷ [])))) [] (ok (7 ∷ [])) refl refl)

requests_drain_example : ◌≡◌ {A = Requests} finished.requests []
requests_drain_example = requests_drain finished finished-Reach refl
