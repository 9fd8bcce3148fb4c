-- ===== src/Client/Exchange/Stuck.antt =====
-- A response that is looked up while its request times out blocks the receive goroutine for good.
use ads_go.Base.{ℕ, ◌<◌, ◌≡◌, List, All}
use ads_go.Client.Receive.{AmsPacket, Response}
use ads_go.Client.Exchange.{Phase, returned, Sender, sending, World, start, get_invoke_id}

abbrev HasReturned : Phase → Type 0
HasReturned phase = (r : Response) × (phase ≡ returned r)

-- Nobody who holds the channel will ever take a response out of it.
abbrev IsAbandoned : ℕ → List Sender → Type 0
IsAbandoned channel = All (λ s. s.channel ≡ channel → HasReturned s.phase)

record IsStuck (p : AmsPacket) (channel : ℕ) (w : World) : Type 0 where
  blocked : w.receiver ≡ sending p channel
  made : channel < w.channels
  abandoned : IsAbandoned channel w.senders

first_request : World
first_request = get_invoke_id start
