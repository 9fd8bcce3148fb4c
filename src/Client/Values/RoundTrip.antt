-- ===== src/Client/Values/RoundTrip.antt =====
-- client_write.go and client_read.go: a value that is written is read back, and is notified.
use ads_go.Serializer.Value.{Value}
use ads_go.Client.Commands.Memory.{Memory}
use ads_go.Client.DataTypes.Built.{Built}
use ads_go.Client.Poller.{Poller}
