-- ===== src/Lib.antt =====
-- ads-go: a model of the Go client for Beckhoff's ADS protocol, and proofs about it.
--
-- A client keeps one TCP connection to an AMS router. A command (client_raw.go,
-- client_control*.go, client_symbols.go, client_subscriptions.go) builds a payload (ads-requests)
-- and calls `send` (client_send.go), which takes an invoke id with a channel under it, puts the
-- payload behind an AMS header and a TCP header (ams-builder), writes it and waits. The receive
-- goroutine collects bytes, cuts frames off them (ams-header, client_buffer.go) and hands each to
-- the request that waits under its invoke id or, if it is a notification, to the subscriptions.
-- Answers carry an error code and a length (ads-errors, ads-header) and are parsed (ads-stateinfo,
-- ads-symbol, ads-datatype). A symbol is read or written as a value by its type (client_read.go,
-- client_write.go), which is put together from the declarations on the device
-- (client_data_types.go) and directs the serializer (ads-serializer). A poller keeps the device's
-- state and reports its changes (client_state.go). All these paths start at pkg/ads.
--
-- The files:
--   Base: shared names, tests, lists, Go's results (`ok`, `err`, `panic`) with slices that
--     panic, and
--     the signed integers.
--   Wire: bytes, little-endian numbers and readers as encoding/binary and bytes.Reader have them.
--   Primitives: ads-primitives/read.go and write.go (ReadInt16 is read_int16, and so on).
--   NetId: utils/amsNetId.go and the STRING half of utils/utils.go. Wstring: the WSTRING half.
--   AmsBuilder: ams-builder/build.go. AmsHeader: ams-header/parse.go.
--   AdsHeader: ads-errors/parse.go and ads-header/parse.go.
--   Requests: ads-requests/build.go. StateInfo: ads-stateinfo/parse.go.
--   Symbol: ads-symbol/parse.go, and the walk over the uploaded table of client_symbols.go.
--   DataType: ads-datatype/parse.go (ParseDataType is parse_data_type); Image is the response
--     that a
--     device sends. AdsTypes: types/ADSDataType.go and types/ADSDataTypes.go.
--   Serializer: ads-serializer. Value is Go's `any`, Convert is convert.go, Write is
--     serialize.go and
--     Read is deserialize.go; Typed says which values are read back.
--   Client.Receive: client_buffer.go, as what becomes of a buffer of bytes.
--   Client.Exchange: client_send.go and client_send_utils.go, as the interleavings of calls of
--     `send`
--   (Sender, with its Phase) with the receive goroutine (Receiver). A Step is one action of one
--     of
--     them; a hand-over on an unbuffered channel is an action of both. Its Packet is the bytes of a
--     request.
--   Client.Commands: the commands of client_raw.go, client_control.go, client_control_info.go and
--     client_control_actions.go. Client.Symbols: GetSymbol, UploadInfo and UploadSymbols.
--   Client.DataTypes: client_data_types.go; Built says which type a name has by the declarations.
--   Client.Values: ReadValue, WriteValue, SubscribeValue and processNotification.
--   Client.Subscriptions: addSubscription, Unsubscribe and UnsubscribeAll.
--   Client.Notifications: parseNotification, filetimeToTime and handleNotification.
--   Client.Ports: ClientSettings with LoadDefaults, registerAdsPort and unregisterAdsPort, over
--     a Socket.
--   Client.Connection: NewClient, Connect, Disconnect, setupPlcConnection and the connect hook.
--   Client.Poller: client_state.go; its Tokens are the interleavings of timers, checks and calls.
--   Examples: the theorems at concrete inputs.
--
-- Bytes are numbers, and a Go string is its bytes; that they are below 256 is a hypothesis where
-- it matters. Sums of machine integers wrap where the code's can. A float is its bit pattern. A
-- duration is its nanoseconds, not negative outside of ClientSettings. Errors keep the sentinel
-- and its numbers, not the text. Slices have no capacity beyond their length, which is so of the
-- buffers that the code makes.
--
-- The commands take `send` as a parameter, with the state of the device behind it, and the
-- connection a Socket: the router and the device are outside of the code. What a theorem assumes
-- of a device is the answer to the request at hand, or the record Memory of
-- Client.Commands.Memory: a device that reads and writes cells by address, or the record
-- TypeServer of Client.DataTypes.Built: a device that describes the types of a table.
--
-- `process_receive_buffer` runs on fuel; one more than the buffer has bytes is enough, and
-- `exhausted` marks a run that had too little. A response goes into a channel without a buffer:
-- whether it is taken is the argument `takes`, and where it is not, the loop is `blocked` there.
-- `parse_entries` takes four bytes at least in each round, and gets one round more than there are
-- bytes. `parse_nested` nests to a depth; as many levels as the response has bytes are enough.
-- `build_data_type` follows the names that a device gives, which the code does without a bound: it
-- nests to a depth too, and what is called below it is a parameter.
--
-- A structure is a map, here the list of its fields in the order of their first assignment. What
-- the language does between floats, and to get the runes of a string, are parameters of the
-- serializer.
--
-- The poller's check is two halves: what it remembers before its reads of the device, and what it
-- does with their results on the client as it is then, so that other calls may come in between. The
-- reads are arguments, as results of any kind. The accesses under the client's locks are single
-- steps.
--
-- Not modelled: the sockets, the logging, the texts of errors and constants, and the
-- command line.
pub mod AdsHeader
pub mod AdsTypes
pub mod AmsBuilder
pub mod AmsHeader
pub mod Base
pub mod Client
pub mod DataType
pub mod Examples
pub mod NetId
pub mod Primitives
pub mod Requests
pub mod Serializer
pub mod StateInfo
pub mod Symbol
pub mod Wire
pub mod Wstring
