-- ===== src/Client.antt =====
-- pkg/ads: the client over the packages below it.
pub mod Receive
pub mod Exchange
pub mod Commands
pub mod Symbols
pub mod DataTypes
pub mod Values
pub mod Subscriptions
pub mod Notifications
pub mod Poller
pub mod Ports
pub mod Connection
