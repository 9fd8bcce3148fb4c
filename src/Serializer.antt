-- ===== src/Serializer.antt =====
-- pkg/ads/ads-serializer: convert.go, serialize.go and deserialize.go, values as bytes by their type.
pub mod Value
pub mod Convert
pub mod Write
pub mod Read
pub mod Typed
pub mod Scalars
pub mod Arrays
pub mod Layout
pub mod Places
pub mod RoundTrip
pub mod Ranges
pub mod Refusals
