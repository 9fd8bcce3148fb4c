-- ===== src/DataType.antt =====
-- pkg/ads/ads-datatype: types.go and parse.go, the description of a type on the device.
pub mod Types
pub mod Optional
pub mod Parse
pub mod Image
pub mod Blocks
pub mod Optionals
pub mod RoundTrip
pub mod Zeros
pub mod Ahead
pub mod Ends
