-- ===== src/Examples.antt =====
-- The theorems at concrete frames, values and devices.
mod Frames
mod Devices
mod Exchanges
mod Calls
mod Types
mod Serialized
mod Connections
mod Wide
use ads_go.Base.{ℕ, ◌≡◌, ◌<◌, Bool, true, ◌&&◌, [], ◌∷◌, All, arith, ltb, ltb→lt}
use ads_go.Wire.{Bytes, IsByte}

abbrev pub all_bytes : Bytes → Bool
all_bytes [] = true
all_bytes (b ∷ bytes) = ltb b 256 && all_bytes bytes

pub all_bytes-IsByte : (bytes : Bytes) → all_bytes bytes ≡ true → All IsByte bytes
all_bytes-IsByte [] h = tt
all_bytes-IsByte (b ∷ bytes) h = ground (arith, all_bytes-IsByte bytes)
