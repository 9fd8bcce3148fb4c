-- ===== src/StateInfo.antt =====
-- pkg/ads/ads-stateinfo: types.go and parse.go.
pub mod Parses
use ads_go.Base.{
  ℕ, ◌+◌, List, [], ◌∷◌, ◌++◌, Result, ok, err, panic, Error, invalid_state_length,
  invalid_extended_state_length, invalid_device_info_length, ◌>>=◌, ◌>>◌, fail_if, ltb, ◌==◌,
  length, slice, index, if◌then◌else◌,
}
use ads_go.Wire.{Bytes, uint_at}
use mathlib.Core.List.{reverse}

pub record SystemState : Type 0 where
  pub ads_state : ℕ
  pub device_state : ℕ

pub record ExtendedSystemState : Type 0 where
  pub ads_state : ℕ
  pub device_state : ℕ
  pub restart_index : ℕ
  pub version : ℕ
  pub revision : ℕ
  pub build : ℕ
  pub platform : ℕ
  pub os_type : ℕ
  pub flags : ℕ

pub record DeviceInfo : Type 0 where
  pub major_version : ℕ
  pub minor_version : ℕ
  pub version_build : ℕ
  pub device_name : Bytes

unfoldable pub parse_system_state : Bytes → Result SystemState
parse_system_state bytes = do
  fail_if (ltb (length bytes) 4) (invalid_state_length (length bytes))
  ads_state ← uint_at 0 2 bytes
  device_state ← uint_at 2 4 bytes
  ok (record { ads_state = ads_state; device_state = device_state })

unfoldable pub check_system_state : Bytes → Result (Unit {0})
check_system_state bytes = fail_if (ltb (length bytes) 4) (invalid_state_length (length bytes))

unfoldable pub parse_extended_system_state : Bytes → Result ExtendedSystemState
parse_extended_system_state bytes = do
  fail_if (ltb (length bytes) 16) (invalid_extended_state_length (length bytes))
  ads_state ← uint_at 0 2 bytes
  device_state ← uint_at 2 4 bytes
  restart_index ← uint_at 4 6 bytes
  version ← index 6 bytes
  revision ← index 7 bytes
  build ← uint_at 8 10 bytes
  platform ← index 10 bytes
  os_type ← index 11 bytes
  flags ← uint_at 12 14 bytes
  ok (record {
    ads_state = ads_state;
    device_state = device_state;
    restart_index = restart_index;
    version = version;
    revision = revision;
    build = build;
    platform = platform;
    os_type = os_type;
    flags = flags;
  })

unfoldable pub check_extended_system_state : Bytes → Result (Unit {0})
check_extended_system_state bytes =
    fail_if (ltb (length bytes) 16) (invalid_extended_state_length (length bytes))

-- `bytes.Trim(b, "\x00")`.
abbrev pub trim_front : Bytes → Bytes
trim_front [] = []
trim_front (b ∷ bytes) = if b == 0 then trim_front bytes else b ∷ bytes

unfoldable pub trim_zeros : Bytes → Bytes
trim_zeros bytes = reverse (trim_front (reverse (trim_front bytes)))

-- The test for the empty response stands in front of the one for the length.
unfoldable pub parse_device_info : Bytes → Result DeviceInfo
parse_device_info bytes =
    if length bytes == 0
    then ok (record { major_version = 0; minor_version = 0; version_build = 0; device_name = [] })
    else do
      fail_if (ltb (length bytes) 20) (invalid_device_info_length (length bytes))
      major_version ← index 0 bytes
      minor_version ← index 1 bytes
      version_build ← uint_at 2 4 bytes
      name ← slice 4 20 bytes
      ok (record {
        major_version = major_version;
        minor_version = minor_version;
        version_build = version_build;
        device_name = trim_zeros name;
      })

unfoldable pub check_device_info : Bytes → Result (Unit {0})
check_device_info bytes =
    if length bytes == 0
    then ok tt
    else fail_if (ltb (length bytes) 20) (invalid_device_info_length (length bytes))
