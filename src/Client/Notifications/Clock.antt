-- ===== src/Client/Notifications/Clock.antt =====
-- Windows file times: no tick of a tenth of a microsecond is lost.
use ads_go.Base.{ℕ, ◌+◌, ◌-◌, ◌*◌, ◌/◌, ◌^◌, ◌<◌, ◌≡◌, arith}
use ads_go.Base.Integer.{ℤ, pos, negsuc}
use ads_go.Client.Notifications.{Time, windows_epoch_diff, filetime_to_time}

-- The ticks since 1601 of a time since 1970.
abbrev pub to_filetime : Time → ℕ
to_filetime t = from_seconds t.seconds + t.nanos / 100
  where
    from_seconds : ℤ → ℕ
    from_seconds (pos n) = (windows_epoch_diff + n) * 10000000
    from_seconds (negsuc n) = (windows_epoch_diff - 1 - n) * 10000000

-- Every 64-bit file time is converted exactly, also one before 1970, where the difference of the
-- unsigned seconds wraps; and the nanoseconds stay below a second.
pub filetime_to_time-exact :
    (filetime : ℕ)
    → filetime < 2 ^ 64
    → (to_filetime (filetime_to_time filetime) ≡ filetime)
      × ((filetime_to_time filetime).nanos < 1000000000)
unfolding filetime_to_time
filetime_to_time-exact filetime h = ground arith
