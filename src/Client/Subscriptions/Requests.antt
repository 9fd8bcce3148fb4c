-- ===== src/Client/Subscriptions/Requests.antt =====
-- What a device reads in the request for a notification.
use ads_go.Base.{ℕ, ◌*◌, ◌/◌, ◌<◌, ◌≡◌, refl, ap₂, ◌∙◌, ◌++◌, arith, ◌==◌, if◌then◌else◌}
use ads_go.Wire.{le_bytes, make_bytes}
use ads_go.Client.Subscriptions.{
  SubscriptionSettings, with_defaults, time_units, transmission_mode, add_notification_payload,
}

add_notification_payload-layout :
    (group offset size : ℕ) (settings : SubscriptionSettings)
    → add_notification_payload group offset size settings
      ≡ le_bytes 4 group
        ++ (le_bytes 4 offset
            ++ (le_bytes 4 size
                ++ (le_bytes 4 (transmission_mode settings.send_on_change)
                    ++ (le_bytes 4 (time_units settings.max_delay)
                        ++ (le_bytes 4 (time_units settings.cycle_time) ++ make_bytes 16)))))
unfolding add_notification_payload
add_notification_payload-layout group offset size settings = refl

-- The cycle time in units of 100 ns that is meant: 200 ms where changes are sent and none is set.
abbrev pub meant_units : SubscriptionSettings → ℕ
meant_units settings =
    if settings.send_on_change
    then (if settings.cycle_time == 0 then 2000000 else settings.cycle_time / 1000000 * 10000)
    else settings.cycle_time / 1000000 * 10000

-- The request of 40 bytes for a subscription whose times are below 429 seconds: address and size, the
-- mode 4 for changes and 3 for cycles, the delay and the cycle time in units of 100 ns, cut to whole
-- milliseconds, with 200 ms in place of no cycle time for changes only, and sixteen zeros.
pub subscription_request :
    (group offset size : ℕ) (settings : SubscriptionSettings)
    → settings.cycle_time < 429000000000
    → settings.max_delay < 429000000000
    → add_notification_payload group offset size (with_defaults settings)
      ≡ le_bytes 4 group
        ++ (le_bytes 4 offset
            ++ (le_bytes 4 size
                ++ (le_bytes 4 (if settings.send_on_change then 4 else 3)
                    ++ (le_bytes 4 (settings.max_delay / 1000000 * 10000)
                        ++ (le_bytes 4 (meant_units settings) ++ make_bytes 16)))))
subscription_request group offset size settings hc hd =
    add_notification_payload-layout group offset size (with_defaults settings)
    ∙ ap₂
        (λ m d. le_bytes 4 group ++ (le_bytes 4 offset ++ (le_bytes 4 size ++ (le_bytes 4 m ++ d))))
        (ground arith)
        (ap₂ (λ d c. le_bytes 4 d ++ (le_bytes 4 c ++ make_bytes 16)) (ground arith) (ground arith))
