-- ===== src/Power/Tests.antt =====
-- Runs of the power state machine.
use pad_proxy.Base.{true, false, [], ◌∷◌, ◌≡◌, ◌↔◌, ◌≤◌, refl}
use pad_proxy.Power.{
  booting, on, wake_requested, usb_enumerated, usb_suspended, power_led_on, process,
}
use pad_proxy.Power.Traces.{History, watch, watch_start, wakes, pulses-le-wakes, last_usb, on_iff}

abbrev evening : History
evening =
    (wake_requested, 100)
    ∷ (wake_requested, 140)
    ∷ (power_led_on, 900)
    ∷ (usb_enumerated, 9000)
    ∷ (usb_suspended, 70000)
    ∷ (wake_requested, 90000)
    ∷ []

evening_runs :
    ((watch watch_start evening).machine.state ≡ booting)
    × ((watch watch_start evening).armed ≡ true)
    × ((watch watch_start evening).pulses ≡ 2)
unfolding watch watch_start process
evening_runs = (refl, refl, refl)

-- USB was enumerated last, and then suspended.
on_iff_example : ((watch watch_start evening).machine.state ≡ on) ↔ (last_usb false evening ≡ true)
on_iff_example = on_iff evening

pulses-le-wakes_example : (watch watch_start evening).pulses ≤ wakes evening
pulses-le-wakes_example = pulses-le-wakes evening
