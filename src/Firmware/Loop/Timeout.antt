-- ===== src/Firmware/Loop/Timeout.antt =====
-- How the firmware leaves BOOTING when the PC does not come up.
use pad_proxy.Base.{ℕ, ◌≡◌, ◌≢◌, ◌⊎◌, Bool-cases, ap, refl, ◌∙◌, inl, inr, Bool, true, false, arith}
use pad_proxy.Power.{booting, off, boot_timeout, process, power_led_on, power_led_off}
use pad_proxy.Power.Traces.{is_booting}
use pad_proxy.Firmware.Hal.{AlarmSdk, AddsActive, hal_cancel_boot_timer}
use pad_proxy.Firmware.Loop.{
  debounce, press_if, start_if, cancel_if, Firmware, dispatch_actions, feed, poll_led,
  poll_hardware,
}
use pad_proxy.Firmware.Loop.Timers.{
  poll_boot_timer-expired, poll_boot_timer-waiting, Reach, Reach-Inv,
}

module _ {sdk : AlarmSdk} where
  feed-led_on :
      (now_ms : ℕ) (s : Firmware sdk)
      → s.power_sm.state ≡ booting
      → ((feed sdk power_led_on now_ms s).power_sm.state ≡ booting)
        × ((feed sdk power_led_on now_ms s).hal ≡ s.hal)
  unfolding feed dispatch_actions press_if start_if cancel_if process
  feed-led_on now_ms s b = simp b (refl, refl)

  feed-led_off :
      (now_ms : ℕ) (s : Firmware sdk)
      → s.power_sm.state ≡ booting
      → ((feed sdk power_led_off now_ms s).power_sm.state ≡ off)
        × ((feed sdk power_led_off now_ms s).hal.boot_expired ≡ false)
  unfolding feed dispatch_actions press_if start_if cancel_if process hal_cancel_boot_timer
  feed-led_off now_ms s b = simp b (refl, refl)

  feed-timeout :
      (now_ms : ℕ) (s : Firmware sdk)
      → s.power_sm.state ≡ booting
      → (feed sdk boot_timeout now_ms s).power_sm.state ≡ off
  unfolding feed dispatch_actions process
  feed-timeout now_ms s b = simp b

  poll_led-booting :
      (led : Bool) (now_ms : ℕ) (s : Firmware sdk)
      → s.power_sm.state ≡ booting
      → (((poll_led sdk led now_ms s).power_sm.state ≡ off)
          × ((poll_led sdk led now_ms s).hal.boot_expired ≡ false))
        ⊎ (((poll_led sdk led now_ms s).power_sm.state ≡ booting)
            × ((poll_led sdk led now_ms s).hal.boot_expired ≡ s.hal.boot_expired))
  unfolding poll_led
  poll_led-booting led now_ms s b =
      let (l, edge) = debounce led now_ms s.led in
      let s1 = record s { led = l } in
      ground (arith, feed-led_on now_ms s1 b, feed-led_off now_ms s1 b)

  times_out :
      (led : Bool) (now_ms : ℕ) (s : Firmware sdk)
      → s.power_sm.state ≡ booting
      → s.hal.boot_expired ≡ true
      → (poll_hardware sdk led now_ms s).power_sm.state ≡ off
  unfolding poll_hardware
  times_out led now_ms s b expired =
      let s1 = poll_led sdk led now_ms s in
      elim (poll_led-booting led now_ms s b) [
        | inl (gone, read) ↦
            ap (λ x. x.power_sm.state) (poll_boot_timer-waiting now_ms s1 read) ∙ gone
        | inr (stays, kept) ↦
            ap (λ x. x.power_sm.state) (poll_boot_timer-expired now_ms s1 (kept ∙ expired))
            ∙ feed-timeout now_ms (record s1 { hal = record s1.hal { boot_expired = false } }) stays
      ]

  -- In every state the firmware reaches, BOOTING comes to an end: its timer's alarm is set, or the
  -- timer has run out and the next poll of the hardware, whatever it reads from the LED, leaves the
  -- machine in OFF.
  pub booting_times_out :
      {s : Firmware sdk}
      → AddsActive sdk
      → Reach s
      → s.power_sm.state ≡ booting
      → (s.hal.boot_alarm ≢ 0)
        ⊎ ((led : Bool) (now_ms : ℕ) → (poll_hardware sdk led now_ms s).power_sm.state ≡ off)
  booting_times_out {s} adds r b =
      let runs = (Reach-Inv adds r).timed ∙ ap is_booting b in
      elim (Bool-cases s.hal.boot_expired) [
        | inl expired ↦ inr (λ led now_ms. times_out led now_ms s b expired)
        | inr waiting ↦ inl (ground (arith, runs))
      ]
