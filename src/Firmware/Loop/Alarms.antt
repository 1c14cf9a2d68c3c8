-- ===== src/Firmware/Loop/Alarms.antt =====
-- The alarms of the hardware layer under the actions of the state machine.
use pad_proxy.Base.{
  ℕ, ◌<◌, ◌≡◌, ◌≢◌, refl, ◌∙◌, ap, Bool, true, false, ◌||◌, not, ◌==◌, if◌then◌else◌, arith,
}
use pad_proxy.Config.{DeviceConfig}
use pad_proxy.Config.Valid.{IsValid}
use pad_proxy.Power.{count, PowerEvent, trigger_power, start_boot_timer, cancel_boot_timer, process}
use pad_proxy.Power.Traces.{
  after_actions, is_timeout, is_booting, has_action, after_actions-process,
}
use pad_proxy.Firmware.Hal.{
  without_btn_alarm, without_boot_alarm, power_btn_cb, boot_timer_cb, AlarmSdk, AddsActive, Hal,
  trigger_power_button, hal_start_boot_timer, hal_cancel_boot_timer,
}
use pad_proxy.Firmware.Loop.{press_if, start_if, cancel_if, Firmware, dispatch_actions, feed}

module _ {sdk : AlarmSdk} where
  -- The boot timer counts or has run out unread.
  abbrev pub running : Hal sdk → Bool
  running h = not (h.boot_alarm == 0) || h.boot_expired

  -- What the alarm ids say of the pin and the timer.
  pub record HalInv (h : Hal sdk) : Type 0 where
    pub pressed : h.trigger_pin ≡ not (h.btn_alarm == 0)
    pub one_end : h.boot_expired ≡ true → h.boot_alarm ≡ 0

  pub record Inv (s : Firmware sdk) : Type 0 where
    pub config_valid : IsValid s.config
    pub real : s.power_sm.state ≢ count
    pub hal_inv : HalInv s.hal
    pub timed : running s.hal ≡ is_booting s.power_sm.state

  trigger_power_button-HalInv :
      (ms : ℕ) (h : Hal sdk)
      → AddsActive sdk
      → 0 < ms
      → HalInv h
      → HalInv (trigger_power_button sdk ms h)
        × (running (trigger_power_button sdk ms h) ≡ running h)
  unfolding trigger_power_button
  trigger_power_button-HalInv ms h adds pos i =
      ground (arith, adds ms power_btn_cb (without_btn_alarm sdk h).pool pos)

  hal_start_boot_timer-HalInv :
      (ms : ℕ) (h : Hal sdk)
      → AddsActive sdk
      → 0 < ms
      → HalInv h
      → HalInv (hal_start_boot_timer sdk ms h) × (running (hal_start_boot_timer sdk ms h) ≡ true)
  unfolding hal_start_boot_timer
  hal_start_boot_timer-HalInv ms h adds pos i =
      ground (arith, adds ms boot_timer_cb (without_boot_alarm sdk h).pool pos)

  hal_cancel_boot_timer-HalInv :
      (h : Hal sdk)
      → HalInv h
      → HalInv (hal_cancel_boot_timer sdk h) × (running (hal_cancel_boot_timer sdk h) ≡ false)
  unfolding hal_cancel_boot_timer
  hal_cancel_boot_timer-HalInv h i = ground arith

  press_if-HalInv :
      (asked : Bool) (cfg : DeviceConfig) (h : Hal sdk)
      → AddsActive sdk
      → IsValid cfg
      → HalInv h
      → HalInv (press_if sdk asked cfg h) × (running (press_if sdk asked cfg h) ≡ running h)
  unfolding press_if
  press_if-HalInv true cfg h adds v i =
      trigger_power_button-HalInv cfg.power_pulse_ms h adds (omega (arith, v.pulse_min)) i
  press_if-HalInv false cfg h adds v i = (i, refl)

  start_if-HalInv :
      (asked : Bool) (cfg : DeviceConfig) (h : Hal sdk)
      → AddsActive sdk
      → IsValid cfg
      → HalInv h
      → HalInv (start_if sdk asked cfg h)
        × (running (start_if sdk asked cfg h) ≡ (if asked then true else running h))
  unfolding start_if
  start_if-HalInv true cfg h adds v i =
      hal_start_boot_timer-HalInv cfg.boot_timeout_ms h adds (omega (arith, v.timeout_min)) i
  start_if-HalInv false cfg h adds v i = (i, refl)

  cancel_if-HalInv :
      (asked : Bool) (h : Hal sdk)
      → HalInv h
      → HalInv (cancel_if sdk asked h)
        × (running (cancel_if sdk asked h) ≡ (if asked then false else running h))
  unfolding cancel_if
  cancel_if-HalInv true h i = hal_cancel_boot_timer-HalInv h i
  cancel_if-HalInv false h i = (i, refl)

  dispatch_actions-HalInv :
      (actions : ℕ) (s : Firmware sdk)
      → AddsActive sdk
      → IsValid s.config
      → HalInv s.hal
      → HalInv (dispatch_actions sdk actions s).hal
        × (running (dispatch_actions sdk actions s).hal ≡ after_actions actions (running s.hal))
  unfolding dispatch_actions
  dispatch_actions-HalInv actions s adds v i =
      let a1 = has_action actions trigger_power in
      let a2 = has_action actions start_boot_timer in
      let a3 = has_action actions cancel_boot_timer in
      let h1 = press_if sdk a1 s.config s.hal in
      let h2 = start_if sdk a2 s.config h1 in
      let (i1, r1) = press_if-HalInv a1 s.config s.hal adds v i in
      let (i2, r2) = start_if-HalInv a2 s.config h1 adds v i1 in
      let (i3, r3) = cancel_if-HalInv a3 h2 i2 in
      (i3, r3 ∙ ap (λ b. if a3 then false else b) (r2 ∙ ap (λ b. if a2 then true else b) r1))

  -- An event other than the timer's expiry, or the expiry once the timer no longer runs.
  pub feed-Inv :
      (e : PowerEvent) (now_ms : ℕ) (s : Firmware sdk) (armed : Bool)
      → AddsActive sdk
      → IsValid s.config
      → s.power_sm.state ≢ count
      → HalInv s.hal
      → armed ≡ is_booting s.power_sm.state
      → running s.hal ≡ (if is_timeout e then false else armed)
      → Inv (feed sdk e now_ms s)
  unfolding feed dispatch_actions
  feed-Inv e now_ms s armed adds v real i timed runs =
      let (sm, r) = process s.power_sm e now_ms in
      let (i', runs') = dispatch_actions-HalInv r.actions (record s { power_sm = sm }) adds v i in
      let (timed', real') = after_actions-process s.power_sm e now_ms armed real timed in
      record {
        config_valid = v;
        real = real';
        hal_inv = i';
        timed = runs' ∙ ap (after_actions r.actions) runs ∙ timed';
      }

  pub feed-Inv_other :
      (e : PowerEvent) (now_ms : ℕ) (s : Firmware sdk)
      → AddsActive sdk
      → is_timeout e ≡ false
      → Inv s
      → Inv (feed sdk e now_ms s)
  feed-Inv_other e now_ms s adds other i =
      feed-Inv e now_ms s (running s.hal) adds i.config_valid i.real i.hal_inv i.timed (rw other)
