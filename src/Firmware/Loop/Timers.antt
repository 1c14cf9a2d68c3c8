-- ===== src/Firmware/Loop/Timers.antt =====
-- The boot timer and the power button pulse over every order of the firmware's events: callbacks,
-- polls, reports and alarms.
use pad_proxy.Base.{
  ℕ, ◌≡◌, ◌↔◌, ◌≢◌, Bool-cases, refl, inl, inr, Bool, true, false, if◌then◌else◌, arith,
}
use pad_proxy.Config.{DeviceConfig}
use pad_proxy.Config.Valid.{IsValid, init-IsValid}
use pad_proxy.Power.{
  booting, count, PowerState, boot_timeout, wake_requested, usb_enumerated, usb_suspended,
  power_led_on, power_led_off, sm_init,
}
use pad_proxy.Gamepad.{GamepadReport}
use pad_proxy.Gamepad.Slot.{ConnectionState, connected, disconnected}
use pad_proxy.Firmware.Hal.{
  AlarmSdk, AddsActive, hal_init, boot_timer_expired, power_btn_alarm_cb, boot_timer_alarm_cb,
}
use pad_proxy.Firmware.UsbDevice.{UsbState, mounted, suspended, not_mounted, UsbAnswers}
use pad_proxy.Firmware.Loop.{
  debounce, is_wakeable, is_on, Firmware, feed, on_usb_state_change, on_bt_event, poll_led,
  poll_boot_timer, poll_hardware, process_gamepad, setup, guide_rises, wake_on_guide, forward,
}
use pad_proxy.Firmware.Loop.Alarms.{running, Inv, feed-Inv, feed-Inv_other}

module _ {sdk : AlarmSdk} where
  pub poll_boot_timer-expired :
      (now_ms : ℕ) (s : Firmware sdk)
      → s.hal.boot_expired ≡ true
      → poll_boot_timer sdk now_ms s
        ≡ feed sdk boot_timeout now_ms (record s { hal = record s.hal { boot_expired = false } })
  unfolding poll_boot_timer boot_timer_expired
  poll_boot_timer-expired now_ms s expired = rw expired

  pub poll_boot_timer-waiting :
      (now_ms : ℕ) (s : Firmware sdk)
      → s.hal.boot_expired ≡ false
      → poll_boot_timer sdk now_ms s ≡ s
  unfolding poll_boot_timer boot_timer_expired
  poll_boot_timer-waiting now_ms s waiting = simp waiting

  poll_boot_timer-Inv :
      (now_ms : ℕ) (s : Firmware sdk) → AddsActive sdk → Inv s → Inv (poll_boot_timer sdk now_ms s)
  poll_boot_timer-Inv now_ms s adds i = elim (Bool-cases s.hal.boot_expired) [
    | inl expired ↦ rw (poll_boot_timer-expired now_ms s expired) (
        feed-Inv boot_timeout now_ms (record s { hal = record s.hal { boot_expired = false } })
          (running s.hal) adds i.config_valid i.real
          (record { pressed = i.hal_inv.pressed; one_end = λ e. cc e }) i.timed
          (ground (arith, i.hal_inv.one_end expired)))
    | inr waiting ↦ rw (poll_boot_timer-waiting now_ms s waiting) i
  ]

  if-Inv : {s t : Firmware sdk} (b : Bool) → Inv s → Inv t → Inv (if b then s else t)
  if-Inv true i j = i
  if-Inv false i j = j

  -- Only these fields matter.
  same-Inv :
      {s t : Firmware sdk}
      → Inv s
      → t.config ≡ s.config
      → t.power_sm ≡ s.power_sm
      → t.hal ≡ s.hal
      → Inv t
  same-Inv i c m h = record {
    config_valid = rw c i.config_valid;
    real = rw m i.real;
    hal_inv = rw h i.hal_inv;
    timed = rw (m, h) i.timed;
  }

  poll_led-Inv :
      (led : Bool) (now_ms : ℕ) (s : Firmware sdk)
      → AddsActive sdk
      → Inv s
      → Inv (poll_led sdk led now_ms s)
  unfolding poll_led
  poll_led-Inv led now_ms s adds i =
      let (l, edge) = debounce led now_ms s.led in
      let s1 = record s { led = l } in
      let i1 : Inv s1 = same-Inv i refl refl refl in
      let lit = feed-Inv_other power_led_on now_ms s1 adds refl i1 in
      let dark = feed-Inv_other power_led_off now_ms s1 adds refl i1 in
      if-Inv edge (if-Inv l.debounced lit dark) i1

  wake_on_guide-Inv :
      (pc_state : PowerState) (report : GamepadReport) (now_ms : ℕ) (s : Firmware sdk)
      → AddsActive sdk
      → Inv s
      → Inv (wake_on_guide sdk pc_state report now_ms s)
  unfolding wake_on_guide
  wake_on_guide-Inv pc_state report now_ms s adds i =
      if-Inv (guide_rises sdk report s)
        (if-Inv (is_wakeable pc_state) (feed-Inv_other wake_requested now_ms s adds refl i) i) i

  process_gamepad-Inv :
      (usb : UsbAnswers) (report : GamepadReport) (now_ms : ℕ) (s : Firmware sdk)
      → AddsActive sdk
      → Inv s
      → Inv (process_gamepad sdk usb report now_ms s)
  unfolding process_gamepad forward
  process_gamepad-Inv usb report now_ms s adds i =
      let i1 = wake_on_guide-Inv s.power_sm.state report now_ms s adds i in
      let i2 = if-Inv (is_on s.power_sm.state) (same-Inv i1 refl refl refl) i1 in
      same-Inv i2 refl refl refl

  on_usb_state_change-Inv :
      (u : UsbState) (now_ms : ℕ) (s : Firmware sdk)
      → AddsActive sdk
      → Inv s
      → Inv (on_usb_state_change sdk u now_ms s)
  unfolding on_usb_state_change
  on_usb_state_change-Inv mounted now_ms s adds i =
      feed-Inv_other usb_enumerated now_ms s adds refl i
  on_usb_state_change-Inv suspended now_ms s adds i =
      feed-Inv_other usb_suspended now_ms s adds refl i
  on_usb_state_change-Inv not_mounted now_ms s adds i =
      feed-Inv_other usb_suspended now_ms s adds refl i

  setup-Inv : (led : Bool) (s : Firmware sdk) → Inv (setup sdk led s)
  unfolding setup sm_init hal_init
  setup-Inv led s = record {
    config_valid = init-IsValid.1;
    real = ground arith;
    hal_inv = record { pressed = refl; one_end = λ e. refl };
    timed = refl;
  }

  -- What the firmware can do next: a USB or Bluetooth callback, a poll of the hardware, a report, the
  -- alarm of the button or of the boot timer (each only when set), or a change of the settings.
  pub data Step (s : Firmware sdk) : Firmware sdk → Type 0 where
    usb : (u : UsbState) (now_ms : ℕ) → Step s (on_usb_state_change sdk u now_ms s)
    bt : (c : ConnectionState) → Step s (on_bt_event sdk c s)
    poll : (led : Bool) (now_ms : ℕ) → Step s (poll_hardware sdk led now_ms s)
    report :
        (answers : UsbAnswers) (r : GamepadReport) (now_ms : ℕ)
        → Step s (process_gamepad sdk answers r now_ms s)
    pulse_over : s.hal.btn_alarm ≢ 0 → Step s (record s { hal = power_btn_alarm_cb sdk s.hal })
    boot_over : s.hal.boot_alarm ≢ 0 → Step s (record s { hal = boot_timer_alarm_cb sdk s.hal })
    configured : (cfg : DeviceConfig) → IsValid cfg → Step s (record s { config = cfg })

  pub data Reach : Firmware sdk → Type 0 where
    start : (led : Bool) (s : Firmware sdk) → Reach (setup sdk led s)
    next : {s t : Firmware sdk} → Reach s → Step s t → Reach t

  Step-Inv : {s t : Firmware sdk} → AddsActive sdk → Step s t → Inv s → Inv t
  unfolding on_bt_event poll_hardware power_btn_alarm_cb boot_timer_alarm_cb
  Step-Inv {s} adds (usb u now_ms) i = on_usb_state_change-Inv u now_ms s adds i
  Step-Inv {s} adds (bt connected) i = i
  Step-Inv {s} adds (bt disconnected) i = same-Inv i refl refl refl
  Step-Inv {s} adds (poll led now_ms) i =
      poll_boot_timer-Inv now_ms (poll_led sdk led now_ms s) adds (poll_led-Inv led now_ms s adds i)
  Step-Inv {s} adds (report answers r now_ms) i = process_gamepad-Inv answers r now_ms s adds i
  Step-Inv {s} adds (pulse_over set) i = record {
    config_valid = i.config_valid;
    real = i.real;
    hal_inv = record { pressed = refl; one_end = i.hal_inv.one_end };
    timed = i.timed;
  }
  Step-Inv {s} adds (boot_over set) i = record {
    config_valid = i.config_valid;
    real = i.real;
    hal_inv = record { pressed = i.hal_inv.pressed; one_end = λ e. refl };
    timed = ground (arith, i.timed);
  }
  Step-Inv {s} adds (configured cfg v) i = record {
    config_valid = v;
    real = i.real;
    hal_inv = i.hal_inv;
    timed = i.timed;
  }

  pub Reach-Inv : {s : Firmware sdk} → AddsActive sdk → Reach s → Inv s
  Reach-Inv adds (start led s) = setup-Inv led s
  Reach-Inv adds (next r step) = Step-Inv adds step (Reach-Inv adds r)

  -- In every state the firmware reaches, in any order of callbacks, polls, reports and alarms, and when
  -- every alarm that is added becomes active: the boot timer runs, or has run out unread, exactly when
  -- the state machine is in BOOTING; the power button is pressed exactly when its release alarm is
  -- set; and the state is not PC_STATE_COUNT.
  pub alarms_follow_state :
      {s : Firmware sdk}
      → AddsActive sdk
      → Reach s
      → ((running s.hal ≡ true) ↔ (s.power_sm.state ≡ booting))
        × ((s.hal.trigger_pin ≡ true) ↔ (s.hal.btn_alarm ≢ 0))
        × (s.power_sm.state ≢ count)
  alarms_follow_state adds r =
      let i = Reach-Inv adds r in ground (arith, i.timed, i.hal_inv.pressed, i.real)
