-- ===== src/Firmware/Loop.antt =====
-- The shared state of firmware/src/main.c and the functions that its loop and callbacks run.
pub mod Alarms
pub mod Timers
pub mod Timeout
pub mod Wake
pub mod Debounce
pub mod Tests
use pad_proxy.Base.{
  ℕ, ◌≤◌, ◌<◌, ◌≡◌, Bool, true, false, ◌&&◌, ◌||◌, not, Option, none, some, List, [], ◌∷◌, ◌++◌,
  bit_and, ◌==◌, leb, u32_sub, if◌then◌else◌,
}
use pad_proxy.Config.{DeviceConfig, init_config}
use pad_proxy.Power.{
  PowerState, off, booting, on, sleeping, PowerEvent, wake_requested, usb_enumerated, usb_suspended,
  power_led_on, power_led_off, boot_timeout, trigger_power, start_boot_timer, cancel_boot_timer,
  PowerMachine, PowerResult, process, sm_init, get_state,
}
use pad_proxy.Gamepad.{GamepadReport, guide_pressed}
use pad_proxy.Gamepad.Slot.{ConnectionState, connected, disconnected}
use pad_proxy.Gamepad.Usb.{UsbReport}
use pad_proxy.Firmware.Hal.{
  AlarmSdk, Hal, hal_init, trigger_power_button, hal_start_boot_timer, hal_cancel_boot_timer,
  boot_timer_expired,
}
use pad_proxy.Firmware.UsbDevice.{
  UsbState, mounted, suspended, not_mounted, UsbAnswers, send_report,
}

abbrev pub power_led_stable_ms : ℕ
power_led_stable_ms = 3000

-- The debounced power LED.
pub record Led : Type 0 where
  pub reading : Bool  -- s_led_reading
  pub debounced : Bool  -- s_led_debounced
  pub changed_ms : ℕ  -- s_led_changed_ms

abbrev pub differs : Bool → Bool → Bool
differs true b = not b
differs false b = b

-- `if (led != s_led_reading) …`
sample : Bool → ℕ → Led → Led
sample led now_ms l =
    if differs led l.reading then record l { reading = led; changed_ms = now_ms } else l

-- The test of the edge event.
is_stable : ℕ → Led → Bool
is_stable now_ms l =
    differs l.reading l.debounced && leb power_led_stable_ms (u32_sub now_ms l.changed_ms)

-- The LED half of `poll_hardware`: the new LED state, and whether an edge event is due.
unfoldable pub debounce : Bool → ℕ → Led → Led × Bool
unfolding sample is_stable
debounce led now_ms l0 =
    let l = sample led now_ms l0 in
    if is_stable now_ms l then (record l { debounced = l.reading }, true) else (l, false)

abbrev handed : Option UsbReport → List UsbReport
handed none = []
handed (some r) = r ∷ []

abbrev is_wakeable : PowerState → Bool
is_wakeable off = true
is_wakeable sleeping = true
is_wakeable _ = false

abbrev is_on : PowerState → Bool
is_on on = true
is_on _ = false

module _ (sdk : AlarmSdk) where
  pub record Firmware : Type 0 where
    pub power_sm : PowerMachine
    pub config : DeviceConfig
    pub prev_report : GamepadReport
    pub prev_report_valid : Bool
    pub led : Led
    pub hal : Hal sdk
    pub sent : List UsbReport  -- the reports handed to TinyUSB, oldest first

  -- The three `if`s of `dispatch_actions`.
  press_if : Bool → DeviceConfig → Hal sdk → Hal sdk
  press_if asked cfg h = if asked then trigger_power_button sdk cfg.power_pulse_ms h else h

  start_if : Bool → DeviceConfig → Hal sdk → Hal sdk
  start_if asked cfg h = if asked then hal_start_boot_timer sdk cfg.boot_timeout_ms h else h

  cancel_if : Bool → Hal sdk → Hal sdk
  cancel_if asked h = if asked then hal_cancel_boot_timer sdk h else h

  unfoldable pub dispatch_actions : ℕ → Firmware → Firmware
  unfolding press_if start_if cancel_if
  dispatch_actions actions s =
      let h1 = press_if (not (bit_and actions trigger_power == 0)) s.config s.hal in
      let h2 = start_if (not (bit_and actions start_boot_timer == 0)) s.config h1 in
      record s { hal = cancel_if (not (bit_and actions cancel_boot_timer == 0)) h2 }

  -- `r = pc_power_sm_process(&s_power_sm, event, now); dispatch_actions(r.actions);`
  unfoldable pub feed : PowerEvent → ℕ → Firmware → Firmware
  feed event now_ms s =
      let (sm, r) = process s.power_sm event now_ms in
      dispatch_actions r.actions (record s { power_sm = sm })

  unfoldable pub on_usb_state_change : UsbState → ℕ → Firmware → Firmware
  on_usb_state_change mounted now_ms s = feed usb_enumerated now_ms s
  on_usb_state_change suspended now_ms s = feed usb_suspended now_ms s
  on_usb_state_change not_mounted now_ms s = feed usb_suspended now_ms s

  unfoldable pub on_bt_event : ConnectionState → Firmware → Firmware
  on_bt_event connected s = s
  on_bt_event disconnected s = record s { prev_report_valid = false }

  -- The LED part of `poll_hardware`, then the boot timer.
  unfoldable pub poll_led : Bool → ℕ → Firmware → Firmware
  poll_led led now_ms s =
      let (l, edge) = debounce led now_ms s.led in
      let s1 = record s { led = l } in
      if edge
      then (if l.debounced then feed power_led_on now_ms s1 else feed power_led_off now_ms s1)
      else s1

  unfoldable pub poll_boot_timer : ℕ → Firmware → Firmware
  poll_boot_timer now_ms s =
      let (h, expired) = boot_timer_expired sdk s.hal in
      let s1 = record s { hal = h } in if expired then feed boot_timeout now_ms s1 else s1

  -- `poll_hardware`, with the LED as `pc_power_hal_read_power_led` returns it.
  unfoldable pub poll_hardware : Bool → ℕ → Firmware → Firmware
  poll_hardware led now_ms s = poll_boot_timer now_ms (poll_led led now_ms s)

  -- The rising edge of the guide button, with no edge known before the first report.
  unfoldable pub guide_rises : GamepadReport → Firmware → Bool
  guide_rises report s =
      let guide_now = guide_pressed report in
      let guide_prev = s.prev_report_valid && guide_pressed s.prev_report in
      guide_now && not guide_prev

  -- `if (guide_now && !guide_prev) { if (pc_state == …) … }`
  unfoldable pub wake_on_guide : PowerState → GamepadReport → ℕ → Firmware → Firmware
  wake_on_guide pc_state report now_ms s =
      if guide_rises report s
      then (if is_wakeable pc_state then feed wake_requested now_ms s else s)
      else s

  -- `if (pc_state == PC_STATE_ON) …`
  unfoldable pub forward : PowerState → UsbAnswers → GamepadReport → Firmware → Firmware
  forward pc_state usb report s =
      if is_on pc_state then record s { sent = s.sent ++ handed (send_report usb report).1 } else s

  -- The report goes to USB by the state as it was before the wake.
  unfoldable pub process_gamepad : UsbAnswers → GamepadReport → ℕ → Firmware → Firmware
  process_gamepad usb report now_ms s =
      let pc_state = get_state s.power_sm in
      let s1 = wake_on_guide pc_state report now_ms s in
      let s2 = forward pc_state usb report s1 in
      record s2 { prev_report = report; prev_report_valid = true }

  -- What `main` sets up before the loop: `device_config_init`, the power management and the LED, read
  -- once.
  unfoldable pub setup : Bool → Firmware → Firmware
  setup led s = record s {
    config = init_config;
    hal = hal_init sdk s.hal;
    power_sm = sm_init;
    led = record { reading = led; debounced = led; changed_ms = 0 };
  }
