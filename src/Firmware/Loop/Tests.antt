-- ===== src/Firmware/Loop/Tests.antt =====
-- Runs of the firmware, with an alarm pool that hands out the ids 1, 2, …
use pad_proxy.Base.{
  ℕ, suc, ◌≤◌, ◌<◌, ◌≡◌, ◌≢◌, ◌⊎◌, ◌↔◌, refl, Bool, true, false, [], ◌∷◌, u32_sub, if◌then◌else◌,
  arith,
}
use pad_proxy.Base.Int.{pos}
use pad_proxy.Config.{init_config}
use pad_proxy.Power.{off, booting, sleeping, on, count, process, sm_init}
use pad_proxy.Gamepad.{GamepadReport, guide_pressed}
use pad_proxy.Firmware.Hal.{
  hal_init, trigger_power_button, hal_start_boot_timer, boot_timer_alarm_cb, AlarmSdk, AddsActive,
}
use pad_proxy.Firmware.UsbDevice.{send_report, UsbAnswers}
use pad_proxy.Firmware.Loop.{
  guide_rises, wake_on_guide, forward, feed, dispatch_actions, press_if, start_if, cancel_if, Led,
  Firmware, process_gamepad, poll_hardware, debounce, setup, power_led_stable_ms,
}
use pad_proxy.Firmware.Loop.Alarms.{running}
use pad_proxy.Firmware.Loop.Timers.{Reach, start, next, report, boot_over, alarms_follow_state}
use pad_proxy.Firmware.Loop.Timeout.{booting_times_out}
use pad_proxy.Firmware.Loop.Wake.{IsGuideEdge, Reports, process_reports, wakes_iff, held_guide}
use pad_proxy.Firmware.Loop.Debounce.{
  Samples, Run, begun, goes_on, led_after, accepted, accepts_iff, accepted-IsBlinking,
}

abbrev pub counter : AlarmSdk
counter = record {
  Pool = ℕ;
  add_alarm = λ delay_ms cb pool. (suc pool, suc pool);
  cancel = λ id pool. pool;
}

pub counter-AddsActive : AddsActive counter
counter-AddsActive delay_ms cb pool later = λ e. omega (arith, e)

abbrev idle_pad : GamepadReport
idle_pad = record {
  lx = pos 0;
  ly = pos 0;
  rx = pos 0;
  ry = pos 0;
  lt = 0;
  rt = 0;
  buttons = 0;
  dpad = 0;
}

-- Only the guide button.
abbrev guide : GamepadReport
guide = record idle_pad { buttons = 1024 }

abbrev dark : Led
dark = record { reading = false; debounced = false; changed_ms = 0 }

abbrev pub blank : Firmware counter
blank = record {
  power_sm = record { state = off; last_transition_ms = 0 };
  config = init_config;
  prev_report = idle_pad;
  prev_report_valid = false;
  led = dark;
  hal = record {
    trigger_pin = false;
    btn_alarm = 0;
    boot_alarm = 0;
    boot_expired = false;
    pool = 0;
  };
  sent = [];
}

abbrev pub ready_usb : UsbAnswers
ready_usb = record { is_mounted = true; hid_ready = true; queued = true }

abbrev begin : Firmware counter
begin = setup counter false blank

abbrev woken : Firmware counter
woken = process_gamepad counter ready_usb guide 100 begin

woken-Reach : Reach woken
woken-Reach = next (start false blank) (report ready_usb guide 100)

woken_boots : (woken.power_sm.state ≡ booting) × (woken.hal.trigger_pin ≡ true)
unfolding setup hal_init sm_init process_gamepad guide_rises wake_on_guide forward send_report feed
    dispatch_actions press_if start_if cancel_if process trigger_power_button hal_start_boot_timer
    guide_pressed
woken_boots = (refl, refl)

alarms_follow_state_example :
    ((running woken.hal ≡ true) ↔ (woken.power_sm.state ≡ booting))
    × ((woken.hal.trigger_pin ≡ true) ↔ (woken.hal.btn_alarm ≢ 0))
    × (woken.power_sm.state ≢ count)
alarms_follow_state_example = alarms_follow_state counter-AddsActive woken-Reach

woken-boot_alarm : woken.hal.boot_alarm ≢ 0
unfolding setup hal_init sm_init process_gamepad guide_rises wake_on_guide forward send_report feed
    dispatch_actions press_if start_if cancel_if process trigger_power_button hal_start_boot_timer
    guide_pressed
woken-boot_alarm = λ e. omega (arith, e)

-- The boot timer has run out.
abbrev late : Firmware counter
late = record woken { hal = boot_timer_alarm_cb counter woken.hal }

late-Reach : Reach late
late-Reach = next woken-Reach (boot_over woken-boot_alarm)

booting_times_out_example :
    (late.hal.boot_alarm ≢ 0)
    ⊎ ((led : Bool) (now_ms : ℕ) → (poll_hardware counter led now_ms late).power_sm.state ≡ off)
booting_times_out_example = booting_times_out counter-AddsActive late-Reach woken_boots.0

wakes_iff_example :
    ((process_gamepad counter ready_usb guide 100 blank).power_sm.state ≢ blank.power_sm.state ↔ (
      IsGuideEdge guide blank × ((blank.power_sm.state ≡ off) ⊎ (blank.power_sm.state ≡ sleeping))))
    × ((process_gamepad counter ready_usb guide 100 blank).power_sm.state ≢ blank.power_sm.state
        → (process_gamepad counter ready_usb guide 100 blank).power_sm.state ≡ booting)
wakes_iff_example = wakes_iff ready_usb guide 100 blank

abbrev playing : Firmware counter
playing = record blank { power_sm = record { state = on; last_transition_ms = 50 } }

guide_down : guide_pressed guide ≡ true
unfolding guide_pressed
guide_down = refl

abbrev holding : Firmware counter
holding = record blank { prev_report = guide; prev_report_valid = true }

abbrev held : Reports
held = (ready_usb, guide, 101) ∷ (ready_usb, guide, 102) ∷ []

held_guide_example :
    ((process_reports holding held).power_sm ≡ holding.power_sm)
    × ((process_reports holding held).hal ≡ holding.hal)
held_guide_example = held_guide holding held refl guide_down (guide_down, (guide_down, tt))

abbrev lit_once : Samples
lit_once = (true, 1500) ∷ []

lit_long : Run false true 1500 ((true, 5000) ∷ lit_once)
lit_long = goes_on 5000 (begun (λ e. cc e))

accepts_iff_example :
    (((debounce true 5000 (led_after dark lit_once)).1 ≡ true)
      ↔ ((accepted dark lit_once ≢ true) × (power_led_stable_ms ≤ u32_sub 5000 1500)))
    × (accepted dark ((true, 5000) ∷ lit_once) ≡ (
        if (debounce true 5000 (led_after dark lit_once)).1 then true else accepted dark lit_once))
accepts_iff_example = accepts_iff dark 5000 lit_once lit_long

-- A blink of one second.
abbrev blink : Samples
blink = (false, 2500) ∷ (true, 1500) ∷ []

off_briefly :
    (start_ms : ℕ) → Run false false start_ms blink → u32_sub 2500 start_ms < power_led_stable_ms
off_briefly start_ms (begun other) = omega arith
off_briefly start_ms (goes_on _ run) = elim run [ ]

lit_briefly :
    (start_ms : ℕ) → Run false true start_ms lit_once → u32_sub 1500 start_ms < power_led_stable_ms
lit_briefly start_ms (begun other) = omega arith
lit_briefly start_ms (goes_on _ run) = elim run [ ]

accepted-IsBlinking_example : accepted dark blink ≡ dark.debounced
accepted-IsBlinking_example = accepted-IsBlinking dark blink refl (off_briefly, (lit_briefly, tt))
