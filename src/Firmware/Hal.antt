-- ===== src/Firmware/Hal.antt =====
-- The hardware layer of the power control: firmware/src/pc_power_hal.c. The alarm pool of the Pico
-- SDK is a parameter: `add_alarm` is `add_alarm_in_ms` with its fourth argument true and returns the
-- id as the bit pattern of an `alarm_id_t`, `cancel` is `cancel_alarm`.
pub mod Race
use pad_proxy.Base.{ℕ, ◌/◌, ◌<◌, ◌≢◌, Bool, true, false, not, ◌==◌, u32, if◌then◌else◌}

-- Which callback an alarm runs.
pub data AlarmCallback : Type 0 where
  power_btn_cb boot_timer_cb : AlarmCallback

pub record AlarmSdk : Type 1 where
  pub Pool : Type 0
  pub add_alarm : ℕ → AlarmCallback → Pool → Pool × ℕ
  pub cancel : ℕ → Pool → Pool

-- What the code relies on, as `add_alarm_in_ms` is documented: for a delay that lies in the future,
-- with a slot free in the pool, it returns the id of an active alarm, which is not 0.
abbrev pub AddsActive : AlarmSdk → Type 0
AddsActive sdk =
    (delay_ms : ℕ) (cb : AlarmCallback) (pool : sdk.Pool)
    → 0 < delay_ms
    → (sdk.add_alarm delay_ms cb pool).1 ≢ 0

-- `pc_power_hal_read_power_led`, from the level of GPIO_PWR_LED_SENSE.
abbrev pub read_power_led : Bool → Bool
read_power_led sense_pin = not sense_pin

-- `pc_power_hal_millis`, from `time_us_64()`.
abbrev pub millis : ℕ → ℕ
millis time_us = u32 (time_us / 1000)

module _ (sdk : AlarmSdk) where
  pub record Hal : Type 0 where
    pub trigger_pin : Bool  -- the level driven on GPIO_PWR_BTN_TRIGGER
    pub btn_alarm : ℕ  -- s_power_btn_alarm
    pub boot_alarm : ℕ  -- s_boot_timer_alarm
    pub boot_expired : Bool  -- s_boot_timer_expired
    pub pool : sdk.Pool

  unfoldable pub power_btn_alarm_cb : Hal → Hal
  power_btn_alarm_cb h = record h { trigger_pin = false; btn_alarm = 0 }

  unfoldable pub boot_timer_alarm_cb : Hal → Hal
  boot_timer_alarm_cb h = record h { boot_expired = true; boot_alarm = 0 }

  unfoldable pub hal_init : Hal → Hal
  hal_init h = record h { trigger_pin = false; btn_alarm = 0; boot_alarm = 0; boot_expired = false }

  -- `if (s_power_btn_alarm) …`
  abbrev pub without_btn_alarm : Hal → Hal
  without_btn_alarm h =
      if not (h.btn_alarm == 0)
      then record h { pool = sdk.cancel h.btn_alarm h.pool; btn_alarm = 0 }
      else h

  unfoldable pub trigger_power_button : ℕ → Hal → Hal
  trigger_power_button duration_ms h =
      let h1 = record (without_btn_alarm h) { trigger_pin = true } in
      let (pool', id) = sdk.add_alarm duration_ms power_btn_cb h1.pool in
      record h1 { pool = pool'; btn_alarm = id }

  -- `if (s_boot_timer_alarm) …`
  abbrev pub without_boot_alarm : Hal → Hal
  without_boot_alarm h =
      if not (h.boot_alarm == 0)
      then record h { pool = sdk.cancel h.boot_alarm h.pool; boot_alarm = 0 }
      else h

  unfoldable pub hal_cancel_boot_timer : Hal → Hal
  hal_cancel_boot_timer h = record (without_boot_alarm h) { boot_expired = false }

  unfoldable pub hal_start_boot_timer : ℕ → Hal → Hal
  unfolding hal_cancel_boot_timer
  hal_start_boot_timer timeout_ms h =
      let h1 = record (hal_cancel_boot_timer h) { boot_expired = false } in
      let (pool', id) = sdk.add_alarm timeout_ms boot_timer_cb h1.pool in
      record h1 { pool = pool'; boot_alarm = id }

  unfoldable pub boot_timer_expired : Hal → Hal × Bool
  boot_timer_expired h =
      if h.boot_expired then (record h { boot_expired = false }, true) else (h, false)
