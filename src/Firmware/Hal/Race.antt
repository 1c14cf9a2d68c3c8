-- ===== src/Firmware/Hal/Race.antt =====
-- The functions of firmware/src/pc_power_hal.c statement by statement: the main loop is at one of their
-- statements, and an alarm may interrupt it between two of them. Each interrupt runs its callback whole.

pub mod Slots
pub mod Moves
pub mod Rest
pub mod Statements
mod Tests
use pad_proxy.Base.{
  ℕ, ◌<◌, ◌≡◌, ◌≢◌, ◌⊎◌, Bool, true, false, Option, none, some, ◌==◌, if◌then◌else◌, arith,
}
use pad_proxy.Firmware.Hal.{
  AlarmCallback, power_btn_cb, boot_timer_cb, AlarmSdk, Hal, hal_init, power_btn_alarm_cb,
  boot_timer_alarm_cb,
}

-- The statement of the main loop. The boot timer is cancelled on its own (`none`) or by the start of
-- the timer (`some timeout_ms`).
pub data Pc : Type 0 where
  at_rest : Pc
  btn_test btn_cancel btn_clear btn_raise btn_add : ℕ → Pc
  btn_store : ℕ → Pc
  boot_test boot_cancel boot_clear boot_reset : Option ℕ → Pc
  boot_begin boot_add : ℕ → Pc
  boot_store : ℕ → Pc
  poll_test poll_clear : Pc

-- The calls of the hardware layer that touch an alarm.
pub data Call : Type 0 where
  trigger start : ℕ → Call
  cancel poll : Call

-- The first statement of a call.
unfoldable pub entry : Call → Pc
entry (trigger duration_ms) = btn_test duration_ms
entry (start timeout_ms) = boot_test (some timeout_ms)
entry cancel = boot_test none
entry poll = poll_test

-- Behind the body of `pc_power_hal_cancel_boot_timer`.
unfoldable pub behind_cancel : Option ℕ → Pc
behind_cancel none = at_rest
behind_cancel (some timeout_ms) = boot_begin timeout_ms

module _ (sdk : AlarmSdk) where
  -- `awaited` is no variable of the code: a boot timer has been added, and neither cancelled nor read
  -- as expired.
  pub record Machine : Type 0 where
    pub pc : Pc
    pub hal : Hal sdk
    pub awaited : Bool

  abbrev goto : Pc → Machine → Machine
  goto pc m = record m { pc = pc }

  abbrev with_hal : Pc → Hal sdk → Machine → Machine
  with_hal pc h m = record m { pc = pc; hal = h }

  -- One statement.
  unfoldable pub statement : Pc → Machine → Machine
  statement at_rest m = goto at_rest m
  statement (btn_test ms) m = goto (if m.hal.btn_alarm == 0 then btn_raise ms else btn_cancel ms) m
  statement (btn_cancel ms) m =
      with_hal (btn_clear ms) (record m.hal { pool = sdk.cancel m.hal.btn_alarm m.hal.pool }) m
  statement (btn_clear ms) m = with_hal (btn_raise ms) (record m.hal { btn_alarm = 0 }) m
  statement (btn_raise ms) m = with_hal (btn_add ms) (record m.hal { trigger_pin = true }) m
  statement (btn_add ms) m =
      let (pool', id) = sdk.add_alarm ms power_btn_cb m.hal.pool in
      with_hal (btn_store id) (record m.hal { pool = pool' }) m
  statement (btn_store id) m = with_hal at_rest (record m.hal { btn_alarm = id }) m
  statement (boot_test k) m = goto (if m.hal.boot_alarm == 0 then boot_reset k else boot_cancel k) m
  statement (boot_cancel k) m =
      with_hal (boot_clear k) (record m.hal { pool = sdk.cancel m.hal.boot_alarm m.hal.pool }) m
  statement (boot_clear k) m = with_hal (boot_reset k) (record m.hal { boot_alarm = 0 }) m
  statement (boot_reset k) m = record m {
    pc = behind_cancel k;
    hal = record m.hal { boot_expired = false };
    awaited = false;
  }
  statement (boot_begin ms) m = with_hal (boot_add ms) (record m.hal { boot_expired = false }) m
  statement (boot_add ms) m =
      let (pool', id) = sdk.add_alarm ms boot_timer_cb m.hal.pool in
      record m { pc = boot_store id; hal = record m.hal { pool = pool' }; awaited = true }
  statement (boot_store id) m = with_hal at_rest (record m.hal { boot_alarm = id }) m
  statement poll_test m = goto (if m.hal.boot_expired then poll_clear else at_rest) m
  statement poll_clear m = record m {
    pc = at_rest;
    hal = record m.hal { boot_expired = false };
    awaited = false;
  }

  unfoldable pub next : Machine → Machine
  next m = statement m.pc m

  -- What the code relies on, as the alarm pool of the SDK is documented: which alarms are pending, by
  -- id and callback, and what each call does to them. `expire` takes an alarm out whose time has come.
  pub record AlarmPool : Type 1 where
    pub Pending : ℕ → AlarmCallback → sdk.Pool → Type 0
    pub expire : ℕ → sdk.Pool → sdk.Pool
    pub adds :
        (ms : ℕ) (cb : AlarmCallback) (pool : sdk.Pool)
        → 0 < ms
        → let (pool', id) = sdk.add_alarm ms cb pool in Pending id cb pool'
    pub keeps :
        {i : ℕ} {c : AlarmCallback} (ms : ℕ) (cb : AlarmCallback) (pool : sdk.Pool)
        → Pending i c pool
        → Pending i c (sdk.add_alarm ms cb pool).0
    pub added :
        {i : ℕ} {c : AlarmCallback} (ms : ℕ) (cb : AlarmCallback) (pool : sdk.Pool)
        → Pending i c (sdk.add_alarm ms cb pool).0
        → Pending i c pool ⊎ ((i ≡ (sdk.add_alarm ms cb pool).1) × (c ≡ cb))
    pub fresh :
        {i : ℕ} {c : AlarmCallback} (ms : ℕ) (cb : AlarmCallback) (pool : sdk.Pool)
        → Pending i c pool
        → i ≢ (sdk.add_alarm ms cb pool).1
    pub cancelled :
        {i : ℕ} {c : AlarmCallback} (j : ℕ) (pool : sdk.Pool)
        → Pending i c (sdk.cancel j pool)
        → Pending i c pool × (i ≢ j)
    pub not_cancelled :
        {i : ℕ} {c : AlarmCallback} (j : ℕ) (pool : sdk.Pool)
        → Pending i c pool
        → i ≢ j
        → Pending i c (sdk.cancel j pool)
    pub expired :
        {i : ℕ} {c : AlarmCallback} (j : ℕ) (pool : sdk.Pool)
        → Pending i c (expire j pool)
        → Pending i c pool × (i ≢ j)
    pub not_expired :
        {i : ℕ} {c : AlarmCallback} (j : ℕ) (pool : sdk.Pool)
        → Pending i c pool
        → i ≢ j
        → Pending i c (expire j pool)
    pub one_callback :
        {i : ℕ} {c d : AlarmCallback} (pool : sdk.Pool)
        → Pending i c pool
        → Pending i d pool
        → c ≡ d
    pub not_0 : {i : ℕ} {c : AlarmCallback} (pool : sdk.Pool) → Pending i c pool → i ≢ 0

  -- An alarm that is added is not given an id that the program still holds from an alarm that has gone:
  -- the SDK hands an id out again only after hundreds of others. The delay lies in the future.
  unfoldable pub NewId : Pc → Hal sdk → Type 0
  NewId (btn_add ms) h = (0 < ms) × ((sdk.add_alarm ms power_btn_cb h.pool).1 ≢ h.boot_alarm)
  NewId (boot_add ms) h = (0 < ms) × ((sdk.add_alarm ms boot_timer_cb h.pool).1 ≢ h.btn_alarm)
  NewId _ h = Unit

  -- The interrupts.
  unfoldable pub release : ℕ → (ℕ → sdk.Pool → sdk.Pool) → Machine → Machine
  unfolding power_btn_alarm_cb
  release id expire m = record m {
    hal = power_btn_alarm_cb sdk (record m.hal { pool = expire id m.hal.pool });
  }

  unfoldable pub ring : ℕ → (ℕ → sdk.Pool → sdk.Pool) → Machine → Machine
  unfolding boot_timer_alarm_cb
  ring id expire m = record m {
    hal = boot_timer_alarm_cb sdk (record m.hal { pool = expire id m.hal.pool });
  }

  -- The states that the main loop and the interrupts reach from `pc_power_hal_init`, when no alarm is
  -- pending.
  pub data Reach (a : AlarmPool) : Machine → Type 0 where
    started :
        (h : Hal sdk)
        → ((i : ℕ) (c : AlarmCallback) → ¬ (a.Pending i c h.pool))
        → Reach a (record { pc = at_rest; hal = hal_init sdk h; awaited = false })
    called :
        {m : Machine} (c : Call) → Reach a m → m.pc ≡ at_rest → Reach a (record m { pc = entry c })
    ran : {m : Machine} → Reach a m → NewId m.pc m.hal → Reach a (next m)
    released :
        {m : Machine} (id : ℕ)
        → Reach a m
        → a.Pending id power_btn_cb m.hal.pool
        → Reach a (release id a.expire m)
    rang :
        {m : Machine} (id : ℕ)
        → Reach a m
        → a.Pending id boot_timer_cb m.hal.pool
        → Reach a (ring id a.expire m)
