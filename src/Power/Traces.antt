-- ===== src/Power/Traces.antt =====
-- What holds of the power state machine over every list of events.
use pad_proxy.Base.{
  refl, sym, ap, ◌∙◌, ◌&&◌, ℕ, Bool, true, false, List, [], ◌∷◌, ◌≡◌, ◌≢◌, ◌⊎◌, ◌↔◌, ◌+◌, ◌≤◌,
  arith, bit_and, ◌==◌, not, if◌then◌else◌,
}
use pad_proxy.Power.{
  PowerState, off, booting, on, sleeping, count, PowerEvent, wake_requested, boot_timeout,
  usb_enumerated, usb_suspended, power_led_on, power_led_off, event_count, trigger_power,
  start_boot_timer, cancel_boot_timer, PowerMachine, process, sm_init,
}

-- A history: the events with their times, in order.
abbrev pub History : Type 0
History = List (PowerEvent × ℕ)

-- The machine with the boot timer that its actions run: `armed` from a start until a cancel or
-- until the timer's own expiry event; `pulses` counts the requests for the power button.
pub record Watched : Type 0 where
  pub machine : PowerMachine
  pub armed : Bool
  pub pulses : ℕ

abbrev pub has_action : ℕ → ℕ → Bool
has_action actions bit = not (bit_and actions bit == 0)

abbrev pub is_timeout : PowerEvent → Bool
is_timeout boot_timeout = true
is_timeout _ = false

-- The actions in the order in which `dispatch_actions` runs them.
abbrev pub after_actions : ℕ → Bool → Bool
after_actions actions armed =
    if has_action actions cancel_boot_timer
    then false
    else if has_action actions start_boot_timer
    then true
    else armed

watch_step : Watched → PowerEvent → ℕ → Watched
watch_step w e now_ms =
    let (sm, r) = process w.machine e now_ms in
    record {
      machine = sm;
      armed = after_actions r.actions (if is_timeout e then false else w.armed);
      pulses = w.pulses + (if has_action r.actions trigger_power then 1 else 0);
    }

unfoldable pub watch : Watched → History → Watched
unfolding watch_step
watch w [] = w
watch w ((e, now_ms) ∷ es) = watch (watch_step w e now_ms) es

unfoldable pub watch_start : Watched
unfolding sm_init
watch_start = record { machine = sm_init; armed = false; pulses = 0 }

abbrev pub is_booting : PowerState → Bool
is_booting booting = true
is_booting _ = false

record Inv (w : Watched) : Type 0 where
  real : w.machine.state ≢ count
  armed_booting : w.armed ≡ is_booting w.machine.state

start-Inv : Inv watch_start
unfolding watch_start
start-Inv = ground arith

-- The same for one step, for any timer that is armed exactly in BOOTING.
pub after_actions-process :
    (sm : PowerMachine) (e : PowerEvent) (now_ms : ℕ) (armed : Bool)
    → sm.state ≢ count
    → armed ≡ is_booting sm.state
    → (after_actions (process sm e now_ms).1.actions (if is_timeout e then false else armed)
        ≡ is_booting (process sm e now_ms).0.state)
      × ((process sm e now_ms).0.state ≢ count)
unfolding process
after_actions-process sm e now_ms armed real h = ground arith

watch_step-Inv : (w : Watched) (e : PowerEvent) (now_ms : ℕ) → Inv w → Inv (watch_step w e now_ms)
unfolding watch_step process
watch_step-Inv w e now_ms h = ground arith

watch-Inv : (w : Watched) (es : History) → Inv w → Inv (watch w es)
unfolding watch
watch-Inv w [] h = h
watch-Inv w ((e, now_ms) ∷ es) h =
    watch-Inv (watch_step w e now_ms) es (watch_step-Inv w e now_ms h)

abbrev is_wake : PowerEvent → Bool
is_wake wake_requested = true
is_wake _ = false

-- How many wake requests a history holds.
abbrev pub wakes : History → ℕ
wakes [] = 0
wakes ((e, now_ms) ∷ es) = (if is_wake e then 1 else 0) + wakes es

abbrev is_wakeable : PowerState → Bool
is_wakeable off = true
is_wakeable sleeping = true
is_wakeable _ = false

pulses-watch_step :
    (w : Watched) (e : PowerEvent) (now_ms : ℕ)
    → (watch_step w e now_ms).pulses
      ≡ w.pulses + (if is_wake e && is_wakeable w.machine.state then 1 else 0)
unfolding watch_step process
pulses-watch_step w e now_ms = ground arith

pulses-watch : (w : Watched) (es : History) → (watch w es).pulses ≤ w.pulses + wakes es
unfolding watch
pulses-watch w [] = omega arith
pulses-watch w ((e, now_ms) ∷ es) =
    ground (arith, pulses-watch (watch_step w e now_ms) es, pulses-watch_step w e now_ms)

-- After any events from the start, the boot timer that the requested actions run is armed exactly
-- when the machine is in BOOTING, and the machine is not in PC_STATE_COUNT.
pub watch_armed_iff :
    (es : History)
    → (((watch watch_start es).armed ≡ true) ↔ ((watch watch_start es).machine.state ≡ booting))
      × ((watch watch_start es).machine.state ≢ count)
unfolding watch_start
watch_armed_iff es = ground (arith, watch-Inv watch_start es start-Inv)

-- After any events from the start, the power button has been pulsed at most as often as a wake was
-- requested: no LED, USB or timer event ever presses it.
pub pulses-le-wakes : (es : History) → (watch watch_start es).pulses ≤ wakes es
unfolding watch_start
pulses-le-wakes es = omega (arith, pulses-watch watch_start es)

-- An event asks for the power button exactly when it is a wake request and the PC is off or asleep.
pub trigger_power_iff :
    (sm : PowerMachine) (e : PowerEvent) (now_ms : ℕ)
    → (has_action (process sm e now_ms).1.actions trigger_power ≡ true)
      ↔ ((e ≡ wake_requested) × ((sm.state ≡ off) ⊎ (sm.state ≡ sleeping)))
unfolding process
trigger_power_iff sm e now_ms = ground arith

-- Whether USB was enumerated last among the enumerations, the suspensions and the LED going off.
abbrev pub last_usb : Bool → History → Bool
last_usb seen [] = seen
last_usb seen ((usb_enumerated, now_ms) ∷ es) = last_usb true es
last_usb seen ((usb_suspended, now_ms) ∷ es) = last_usb false es
last_usb seen ((power_led_off, now_ms) ∷ es) = last_usb false es
last_usb seen ((_, now_ms) ∷ es) = last_usb seen es

abbrev is_on : PowerState → Bool
is_on on = true
is_on _ = false

process-on :
    (sm : PowerMachine) (e : PowerEvent) (now_ms : ℕ)
    → sm.state ≢ count
    → (is_on (process sm e now_ms).0.state ≡ last_usb (is_on sm.state) ((e, now_ms) ∷ []))
      × ((process sm e now_ms).0.state ≢ count)
unfolding process
process-on sm e now_ms real = ground arith

last_usb-cons :
    (seen : Bool) (e : PowerEvent) (now_ms : ℕ) (es : History)
    → last_usb seen ((e, now_ms) ∷ es) ≡ last_usb (last_usb seen ((e, now_ms) ∷ [])) es
last_usb-cons seen wake_requested now_ms es = refl
last_usb-cons seen usb_enumerated now_ms es = refl
last_usb-cons seen usb_suspended now_ms es = refl
last_usb-cons seen power_led_on now_ms es = refl
last_usb-cons seen power_led_off now_ms es = refl
last_usb-cons seen boot_timeout now_ms es = refl
last_usb-cons seen event_count now_ms es = refl

watch-on :
    (w : Watched) (es : History)
    → w.machine.state ≢ count
    → is_on (watch w es).machine.state ≡ last_usb (is_on w.machine.state) es
unfolding watch watch_step
watch-on w [] real = refl
watch-on w ((e, now_ms) ∷ es) real =
    let (step, still) = process-on w.machine e now_ms real in
    watch-on (watch_step w e now_ms) es still
    ∙ ap (λ b. last_usb b es) step
    ∙ sym (last_usb-cons (is_on w.machine.state) e now_ms es)

is_on-on : (s : PowerState) (b : Bool) → is_on s ≡ b → (s ≡ on) ↔ (b ≡ true)
is_on-on s b e = ground (arith, e)

-- After any events from the start, in any order, the machine is in ON exactly if the last of the USB
-- enumerations, the USB suspensions and the times the power LED went off was an enumeration.
pub on_iff :
    (es : History) → ((watch watch_start es).machine.state ≡ on) ↔ (last_usb false es ≡ true)
unfolding watch_start
on_iff es =
    is_on-on (watch watch_start es).machine.state (last_usb false es)
      (watch-on watch_start es (λ e. cc e))
