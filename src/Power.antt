-- ===== src/Power.antt =====
-- The PC power state machine: firmware/src/pc_power_state.c and firmware/include/pc_power_state.h.
-- A function that writes through `sm` returns the new machine beside its result.
pub mod Traces
mod Tests
use Prim.Native.String.{String}
use pad_proxy.Base.{ℕ, Bool, true, false, bit_or}

-- `count` is the enum's PC_STATE_COUNT, which the `default` branches take.
pub data PowerState : Type 0 where
  off booting on sleeping count : PowerState

pub data PowerEvent : Type 0 where
  wake_requested usb_enumerated usb_suspended power_led_on power_led_off : PowerEvent
  boot_timeout event_count : PowerEvent

-- The bits of `pc_power_action_t`.
abbrev pub action_none : ℕ
action_none = 0

abbrev pub trigger_power : ℕ
trigger_power = 1

abbrev pub start_boot_timer : ℕ
start_boot_timer = 2

abbrev pub cancel_boot_timer : ℕ
cancel_boot_timer = 4

pub record PowerMachine : Type 0 where
  pub state : PowerState
  pub last_transition_ms : ℕ  -- uint32_t

pub record PowerResult : Type 0 where
  pub new_state : PowerState
  pub actions : ℕ  -- uint32_t, a mask of action bits
  pub transitioned : Bool

-- `pc_power_sm_init` sets both fields, whatever the machine held.
unfoldable pub sm_init : PowerMachine
sm_init = record { state = off; last_transition_ms = 0 }

abbrev pub get_state : PowerMachine → PowerState
get_state sm = sm.state

transition : PowerMachine → PowerState → ℕ → ℕ → PowerMachine × PowerResult
transition sm new_state actions now_ms = (
  record sm { state = new_state; last_transition_ms = now_ms },
  record { new_state = new_state; actions = actions; transitioned = true },
)

no_change : PowerMachine → PowerMachine × PowerResult
no_change sm = (sm, record { new_state = sm.state; actions = action_none; transitioned = false })

handle_off : PowerMachine → PowerEvent → ℕ → PowerMachine × PowerResult
unfolding transition no_change
handle_off sm wake_requested now_ms =
    transition sm booting (bit_or trigger_power start_boot_timer) now_ms
handle_off sm power_led_on now_ms = transition sm booting start_boot_timer now_ms
handle_off sm usb_enumerated now_ms = transition sm on action_none now_ms
handle_off sm _ now_ms = no_change sm

handle_booting : PowerMachine → PowerEvent → ℕ → PowerMachine × PowerResult
unfolding transition no_change
handle_booting sm usb_enumerated now_ms = transition sm on cancel_boot_timer now_ms
handle_booting sm power_led_off now_ms = transition sm off cancel_boot_timer now_ms
handle_booting sm boot_timeout now_ms = transition sm off action_none now_ms
handle_booting sm _ now_ms = no_change sm

handle_on : PowerMachine → PowerEvent → ℕ → PowerMachine × PowerResult
unfolding transition no_change
handle_on sm usb_suspended now_ms = transition sm sleeping action_none now_ms
handle_on sm power_led_off now_ms = transition sm off action_none now_ms
handle_on sm _ now_ms = no_change sm

handle_sleeping : PowerMachine → PowerEvent → ℕ → PowerMachine × PowerResult
unfolding transition no_change
handle_sleeping sm wake_requested now_ms =
    transition sm booting (bit_or trigger_power start_boot_timer) now_ms
handle_sleeping sm usb_enumerated now_ms = transition sm on action_none now_ms
handle_sleeping sm power_led_on now_ms = transition sm booting start_boot_timer now_ms
handle_sleeping sm power_led_off now_ms = transition sm off action_none now_ms
handle_sleeping sm _ now_ms = no_change sm

-- The `switch` on `sm->state`.
dispatch : PowerState → PowerMachine → PowerEvent → ℕ → PowerMachine × PowerResult
unfolding handle_off handle_booting handle_on handle_sleeping no_change
dispatch off sm event now_ms = handle_off sm event now_ms
dispatch booting sm event now_ms = handle_booting sm event now_ms
dispatch on sm event now_ms = handle_on sm event now_ms
dispatch sleeping sm event now_ms = handle_sleeping sm event now_ms
dispatch _ sm event now_ms = no_change sm

unfoldable pub process : PowerMachine → PowerEvent → ℕ → PowerMachine × PowerResult
unfolding dispatch
process sm event now_ms = dispatch sm.state sm event now_ms

unfoldable pub state_name : PowerState → String
state_name off = "PC_OFF"
state_name booting = "PC_BOOTING"
state_name on = "PC_ON"
state_name sleeping = "PC_SLEEPING"
state_name _ = "UNKNOWN"

event_name : PowerEvent → String
event_name wake_requested = "WAKE_REQUESTED"
event_name usb_enumerated = "USB_ENUMERATED"
event_name usb_suspended = "USB_SUSPENDED"
event_name power_led_on = "POWER_LED_ON"
event_name power_led_off = "POWER_LED_OFF"
event_name boot_timeout = "BOOT_TIMEOUT"
event_name _ = "UNKNOWN"
