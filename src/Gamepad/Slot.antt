-- ===== src/Gamepad/Slot.antt =====
-- The shared controller slots: firmware/src/bt_gamepad.c, the callbacks and the public functions.
-- Each function runs its critical section as one step. Bluepad32's scanning is a list of commands,
-- and the event callback's calls are returned for the caller to run.
pub mod Laws
use pad_proxy.Base.{
  ℕ, suc, zero, ◌≤◌, Bool, true, false, Option, none, some, List, [], ◌∷◌, ◌++◌, leb, ltb, not,
  get_or, set, replicate, if◌then◌else◌,
}
use pad_proxy.Base.Int.{pos}
use pad_proxy.Gamepad.{GamepadReport, dpad_centered}
use pad_proxy.Gamepad.Convert.{UniGamepad, UniMasks, convert_report}

abbrev pub gamepad_max : ℕ
gamepad_max = 1

pub data ConnectionState : Type 0 where
  disconnected connected : ConnectionState

pub data Scanning : Type 0 where
  start_scanning stop_scanning : Scanning

-- A call of `s_event_cb(idx, state)`.
pub record EventCall : Type 0 where
  pub idx : ℕ
  pub state : ConnectionState

pub record Slots : Type 0 where
  pub has_event_cb : Bool  -- `s_event_cb` is not NULL
  pub reports : List GamepadReport  -- gamepad_report_t[BT_GAMEPAD_MAX]
  pub is_connected : List Bool  -- bool[BT_GAMEPAD_MAX]
  pub scanning : List Scanning  -- commands given to Bluepad32, oldest first

-- The cleared report with its d-pad centred.
unfoldable pub idle_report : GamepadReport
idle_report = record {
  lx = pos 0;
  ly = pos 0;
  rx = pos 0;
  ry = pos 0;
  lt = 0;
  rt = 0;
  buttons = 0;
  dpad = dpad_centered;
}

calls : Bool → ConnectionState → List EventCall
calls true state = record { idx = 0; state = state } ∷ []
calls false state = []

-- `for (i = 0; i < n; i++)`, from slot i on with n rounds left.
clear_slots : ℕ → ℕ → Slots → Slots
clear_slots zero i s = s
clear_slots (suc n) i s =
    clear_slots n (suc i) (record s {
      is_connected = set s.is_connected i false;
      reports = set s.reports i idle_report;
    })

unfoldable pub init : Bool → Slots → Slots
unfolding clear_slots
init has_event_cb s = clear_slots gamepad_max 0 (record s { has_event_cb = has_event_cb })

-- `platform_on_init_complete`
unfoldable pub on_init_complete : Slots → Slots
on_init_complete s = record s { scanning = s.scanning ++ (start_scanning ∷ []) }

unfoldable pub on_device_disconnected : Slots → Slots × List EventCall
unfolding calls
on_device_disconnected s = (
  record s {
    is_connected = set s.is_connected 0 false;
    reports = set s.reports 0 idle_report;
    scanning = s.scanning ++ (start_scanning ∷ []);
  },
  calls s.has_event_cb disconnected,
)

unfoldable pub on_device_ready : Slots → Slots × List EventCall
unfolding calls
on_device_ready s = (
  record s {
    is_connected = set s.is_connected 0 true;
    scanning = s.scanning ++ (stop_scanning ∷ []);
  },
  calls s.has_event_cb connected,
)

-- The flag is `ctl->klass == UNI_CONTROLLER_CLASS_GAMEPAD`.
unfoldable pub on_controller_data : UniMasks → Bool → UniGamepad → Slots → Slots
on_controller_data m is_gamepad gp s =
    if not is_gamepad then s else record s { reports = set s.reports 0 (convert_report m gp) }

unfoldable pub slot_connected : ℕ → Slots → Bool
slot_connected idx s = if leb gamepad_max idx then false else get_or s.is_connected idx false

-- `*report = r; return true;`, where `none` is the fault of writing through NULL.
abbrev store_report : Option GamepadReport → GamepadReport → Option (Bool × Option GamepadReport)
store_report none r = none
store_report (some _) r = some (true, some r)

-- `bt_gamepad_get_report(idx, report)`: the result with what `*report` holds after the call.
unfoldable pub get_report : ℕ → Option GamepadReport → Slots → Option (Bool × Option GamepadReport)
get_report idx report s =
    if leb gamepad_max idx
    then some (false, report)
    else if get_or s.is_connected idx false
    then store_report report (get_or s.reports idx idle_report)
    else some (false, report)

unfoldable pub set_pairing : Bool → Slots → Slots
set_pairing enabled s = record s {
  scanning = s.scanning ++ ((if enabled then start_scanning else stop_scanning) ∷ []);
}
