-- ===== src/Firmware/Main.antt =====
-- What `main` of firmware/src/main.c does before its loop with the WiFi credentials, and one pass of its
-- loop over the state of all parts.
pub mod Pass
mod Tests
use pad_proxy.Base.{
  ℕ, Bool, true, false, not, Option, none, some, List, [], ◌∷◌, ◌++◌, Bytes, get_or, take, ◌==◌,
  if◌then◌else◌,
}
use pad_proxy.Config.{DeviceConfig, init_config}
use pad_proxy.Power.{PowerState, get_state, state_name}
use pad_proxy.Gamepad.{GamepadReport}
use pad_proxy.Gamepad.Slot.{Slots, idle_report, get_report}
use pad_proxy.Setup.Text.{ascii, c_string}
use pad_proxy.Setup.{Texts, SetupResult, set_version, set_status}
use pad_proxy.Ota.Version.{Version, version_text}
use pad_proxy.Ota.Update.{WifiCreds, World, Outcome, check_and_apply}
use pad_proxy.Firmware.Hal.{AlarmSdk}
use pad_proxy.Firmware.UsbDevice.{UsbState, UsbAnswers}
use pad_proxy.Firmware.Loop.{Firmware, on_usb_state_change, poll_hardware, process_gamepad}
use pad_proxy.Firmware.Lines.{Reader, read_chars}

-- The credentials of the configuration, or those that are compiled in.
unfoldable pub wifi_creds : DeviceConfig → Bytes → Bytes → WifiCreds
wifi_creds cfg ssid password =
    if not (get_or cfg.wifi_ssid 0 0 == 0)
    then record {
      ssid = some (c_string cfg.wifi_ssid);
      password = some (c_string cfg.wifi_password);
    }
    else record { ssid = some ssid; password = some password }

-- The check for an update at the start, on the configuration as `device_config_init` leaves it.
unfoldable pub start_update : World → Version → Bytes → Bytes → Bytes → Option Outcome
start_update w current url ssid password =
    check_and_apply w current url (some (wifi_creds init_config ssid password))

abbrev bool_text : Bool → Bytes
bool_text true = ascii "true"
bool_text false = ascii "false"

-- `version_str`, and the call that hands it to the setup commands.
unfoldable pub start_texts : Version → Texts → Texts
start_texts current texts = set_version (some (take 19 (version_text current))) texts

-- What `snprintf` leaves in `status_buf`.
unfoldable pub status_text : PowerState → Bool → Bytes
status_text pc_state is_connected = take 63 (
    ascii "pc_state="
    ++ (ascii (state_name pc_state) ++ (ascii " bt_connected=" ++ bool_text is_connected)))

-- What a pass of the loop meets.
pub record Inputs : Type 0 where
  pub usb_changes : List (UsbState × ℕ)  -- the state callbacks of `tud_task`, with their times
  pub chars : Bytes  -- the characters on the setup line
  pub led : Bool
  pub usb : UsbAnswers
  pub now_ms : ℕ

module _ (sdk : AlarmSdk) where
  pub record Device : Type 0 where
    pub firmware : Firmware sdk
    pub slots : Slots
    pub texts : Texts
    pub line : Bytes
    pub answers : List SetupResult

  abbrev pub usb_task : List (UsbState × ℕ) → Firmware sdk → Firmware sdk
  usb_task [] s = s
  usb_task ((state, now_ms) ∷ changes) s = usb_task changes (on_usb_state_change sdk state now_ms s)

  -- `setup_cmd_set_status(…); poll_cdc_setup();`
  abbrev pub poll_setup : Bool → Bytes → Device → Device
  poll_setup is_connected chars d =
      let texts =
        set_status (some (status_text (get_state d.firmware.power_sm) is_connected)) d.texts in
      let r =
        read_chars texts chars
          (record { line = d.line; config = d.firmware.config; answers = d.answers }) in
      record d {
        texts = texts;
        firmware = record d.firmware { config = r.config };
        line = r.line;
        answers = r.answers;
      }

  -- The report in slot 0, if a controller is connected.
  abbrev pub poll_gamepad :
      Inputs → Option (Bool × Option GamepadReport) → Firmware sdk → Firmware sdk
  poll_gamepad i (some (true, some report)) s = process_gamepad sdk i.usb report i.now_ms s
  poll_gamepad i _ s = s

  abbrev pub behind_status : Inputs → Option (Bool × Option GamepadReport) → Device → Option Device
  behind_status i none d = none
  behind_status i (some (is_connected, report)) d =
      let d1 = poll_setup is_connected i.chars d in
      let s = poll_hardware sdk i.led i.now_ms d1.firmware in
      some (record d1 { firmware = poll_gamepad i (get_report 0 (some idle_report) d1.slots) s })

  -- One pass of the loop; `none` where it writes through a null pointer.
  unfoldable pub pass : Inputs → Device → Option Device
  pass i d =
      behind_status i (get_report 0 none d.slots)
        (record d { firmware = usb_task i.usb_changes d.firmware })
