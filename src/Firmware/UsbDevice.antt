-- ===== src/Firmware/UsbDevice.antt =====
-- The USB device: firmware/src/usb_hid_gamepad.c. TinyUSB's answers are arguments.
pub mod Strings
pub mod Descriptors
pub mod Host
mod Tests
use pad_proxy.Base.{Bool, false, ◌||◌, not, Option, none, some, if◌then◌else◌}
use pad_proxy.Gamepad.{GamepadReport}
use pad_proxy.Gamepad.Usb.{UsbReport, from_gamepad}

pub data UsbState : Type 0 where
  not_mounted mounted suspended : UsbState

pub record UsbDevice : Type 0 where
  pub has_state_cb : Bool  -- `s_state_cb` is not NULL
  pub state : UsbState

-- Each TinyUSB callback stores the state and calls `s_state_cb` with it, if there is one.
notify : UsbState → UsbDevice → UsbDevice × Option UsbState
notify state d = (record d { state = state }, if d.has_state_cb then some state else none)

pub mount_cb : UsbDevice → UsbDevice × Option UsbState
mount_cb = notify mounted

pub umount_cb : UsbDevice → UsbDevice × Option UsbState
umount_cb = notify not_mounted

pub suspend_cb : UsbDevice → UsbDevice × Option UsbState
suspend_cb = notify suspended

pub resume_cb : UsbDevice → UsbDevice × Option UsbState
resume_cb = notify mounted

pub usb_init : Bool → UsbDevice
usb_init has_state_cb = record { has_state_cb = has_state_cb; state = not_mounted }

-- `tud_mounted()`, `tud_hid_ready()` and the result of `tud_hid_report()`.
pub record UsbAnswers : Type 0 where
  pub is_mounted : Bool
  pub hid_ready : Bool
  pub queued : Bool

-- The result, with the report that is handed to TinyUSB, if any.
unfoldable pub send_report : UsbAnswers → GamepadReport → Bool × Option UsbReport
send_report usb report =
    if not usb.is_mounted || not usb.hid_ready
    then (false, none)
    else (usb.queued, some (from_gamepad report))

pub get_state : UsbDevice → UsbState
get_state d = d.state
