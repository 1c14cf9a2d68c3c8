-- ===== src/Firmware/Main/Tests.antt =====
-- The start without credentials, and passes of the loop.
use pad_proxy.Base.{◌≡◌, true, false, none, some, [], ◌∷◌, Bytes, replicate, refl}
use pad_proxy.Config.{init_config, zeroed, strncpy}
use pad_proxy.Setup.Text.{ascii}
use pad_proxy.Gamepad.Slot.{Slots, idle_report, slot_connected, gamepad_max}
use pad_proxy.Ota.Version.{Version}
use pad_proxy.Ota.Update.{World, error_no_wifi_config, check_and_apply}
use pad_proxy.Firmware.UsbDevice.{mounted}
use pad_proxy.Firmware.Main.{Inputs, Device, wifi_creds, start_update, pass}
use pad_proxy.Firmware.Main.Pass.{without_gamepad, pass-cases}
use pad_proxy.Firmware.Loop.Tests.{counter, blank, ready_usb}

-- With nothing compiled in there is no update.
no_credentials :
    (w : World) (current : Version) (url : Bytes)
    → start_update w current url [] []
      ≡ some (record { result = error_no_wifi_config; radio = []; flash = [] })
unfolding start_update wifi_creds check_and_apply init_config zeroed strncpy
no_credentials w current url = refl

abbrev empty_slots : Slots
empty_slots = record {
  has_event_cb = true;
  reports = replicate gamepad_max idle_report;
  is_connected = replicate gamepad_max false;
  scanning = [];
}

abbrev device : Device counter
device = record {
  firmware = blank;
  slots = empty_slots;
  texts = record { version = ascii "1.0.0"; status = [] };
  line = ascii "li";
  answers = [];
}

abbrev inputs : Inputs
inputs = record {
  usb_changes = (mounted, 90) ∷ [];
  chars = ascii "st";
  led = true;
  usb = ready_usb;
  now_ms = 100;
}

pass-cases_example :
    (slot_connected 0 empty_slots ≡ true → pass counter inputs device ≡ none)
    × (slot_connected 0 empty_slots ≡ false
        → pass counter inputs device ≡ some (without_gamepad counter inputs device))
pass-cases_example = pass-cases counter inputs device
