-- ===== src/Gamepad/Tests.antt =====
-- The gamepad properties at concrete reports.
use pad_proxy.Base.{◌⊎◌, List, if◌then◌else◌, ◌*◌, ◌≡◌, true, false, some, [], ◌∷◌, refl}
use pad_proxy.Base.Int.{pos, negsuc}
use pad_proxy.Gamepad.{InRange, dpad_to_hat}
use pad_proxy.Gamepad.Convert.{
  or_if, UniGamepad, UniMasks, scale_axis, clamp_trigger, map_buttons, convert_report,
}
use pad_proxy.Gamepad.Convert.Buttons.{convert_report-InRange}
use pad_proxy.Gamepad.Slot.{Slots, start_scanning, stop_scanning, idle_report, get_report}
use pad_proxy.Gamepad.Slot.Laws.{
  Event, ready, received, after, is_there, last_sent, started, last_command, get_report-after,
}
use pad_proxy.Gamepad.Usb.{from_gamepad, report_descriptor}
use pad_proxy.Gamepad.Usb.Descriptor.{
  Carries, report_values, input_fields, field_bits, from_gamepad-Carries,
}

-- Masks of one bit each.
abbrev pub masks : UniMasks
masks = record {
  button_a = 1;
  button_b = 2;
  button_x = 4;
  button_y = 8;
  shoulder_l = 16;
  shoulder_r = 32;
  thumb_l = 256;
  thumb_r = 512;
  misc_start = 4;
  misc_select = 2;
  misc_system = 1;
}

abbrev pad : UniGamepad
pad = record {
  axis_x = negsuc 511;
  axis_y = pos 511;
  axis_rx = pos 0;
  axis_ry = pos 700;
  brake = pos 1023;
  throttle = negsuc 4;
  buttons = 0x109;
  misc_buttons = 1;
  dpad = 5;
}

converted :
    let r = convert_report masks pad in
    (r.lx ≡ negsuc 32767)
    × (r.ry ≡ pos 32767)
    × (r.lt ≡ 1023)
    × (r.rt ≡ 0)
    × (r.buttons ≡ 0x449)
    × (r.dpad ≡ 1)
unfolding convert_report scale_axis clamp_trigger map_buttons dpad_to_hat or_if
converted = (refl, refl, refl, refl, refl, refl)

from_gamepad-Carries_example :
    Carries
      (input_fields report_descriptor)
      (report_values (from_gamepad (convert_report masks pad)))
    × (field_bits (input_fields report_descriptor) ≡ 8 * 13)
from_gamepad-Carries_example =
    from_gamepad-Carries (convert_report masks pad) (convert_report-InRange masks pad)

abbrev memory : Slots
memory = record {
  has_event_cb = false;
  reports = idle_report ∷ [];
  is_connected = true ∷ [];
  scanning = [];
}

-- A gamepad becomes ready and sends, the newest first.
abbrev playing : List Event
playing = received true pad ∷ ready ∷ []

get_report-after_example :
    let t = after masks (started true memory) playing in
    (get_report 0 (some idle_report) t
      ≡ some (
          if is_there playing
          then (true, some (last_sent masks playing))
          else (false, some idle_report)))
    × InRange (last_sent masks playing)
    × ((is_there playing ≡ false) ⊎ (last_command start_scanning t.scanning ≡ stop_scanning))
get_report-after_example = get_report-after masks true memory idle_report playing refl refl
