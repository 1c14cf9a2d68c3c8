-- ===== src/Gamepad/Usb.antt =====
-- The USB report and its descriptor: firmware/src/usb_hid_report.c, firmware/include/usb_hid_report.h.
pub mod Descriptor
use pad_proxy.Base.{
  ℕ, ◌+◌, ◌≤◌, ◌<◌, ◌≡◌, Bool, true, not, List, [], ◌∷◌, Bytes, ◌==◌, u8, shr, if◌then◌else◌, arith,
}
use pad_proxy.Base.Int.{ℤ}
use pad_proxy.Gamepad.{GamepadReport, dpad_centered}

pub record UsbReport : Type 0 where
  pub lx : ℤ  -- int16_t, as are the next three
  pub ly : ℤ
  pub rx : ℤ
  pub ry : ℤ
  pub lt : ℕ  -- uint8_t, as are the next two
  pub rt : ℕ
  pub hat : ℕ
  pub buttons : ℕ  -- uint16_t

-- Every field of the cleared struct is written.
unfoldable pub from_gamepad : GamepadReport → UsbReport
from_gamepad r = record {
  lx = r.lx;
  ly = r.ly;
  rx = r.rx;
  ry = r.ry;
  lt = u8 (shr r.lt 2);
  rt = u8 (shr r.rt 2);
  hat = if r.dpad == dpad_centered then 0 else u8 (r.dpad + 1);
  buttons = r.buttons;
}

-- `usb_hid_report_descriptor`.
unfoldable pub report_descriptor : Bytes
report_descriptor =
    0x05 ∷ 0x01 ∷ 0x09 ∷ 0x05 ∷ 0xA1 ∷ 0x01 ∷ 0x05 ∷ 0x01 ∷ 0x09 ∷ 0x30 ∷ 0x09 ∷ 0x31 ∷ 0x09 ∷ 0x33
    ∷ 0x09 ∷ 0x34 ∷ 0x16 ∷ 0x00 ∷ 0x80 ∷ 0x26 ∷ 0xFF ∷ 0x7F ∷ 0x75 ∷ 0x10 ∷ 0x95 ∷ 0x04 ∷ 0x81
    ∷ 0x02 ∷ 0x09 ∷ 0x32 ∷ 0x09 ∷ 0x35 ∷ 0x15 ∷ 0x00 ∷ 0x26 ∷ 0xFF ∷ 0x00 ∷ 0x75 ∷ 0x08 ∷ 0x95
    ∷ 0x02 ∷ 0x81 ∷ 0x02 ∷ 0x05 ∷ 0x01 ∷ 0x09 ∷ 0x39 ∷ 0x15 ∷ 0x01 ∷ 0x25 ∷ 0x08 ∷ 0x35 ∷ 0x00
    ∷ 0x46 ∷ 0x3B ∷ 0x01 ∷ 0x65 ∷ 0x14 ∷ 0x75 ∷ 0x04 ∷ 0x95 ∷ 0x01 ∷ 0x81 ∷ 0x42 ∷ 0x75 ∷ 0x04
    ∷ 0x95 ∷ 0x01 ∷ 0x81 ∷ 0x01 ∷ 0x45 ∷ 0x00 ∷ 0x65 ∷ 0x00 ∷ 0x05 ∷ 0x09 ∷ 0x19 ∷ 0x01 ∷ 0x29
    ∷ 0x10 ∷ 0x15 ∷ 0x00 ∷ 0x25 ∷ 0x01 ∷ 0x75 ∷ 0x01 ∷ 0x95 ∷ 0x10 ∷ 0x81 ∷ 0x02 ∷ 0xC0 ∷ []
