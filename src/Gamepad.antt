-- ===== src/Gamepad.antt =====
-- The canonical gamepad report: firmware/include/gamepad.h.
pub mod Convert
pub mod Usb
pub mod Slot
pub mod Tests
use pad_proxy.Base.{
  ℕ, ◌≤◌, ◌<◌, ◌*◌, ◌%◌, ◌/◌, ◌≡◌, ◌↔◌, Bool, true, not, List, [], ◌∷◌, get_or, bit_and, ◌==◌,
  arith,
}
use pad_proxy.Base.Int.{ℤ, pos, negsuc, ◌≤ℤ◌}

abbrev pub btn_guide : ℕ
btn_guide = 1024

abbrev pub dpad_centered : ℕ
dpad_centered = 8

pub record GamepadReport : Type 0 where
  pub lx : ℤ  -- int16_t, as are the next three
  pub ly : ℤ
  pub rx : ℤ
  pub ry : ℤ
  pub lt : ℕ  -- uint16_t, as are the next two
  pub rt : ℕ
  pub buttons : ℕ
  pub dpad : ℕ  -- uint8_t

-- The table of `gamepad_dpad_to_hat`: UP is 1, DOWN 2, RIGHT 4 and LEFT 8.
abbrev pub hat_table : List ℕ
hat_table = 8 ∷ 0 ∷ 4 ∷ 8 ∷ 2 ∷ 1 ∷ 3 ∷ 8 ∷ 6 ∷ 7 ∷ 5 ∷ 8 ∷ 8 ∷ 8 ∷ 8 ∷ 8 ∷ []

-- The index is below 16, so the default is never read.
unfoldable pub dpad_to_hat : ℕ → ℕ
dpad_to_hat dpad_bits = get_or hat_table (bit_and dpad_bits 0x0F) 0

unfoldable pub guide_pressed : GamepadReport → Bool
guide_pressed report = not (bit_and report.buttons btn_guide == 0)

-- An int16_t.
abbrev pub IsInt16 : ℤ → Type 0
IsInt16 a = (negsuc 32767 ≤ℤ a) × (a ≤ℤ pos 32767)

-- The documented ranges of a report.
pub record InRange (r : GamepadReport) : Type 0 where
  pub lx_int16 : IsInt16 r.lx
  pub ly_int16 : IsInt16 r.ly
  pub rx_int16 : IsInt16 r.rx
  pub ry_int16 : IsInt16 r.ry
  pub lt_max : r.lt ≤ 1023
  pub rt_max : r.rt ≤ 1023
  pub buttons_u16 : r.buttons < 65536
  pub dpad_max : r.dpad ≤ 8
