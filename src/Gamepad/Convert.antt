-- ===== src/Gamepad/Convert.antt =====
-- From Bluepad32's gamepad data to a report: firmware/src/bt_gamepad_convert.c, and `map_buttons` and
-- `convert_report` of firmware/src/bt_gamepad.c. Bluepad32's button masks are parameters.
pub mod Axes
pub mod Buttons
use pad_proxy.Base.{ℕ, ◌≤◌, ◌≡◌, arith, if◌then◌else◌, bit_and, bit_or, ◌==◌, u16}
use pad_proxy.Base.Int.{ℤ, pos, negsuc, pos_part, ◌≤ℤ◌, ltb_ℤ, scale, wrap32}
use pad_proxy.Gamepad.{GamepadReport, dpad_to_hat, IsInt16}

-- `value * 64` in an int32_t, then the two clamps.
unfoldable pub scale_axis : ℤ → ℤ
scale_axis value =
    let scaled0 = wrap32 (scale 64 value) in
    let scaled1 = if ltb_ℤ (pos 32767) scaled0 then pos 32767 else scaled0 in
    if ltb_ℤ scaled1 (negsuc 32767) then negsuc 32767 else scaled1

unfoldable pub clamp_trigger : ℤ → ℕ
clamp_trigger value =
    if ltb_ℤ value (pos 0) then 0 else if ltb_ℤ (pos 1023) value then 1023 else u16 (pos_part value)

-- `uni_gamepad_t`, the fields that the code reads.
pub record UniGamepad : Type 0 where
  pub axis_x : ℤ
  pub axis_y : ℤ
  pub axis_rx : ℤ
  pub axis_ry : ℤ
  pub brake : ℤ
  pub throttle : ℤ
  pub buttons : ℕ
  pub misc_buttons : ℕ
  pub dpad : ℕ

-- BUTTON_* and MISC_BUTTON_* of Bluepad32.
pub record UniMasks : Type 0 where
  pub button_a : ℕ
  pub button_b : ℕ
  pub button_x : ℕ
  pub button_y : ℕ
  pub shoulder_l : ℕ
  pub shoulder_r : ℕ
  pub thumb_l : ℕ
  pub thumb_r : ℕ
  pub misc_start : ℕ
  pub misc_select : ℕ
  pub misc_system : ℕ

-- `if (word & mask) out |= bit;`
unfoldable pub or_if : ℕ → ℕ → ℕ → ℕ → ℕ
or_if word mask bit out = if bit_and word mask == 0 then out else bit_or out bit

module _ (m : UniMasks) where
  unfoldable pub map_buttons : ℕ → ℕ → ℕ
  map_buttons bp_buttons bp_misc =
      let out1 = or_if bp_buttons m.button_a 1 0 in
      let out2 = or_if bp_buttons m.button_b 2 out1 in
      let out3 = or_if bp_buttons m.button_x 4 out2 in
      let out4 = or_if bp_buttons m.button_y 8 out3 in
      let out5 = or_if bp_buttons m.shoulder_l 16 out4 in
      let out6 = or_if bp_buttons m.shoulder_r 32 out5 in
      let out7 = or_if bp_buttons m.thumb_l 64 out6 in
      let out8 = or_if bp_buttons m.thumb_r 128 out7 in
      let out9 = or_if bp_misc m.misc_start 256 out8 in
      let out10 = or_if bp_misc m.misc_select 512 out9 in or_if bp_misc m.misc_system 1024 out10

  unfoldable pub convert_report : UniGamepad → GamepadReport
  convert_report gp = record {
    lx = scale_axis gp.axis_x;
    ly = scale_axis gp.axis_y;
    rx = scale_axis gp.axis_rx;
    ry = scale_axis gp.axis_ry;
    lt = clamp_trigger gp.brake;
    rt = clamp_trigger gp.throttle;
    buttons = map_buttons gp.buttons gp.misc_buttons;
    dpad = dpad_to_hat gp.dpad;
  }
