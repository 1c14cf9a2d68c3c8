-- ===== src/Firmware/Main/Pass.antt =====
-- The passes of the loop of `main`.
use pad_proxy.Base.{◌≡◌, true, false, none, some}
use pad_proxy.Gamepad.Slot.{Slots, idle_report, get_report, slot_connected}
use pad_proxy.Firmware.Hal.{AlarmSdk}
use pad_proxy.Firmware.Loop.{poll_hardware}
use pad_proxy.Firmware.Main.{Inputs, Device, usb_task, poll_setup, pass}

connected_reads : (s : Slots) → slot_connected 0 s ≡ true → get_report 0 none s ≡ none
unfolding get_report slot_connected
connected_reads s h = simp h

empty_reads :
    (s : Slots)
    → slot_connected 0 s ≡ false
    → (get_report 0 none s ≡ some (false, none))
      × (get_report 0 (some idle_report) s ≡ some (false, some idle_report))
unfolding get_report slot_connected
empty_reads s h = (simp h, simp h)

module _ (sdk : AlarmSdk) where
  -- What a pass does with no controller in slot 0: USB, the setup line, and the hardware.
  abbrev pub without_gamepad : Inputs → Device sdk → Device sdk
  without_gamepad i d =
      let d1 =
        poll_setup sdk false i.chars
          (record d { firmware = usb_task sdk i.usb_changes d.firmware }) in
      record d1 { firmware = poll_hardware sdk i.led i.now_ms d1.firmware }

  -- A pass of the loop writes through a null pointer if a controller is connected in slot 0; if none is,
  -- it handles USB, the setup line and the hardware, and no report.
  pub pass-cases :
      (i : Inputs) (d : Device sdk)
      → (slot_connected 0 d.slots ≡ true → pass sdk i d ≡ none)
        × (slot_connected 0 d.slots ≡ false → pass sdk i d ≡ some (without_gamepad i d))
  unfolding pass
  pass-cases i d = (
    λ h. simp (connected_reads d.slots h),
    λ h. let (first, second) = empty_reads d.slots h in simp (first, second),
  )
