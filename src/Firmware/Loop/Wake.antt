-- ===== src/Firmware/Loop/Wake.antt =====
-- What one gamepad report, and a run of them, does: `process_gamepad`.
use mathlib.Core.List.{append-nil}
use pad_proxy.Base.{
  ℕ, ◌≡◌, ◌≢◌, ◌⊎◌, ◌↔◌, refl, ◌∙◌, ap, inl, inr, Bool, true, false, ◌&&◌, Bool-cases, List, [],
  ◌∷◌, ◌++◌, All, if◌then◌else◌, arith,
}
use pad_proxy.Power.{PowerState, off, booting, on, sleeping, wake_requested, process}
use pad_proxy.Gamepad.{GamepadReport, guide_pressed}
use pad_proxy.Gamepad.Usb.{from_gamepad}
use pad_proxy.Firmware.Hal.{AlarmSdk}
use pad_proxy.Firmware.UsbDevice.{UsbAnswers, send_report}
use pad_proxy.Firmware.Loop.{
  Firmware, dispatch_actions, feed, process_gamepad, guide_rises, wake_on_guide, forward,
  is_wakeable, is_on, handed,
}

-- The reports of successive loop passes, with TinyUSB's answers and the time.
abbrev pub Reports : Type 0
Reports = List (UsbAnswers × GamepadReport × ℕ)

if_same {ℓ κ} :
    {A : Type ℓ} {B : Type κ} (f : A → B) (b : Bool) (x y : A)
    → f x ≡ f y
    → f (if b then x else y) ≡ f y
if_same f true x y h = h
if_same f false x y h = refl

handed-send_report :
    (usb : UsbAnswers) (report : GamepadReport)
    → handed (send_report usb report).1
      ≡ (if usb.is_mounted && usb.hid_ready then from_gamepad report ∷ [] else [])
unfolding send_report
handed-send_report usb report = ground arith

module _ {sdk : AlarmSdk} where
  -- The guide button goes down with this report: it is pressed, and it was not in a valid previous one.
  abbrev pub IsGuideEdge : GamepadReport → Firmware sdk → Type 0
  IsGuideEdge report s =
      (guide_pressed report ≡ true)
      × ¬ ((s.prev_report_valid ≡ true) × (guide_pressed s.prev_report ≡ true))

  guide_rises_iff :
      (report : GamepadReport) (s : Firmware sdk)
      → (guide_rises sdk report s ≡ true) ↔ IsGuideEdge report s
  unfolding guide_rises
  guide_rises_iff report s = ground arith

  feed-wake :
      (now_ms : ℕ) (s : Firmware sdk)
      → is_wakeable s.power_sm.state ≡ true
      → (feed sdk wake_requested now_ms s).power_sm.state ≡ booting
  unfolding feed dispatch_actions process
  feed-wake now_ms s w = ground arith

  feed-sent : (now_ms : ℕ) (s : Firmware sdk) → (feed sdk wake_requested now_ms s).sent ≡ s.sent
  unfolding feed dispatch_actions
  feed-sent now_ms s = refl

  -- Forwarding and remembering the report touches neither the machine nor the alarms.
  process_gamepad-power_sm :
      (usb : UsbAnswers) (report : GamepadReport) (now_ms : ℕ) (s : Firmware sdk)
      → ((process_gamepad sdk usb report now_ms s).power_sm
          ≡ (wake_on_guide sdk s.power_sm.state report now_ms s).power_sm)
        × ((process_gamepad sdk usb report now_ms s).hal
            ≡ (wake_on_guide sdk s.power_sm.state report now_ms s).hal)
  unfolding process_gamepad forward
  process_gamepad-power_sm usb report now_ms s =
      let s1 = wake_on_guide sdk s.power_sm.state report now_ms s in
      let s2 = record s1 { sent = s1.sent ++ handed (send_report usb report).1 } in
      (
        if_same (λ (x : Firmware sdk). x.power_sm) (is_on s.power_sm.state) s2 s1 refl,
        if_same (λ (x : Firmware sdk). x.hal) (is_on s.power_sm.state) s2 s1 refl,
      )

  wake_on_guide-rises :
      (st : PowerState) (report : GamepadReport) (now_ms : ℕ) (s : Firmware sdk)
      → guide_rises sdk report s ≡ true
      → is_wakeable st ≡ true
      → wake_on_guide sdk st report now_ms s ≡ feed sdk wake_requested now_ms s
  unfolding wake_on_guide
  wake_on_guide-rises st report now_ms s r w = simp (r, w)

  wake_on_guide-stays :
      (st : PowerState) (report : GamepadReport) (now_ms : ℕ) (s : Firmware sdk)
      → guide_rises sdk report s && is_wakeable st ≡ false
      → wake_on_guide sdk st report now_ms s ≡ s
  unfolding wake_on_guide
  wake_on_guide-stays st report now_ms s h = ground (arith, h)

  wake_on_guide-sent :
      (st : PowerState) (report : GamepadReport) (now_ms : ℕ) (s : Firmware sdk)
      → (wake_on_guide sdk st report now_ms s).sent ≡ s.sent
  unfolding wake_on_guide
  wake_on_guide-sent st report now_ms s =
      if_same (λ (x : Firmware sdk). x.sent) (guide_rises sdk report s)
        (if is_wakeable st then feed sdk wake_requested now_ms s else s) s
        (if_same (λ (x : Firmware sdk). x.sent) (is_wakeable st) (feed sdk wake_requested now_ms s)
          s (feed-sent now_ms s))

  -- A report changes the power state exactly when its guide button has just gone down and the PC is
  -- off or asleep; the state is then BOOTING.
  pub wakes_iff :
      (usb : UsbAnswers) (report : GamepadReport) (now_ms : ℕ) (s : Firmware sdk)
      → ((process_gamepad sdk usb report now_ms s).power_sm.state ≢ s.power_sm.state
          ↔ (IsGuideEdge report s × ((s.power_sm.state ≡ off) ⊎ (s.power_sm.state ≡ sleeping))))
        × ((process_gamepad sdk usb report now_ms s).power_sm.state ≢ s.power_sm.state
            → (process_gamepad sdk usb report now_ms s).power_sm.state ≡ booting)
  wakes_iff usb report now_ms s =
      let same = (process_gamepad-power_sm usb report now_ms s).0 in
      elim (Bool-cases (guide_rises sdk report s && is_wakeable s.power_sm.state)) [
        | inl b ↦
            let (r, w) : (guide_rises sdk report s ≡ true) × (is_wakeable s.power_sm.state ≡ true) =
              ground (arith, b) in
            let woken : (process_gamepad sdk usb report now_ms s).power_sm.state ≡ booting =
              ap (λ x. x.state) same
              ∙ ap (λ (x : Firmware sdk). x.power_sm.state)
                  (wake_on_guide-rises s.power_sm.state report now_ms s r w)
              ∙ feed-wake now_ms s w in
            ground (arith, guide_rises_iff report s, woken, r, w)
        | inr b ↦
            let stays : (process_gamepad sdk usb report now_ms s).power_sm.state
                ≡ s.power_sm.state =
              ap (λ x. x.state) same
              ∙ ap (λ (x : Firmware sdk). x.power_sm.state)
                  (wake_on_guide-stays s.power_sm.state report now_ms s b) in
            ground (arith, guide_rises_iff report s, stays, b)
      ]

  process_gamepad-sent :
      (usb : UsbAnswers) (report : GamepadReport) (now_ms : ℕ) (s : Firmware sdk)
      → (process_gamepad sdk usb report now_ms s).sent
        ≡ (forward sdk s.power_sm.state usb report
            (wake_on_guide sdk s.power_sm.state report now_ms s)).sent
  unfolding process_gamepad
  process_gamepad-sent usb report now_ms s = refl

  forward-sent :
      (st : PowerState) (usb : UsbAnswers) (report : GamepadReport) (s : Firmware sdk)
      → ((st ≡ on) × (usb.is_mounted ≡ true) × (usb.hid_ready ≡ true)
          → (forward sdk st usb report s).sent ≡ s.sent ++ from_gamepad report ∷ [])
        × (¬ ((st ≡ on) × (usb.is_mounted ≡ true) × (usb.hid_ready ≡ true))
            → (forward sdk st usb report s).sent ≡ s.sent)
  unfolding forward
  forward-sent st usb report s = ground (arith, handed-send_report usb report, append-nil s.sent)

  -- A report goes to USB, as the last one, exactly when the PC is on and the device is mounted and
  -- ready; otherwise nothing is sent. Waking the PC sends nothing.
  pub forwards_when_on :
      (usb : UsbAnswers) (report : GamepadReport) (now_ms : ℕ) (s : Firmware sdk)
      → ((s.power_sm.state ≡ on) × (usb.is_mounted ≡ true) × (usb.hid_ready ≡ true)
          → (process_gamepad sdk usb report now_ms s).sent ≡ s.sent ++ from_gamepad report ∷ [])
        × (¬ ((s.power_sm.state ≡ on) × (usb.is_mounted ≡ true) × (usb.hid_ready ≡ true))
            → (process_gamepad sdk usb report now_ms s).sent ≡ s.sent)
  forwards_when_on usb report now_ms s =
      let kept = wake_on_guide-sent s.power_sm.state report now_ms s in
      let s1 = wake_on_guide sdk s.power_sm.state report now_ms s in
      let (sends, drops) = forward-sent s.power_sm.state usb report s1 in
      (
        λ h.
            process_gamepad-sent usb report now_ms s
            ∙ sends h
            ∙ ap (λ x. x ++ from_gamepad report ∷ []) kept,
        λ h. process_gamepad-sent usb report now_ms s ∙ drops h ∙ kept,
      )

  unfoldable pub process_reports : Firmware sdk → Reports → Firmware sdk
  process_reports s [] = s
  process_reports s ((usb, report, now_ms) ∷ rs) =
      process_reports (process_gamepad sdk usb report now_ms s) rs

  process_gamepad-held :
      (usb : UsbAnswers) (report : GamepadReport) (now_ms : ℕ) (s : Firmware sdk)
      → s.prev_report_valid ≡ true
      → guide_pressed s.prev_report ≡ true
      → ((process_gamepad sdk usb report now_ms s).power_sm ≡ s.power_sm)
        × ((process_gamepad sdk usb report now_ms s).hal ≡ s.hal)
  process_gamepad-held usb report now_ms s valid pressed =
      let (m, h) = process_gamepad-power_sm usb report now_ms s in
      let stays =
        wake_on_guide-stays s.power_sm.state report now_ms s
          (ground (arith, guide_rises_iff report s, valid, pressed)) in
      (m ∙ ap (λ (x : Firmware sdk). x.power_sm) stays, h ∙ ap (λ (x : Firmware sdk). x.hal) stays)

  -- While the guide button is held, from a valid report that has it pressed, no further report changes
  -- the power state machine, the alarms or the power button.
  pub held_guide :
      (s : Firmware sdk) (rs : Reports)
      → s.prev_report_valid ≡ true
      → guide_pressed s.prev_report ≡ true
      → All (λ r. guide_pressed r.1 ≡ true) rs
      → ((process_reports s rs).power_sm ≡ s.power_sm) × ((process_reports s rs).hal ≡ s.hal)
  unfolding process_reports process_gamepad
  held_guide s [] valid pressed all = (refl, refl)
  held_guide s ((usb, report, now_ms) ∷ rs) valid pressed (first, all) =
      let s1 = process_gamepad sdk usb report now_ms s in
      let (m1, h1) = process_gamepad-held usb report now_ms s valid pressed in
      let (m2, h2) = held_guide s1 rs refl first all in (m2 ∙ m1, h2 ∙ h1)
