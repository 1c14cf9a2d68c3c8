-- ===== src/Gamepad/Slot/Laws.antt =====
-- The controller slots over every order of Bluepad32's callbacks.
use pad_proxy.Base.{
  ap, Bool-cases, ◌⊎◌, inl, inr, ℕ, ◌≡◌, Bool, true, false, none, some, List, [], ◌∷◌, ◌++◌, arith,
  refl, length, set, inl, inr, if◌then◌else◌, ◌↔◌,
}
use pad_proxy.Gamepad.{GamepadReport, InRange}
use pad_proxy.Gamepad.Convert.{UniGamepad, UniMasks, convert_report}
use pad_proxy.Gamepad.Convert.Buttons.{convert_report-InRange}
use pad_proxy.Gamepad.Slot.{
  gamepad_max, Slots, Scanning, start_scanning, stop_scanning, idle_report, init, on_init_complete,
  on_device_disconnected, on_device_ready, on_controller_data, slot_connected, get_report,
}

-- A callback of Bluepad32 about a device; `received` says whether it is a gamepad.
pub data Event : Type 0 where
  ready lost : Event
  received : Bool → UniGamepad → Event

unfoldable pub step : UniMasks → Event → Slots → Slots
step m ready s = (on_device_ready s).0
step m lost s = (on_device_disconnected s).0
step m (received is_gamepad gp) s = on_controller_data m is_gamepad gp s

-- The slots after some callbacks, the newest first.
unfoldable pub after : UniMasks → Slots → List Event → Slots
after m s [] = s
after m s (e ∷ older) = step m e (after m s older)

-- Whether a device became ready since the last one was lost, and what a gamepad sent last since then.
abbrev pub is_there : List Event → Bool
is_there [] = false
is_there (ready ∷ older) = true
is_there (lost ∷ older) = false
is_there (received is_gamepad gp ∷ older) = is_there older

abbrev pub last_sent : UniMasks → List Event → GamepadReport
last_sent m [] = idle_report
last_sent m (ready ∷ older) = last_sent m older
last_sent m (lost ∷ older) = idle_report
last_sent m (received true gp ∷ older) = convert_report m gp
last_sent m (received false gp ∷ older) = last_sent m older

-- The last command given to Bluepad32's scanner.
abbrev pub last_command : Scanning → List Scanning → Scanning
last_command d [] = d
last_command d (x ∷ xs) = last_command x xs

last_command-append :
    (d : Scanning) (xs : List Scanning) (x : Scanning) → last_command d (xs ++ (x ∷ [])) ≡ x
last_command-append d [] x = refl
last_command-append d (y ∷ xs) x = last_command-append y xs x

-- What the slots hold after some callbacks.
record Holds (m : UniMasks) (h : List Event) (s : Slots) : Type 0 where
  one_report : s.reports ≡ last_sent m h ∷ []
  one_flag : s.is_connected ≡ is_there h ∷ []
  quiet : is_there h ≡ true → last_command start_scanning s.scanning ≡ stop_scanning

idle_report-InRange : InRange idle_report
unfolding idle_report
idle_report-InRange = omega arith

set_one : {A : Type 0} (xs : List A) (x : A) → length xs ≡ 1 → set xs 0 x ≡ x ∷ []
set_one [] x l = absurd (omega arith)
set_one (y ∷ []) x l = refl
set_one (y ∷ z ∷ xs) x l = absurd (omega arith)

-- The slots after `bt_gamepad_init` and the stack's own start, from any memory.
pub started : Bool → Slots → Slots
started cb s = on_init_complete (init cb s)

started-Holds :
    (m : UniMasks) (cb : Bool) (s : Slots)
    → length s.reports ≡ 1
    → length s.is_connected ≡ 1
    → Holds m [] (started cb s)
unfolding started init on_init_complete
started-Holds m cb s lr lc = record {
  one_report = set_one s.reports idle_report lr;
  one_flag = set_one s.is_connected false lc;
  quiet = λ c. cc c;
}

step-Holds :
    (m : UniMasks) (e : Event) (h : List Event) (s : Slots)
    → Holds m h s
    → Holds m (e ∷ h) (step m e s)
unfolding step on_device_ready on_device_disconnected on_controller_data
step-Holds m ready h s i = record {
  one_report = i.one_report;
  one_flag = ap (λ xs. set xs 0 true) i.one_flag;
  quiet = λ c. last_command-append start_scanning s.scanning stop_scanning;
}
step-Holds m lost h s i = record {
  one_report = ap (λ xs. set xs 0 idle_report) i.one_report;
  one_flag = ap (λ xs. set xs 0 false) i.one_flag;
  quiet = λ c. cc c;
}
step-Holds m (received false gp) h s i = record {
  one_report = i.one_report;
  one_flag = i.one_flag;
  quiet = i.quiet;
}
step-Holds m (received true gp) h s i = record {
  one_report = ap (λ xs. set xs 0 (convert_report m gp)) i.one_report;
  one_flag = i.one_flag;
  quiet = i.quiet;
}

after-Holds : (m : UniMasks) (h : List Event) (s : Slots) → Holds m [] s → Holds m h (after m s h)
unfolding after
after-Holds m [] s i = i
after-Holds m (e ∷ h) s i = step-Holds m e h (after m s h) (after-Holds m h s i)

last_sent-InRange : (m : UniMasks) (h : List Event) → InRange (last_sent m h)
last_sent-InRange m [] = idle_report-InRange
last_sent-InRange m (ready ∷ h) = last_sent-InRange m h
last_sent-InRange m (lost ∷ h) = idle_report-InRange
last_sent-InRange m (received true gp ∷ h) = convert_report-InRange m gp
last_sent-InRange m (received false gp ∷ h) = last_sent-InRange m h

get_report-Holds :
    (m : UniMasks) (h : List Event) (s : Slots) (old : GamepadReport)
    → Holds m h s
    → get_report 0 (some old) s
      ≡ some (if is_there h then (true, some (last_sent m h)) else (false, some old))
unfolding get_report
get_report-Holds m h s old i = elim (Bool-cases (is_there h)) [
  | inl there ↦ simp (i.one_flag, i.one_report, there)
  | inr empty ↦ simp (i.one_flag, empty)
]

-- With one slot, as the arrays of the code have: after any callbacks since the start, in any order, a read
-- of slot 0 into a report answers whether a device became ready since the last one was lost. If so, the
-- report then holds what a gamepad sent last since a device was lost, converted, or the idle report if
-- none has sent, and its values lie within the documented ranges; else it is left as it was. While a
-- device is ready Bluepad32 was last told to stop scanning.
pub get_report-after :
    (m : UniMasks) (cb : Bool) (s : Slots) (old : GamepadReport) (h : List Event)
    → length s.reports ≡ gamepad_max
    → length s.is_connected ≡ gamepad_max
    → let t = after m (started cb s) h in
      (get_report 0 (some old) t
        ≡ some (if is_there h then (true, some (last_sent m h)) else (false, some old)))
      × InRange (last_sent m h)
      × ((is_there h ≡ false) ⊎ (last_command start_scanning t.scanning ≡ stop_scanning))
get_report-after m cb s old h lr lc =
    let i = after-Holds m h (started cb s) (started-Holds m cb s lr lc) in
    (
      get_report-Holds m h (after m (started cb s) h) old i,
      last_sent-InRange m h,
      elim (Bool-cases (is_there h)) [ inl there ↦ inr (i.quiet there) | inr empty ↦ inl empty ],
    )

-- A read through a NULL pointer faults exactly while a controller is connected in the slot read.
pub get_report_null :
    (idx : ℕ) (s : Slots) → (get_report idx none s ≡ none) ↔ (slot_connected idx s ≡ true)
unfolding get_report slot_connected
get_report_null idx s = ground arith
