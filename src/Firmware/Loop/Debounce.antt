-- ===== src/Firmware/Loop/Debounce.antt =====
-- The debouncing of the power LED over any sequence of samples: the LED half of `poll_hardware`.
use pad_proxy.Base.{
  ℕ, ◌≤◌, ◌<◌, ◌≡◌, ◌≢◌, ◌⊎◌, inl, inr, ◌↔◌, refl, sym, ◌∙◌, Bool, true, Bool-cases, List, [], ◌∷◌,
  u32_sub, if◌then◌else◌, arith,
}
use pad_proxy.Firmware.Loop.{Led, power_led_stable_ms, differs, sample, is_stable, debounce}

-- The LED as `poll_hardware` read it, and when; the newest sample first.
abbrev pub Samples : Type 0
Samples = List (Bool × ℕ)

abbrev pub latest : Bool → Samples → Bool
latest before [] = before
latest before ((led, now_ms) ∷ older) = led

-- The samples end in a run of readings `led` that began at `start_ms`, after another reading.
pub data Run (before : Bool) (led : Bool) (start_ms : ℕ) : Samples → Type 0 where
  begun :
      {older : Samples}
      → latest before older ≢ led
      → Run before led start_ms ((led, start_ms) ∷ older)
  goes_on :
      {older : Samples} (now_ms : ℕ)
      → Run before led start_ms older
      → Run before led start_ms ((led, now_ms) ∷ older)

unfoldable pub led_after : Led → Samples → Led
led_after l [] = l
led_after l ((led, now_ms) ∷ older) = (debounce led now_ms (led_after l older)).0

-- The reading that the state machine was last told.
abbrev pub accepted : Led → Samples → Bool
accepted l samples = (led_after l samples).debounced

-- No run lasts for `power_led_stable_ms`.
abbrev pub IsBlinking : Bool → Samples → Type 0
IsBlinking before [] = Unit
IsBlinking before ((led, now_ms) ∷ older) =
    ((start_ms : ℕ)
      → Run before led start_ms ((led, now_ms) ∷ older)
      → u32_sub now_ms start_ms < power_led_stable_ms)
    × IsBlinking before older

debounce-cases :
    (led : Bool) (now_ms : ℕ) (l : Led)
    → ((debounce led now_ms l).0.reading ≡ led)
      × ((debounce led now_ms l).0.changed_ms
          ≡ (if differs led l.reading then now_ms else l.changed_ms))
      × ((debounce led now_ms l).0.debounced
          ≡ (if (debounce led now_ms l).1 then led else l.debounced))
      × (((debounce led now_ms l).1 ≡ true) ↔ (
          (l.debounced ≢ led)
          × (power_led_stable_ms
              ≤ u32_sub now_ms (if differs led l.reading then now_ms else l.changed_ms))))
unfolding debounce sample is_stable
debounce-cases led now_ms l = ground arith

reading-led_after :
    (l : Led) (samples : Samples) → (led_after l samples).reading ≡ latest l.reading samples
unfolding led_after
reading-led_after l [] = refl
reading-led_after l ((led, now_ms) ∷ older) = (debounce-cases led now_ms (led_after l older)).0

changed_ms-Run :
    (l : Led) {led : Bool} {start_ms : ℕ} {samples : Samples}
    → Run l.reading led start_ms samples
    → ((led_after l samples).changed_ms ≡ start_ms) × (latest l.reading samples ≡ led)
unfolding led_after
changed_ms-Run l {led} {start_ms} (begun {older} other) =
    let (r, c, d, e) = debounce-cases led start_ms (led_after l older) in
    ground (arith, c, reading-led_after l older, other)
changed_ms-Run l {led} {start_ms} (goes_on {older} now_ms run) =
    let (r, c, d, e) = debounce-cases led now_ms (led_after l older) in
    ground (arith, c, reading-led_after l older, changed_ms-Run l run)

-- After any samples, a sample that is in a run of equal readings gives an edge event exactly when its
-- reading differs from the accepted one and the run has lasted for at least `power_led_stable_ms`, in
-- 32-bit time; the accepted reading is then this one, and otherwise stays.
pub accepts_iff :
    (l : Led) {led : Bool} {start_ms : ℕ} (now_ms : ℕ) (older : Samples)
    → Run l.reading led start_ms ((led, now_ms) ∷ older)
    → (((debounce led now_ms (led_after l older)).1 ≡ true)
        ↔ ((accepted l older ≢ led) × (power_led_stable_ms ≤ u32_sub now_ms start_ms)))
      × (accepted l ((led, now_ms) ∷ older)
          ≡ (if (debounce led now_ms (led_after l older)).1 then led else accepted l older))
unfolding led_after
accepts_iff l {led} {start_ms} now_ms older run =
    let (r, c, d, e) = debounce-cases led now_ms (led_after l older) in
    let (starts, same) = changed_ms-Run l run in (rw (sym starts ∙ c) e, d)

Run-latest :
    (before : Bool) (samples : Samples)
    → (latest before samples ≡ before)
      ⊎ ((start_ms : ℕ) × Run before (latest before samples) start_ms samples)
Run-latest before [] = inl refl
Run-latest before ((led, now_ms) ∷ older) = elim (Bool-cases (differs (latest before older) led)) [
  | inl d ↦ inr (now_ms, begun (ground (arith, d)))
  | inr d ↦
      let same : latest before older ≡ led = ground (arith, d) in
      elim (Run-latest before older) [
        | inl e ↦ inl (sym same ∙ e)
        | inr (start_ms, run) ↦ inr (start_ms, goes_on now_ms (rw (sym same) run))
      ]
]

-- While no reading of the LED lasts for `power_led_stable_ms`, as with the blinking of a sleeping PC,
-- the reading that the state machine was told stays the same.
pub accepted-IsBlinking :
    (l : Led) (samples : Samples)
    → l.reading ≡ l.debounced
    → IsBlinking l.reading samples
    → accepted l samples ≡ l.debounced
unfolding led_after
accepted-IsBlinking l [] same short = refl
accepted-IsBlinking l ((led, now_ms) ∷ older) same (short, rest) =
    let kept = accepted-IsBlinking l older same rest in
    elim (Run-latest l.reading ((led, now_ms) ∷ older)) [
      | inl e ↦ ground (arith, (debounce-cases led now_ms (led_after l older)).2, kept, same, e)
      | inr (start_ms, run) ↦
          let (edge, next) = accepts_iff l now_ms older run in
          ground (arith, next, edge, kept, short start_ms run)
    ]
