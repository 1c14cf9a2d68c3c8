-- ===== src/Gamepad/Convert/Buttons.antt =====
-- What `map_buttons`, the hat table and the guide test compute.
use pad_proxy.Base.{
  Bool, table, table_entry, leb, ◌&&◌, ◌||◌, ℕ, suc, ◌+◌, ◌*◌, ◌/◌, ◌%◌, ◌^◌, ◌≤◌, ◌<◌, ◌≡◌, ◌⊎◌,
  refl, ap, sym, ◌∙◌, true, not, if◌then◌else◌, arith, bit_and, bit_or, ◌==◌, List, [], ◌∷◌, get_or,
  Bool-cases, inl, inr, ==_iff,
}
use native.Mathlib.Nat.{two-pow-succ}
use pad_proxy.Base.Bits.{bit_and_digit, bit_and_ones, bit_or_disjoint}
use pad_proxy.Gamepad.{hat_table, InRange, dpad_to_hat, guide_pressed}
use pad_proxy.Gamepad.Convert.{UniGamepad, UniMasks, or_if, map_buttons, convert_report}
use pad_proxy.Gamepad.Convert.Axes.{scale_axis-IsInt16, clamp_trigger-le}

-- 1 if a bit of the mask is set in the word, else 0.
pub flag : ℕ → ℕ → ℕ
flag word mask = if bit_and word mask == 0 then 0 else 1

-- Each bit is set above all bits that may be set already.
or_if_lem :
    (k word mask out : ℕ) → out < 2 ^ k → or_if word mask (2 ^ k) out ≡ out + flag word mask * 2 ^ k
unfolding or_if flag
or_if_lem k word mask out h = elim (Bool-cases (bit_and word mask == 0)) [
  | inl none_set ↦ rw none_set (omega arith)
  | inr some_set ↦
      let one : 1 * 2 ^ k ≡ 2 ^ k = omega arith in
      rw some_set (omega (arith, bit_or_disjoint k out 1 h, ap (bit_or out) one))
]

flag-le : (word mask : ℕ) → flag word mask ≤ 1
unfolding flag
flag-le word mask = ground arith

-- The words and masks of the button bits, from bit k on: the code's sequence, and its value.
abbrev set_bits : ℕ → ℕ → List (ℕ × ℕ) → ℕ
set_bits k out [] = out
set_bits k out ((word, mask) ∷ rest) = set_bits (suc k) (or_if word mask (2 ^ k) out) rest

abbrev weights : ℕ → List (ℕ × ℕ) → ℕ
weights k [] = 0
weights k ((word, mask) ∷ rest) = flag word mask * 2 ^ k + weights (suc k) rest

set_bits-weights :
    (k out : ℕ) (l : List (ℕ × ℕ)) → out < 2 ^ k → set_bits k out l ≡ out + weights k l
set_bits-weights k out [] h = omega arith
set_bits-weights k out ((word, mask) ∷ rest) h =
    let bit = or_if_lem k word mask out h in
    let small = flag-le word mask in
    let next : or_if word mask (2 ^ k) out < 2 ^ suc k = grind (arith, two-pow-succ k) in
    omega (arith, bit, set_bits-weights (suc k) (or_if word mask (2 ^ k) out) rest next)

-- The merged button word, bit by bit: A, B, X, Y, the shoulders, the thumbs, start, select, guide.
abbrev pub merged : UniMasks → ℕ → ℕ → ℕ
merged m bp misc =
    flag bp m.button_a
    + flag bp m.button_b * 2
    + flag bp m.button_x * 4
    + flag bp m.button_y * 8
    + flag bp m.shoulder_l * 16
    + flag bp m.shoulder_r * 32
    + flag bp m.thumb_l * 64
    + flag bp m.thumb_r * 128
    + flag misc m.misc_start * 256
    + flag misc m.misc_select * 512
    + flag misc m.misc_system * 1024

sources : UniMasks → ℕ → ℕ → List (ℕ × ℕ)
sources m bp misc =
    (bp, m.button_a)
    ∷ (bp, m.button_b)
    ∷ (bp, m.button_x)
    ∷ (bp, m.button_y)
    ∷ (bp, m.shoulder_l)
    ∷ (bp, m.shoulder_r)
    ∷ (bp, m.thumb_l)
    ∷ (bp, m.thumb_r)
    ∷ (misc, m.misc_start)
    ∷ (misc, m.misc_select)
    ∷ (misc, m.misc_system)
    ∷ []

map_buttons-set_bits :
    (m : UniMasks) (bp misc : ℕ) → map_buttons m bp misc ≡ set_bits 0 0 (sources m bp misc)
unfolding map_buttons sources
map_buttons-set_bits m bp misc = refl

weights-merged : (m : UniMasks) (bp misc : ℕ) → weights 0 (sources m bp misc) ≡ merged m bp misc
unfolding sources
weights-merged m bp misc = omega arith

-- Every bit of the button word is set exactly if Bluepad32 reports its button, and no other bit is.
pub map_buttons-merged : (m : UniMasks) (bp misc : ℕ) → map_buttons m bp misc ≡ merged m bp misc
map_buttons-merged m bp misc =
    map_buttons-set_bits m bp misc
    ∙ set_bits-weights 0 0 (sources m bp misc) (omega arith)
    ∙ omega (arith, weights-merged m bp misc)

-- The guide bit is the top bit of the word.
merged-split :
    (m : UniMasks) (bp misc : ℕ)
    → (merged m bp misc < 2048) × (merged m bp misc / 1024 ≡ flag misc m.misc_system)
merged-split m bp misc = omega (
  arith,
  flag-le bp m.button_a,
  flag-le bp m.button_b,
  flag-le bp m.button_x,
  flag-le bp m.button_y,
  flag-le bp m.shoulder_l,
  flag-le bp m.shoulder_r,
  flag-le bp m.thumb_l,
  flag-le bp m.thumb_r,
  flag-le misc m.misc_start,
  flag-le misc m.misc_select,
  flag-le misc m.misc_system,
)

-- The guide button of a converted report is pressed exactly if Bluepad32 reports its system button.
pub guide_pressed-convert_report :
    (m : UniMasks) (gp : UniGamepad)
    → guide_pressed (convert_report m gp) ≡ not (bit_and gp.misc_buttons m.misc_system == 0)
unfolding guide_pressed convert_report flag
guide_pressed-convert_report m gp =
    let word = map_buttons m gp.buttons gp.misc_buttons in
    let merge = map_buttons-merged m gp.buttons gp.misc_buttons in
    ground (arith, bit_and_digit 10 word, merge, merged-split m gp.buttons gp.misc_buttons)

-- The d-pad bits of a hat position, clockwise from up; centred is no bit.
abbrev pub hat_bits : ℕ → ℕ
hat_bits h = get_or (1 ∷ 5 ∷ 4 ∷ 6 ∷ 2 ∷ 10 ∷ 8 ∷ 9 ∷ 0 ∷ []) h 0

hat_of : ℕ → ℕ
hat_of y = get_or hat_table y 0

dpad_to_hat-hat_of : (bits : ℕ) → dpad_to_hat bits ≡ hat_of (bits % 16)
unfolding dpad_to_hat hat_of
dpad_to_hat-hat_of bits = ap (λ t. get_or hat_table t 0) (bit_and_ones 4 bits)

abbrev hat_test : ℕ → Bool
hat_test y = leb (hat_of y) 8 && (hat_of y == 8 || hat_bits (hat_of y) == y)

hat_of_bits : (y : ℕ) → y < 16 → (hat_of y ≤ 8) × ((hat_of y ≡ 8) ⊎ (hat_bits (hat_of y) ≡ y))
hat_of_bits y h =
    let entry : hat_test y ≡ true = table_entry hat_test 16 (unfold table hat_of in refl) h in
    ground arith

abbrev back_test : ℕ → Bool
back_test h = dpad_to_hat (hat_bits h) == h

hat_of-hat_bits : (h : ℕ) → h ≤ 8 → dpad_to_hat (hat_bits h) ≡ h
hat_of-hat_bits h le =
    (==_iff _ _).0 (table_entry back_test 9 (unfold table dpad_to_hat in refl) (omega arith))

-- The hat position of d-pad bits is at most 8 and depends on the four lowest bits only; a position
-- other than centred is that of exactly these bits, and every position is that of its own bits.
pub dpad_to_hat_lem :
    (bits : ℕ)
    → (dpad_to_hat bits ≤ 8)
      × (dpad_to_hat bits ≡ dpad_to_hat (bits % 16))
      × ((dpad_to_hat bits ≡ 8) ⊎ (hat_bits (dpad_to_hat bits) ≡ bits % 16))
      × (bits ≤ 8 → dpad_to_hat (hat_bits bits) ≡ bits)
dpad_to_hat_lem bits =
    let y = bits % 16 in
    let here = dpad_to_hat-hat_of bits in
    let there = dpad_to_hat-hat_of y in
    let (bound, back) = hat_of_bits y (omega arith) in
    let same : hat_of (y % 16) ≡ hat_of y = ap hat_of (let e : y % 16 ≡ y = omega arith in e) in
    (rw here bound, here ∙ sym (there ∙ same), rw here back, hat_of-hat_bits bits)

map_buttons-lt : (m : UniMasks) (bp misc : ℕ) → map_buttons m bp misc < 65536
map_buttons-lt m bp misc = omega (arith, map_buttons-merged m bp misc, (merged-split m bp misc).0)

-- Whatever Bluepad32 reports, the converted report is within the documented ranges.
pub convert_report-InRange : (m : UniMasks) (gp : UniGamepad) → InRange (convert_report m gp)
unfolding convert_report
convert_report-InRange m gp = record {
  lx_int16 = scale_axis-IsInt16 gp.axis_x;
  ly_int16 = scale_axis-IsInt16 gp.axis_y;
  rx_int16 = scale_axis-IsInt16 gp.axis_rx;
  ry_int16 = scale_axis-IsInt16 gp.axis_ry;
  lt_max = clamp_trigger-le gp.brake;
  rt_max = clamp_trigger-le gp.throttle;
  buttons_u16 = map_buttons-lt m gp.buttons gp.misc_buttons;
  dpad_max = (dpad_to_hat_lem gp.dpad).0;
}
