-- ===== src/Gamepad/Usb/Descriptor.antt =====
-- The report descriptor read by the rules of the HID class, and the report checked against it.
use pad_proxy.Base.{
  inl, inr, Bool-cases, u8, ℕ, zero, suc, ◌+◌, ◌-◌, ◌*◌, ◌/◌, ◌%◌, ◌≤◌, ◌≡◌, ◌⊎◌, refl, Bool, true,
  false, if◌then◌else◌, ltb, ◌==◌, List, [], ◌∷◌, ◌++◌, Bytes, length, take, drop, All, arith,
}
use pad_proxy.Base.Int.{ℤ, pos, negsuc, ◌≤ℤ◌}
use pad_proxy.Gamepad.{GamepadReport, InRange, dpad_centered}
use pad_proxy.Gamepad.Usb.{UsbReport, from_gamepad, report_descriptor}

-- The global items that an input item reads.
record Globals : Type 0 where
  logical_min : ℤ
  logical_max : ℤ
  report_size : ℕ
  report_count : ℕ

-- An input item: `number` values of `bits` bits from `least` to `greatest`. A constant is padding,
-- and with a null state a value outside the range means that nothing is pressed.
pub record InputField : Type 0 where
  pub is_constant : Bool
  pub null_state : Bool
  pub least : ℤ
  pub greatest : ℤ
  pub bits : ℕ
  pub number : ℕ

data_size : ℕ → ℕ
data_size prefix = if prefix % 4 == 3 then 4 else prefix % 4

-- The data of an item of 1 or 2 bytes, as a signed number.
signed_data : ℕ → ℕ → ℤ
signed_data size value =
    if size == 1
    then (if ltb value 128 then pos value else negsuc (255 - value))
    else (if ltb value 32768 then pos value else negsuc (65535 - value))

set_global : ℕ → ℕ → ℕ → Globals → Globals
unfolding signed_data
set_global tag size value g =
    if tag == 0x14
    then record g { logical_min = signed_data size value }
    else if tag == 0x24
    then record g { logical_max = signed_data size value }
    else if tag == 0x74
    then record g { report_size = value }
    else if tag == 0x94
    then record g { report_count = value }
    else g

emitted : ℕ → ℕ → Globals → List InputField
emitted tag value g =
    if tag == 0x80
    then record {
      is_constant = value % 2 == 1;
      null_state = value / 64 % 2 == 1;
      least = g.logical_min;
      greatest = g.logical_max;
      bits = g.report_size;
      number = g.report_count;
    }
      ∷ []
    else []

-- `need` bytes of the current item are still to come; `value` holds those read, `weight` the place
-- of the next.
read_items : ℕ → ℕ → ℕ → ℕ → Globals → Bytes → List InputField
unfolding data_size set_global emitted
read_items need prefix value weight g [] = []
read_items zero prefix value weight g (b ∷ bs) = read_items (data_size b) b 0 1 g bs
read_items (suc zero) prefix value weight g (b ∷ bs) =
    let whole = value + b * weight in
    let tag = prefix - prefix % 4 in
    emitted tag whole g ++ read_items 0 0 0 1 (set_global tag (data_size prefix) whole g) bs
read_items (suc (suc need)) prefix value weight g (b ∷ bs) =
    read_items (suc need) prefix (value + b * weight) (weight * 256) g bs

pub input_fields : Bytes → List InputField
unfolding read_items
input_fields =
    read_items 0 0 0 1
      (record { logical_min = pos 0; logical_max = pos 0; report_size = 0; report_count = 0 })

abbrev pub field_bits : List InputField → ℕ
field_bits [] = 0
field_bits (f ∷ fs) = f.bits * f.number + field_bits fs

abbrev pub InField : InputField → ℤ → Type 0
InField f v = ((f.least ≤ℤ v) × (v ≤ℤ f.greatest)) ⊎ ((f.null_state ≡ true) × (v ≡ pos 0))

-- The values fill the fields in order: each data field takes its number of values, each in range.
abbrev pub Carries : List InputField → List ℤ → Type 0
Carries [] vs = vs ≡ []
Carries (f ∷ fs) vs =
    if f.is_constant
    then Carries fs vs
    else (f.number ≤ length vs) × All (InField f) (take f.number vs) × Carries fs (drop f.number vs)

-- The 16 button bits, lowest first.
abbrev button_bits : ℕ → ℕ → List ℤ
button_bits zero word = []
button_bits (suc n) word = pos (word % 2) ∷ button_bits n (word / 2)

abbrev pub report_values : UsbReport → List ℤ
report_values r =
    r.lx ∷ r.ly ∷ r.rx ∷ r.ry ∷ pos r.lt ∷ pos r.rt ∷ pos r.hat ∷ button_bits 16 r.buttons

abbrev hat_field : InputField
hat_field = record {
  is_constant = false;
  null_state = true;
  least = pos 1;
  greatest = pos 8;
  bits = 4;
  number = 1;
}

abbrev ranged_field : ℤ → ℤ → ℕ → ℕ → InputField
ranged_field least greatest bits number = record {
  is_constant = false;
  null_state = false;
  least = least;
  greatest = greatest;
  bits = bits;
  number = number;
}

abbrev button_field : InputField
button_field = ranged_field (pos 0) (pos 1) 1 16

abbrev fields : List InputField
fields =
    ranged_field (negsuc 32767) (pos 32767) 16 4
    ∷ ranged_field (pos 0) (pos 255) 8 2
    ∷ hat_field
    ∷ record hat_field { is_constant = true; null_state = false }
    ∷ button_field
    ∷ []

descriptor_lem : input_fields report_descriptor ≡ fields
unfolding input_fields report_descriptor
descriptor_lem = refl

pub length-report_descriptor : length report_descriptor ≡ 91
unfolding report_descriptor
length-report_descriptor = refl

button_bits-InField :
    (f : InputField) (n word : ℕ)
    → f.least ≡ pos 0
    → f.greatest ≡ pos 1
    → All (InField f) (button_bits n word)
button_bits-InField f zero word lo hi = tt
button_bits-InField f (suc n) word lo hi =
    (inl (rw (lo, hi) (omega arith)), button_bits-InField f n (word / 2) lo hi)

hat-InField :
    (f : InputField) (dpad : ℕ)
    → f.null_state ≡ true
    → f.least ≡ pos 1
    → f.greatest ≡ pos 8
    → dpad ≤ 8
    → InField f (pos (if dpad == dpad_centered then 0 else u8 (dpad + 1)))
hat-InField f dpad null lo hi h = elim (Bool-cases (dpad == dpad_centered)) [
  | inl centred ↦ rw centred (inr (null, refl))
  | inr pressed ↦ rw (pressed, lo, hi) (inl (ground arith))
]

-- The USB report of a report within the documented ranges fits the descriptor, read by the rules of
-- the HID class: its values fill the declared fields in order, each within the declared range or,
-- for the hat, the null state; and the declared fields take the 13 bytes of the struct.
pub from_gamepad-Carries :
    (r : GamepadReport)
    → InRange r
    → Carries (input_fields report_descriptor) (report_values (from_gamepad r))
      × (field_bits (input_fields report_descriptor) ≡ 8 * 13)
unfolding from_gamepad
from_gamepad-Carries r h = rw descriptor_lem (
  (
    omega arith,
    (inl h.lx_int16, (inl h.ly_int16, (inl h.rx_int16, (inl h.ry_int16, tt)))),
    (
      omega arith,
      (inl (omega arith), (inl (omega arith), tt)),
      (
        omega arith,
        (hat-InField hat_field r.dpad refl refl refl h.dpad_max, tt),
        (omega arith, button_bits-InField button_field 16 r.buttons refl refl, refl),
      ),
    ),
  ),
  refl,
)
