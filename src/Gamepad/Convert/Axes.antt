-- ===== src/Gamepad/Convert/Axes.antt =====
-- Ranges and exactness of the axis and trigger conversions.
use pad_proxy.Base.{ℕ, ◌≤◌, ◌≡◌, arith}
use pad_proxy.Base.Int.{ℤ, pos, negsuc, ◌≤ℤ◌, scale}
use pad_proxy.Gamepad.{IsInt16}
use pad_proxy.Gamepad.Convert.{scale_axis, clamp_trigger}

pub scale_axis-IsInt16 : (value : ℤ) → IsInt16 (scale_axis value)
unfolding scale_axis
scale_axis-IsInt16 value = ground arith

pub clamp_trigger-le : (value : ℤ) → clamp_trigger value ≤ 1023
unfolding clamp_trigger
clamp_trigger-le value = ground arith

-- The values whose product by 64 fits an int32_t.
abbrev pub Scales : ℤ → Type 0
Scales value = (negsuc 33554431 ≤ℤ value) × (value ≤ℤ pos 33554431)

-- For values from -2^25 to 2^25 - 1 the axis is 64 times the value, held within an int16_t: exactly
-- 64 times the value from -512 to 511, the least int16_t below, the greatest above.
pub scale_axis_saturates :
    (value : ℤ)
    → Scales value
    → (negsuc 511 ≤ℤ value → value ≤ℤ pos 511 → scale_axis value ≡ scale 64 value)
      × (value ≤ℤ negsuc 511 → scale_axis value ≡ negsuc 32767)
      × (pos 512 ≤ℤ value → scale_axis value ≡ pos 32767)
unfolding scale_axis
scale_axis_saturates value h = ground arith

-- Above that range, where the int32_t product leaves its type and is taken in two's complement, an
-- axis value up to 2^26 - 512 is sent as the least int16_t and not as the greatest.
pub scale_axis_wraps : (n : ℕ) → 33554432 ≤ n → n ≤ 67108352 → scale_axis (pos n) ≡ negsuc 32767
unfolding scale_axis
scale_axis_wraps n lo hi = ground arith

-- Within that range a greater axis value is never sent as a smaller one.
pub scale_axis_mono : (a b : ℤ) → Scales a → Scales b → a ≤ℤ b → scale_axis a ≤ℤ scale_axis b
unfolding scale_axis
scale_axis_mono a b ha hb h = ground arith

-- A trigger value is kept if it lies in 0..1023, and is else the nearer end of that range.
pub clamp_trigger_clamps :
    (value : ℤ)
    → (pos 0 ≤ℤ value → value ≤ℤ pos 1023 → pos (clamp_trigger value) ≡ value)
      × (value ≤ℤ pos 0 → clamp_trigger value ≡ 0)
      × (pos 1023 ≤ℤ value → clamp_trigger value ≡ 1023)
unfolding clamp_trigger
clamp_trigger_clamps value = ground arith
