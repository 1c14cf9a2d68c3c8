-- ===== src/Base/Words.antt =====
-- Machine words: a w-bit unsigned value is a number below 2 ^ w, wrapped at each write.
use Prim.Native.Nat.{ℕ, ◌+◌, ◌-◌, ◌*◌, ◌/◌, ◌%◌, ◌^◌}

-- A value stored in a uint32_t.
abbrev pub u32 : ℕ → ℕ
u32 n = n % 4294967296

-- `~x` on a uint32_t.
abbrev pub u32_not : ℕ → ℕ
u32_not x = 4294967295 - x

-- `a - b` on uint32_t values.
abbrev pub u32_sub : ℕ → ℕ → ℕ
u32_sub a b = (a + 4294967296 - b) % 4294967296

-- A value stored in a uint16_t.
abbrev pub u16 : ℕ → ℕ
u16 v = v % 65536

-- A value stored in a uint8_t.
abbrev pub u8 : ℕ → ℕ
u8 v = v % 256

-- `x >> k` and `x << k`, the second before its wrap.
abbrev pub shr : ℕ → ℕ → ℕ
shr x k = x / 2 ^ k

abbrev pub shl : ℕ → ℕ → ℕ
shl x k = x * 2 ^ k
