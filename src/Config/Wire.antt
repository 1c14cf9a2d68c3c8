-- ===== src/Config/Wire.antt =====
-- The checksum and the byte order of the configuration blob: `crc32_update`, `put_u16`, `put_u32`,
-- `get_u16` and `get_u32` of firmware/src/device_config.c.
use pad_proxy.Base.{
  take, length, IsBytes, ◌≤◌, ℕ, zero, suc, ◌+◌, ◌*◌, ◌/◌, ◌^◌, ◌<◌, ◌≡◌, refl, ap, ◌∙◌, arith, [],
  ◌∷◌, ◌++◌, Bytes, get_or, u8, u16, u32, u32_not, u32_sub, shr, shl, bit_and, bit_or, bit_xor,
}
use pad_proxy.Base.Bits.{bit_and_ones, bit_or_disjoint}

-- The body of the inner loop: `-(crc & 1)` is a uint32_t.
crc_bit : ℕ → ℕ
crc_bit crc = bit_xor (shr crc 1) (bit_and 0xEDB88320 (u32_sub 0 (bit_and crc 1)))

-- `for (j = 0; j < 8; j++)`, on the rounds left.
crc_bits : ℕ → ℕ → ℕ
unfolding crc_bit
crc_bits zero crc = crc
crc_bits (suc n) crc = crc_bits n (crc_bit crc)

crc_loop : ℕ → Bytes → ℕ
unfolding crc_bits
crc_loop crc [] = crc
crc_loop crc (b ∷ bs) = crc_loop (crc_bits 8 (bit_xor crc b)) bs

-- `crc32_update(crc, data, len)`, `data` being the `len` bytes.
unfoldable pub crc32_update : ℕ → Bytes → ℕ
unfolding crc_loop
crc32_update crc data_bytes = u32_not (crc_loop (u32_not crc) data_bytes)

-- The bytes that `put_u16` and `put_u32` write at their pointer.
unfoldable pub put_u16 : ℕ → Bytes
put_u16 v = u8 (bit_and v 0xFF) ∷ u8 (bit_and (shr v 8) 0xFF) ∷ []

unfoldable pub put_u32 : ℕ → Bytes
put_u32 v =
    u8 (bit_and v 0xFF)
    ∷ u8 (bit_and (shr v 8) 0xFF)
    ∷ u8 (bit_and (shr v 16) 0xFF)
    ∷ u8 (bit_and (shr v 24) 0xFF)
    ∷ []

-- The reads are within the buffer wherever the code makes them; `get_or` needs some default.
unfoldable pub get_u16 : Bytes → ℕ
get_u16 p = u16 (bit_or (get_or p 0 0) (shl (get_or p 1 0) 8))

unfoldable pub get_u32 : Bytes → ℕ
get_u32 p = u32 (
    bit_or (bit_or (bit_or (get_or p 0 0) (shl (get_or p 1 0) 8)) (shl (get_or p 2 0) 16))
      (shl (get_or p 3 0) 24))

crc_check : crc32_update 0 (49 ∷ 50 ∷ 51 ∷ 52 ∷ 53 ∷ 54 ∷ 55 ∷ 56 ∷ 57 ∷ []) ≡ 0xCBF43926
unfolding crc32_update
crc_check = refl

pub crc32_update-lt : (crc : ℕ) (bs : Bytes) → crc32_update crc bs < 4294967296
unfolding crc32_update
crc32_update-lt crc bs = omega arith

pub get_u16-put_u16 : (v : ℕ) (rest : Bytes) → v < 65536 → get_u16 (put_u16 v ++ rest) ≡ v
unfolding put_u16 get_u16
get_u16-put_u16 v rest h = omega (
  arith,
  bit_and_ones 8 v,
  bit_and_ones 8 (v / 256),
  bit_or_disjoint 8 (u8 (bit_and v 0xFF)) (u8 (bit_and (v / 256) 0xFF)) (omega arith),
)

join_bytes :
    (a b c d : ℕ)
    → a < 256
    → b < 256
    → c < 256
    → bit_or (bit_or (bit_or a (shl b 8)) (shl c 16)) (shl d 24)
      ≡ a + b * 2 ^ 8 + c * 2 ^ 16 + d * 2 ^ 24
join_bytes a b c d ha hb hc =
    ap (λ t. bit_or (bit_or t (shl c 16)) (shl d 24)) (bit_or_disjoint 8 a b ha)
    ∙ ap (λ t. bit_or t (shl d 24)) (bit_or_disjoint 16 (a + b * 2 ^ 8) c (omega arith))
    ∙ bit_or_disjoint 24 (a + b * 2 ^ 8 + c * 2 ^ 16) d (omega arith)

pub get_u32-put_u32 : (v : ℕ) (rest : Bytes) → v < 4294967296 → get_u32 (put_u32 v ++ rest) ≡ v
unfolding put_u32 get_u32
get_u32-put_u32 v rest h = omega (
  arith,
  bit_and_ones 8 v,
  bit_and_ones 8 (shr v 8),
  bit_and_ones 8 (shr v 16),
  bit_and_ones 8 (shr v 24),
  join_bytes (u8 (bit_and v 0xFF)) (u8 (bit_and (shr v 8) 0xFF)) (u8 (bit_and (shr v 16) 0xFF))
      (u8 (bit_and (shr v 24) 0xFF)) (omega arith) (omega arith) (omega arith),
)

pub put_u16-get_u16 : (p : Bytes) → IsBytes p → 2 ≤ length p → put_u16 (get_u16 p) ≡ take 2 p
unfolding put_u16 get_u16
put_u16-get_u16 (a ∷ b ∷ r) h l =
    let v = u16 (bit_or a (shl b 8)) in
    let value : v ≡ a + b * 256 = omega (arith, bit_or_disjoint 8 a b h.0) in
    let low : u8 (bit_and v 0xFF) ≡ a = omega (arith, bit_and_ones 8 v) in
    let high : u8 (bit_and (shr v 8) 0xFF) ≡ b = omega (arith, bit_and_ones 8 (shr v 8)) in
    cc (low, high)
put_u16-get_u16 (a ∷ []) h l = absurd (omega arith)
put_u16-get_u16 [] h l = absurd (omega arith)

pub put_u32-get_u32 : (p : Bytes) → IsBytes p → 4 ≤ length p → put_u32 (get_u32 p) ≡ take 4 p
unfolding put_u32 get_u32
put_u32-get_u32 (a ∷ b ∷ c ∷ d ∷ r) h l =
    let v = u32 (bit_or (bit_or (bit_or a (shl b 8)) (shl c 16)) (shl d 24)) in
    let value : v ≡ a + b * 2 ^ 8 + c * 2 ^ 16 + d * 2 ^ 24 =
      omega (arith, join_bytes a b c d h.0 h.1.0 h.1.1.0) in
    let b0 : u8 (bit_and v 0xFF) ≡ a = omega (arith, bit_and_ones 8 v) in
    let b1 : u8 (bit_and (shr v 8) 0xFF) ≡ b = omega (arith, bit_and_ones 8 (shr v 8)) in
    let b2 : u8 (bit_and (shr v 16) 0xFF) ≡ c = omega (arith, bit_and_ones 8 (shr v 16)) in
    let b3 : u8 (bit_and (shr v 24) 0xFF) ≡ d = omega (arith, bit_and_ones 8 (shr v 24)) in
    cc (b0, b1, b2, b3)
put_u32-get_u32 (a ∷ b ∷ c ∷ []) h l = absurd (omega arith)
put_u32-get_u32 (a ∷ b ∷ []) h l = absurd (omega arith)
put_u32-get_u32 (a ∷ []) h l = absurd (omega arith)
put_u32-get_u32 [] h l = absurd (omega arith)

pub get_u16-lt : (p : Bytes) → get_u16 p < 65536
unfolding get_u16
get_u16-lt p = omega arith
