-- ===== src/Base/Bits.antt =====
-- Facts about `bit_and` and `bit_or` at variables, from the digit recursion: each operation works on
-- the halves of its operands and combines their lowest digits.
use Prim.Native.Nat.{
  ℕ, zero, suc, ◌+◌, ◌-◌, ◌*◌, ◌/◌, ◌%◌, ◌^◌, ◌≤◌, ◌<◌, min, max, bit_and, bit_or, digits, bitwise,
  bit_and-bitwise, bit_or-bitwise,
}
use mathlib.Core.Path.{◌≡◌, refl, sym, ◌∙◌, ap, ap₂}
use native.Mathlib.Omega.{arith}
use native.Mathlib.Nat.{two-pow-succ, mod-eq-sub-div-mul, div-mul-le_self, mod-lt}

-- An operation on digits: `z` is its result once the first operand has run out.
module _ (z : ℕ → ℕ) (f : ℕ → ℕ → ℕ) where
  digits_more : (n a b : ℕ) → a ≤ n → digits z f (suc n) a b ≡ digits z f n a b
  digits_more zero zero b h = refl
  digits_more zero (suc a) b h = absurd (omega arith)
  digits_more (suc n) zero b h = refl
  digits_more (suc n) (suc a) b h =
      let tail = digits_more n (suc a / 2) (b / 2) (omega arith) in
      ap (λ t. t * 2 + f (suc a % 2) (b % 2)) tail

  -- Spare digits change nothing.
  digits_spare : (d a b : ℕ) → digits z f (d + a) a b ≡ bitwise z f a b
  digits_spare zero a b = ap (λ n. digits z f n a b) (let e : 0 + a ≡ a = omega arith in e)
  digits_spare (suc d) a b =
      ap (λ n. digits z f n a b) (let e : suc d + a ≡ suc (d + a) = omega arith in e)
      ∙ digits_more (d + a) a b (omega arith)
      ∙ digits_spare d a b

  -- The lowest digits combine, and the operation goes on with the halves.
  bitwise_halves :
      ((b : ℕ) → z b ≡ z (b / 2) * 2 + f 0 (b % 2))
      → (a b : ℕ) → bitwise z f a b ≡ bitwise z f (a / 2) (b / 2) * 2 + f (a % 2) (b % 2)
  bitwise_halves run_out zero b = run_out b
  bitwise_halves run_out (suc a) b =
      let half = suc a / 2 in
      let enough : a ≡ a - half + half = omega arith in
      let spare =
        ap (λ n. digits z f n half (b / 2)) enough ∙ digits_spare (a - half) half (b / 2) in
      ap (λ t. t * 2 + f (suc a % 2) (b % 2)) spare

pub bit_and-halves : (a b : ℕ) → bit_and a b ≡ min (a % 2) (b % 2) + 2 * bit_and (a / 2) (b / 2)
bit_and-halves a b =
    let halves = bitwise_halves (λ b. zero) min (λ b. omega arith) a b in
    omega (arith, halves, bit_and-bitwise a b, bit_and-bitwise (a / 2) (b / 2))

pub bit_or-halves : (a b : ℕ) → bit_or a b ≡ max (a % 2) (b % 2) + 2 * bit_or (a / 2) (b / 2)
bit_or-halves a b =
    let halves = bitwise_halves (λ b. b) max (λ b. omega arith) a b in
    omega (arith, halves, bit_or-bitwise a b, bit_or-bitwise (a / 2) (b / 2))

zero-bit_or : (b : ℕ) → bit_or 0 b ≡ b
zero-bit_or b = bit_or-bitwise 0 b

-- On a count of halvings that is large enough.
bit_and-zero_within : (n a : ℕ) → a < 2 ^ n → bit_and a 0 ≡ 0
bit_and-zero_within zero a h =
    ap (λ t. bit_and t 0) (let e : a ≡ 0 = omega arith in e) ∙ bit_and-bitwise 0 0
bit_and-zero_within (suc n) a h =
    let less : a / 2 < 2 ^ n = omega (arith, two-pow-succ n) in
    omega (arith, bit_and-halves a 0, bit_and-zero_within n (a / 2) less)

lt-two_pow : (a : ℕ) → a < 2 ^ a
lt-two_pow zero = omega arith
lt-two_pow (suc a) = omega (arith, two-pow-succ a, lt-two_pow a)

pub bit_and-zero : (a : ℕ) → bit_and a 0 ≡ 0
bit_and-zero a = bit_and-zero_within a a (lt-two_pow a)

two_pow-pos : (k : ℕ) → 0 < 2 ^ k
two_pow-pos zero = omega arith
two_pow-pos (suc k) = omega (arith, two-pow-succ k, two_pow-pos k)

-- A mask of k ones keeps the k lowest digits.
bit_and_ones_at : (k q r : ℕ) → r < 2 ^ k → bit_and (q * 2 ^ k + r) (2 ^ k - 1) ≡ r
bit_and_ones_at zero q r h = omega (arith, bit_and-zero (q * 1 + r))
bit_and_ones_at (suc k) q r h =
    let n = 2 ^ k in
    let m = 2 ^ suc k in
    let double = two-pow-succ k in
    let half_a : (q * m + r) / 2 ≡ q * n + r / 2 = omega (arith, ap (λ t. q * t) double) in
    let half_mask : (m - 1) / 2 ≡ n - 1 = omega (arith, double) in
    omega (
      arith,
      double,
      two_pow-pos k,
      ap (λ t. q * t) double,
      bit_and-halves (q * m + r) (m - 1),
      ap₂ bit_and half_a half_mask,
      bit_and_ones_at k q (r / 2) (omega (arith, double)),
    )

-- A mask of one digit reads that digit.
bit_and_digit_at :
    (k q d r : ℕ) → d < 2 → r < 2 ^ k → bit_and ((q * 2 + d) * 2 ^ k + r) (2 ^ k) ≡ d * 2 ^ k
bit_and_digit_at zero q d r hd hr =
    omega (arith, bit_and-halves ((q * 2 + d) * 1 + r) 1, bit_and-zero (((q * 2 + d) * 1 + r) / 2))
bit_and_digit_at (suc k) q d r hd hr =
    let n = 2 ^ k in
    let m = 2 ^ suc k in
    let c = q * 2 + d in
    let double = two-pow-succ k in
    let half_a : (c * m + r) / 2 ≡ c * n + r / 2 = omega (arith, ap (λ t. c * t) double) in
    let half_mask : m / 2 ≡ n = omega (arith, double) in
    omega (
      arith,
      double,
      ap (λ t. c * t) double,
      ap (λ t. d * t) double,
      bit_and-halves (c * m + r) m,
      ap₂ bit_and half_a half_mask,
      bit_and_digit_at k q d (r / 2) hd (omega (arith, double)),
    )

-- Operands that share no digit are joined by adding them.
pub bit_or_disjoint : (k a b : ℕ) → a < 2 ^ k → bit_or a (b * 2 ^ k) ≡ a + b * 2 ^ k
bit_or_disjoint zero a b h =
    omega
      (arith, zero-bit_or (b * 1), ap (λ t. bit_or t (b * 1)) (let e : a ≡ 0 = omega arith in e))
bit_or_disjoint (suc k) a b h =
    let n = 2 ^ k in
    let m = 2 ^ suc k in
    let double = two-pow-succ k in
    let half_b : b * m / 2 ≡ b * n = omega (arith, ap (λ t. b * t) double) in
    omega (
      arith,
      double,
      ap (λ t. b * t) double,
      bit_or-halves a (b * m),
      ap (bit_or (a / 2)) half_b,
      bit_or_disjoint k (a / 2) b (omega (arith, double)),
    )

split_at : (a m : ℕ) → a / m * m + a % m ≡ a
split_at a m = omega (arith, mod-eq-sub-div-mul a m, div-mul-le_self a m)

pub bit_and_ones : (k a : ℕ) → bit_and a (2 ^ k - 1) ≡ a % 2 ^ k
bit_and_ones k a =
    let m = 2 ^ k in
    ap (λ t. bit_and t (m - 1)) (sym (split_at a m))
    ∙ bit_and_ones_at k (a / m) (a % m) (mod-lt a (two_pow-pos k))

pub bit_and_digit : (k a : ℕ) → bit_and a (2 ^ k) ≡ a / 2 ^ k % 2 * 2 ^ k
bit_and_digit k a =
    let m = 2 ^ k in
    let q = a / m in
    let e : (q / 2 * 2 + q % 2) * m + a % m ≡ a =
      omega (arith, split_at a m, ap (λ t. t * m) (split_at q 2)) in
    ap (λ t. bit_and t m) (sym e)
    ∙ bit_and_digit_at k (q / 2) (q % 2) (a % m) (omega arith) (mod-lt a (two_pow-pos k))

byte_mask : (a : ℕ) → bit_and a 255 ≡ a % 256
byte_mask = bit_and_ones 8
