-- ===== src/Ota/Version/Decimal.antt =====
-- The decimal digits of a number: how many there are, and that `strtoul` reads them back.
use pad_proxy.Base.{
  ℕ, zero, suc, ◌+◌, ◌-◌, ◌*◌, ◌/◌, ◌%◌, ◌≤◌, ◌<◌, ◌≡◌, refl, ap, ◌∙◌, inl, inr, true, Bool-cases,
  [], ◌∷◌, Bytes, All, ◌≢◌, length, ltb, leb, ◌&&◌, arith,
}
use pad_proxy.Setup.Text.{digits}
use pad_proxy.Setup.Text.Numbers.{IsDigit, IsNumber}
use pad_proxy.Ota.Version.{decimal_from, decimal}

-- `10 * power k` is more than any number of k + 1 digits.
abbrev power : ℕ → ℕ
power zero = 1
power (suc k) = 10 * power k

length-decimal_from :
    (k fuel n : ℕ) (out : Bytes)
    → n < 10 * power k
    → length (decimal_from fuel n out) ≤ suc k + length out
unfolding decimal_from
length-decimal_from k zero n out h = omega arith
length-decimal_from zero (suc fuel) n out h =
    let small : ltb n 10 ≡ true = ground (arith, h) in rw small (omega arith)
length-decimal_from (suc k) (suc fuel) n out h = elim (Bool-cases (ltb n 10)) [
  | inl small ↦ rw small (omega arith)
  | inr large ↦
      let rest = length-decimal_from k fuel (n / 10) ((b'0' + n % 10) ∷ out) (omega (arith, h)) in
      rw large (omega (arith, rest))
]

-- A number of a uint16_t has at most five digits.
pub length-decimal : (n : ℕ) → n ≤ 65535 → length (decimal n) ≤ 5
unfolding decimal
length-decimal n le = length-decimal_from 4 (suc n) n [] (omega (arith, le))

digits_next :
    (v d : ℕ) (rest : Bytes) → d < 10 → digits v ((b'0' + d) ∷ rest) ≡ digits (v * 10 + d) rest
unfolding digits
digits_next v d rest h =
    let digit : (leb b'0' (b'0' + d) && leb (b'0' + d) b'9') ≡ true = ground (arith, h) in
    let value : v * 10 + (b'0' + d - b'0') ≡ v * 10 + d = omega arith in rw (digit, value) refl

digits-decimal_from :
    (fuel n : ℕ) (out : Bytes) → n < fuel → digits 0 (decimal_from fuel n out) ≡ digits n out
unfolding decimal_from
digits-decimal_from zero n out h = absurd (omega (arith, h))
digits-decimal_from (suc fuel) n out h =
    let d = n % 10 in
    let here = (b'0' + d) ∷ out in
    let whole : n / 10 * 10 + d ≡ n = omega arith in
    elim (Bool-cases (ltb n 10)) [
      | inl small ↦
          let only : 0 * 10 + d ≡ n = ground (arith, small) in
          rw small (digits_next 0 d out (omega arith) ∙ ap (λ t. digits t out) only)
      | inr large ↦ rw large (
          digits-decimal_from fuel (n / 10) here (ground (arith, large, h))
          ∙ digits_next (n / 10) d out (omega arith)
          ∙ ap (λ t. digits t out) whole)
    ]

pub digits-decimal : (n : ℕ) → digits 0 (decimal n) ≡ (n, [])
unfolding decimal digits
digits-decimal n = digits-decimal_from (suc n) n [] (omega arith)

decimal_from-digits :
    (fuel n : ℕ) (out : Bytes) → All IsDigit out → All IsDigit (decimal_from fuel n out)
unfolding decimal_from
decimal_from-digits zero n out h = h
decimal_from-digits (suc fuel) n out h =
    let here : All IsDigit ((b'0' + n % 10) ∷ out) = ((omega arith, omega arith), h) in
    elim (Bool-cases (ltb n 10)) [
      | inl small ↦ rw small here
      | inr large ↦ rw large (decimal_from-digits fuel (n / 10) ((b'0' + n % 10) ∷ out) here)
    ]

decimal_from-some : (fuel n : ℕ) (out : Bytes) → out ≢ [] → decimal_from fuel n out ≢ []
unfolding decimal_from
decimal_from-some zero n out h = h
decimal_from-some (suc fuel) n out h = elim (Bool-cases (ltb n 10)) [
  | inl small ↦ rw small (λ e. cc e)
  | inr large ↦ rw large (decimal_from-some fuel (n / 10) ((b'0' + n % 10) ∷ out) (λ e. cc e))
]

digits-IsNumber : (s : Bytes) → s ≢ [] → All IsDigit s → IsNumber s
digits-IsNumber [] n h = absurd (n refl)
digits-IsNumber (c ∷ cs) n h = h

decimal-some : (n : ℕ) → decimal n ≢ []
unfolding decimal decimal_from
decimal-some n = elim (Bool-cases (ltb n 10)) [
  | inl small ↦ rw small (λ e. cc e)
  | inr large ↦ rw large (decimal_from-some n (n / 10) ((b'0' + n % 10) ∷ []) (λ e. cc e))
]

pub decimal-IsNumber : (n : ℕ) → IsNumber (decimal n)
unfolding decimal
decimal-IsNumber n =
    digits-IsNumber (decimal n) (decimal-some n) (decimal_from-digits (suc n) n [] tt)
