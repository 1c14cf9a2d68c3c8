-- ===== src/Setup/Text/Numbers.antt =====
-- `parse_u16` of a number in decimal digits.
use pad_proxy.Base.{
  ℕ, ◌≤◌, ◌≡◌, true, false, ◌&&◌, All, some, Bytes, [], ◌∷◌, ltb, leb, ◌==◌, u16, arith,
}
use pad_proxy.Setup.Text.{is_space, skip_ws, sign, digits, strtoul, in_u16, parse_u16, starts_digit}

-- One or more digits.
abbrev pub IsDigit : ℕ → Type 0
IsDigit c = (b'0' ≤ c) × (c ≤ b'9')

abbrev pub IsNumber : Bytes → Type 0
IsNumber [] = ⊥
IsNumber (c ∷ cs) = All IsDigit (c ∷ cs)

strtoul-IsNumber :
    (s : Bytes) (v : ℕ) → IsNumber s → digits 0 s ≡ (v, []) → v ≤ 65535 → strtoul s ≡ some (v, [])
unfolding strtoul skip_ws sign digits starts_digit
strtoul-IsNumber [] v h e le = absurd h
strtoul-IsNumber (c ∷ cs) v h e le =
    let ink : is_space c ≡ false = ground (arith, h.0) in
    let not_minus : (c == b'-') ≡ false = ground (arith, h.0) in
    let not_plus : (c == b'+') ≡ false = ground (arith, h.0) in
    let digit : (leb b'0' c && leb c b'9') ≡ true = ground (arith, h.0) in
    let fits : ltb 4294967295 v ≡ false = ground (arith, le) in
    simp (ink, not_minus, not_plus, digit, (simp digit at e), fits)

pub parse_u16-IsNumber :
    (s : Bytes) (v : ℕ) → IsNumber s → digits 0 s ≡ (v, []) → v ≤ 65535 → parse_u16 s ≡ some v
unfolding parse_u16 in_u16
parse_u16-IsNumber s v h e le =
    let fits : ltb 65535 v ≡ false = ground (arith, le) in
    let same : u16 v ≡ v = omega (arith, le) in simp (strtoul-IsNumber s v h e le, fits, same)
