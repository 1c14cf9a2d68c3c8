-- ===== src/Ota/Version/RoundTrip.antt =====
-- Printed versions are read back, and what is read fits its type.
use mathlib.Core.List.{append_assoc}
use pad_proxy.Base.{
  ℕ, zero, suc, ◌+◌, ◌-◌, ◌*◌, ◌/◌, ◌%◌, ◌≤◌, ◌<◌, ◌≡◌, ◌⊎◌, Bool, true, false, some, [], ◌∷◌, ◌++◌,
  Bytes, ltb, arith, u32, refl, ap, ◌∙◌, Bool-cases, inl, inr,
}
use pad_proxy.Ota.Version.{
  stored, Version, is_digit, digit_loop, parse_u16, expect_dot, skip_v, parse_string, parse,
  decimal_from, decimal, version_text,
}
use pad_proxy.Ota.Version.Order.{IsVersion}

abbrev pub starts_digit : Bytes → Bool
starts_digit [] = false
starts_digit (c ∷ cs) = is_digit c

digit_loop_stop :
    (n : ℕ) (rest : Bytes) → starts_digit rest ≡ false → digit_loop n rest ≡ some (n, rest)
unfolding digit_loop
digit_loop_stop n [] h = refl
digit_loop_stop n (c ∷ cs) h = rw h

digit_loop_next :
    (val d : ℕ) (rest : Bytes)
    → d < 10
    → val * 10 + d ≤ 65535
    → digit_loop val ((b'0' + d) ∷ rest) ≡ digit_loop (val * 10 + d) rest
unfolding digit_loop
digit_loop_next val d rest h le =
    let next : u32 (u32 (val * 10) + (b'0' + d - b'0')) ≡ val * 10 + d = omega arith in
    let digit : is_digit (b'0' + d) ≡ true = ground arith in
    let fits : ltb 65535 (val * 10 + d) ≡ false = ground arith in rw (digit, next, fits) refl

-- Reading the digits of a number in front of `out` leaves the loop at that number.
digit_loop-decimal_from :
    (fuel n : ℕ) (out : Bytes)
    → n < fuel
    → n ≤ 65535
    → digit_loop 0 (decimal_from fuel n out) ≡ digit_loop n out
unfolding decimal_from
digit_loop-decimal_from zero n out h le = absurd (omega arith)
digit_loop-decimal_from (suc fuel) n out h le =
    let d = n % 10 in
    let here = (b'0' + d) ∷ out in
    let whole : n / 10 * 10 + d ≡ n = omega arith in
    elim (Bool-cases (ltb n 10)) [
      | inl small ↦
          let only : 0 * 10 + d ≡ n = ground arith in
          rw small
            (digit_loop_next 0 d out (omega arith) (omega arith) ∙ ap (λ t. digit_loop t out) only)
      | inr large ↦ rw large (
          digit_loop-decimal_from fuel (n / 10) here (ground arith) (omega arith)
          ∙ digit_loop_next (n / 10) d out (omega arith) (omega arith)
          ∙ ap (λ t. digit_loop t out) whole)
    ]

decimal_from-append :
    (fuel n : ℕ) (out rest : Bytes)
    → decimal_from fuel n out ++ rest ≡ decimal_from fuel n (out ++ rest)
unfolding decimal_from
decimal_from-append zero n out rest = refl
decimal_from-append (suc fuel) n out rest = elim (Bool-cases (ltb n 10)) [
  | inl small ↦ rw small
  | inr large ↦ rw large (decimal_from-append fuel (n / 10) ((b'0' + n % 10) ∷ out) rest)
]

starts_digit-decimal_from :
    (fuel n : ℕ) (out : Bytes)
    → starts_digit out ≡ true ⊎ 0 < fuel
    → starts_digit (decimal_from fuel n out) ≡ true
unfolding decimal_from
starts_digit-decimal_from zero n out (inl h) = h
starts_digit-decimal_from zero n out (inr h) = absurd (omega arith)
starts_digit-decimal_from (suc fuel) n out h =
    let here = (b'0' + n % 10) ∷ out in
    let digit : starts_digit here ≡ true = ground arith in
    elim (Bool-cases (ltb n 10)) [
      | inl small ↦ rw small digit
      | inr large ↦ rw large (starts_digit-decimal_from fuel (n / 10) here (inl digit))
    ]

parse_u16_digits : (s : Bytes) → starts_digit s ≡ true → parse_u16 s ≡ digit_loop 0 s
unfolding parse_u16
parse_u16_digits [] h = cc h
parse_u16_digits (c ∷ cs) h = rw h

skip_v_digits : (s : Bytes) → starts_digit s ≡ true → skip_v s ≡ s
unfolding skip_v
skip_v_digits [] h = refl
skip_v_digits (c ∷ cs) h = ground arith

decimal-append : (n : ℕ) (rest : Bytes) → decimal n ++ rest ≡ decimal_from (suc n) n rest
unfolding decimal
decimal-append n rest = decimal_from-append (suc n) n [] rest

starts_digit-decimal : (n : ℕ) (rest : Bytes) → starts_digit (decimal n ++ rest) ≡ true
starts_digit-decimal n rest =
    rw decimal-append (starts_digit-decimal_from (suc n) n rest (inr (omega arith)))

parse_u16-decimal :
    (n : ℕ) (rest : Bytes)
    → n ≤ 65535
    → starts_digit rest ≡ false
    → parse_u16 (decimal n ++ rest) ≡ some (n, rest)
parse_u16-decimal n rest le stop =
    parse_u16_digits (decimal n ++ rest) (starts_digit-decimal n rest)
    ∙ ap (digit_loop 0) (decimal-append n rest)
    ∙ digit_loop-decimal_from (suc n) n rest (omega arith) le
    ∙ digit_loop_stop n rest stop

version_text_parts :
    (v : Version) (rest : Bytes)
    → version_text v ++ rest
      ≡ decimal v.major ++ (b'.' ∷ (decimal v.minor ++ (b'.' ∷ (decimal v.patch ++ rest))))
unfolding version_text
version_text_parts v rest = simp append_assoc

-- The parse behind the optional prefix.
parse_string_parts :
    (v : Version) (s rest : Bytes)
    → IsVersion v
    → starts_digit rest ≡ false
    → skip_v s ≡ version_text v ++ rest
    → parse_string s ≡ some v
unfolding parse_string expect_dot
parse_string_parts v s rest h stop skipped =
    let tail2 = decimal v.patch ++ rest in
    let tail1 = decimal v.minor ++ (b'.' ∷ tail2) in
    rw (skipped ∙ version_text_parts v rest) (
      rw (parse_u16-decimal v.major (b'.' ∷ tail1) (omega (arith, h.major_u16)) refl) (
        rw (parse_u16-decimal v.minor (b'.' ∷ tail2) (omega (arith, h.minor_u16)) refl)
          (rw (parse_u16-decimal v.patch rest (omega (arith, h.patch_u16)) stop) refl)))

skip_v-version_text :
    (v : Version) (rest : Bytes) → skip_v (version_text v ++ rest) ≡ version_text v ++ rest
skip_v-version_text v rest =
    rw version_text_parts (skip_v_digits _ (starts_digit-decimal v.major _))

parse-some :
    {v : Version} (old : Version) (s : Bytes)
    → parse_string s ≡ some v
    → parse (some s) (some old) ≡ (true, some v)
unfolding parse
parse-some old s e = ap (stored old) e

-- The printed form of a version, bare or behind "v" or "V", is parsed as that version, also where
-- more text follows that does not start with a digit; and the version is stored in the output.
pub parse-version_text :
    {v : Version} (old : Version) (rest : Bytes)
    → IsVersion v
    → starts_digit rest ≡ false
    → (parse (some (version_text v ++ rest)) (some old) ≡ (true, some v))
      × (parse (some (b'v' ∷ (version_text v ++ rest))) (some old) ≡ (true, some v))
      × (parse (some (b'V' ∷ (version_text v ++ rest))) (some old) ≡ (true, some v))
parse-version_text {v} old rest h stop =
    let text = version_text v ++ rest in
    let parsed = λ (s : Bytes) (e : skip_v s ≡ text).
      parse-some old s (parse_string_parts v s rest h stop e) in
    (
      parsed text (skip_v-version_text v rest),
      parsed (b'v' ∷ text) (unfold skip_v in refl),
      parsed (b'V' ∷ text) (unfold skip_v in refl),
    )
