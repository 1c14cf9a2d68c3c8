-- ===== src/Ota/Version.antt =====
-- Version strings: firmware/src/ota_version.c. A C string is the list of its bytes before the NUL,
-- and the byte read at its end is 0.
pub mod Decimal
pub mod Order
pub mod RoundTrip
mod Tests
use pad_proxy.Base.{
  ℕ, zero, suc, ◌+◌, ◌-◌, ◌*◌, ◌/◌, ◌%◌, ◌≤◌, ◌<◌, ◌≡◌, Bool, true, false, ◌&&◌, ◌||◌, not, Option,
  none, some, List, [], ◌∷◌, ◌++◌, Bytes, ltb, leb, ◌==◌, if◌then◌else◌, length, take, arith, u16,
  u32, ◌⊎◌,
}
use pad_proxy.Base.Int.{ℤ, pos, negsuc}

pub record Version : Type 0 where
  pub major : ℕ  -- uint16_t, as are the next two
  pub minor : ℕ
  pub patch : ℕ

abbrev pub is_digit : ℕ → Bool
is_digit c = leb b'0' c && leb c b'9'

-- The digit loop: `none` for the early `return false`, else the value and the pointer's rest.
digit_loop : ℕ → Bytes → Option (ℕ × Bytes)
digit_loop val [] = some (val, [])
digit_loop val (c ∷ cs) =
    let next = u32 (u32 (val * 10) + (c - b'0')) in
    let rest = digit_loop next cs in
    if is_digit c then (if ltb 65535 next then none else rest) else some (val, c ∷ cs)

-- `parse_u16`: the value with the pointer's rest, or `none` for false.
parse_u16 : Bytes → Option (ℕ × Bytes)
parse_u16 [] = none
parse_u16 (c ∷ cs) = if is_digit c then digit_loop 0 (c ∷ cs) else none

infixl 5 ◌>>=◌
abbrev pub ◌>>=◌ {ℓ κ} : {A : Type ℓ} {B : Type κ} → Option A → (A → Option B) → Option B
none >>= f = none
some a >>= f = f a

-- `if (*p != '.') return false; p++;`
expect_dot : Bytes → Option Bytes
expect_dot [] = none
expect_dot (c ∷ cs) = if c == b'.' then some cs else none

skip_v : Bytes → Bytes
skip_v [] = []
skip_v (c ∷ cs) = if c == b'v' || c == b'V' then cs else c ∷ cs

-- `ota_version_parse` of a string: `none` for false, else the version written to `out`.
parse_string : Bytes → Option Version
parse_string str = do
  (major, p1) ← parse_u16 (skip_v str)
  p2 ← expect_dot p1
  (minor, p3) ← parse_u16 p2
  p4 ← expect_dot p3
  (patch, _) ← parse_u16 p4
  some (record { major = major; minor = minor; patch = patch })

-- `*out = v; return true;`, or the early `return false`.
abbrev stored : Version → Option Version → Bool × Option Version
stored old none = (false, some old)
stored old (some v) = (true, some v)

-- The result, and what `*out` holds after the call.
unfoldable pub parse : Option Bytes → Option Version → Bool × Option Version
unfolding digit_loop parse_u16 expect_dot skip_v parse_string
parse none out = (false, out)
parse (some str) none = (false, none)
parse (some str) (some old) = stored old (parse_string str)

unfoldable pub compare_versions : Version → Version → ℤ
compare_versions a b =
    if not (a.major == b.major)
    then (if ltb b.major a.major then pos 1 else negsuc 0)
    else if not (a.minor == b.minor)
    then (if ltb b.minor a.minor then pos 1 else negsuc 0)
    else if not (a.patch == b.patch)
    then (if ltb b.patch a.patch then pos 1 else negsuc 0)
    else pos 0

-- `%u`: the decimal digits, most significant first. A number has fewer digits than one more than
-- itself.
decimal_from : ℕ → ℕ → Bytes → Bytes
decimal_from zero n out = out
decimal_from (suc fuel) n out =
    let here = (b'0' + n % 10) ∷ out in
    let rest = decimal_from fuel (n / 10) here in if ltb n 10 then here else rest

unfoldable pub decimal : ℕ → Bytes
unfolding decimal_from
decimal n = decimal_from (suc n) n []

unfoldable pub version_text : Version → Bytes
version_text v = decimal v.major ++ (b'.' ∷ decimal v.minor) ++ (b'.' ∷ decimal v.patch)

-- `ota_version_format(v, buf, len)` with `len` the size of `buf`: -1, or the length that the whole
-- text has; beside it the string that `buf` holds after the call, cut to what fits before the NUL.
unfoldable pub format : Option Version → Option Bytes → ℤ → ℤ × Option Bytes
format none buf len = (negsuc 0, buf)
format (some v) none len = (negsuc 0, none)
format (some v) (some old) (negsuc n) = (negsuc 0, some old)
format (some v) (some old) (pos zero) = (negsuc 0, some old)
format (some v) (some old) (pos (suc room)) =
    (pos (length (version_text v)), some (take room (version_text v)))
