-- ===== src/Setup/Text.antt =====
-- C strings as firmware/src/setup_cmd.c handles them: the bytes before the NUL. The functions of
-- string.h, ctype.h and stdlib.h that it calls are written out for the C locale.
pub mod Numbers
use pad_proxy.Base.{
  ℕ, ◌+◌, ◌-◌, ◌*◌, ◌≡◌, refl, Bool, true, false, not, ◌&&◌, ◌||◌, Option, none, some, Bytes, [],
  ◌∷◌, ltb, leb, ◌==◌, if◌then◌else◌, u16, u32,
}
use Prim.Native.String.{String}
use Prim.Native.Char.{code}

-- The bytes of an ASCII text.
abbrev pub ascii : String → Bytes
ascii String.[] = []
ascii (String.◌∷◌ c s) = code c ∷ ascii s

-- The string in a `char` array.
abbrev pub c_string : Bytes → Bytes
c_string [] = []
c_string (c ∷ cs) = let rest = c_string cs in if c == 0 then [] else c ∷ rest

-- `strcmp(a, b) == 0`
abbrev pub is_same : Bytes → Bytes → Bool
is_same [] [] = true
is_same [] (c ∷ cs) = false
is_same (c ∷ cs) [] = false
is_same (c ∷ cs) (d ∷ ds) = c == d && is_same cs ds

-- `isspace`
abbrev pub is_space : ℕ → Bool
is_space c = c == 32 || leb 9 c && leb c 13

unfoldable pub skip_ws : Bytes → Bytes
skip_ws [] = []
skip_ws (c ∷ cs) = let rest = skip_ws cs in if is_space c then rest else c ∷ cs

-- The loop that cuts whitespace off the end.
abbrev pub put_before : ℕ → Bytes → Bytes
put_before c [] = if is_space c then [] else c ∷ []
put_before c (d ∷ ds) = c ∷ d ∷ ds

unfoldable pub strip_end : Bytes → Bytes
strip_end [] = []
strip_end (c ∷ cs) = put_before c (strip_end cs)

-- `strchr(s, ' ')` with the NUL written there: what stands before, and what stands behind if found.
abbrev pub split_space : Bytes → Bytes × Option Bytes
split_space [] = ([], none)
split_space (c ∷ cs) =
    let (before, behind) = split_space cs in if c == 32 then ([], some cs) else (c ∷ before, behind)

abbrev is_digit : ℕ → Bool
is_digit c = leb b'0' c && leb c b'9'

unfoldable pub digits : ℕ → Bytes → ℕ × Bytes
digits v [] = (v, [])
digits v (c ∷ cs) =
    let rest = digits (v * 10 + (c - b'0')) cs in if is_digit c then rest else (v, c ∷ cs)

-- The optional sign: whether it is a minus, and what follows.
unfoldable pub sign : Bytes → Bool × Bytes
sign [] = (false, [])
sign (c ∷ cs) = if c == b'-' then (true, cs) else if c == b'+' then (false, cs) else (false, c ∷ cs)

starts_digit : Bytes → Bool
starts_digit [] = false
starts_digit (c ∷ cs) = is_digit c

abbrev ulong_max : ℕ
ulong_max = 4294967295

-- `strtoul(s, &end, 10)` with a 32-bit unsigned long: the value and `end`, or `none` where no digit
-- is read and `end == s`. A value out of range is ULONG_MAX, a minus negates in unsigned arithmetic.
unfoldable pub strtoul : Bytes → Option (ℕ × Bytes)
unfolding skip_ws sign digits starts_digit
strtoul s =
    let (minus, p) = sign (skip_ws s) in
    let (v, end) = digits 0 p in
    if not (starts_digit p)
    then none
    else if ltb ulong_max v
    then some (ulong_max, end)
    else some ((if minus then u32 (ulong_max + 1 - v) else v), end)

abbrev is_empty : Bytes → Bool
is_empty [] = true
is_empty (c ∷ cs) = false

in_u16 : Option (ℕ × Bytes) → Option ℕ
in_u16 none = none
in_u16 (some (v, end)) = if not (is_empty end) || ltb 65535 v then none else some (u16 v)

-- `parse_u16`: the number written to `*out`, or `none` for false.
unfoldable pub parse_u16 : Bytes → Option ℕ
unfolding strtoul in_u16
parse_u16 s = in_u16 (strtoul s)

minus_accepted : parse_u16 (ascii "-4294967096") ≡ some 200
unfolding parse_u16
minus_accepted = refl

trailing_refused : parse_u16 (ascii "200 ms") ≡ none
unfolding parse_u16
trailing_refused = refl
