-- ===== src/Ota/Text.antt =====
-- The functions of string.h, strings.h and stdlib.h that firmware/src/ota_update.c calls. A pointer into
-- a string is the rest of the string from there.
use pad_proxy.Base.{
  ℕ, zero, suc, ◌+◌, Bool, true, false, ◌&&◌, Option, none, some, [], ◌∷◌, Bytes, ltb, leb, ◌==◌,
  if◌then◌else◌,
}
use pad_proxy.Base.Int.{ℤ, pos, negsuc}
use pad_proxy.Setup.Text.{skip_ws, digits, sign}

-- `strncmp(s, prefix, strlen(prefix)) == 0`
abbrev pub starts_with : Bytes → Bytes → Bool
starts_with [] s = true
starts_with (c ∷ cs) [] = false
starts_with (c ∷ cs) (d ∷ ds) = d == c && starts_with cs ds

-- `tolower`
abbrev pub to_lower : ℕ → ℕ
to_lower c = if leb b'A' c && leb c b'Z' then c + 32 else c

-- `strncasecmp(s, prefix, strlen(prefix)) == 0`
abbrev pub starts_like : Bytes → Bytes → Bool
starts_like [] s = true
starts_like (c ∷ cs) [] = false
starts_like (c ∷ cs) (d ∷ ds) = to_lower d == to_lower c && starts_like cs ds

-- `strstr(s, pattern)`, with the pattern first.
abbrev pub strstr : Bytes → Bytes → Option Bytes
strstr pattern [] = if starts_with pattern [] then some [] else none
strstr pattern (c ∷ cs) =
    let later = strstr pattern cs in if starts_with pattern (c ∷ cs) then some (c ∷ cs) else later

-- What stands before the first occurrence of a pattern, or the whole string.
abbrev pub before : Bytes → Bytes → Bytes
before pattern [] = []
before pattern (c ∷ cs) =
    let more = before pattern cs in if starts_with pattern (c ∷ cs) then [] else c ∷ more

-- `strchr(s, c)`, with the character first.
abbrev pub strchr : ℕ → Bytes → Option Bytes
strchr c s = strstr (c ∷ []) s

-- `while (*p == ' ') p++;`
abbrev pub skip_spaces : Bytes → Bytes
skip_spaces [] = []
skip_spaces (c ∷ cs) = let rest = skip_spaces cs in if c == b' ' then rest else c ∷ cs

-- `while (*p >= '0' && *p <= '9') p++;`
abbrev pub skip_digits : Bytes → Bytes
skip_digits [] = []
skip_digits (c ∷ cs) =
    let rest = skip_digits cs in if leb b'0' c && leb c b'9' then rest else c ∷ cs

abbrev clamped : Bool → ℕ → ℤ
clamped true zero = pos 0
clamped true (suc v) = if ltb 2147483647 v then negsuc 2147483647 else negsuc v
clamped false v = if ltb 2147483647 v then pos 2147483647 else pos v

-- `atoi`. A number out of range, undefined in C, is clamped as newlib's strtol does.
unfoldable pub atoi : Bytes → ℤ
unfolding skip_ws sign digits
atoi s = let (minus, p) = sign (skip_ws s) in let (v, end) = digits 0 p in clamped minus v
