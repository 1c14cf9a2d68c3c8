-- ===== src/Ota/Headers.antt =====
-- The header helpers of firmware/src/ota_update.c.
pub mod Fields
mod Tests
use pad_proxy.Base.{
  ℕ, zero, suc, ◌+◌, ◌-◌, Bool, true, false, ◌&&◌, Option, none, some, [], ◌∷◌, Bytes, length, take,
  drop, ◌==◌, if◌then◌else◌,
}
use pad_proxy.Base.Int.{ℤ, pos, negsuc}
use pad_proxy.Setup.Text.{ascii}
use pad_proxy.Ota.Text.{starts_like, strstr, before, skip_spaces, atoi}

abbrev pub crlf : Bytes
crlf = 13 ∷ 10 ∷ []

abbrev behind_space : Option Bytes → ℤ
behind_space none = pos 0
behind_space (some p) = atoi (drop 1 p)

unfoldable pub parse_status_code : Bytes → ℤ
parse_status_code hdr = behind_space (strstr (ascii " ") hdr)

abbrev pub is_next : ℕ → Bytes → Bool
is_next c [] = false
is_next c (d ∷ ds) = d == c

-- The test of a line for the key, and the value that is copied.
abbrev pub is_field : Bytes → Bytes → Bool
is_field key p = starts_like key p && is_next b':' (drop (length key) p)

abbrev pub field_value : Bytes → ℕ → Bytes → Bytes
field_value key buf_len p = take (buf_len - 1) (before crlf (skip_spaces (drop (length key + 1) p)))

abbrev pub is_empty : Bytes → Bool
is_empty [] = true
is_empty (c ∷ cs) = false

-- The pointer behind the line end.
abbrev pub next_line : Option Bytes → Bytes
next_line none = []
next_line (some nl) = drop 2 nl

-- The loop; each round but the last goes behind a line end, so that the length of the headers is fuel
-- enough.
unfoldable pub find_from : ℕ → Bytes → ℕ → Bytes → Option Bytes
find_from zero key buf_len p = none
find_from (suc fuel) key buf_len p =
    let later = find_from fuel key buf_len (next_line (strstr crlf p)) in
    if is_empty p then none else if is_field key p then some (field_value key buf_len p) else later

-- `none` for false, else the string in `buf`.
unfoldable pub find_header : Bytes → Bytes → ℕ → Option Bytes
unfolding find_from
find_header headers key buf_len = find_from (length headers) key buf_len headers

abbrev number_or : Option Bytes → ℤ
number_or none = negsuc 0
number_or (some val) = atoi val

unfoldable pub find_content_length : Bytes → ℤ
find_content_length headers = number_or (find_header headers (ascii "Content-Length") 32)
