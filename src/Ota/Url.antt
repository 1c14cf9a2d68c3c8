-- ===== src/Ota/Url.antt =====
-- `parse_url` of firmware/src/ota_update.c.
pub mod Laws
mod Tests
use pad_proxy.Base.{
  ℕ, ◌+◌, ◌-◌, ◌≡◌, refl, Bool, true, false, not, ◌&&◌, ◌||◌, Option, none, some, [], ◌∷◌, ◌++◌,
  Bytes, length, drop, ltb, leb, ◌==◌, if◌then◌else◌, u16,
}
use pad_proxy.Base.Int.{ℤ, pattern32}
use pad_proxy.Setup.Text.{ascii}
use pad_proxy.Ota.Text.{starts_with, skip_digits, atoi}

-- What `parse_url` writes to its outputs on success.
pub record Url : Type 0 where
  pub host : Bytes
  pub port : ℕ  -- uint16_t
  pub path : Bytes

-- The pointer behind the scheme.
abbrev pub after_scheme : Bytes → Option Bytes
after_scheme url =
    if starts_with (ascii "https://") url
    then some (drop 8 url)
    else if starts_with (ascii "http://") url
    then some (drop 7 url)
    else none

-- `while (*p && *p != '/' && *p != ':') p++;`: the host, and the pointer behind it.
abbrev pub split_host : Bytes → Bytes × Bytes
split_host [] = ([], [])
split_host (c ∷ cs) =
    let (host, rest) = split_host cs in
    if c == b'/' || c == b':' then ([], c ∷ cs) else (c ∷ host, rest)

-- The port, and the pointer behind it.
abbrev pub split_port : Bytes → ℕ × Bytes
split_port [] = (443, [])
split_port (c ∷ cs) =
    if c == b':' then (u16 (pattern32 (atoi cs)), skip_digits cs) else (443, c ∷ cs)

-- The path for an output of size `path_len`.
abbrev pub path_of : ℕ → Bytes → Option Bytes
path_of path_len [] = if ltb path_len 2 then none else some (b'/' ∷ [])
path_of path_len (c ∷ cs) =
    if c == b'/'
    then (if leb path_len (length (c ∷ cs)) then none else some (c ∷ cs))
    else if ltb path_len 2
    then none
    else some (b'/' ∷ [])

abbrev pub url_of : Bytes → ℕ → Option Bytes → Option Url
url_of host port none = none
url_of host port (some path) = some (record { host = host; port = port; path = path })

abbrev pub parse_rest : ℕ → ℕ → Option Bytes → Option Url
parse_rest host_len path_len none = none
parse_rest host_len path_len (some p) =
    let (host, q) = split_host p in
    let (port, r) = split_port q in
    if length host == 0 || leb host_len (length host)
    then none
    else url_of host port (path_of path_len r)

-- `none` for false.
unfoldable pub parse_url : ℕ → ℕ → Bytes → Option Url
unfolding atoi
parse_url host_len path_len url = parse_rest host_len path_len (after_scheme url)

github :
    parse_url 128 512 (ascii "https://api.github.com/repos/a/b")
    ≡ some (record { host = ascii "api.github.com"; port = 443; path = ascii "/repos/a/b" })
unfolding parse_url
github = refl

with_port :
    parse_url 128 512 (ascii "http://h:8080")
    ≡ some (record { host = ascii "h"; port = 8080; path = ascii "/" })
unfolding parse_url
with_port = refl
