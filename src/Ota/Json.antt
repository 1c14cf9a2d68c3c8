-- ===== src/Ota/Json.antt =====
-- The searches in the release JSON of firmware/src/ota_update.c.
pub mod Names
use pad_proxy.Base.{
  ℕ, ◌-◌, ◌≡◌, refl, Option, none, some, [], ◌∷◌, ◌++◌, Bytes, length, take, drop, leb, ◌==◌,
  if◌then◌else◌,
}
use pad_proxy.Setup.Text.{ascii}
use pad_proxy.Ota.Text.{strstr, strchr, before, skip_spaces}

infixl 5 ◌>>=◌
abbrev pub ◌>>=◌ {ℓ κ} : {A : Type ℓ} {B : Type κ} → Option A → (A → Option B) → Option B
none >>= f = none
some a >>= f = f a

infixl 6 ◌or_else◌
abbrev pub ◌or_else◌ : Option Bytes → Option Bytes → Option Bytes
none or_else b = b
some a or_else b = some a

-- `snprintf(pattern, sizeof(pattern), …)`, with and without the space.
abbrev pub tight : Bytes → Bytes
tight key = take 127 (b'"' ∷ (key ++ (b'"' ∷ b':' ∷ b'"' ∷ [])))

abbrev pub spaced : Bytes → Bytes
spaced key = take 127 (b'"' ∷ (key ++ (b'"' ∷ b':' ∷ b' ' ∷ b'"' ∷ [])))

-- The pointer behind the pattern.
abbrev pub behind : Bytes → Bytes → Option Bytes
behind pattern s = do p ← strstr pattern s; some (drop (length pattern) p)

-- The text up to the next quote, if there is one.
abbrev pub quoted : Bytes → Option Bytes
quoted p = do _ ← strchr b'"' p; some (before (b'"' ∷ []) p)

-- `none` for false, else the string in `buf`.
unfoldable pub json_find_string : Bytes → Bytes → ℕ → Option Bytes
json_find_string json key buf_len = do
  p ← behind (tight key) json or_else behind (spaced key) json
  v ← quoted p
  some (take (buf_len - 1) v)

abbrev pub asset_name : Bytes
asset_name = ascii "\"padproxy.bin\""

abbrev pub url_key : Bytes
url_key = ascii "browser_download_url"

-- What follows a quote that has to stand here.
abbrev pub behind_quote : Bytes → Option Bytes
behind_quote [] = none
behind_quote (c ∷ cs) = if c == b'"' then some cs else none

unfoldable pub find_bin_asset_url : Bytes → ℕ → Option Bytes
find_bin_asset_url json url_len = do
  asset ← strstr asset_name json
  key_at ← strstr (tight url_key) asset or_else strstr (spaced url_key) asset
  colon ← strchr b':' (drop 1 key_at)
  p ← behind_quote (skip_spaces (drop 1 colon))
  v ← quoted p
  if leb url_len (length v) then none else some v

release : Bytes
release =
    ascii
      "{\"tag_name\": \"v1.2.3\",\"assets\":[{\"name\":\"padproxy.bin\",\"browser_download_url\":\"https://x/y\"}]}"

finds_tag : json_find_string release (ascii "tag_name") 64 ≡ some (ascii "v1.2.3")
unfolding json_find_string release
finds_tag = refl

finds_url : find_bin_asset_url release 512 ≡ some (ascii "https://x/y")
unfolding find_bin_asset_url release
finds_url = refl
