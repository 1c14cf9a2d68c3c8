-- ===== src/Ota/Json/Names.antt =====
-- Strings that a JSON text names by a key.
use pad_proxy.Base.{
  ℕ, ◌-◌, ◌<◌, ◌≡◌, ◌≢◌, ◌⊎◌, refl, ap, ◌∙◌, inl, inr, true, false, All, none, some, [], ◌∷◌, ◌++◌,
  Bytes, length, take_whole, drop, drop-append, leb, ◌==◌, arith,
}
use pad_proxy.Ota.Text.{starts_with, strstr, strchr, before}
use pad_proxy.Ota.Json.{
  ◌>>=◌, tight, spaced, behind, quoted, json_find_string, asset_name, url_key, find_bin_asset_url,
}

-- The pattern begins nowhere in `pre`, which stands before `s`; and nowhere in a whole text.
abbrev pub NotIn : Bytes → Bytes → Bytes → Type 0
NotIn pattern [] s = Unit
NotIn pattern (c ∷ pre) s = (starts_with pattern (c ∷ pre ++ s) ≡ false) × NotIn pattern pre s

-- The first occurrence of the pattern is followed by the value and a quote.
pub record First (pattern value json : Bytes) : Type 0 where
  pub pre : Bytes
  pub rest : Bytes
  pub text : json ≡ pre ++ (pattern ++ (value ++ b'"' ∷ rest))
  pub first : NotIn pattern pre (pattern ++ (value ++ b'"' ∷ rest))
  pub unquoted : All (λ c. c ≢ b'"') value

-- The key names the value, with a space behind the colon only if there is no occurrence without.
abbrev pub Names : Bytes → Bytes → Bytes → Type 0
Names key value json =
    First (tight key) value json
    ⊎ ((strstr (tight key) json ≡ none) × First (spaced key) value json)

starts_with-append : (p s : Bytes) → starts_with p (p ++ s) ≡ true
starts_with-append [] s = refl
starts_with-append (c ∷ p) s = ground (arith, starts_with-append p s)

strstr-here : (p s : Bytes) → starts_with p s ≡ true → strstr p s ≡ some s
strstr-here p [] h = simp h
strstr-here p (c ∷ s) h = simp h

pub strstr-NotIn :
    (p pre s : Bytes) → NotIn p pre s → starts_with p s ≡ true → strstr p (pre ++ s) ≡ some s
strstr-NotIn p [] s n h = strstr-here p s h
strstr-NotIn p (c ∷ pre) s (n, ns) h = simp n (strstr-NotIn p pre s ns h)

strstr-First :
    (p v json : Bytes) (f : First p v json) → strstr p json ≡ some (p ++ (v ++ b'"' ∷ f.rest))
strstr-First p v json f =
    ap (strstr p) f.text
    ∙ strstr-NotIn p f.pre (p ++ (v ++ b'"' ∷ f.rest)) f.first
        (starts_with-append p (v ++ b'"' ∷ f.rest))

before-quote : (v rest : Bytes) → All (λ c. c ≢ b'"') v → before (b'"' ∷ []) (v ++ b'"' ∷ rest) ≡ v
before-quote [] rest h = refl
before-quote (c ∷ v) rest (n, h) =
    let other : (c == b'"') ≡ false = ground (arith, n) in
    simp other (ap (λ t. c ∷ t) (before-quote v rest h))

strchr-quote :
    (v rest : Bytes) → All (λ c. c ≢ b'"') v → strchr b'"' (v ++ b'"' ∷ rest) ≡ some (b'"' ∷ rest)
strchr-quote [] rest h = refl
strchr-quote (c ∷ v) rest (n, h) =
    let other : (c == b'"') ≡ false = ground (arith, n) in simp other (strchr-quote v rest h)

quoted-value : (v rest : Bytes) → All (λ c. c ≢ b'"') v → quoted (v ++ b'"' ∷ rest) ≡ some v
quoted-value v rest h =
    ap (λ o. o >>= (λ _. some (before (b'"' ∷ []) (v ++ b'"' ∷ rest)))) (strchr-quote v rest h)
    ∙ ap some (before-quote v rest h)

behind-First : (p v json : Bytes) (f : First p v json) → behind p json ≡ some (v ++ b'"' ∷ f.rest)
behind-First p v json f =
    ap (λ o. o >>= (λ s. some (drop (length p) s))) (strstr-First p v json f)
    ∙ ap some (drop-append (length p) p (v ++ b'"' ∷ f.rest) refl)

-- A value that a key names, and that fits the buffer, is what is found.
pub json_find_string-Names :
    (key value json : Bytes) (buf_len : ℕ)
    → Names key value json
    → length value < buf_len
    → json_find_string json key buf_len ≡ some value
unfolding json_find_string
json_find_string-Names key value json buf_len (inl f) h =
    rw (behind-First (tight key) value json f, quoted-value value f.rest f.unquoted)
      (ap some (take_whole (buf_len - 1) value (omega (arith, h))))
json_find_string-Names key value json buf_len (inr (never, f)) h =
    rw (never, behind-First (spaced key) value json f, quoted-value value f.rest f.unquoted)
      (ap some (take_whole (buf_len - 1) value (omega (arith, h))))

-- The text names the asset `padproxy.bin`, and behind it the URL.
pub record Asset (url json : Bytes) : Type 0 where
  pub pre : Bytes
  pub rest : Bytes
  pub text : json ≡ pre ++ (asset_name ++ rest)
  pub first : NotIn asset_name pre (asset_name ++ rest)
  pub names : Names url_key url (asset_name ++ rest)

strstr-Asset :
    (url json : Bytes) (a : Asset url json) → strstr asset_name json ≡ some (asset_name ++ a.rest)
strstr-Asset url json a =
    ap (strstr asset_name) a.text
    ∙ strstr-NotIn asset_name a.pre (asset_name ++ a.rest) a.first
        (starts_with-append asset_name a.rest)

-- The URL of the asset is found, if it fits its buffer.
pub find_bin_asset_url-Asset :
    (url json : Bytes) (url_len : ℕ)
    → Asset url json
    → length url < url_len
    → find_bin_asset_url json url_len ≡ some url
unfolding find_bin_asset_url
find_bin_asset_url-Asset url json url_len a h =
    let fits : leb url_len (length url) ≡ false = ground (arith, h) in
    elim a.names [
      | inl f ↦
          rw
            (
              strstr-Asset url json a,
              strstr-First (tight url_key) url (asset_name ++ a.rest) f,
              quoted-value url f.rest f.unquoted,
              fits,
            )
            refl
      | inr (never, f) ↦
          rw
            (
              strstr-Asset url json a,
              never,
              strstr-First (spaced url_key) url (asset_name ++ a.rest) f,
              quoted-value url f.rest f.unquoted,
              fits,
            )
            refl
    ]
