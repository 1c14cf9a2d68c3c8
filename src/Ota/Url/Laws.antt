-- ===== src/Ota/Url/Laws.antt =====
-- What `parse_url` accepts, and that the request for it fits its buffer.
use mathlib.Core.Path.{subst}
use pad_proxy.Base.{
  ℕ, ◌<◌, ◌≡◌, ◌≢◌, refl, ap, inl, inr, false, ◌||◌, Bool-cases, Option, none, some, [], ◌∷◌, ◌++◌,
  Bytes, All, length, ltb, leb, ◌==◌, arith,
}
use pad_proxy.Setup.Text.{ascii}
use pad_proxy.Ota.Url.{
  Url, after_scheme, split_host, split_port, path_of, url_of, parse_rest, parse_url,
}

-- The outputs fit their buffers, the host is not empty, and the path starts with a slash.
pub record Fits (host_len path_len : ℕ) (u : Url) : Type 0 where
  pub host : length u.host < host_len
  pub some_host : 0 < length u.host
  pub path : length u.path < path_len
  pub slash : (rest : Bytes) × (u.path ≡ b'/' ∷ rest)
  pub port : u.port < 65536

abbrev OfSome : {A : Type 0} → (A → Type 0) → Option A → Type 0
OfSome P none = Unit
OfSome P (some r) = P r

abbrev IsPath : ℕ → Bytes → Type 0
IsPath path_len path = (length path < path_len) × ((rest : Bytes) × (path ≡ b'/' ∷ rest))

path_of-IsPath : (path_len : ℕ) (p : Bytes) → OfSome (IsPath path_len) (path_of path_len p)
path_of-IsPath path_len [] = elim (Bool-cases (ltb path_len 2)) [
  | inl small ↦ simp small tt
  | inr fits ↦ simp fits (ground (arith, fits), ([], refl))
]
path_of-IsPath path_len (c ∷ cs) = elim (Bool-cases (c == b'/')) [
  | inl slash ↦ elim (Bool-cases (leb path_len (length (c ∷ cs)))) [
    | inl long ↦ simp (slash, long) tt
    | inr fits ↦
        simp (slash, fits) (ground (arith, fits), (cs, ap (λ d. d ∷ cs) (ground (arith, slash))))
  ]
  | inr other ↦ elim (Bool-cases (ltb path_len 2)) [
    | inl small ↦ simp (other, small) tt
    | inr fits ↦ simp (other, fits) (ground (arith, fits), ([], refl))
  ]
]

split_port_lt : (p : Bytes) → (split_port p).0 < 65536
split_port_lt [] = omega arith
split_port_lt (c ∷ cs) = elim (Bool-cases (c == b':')) [
  | inl colon ↦ simp colon (omega arith)
  | inr other ↦ simp other (omega arith)
]

url_of-Fits :
    (host_len path_len : ℕ) (host : Bytes) (port : ℕ) (path : Option Bytes)
    → length host < host_len
    → 0 < length host
    → port < 65536
    → OfSome (IsPath path_len) path
    → OfSome (Fits host_len path_len) (url_of host port path)
url_of-Fits host_len path_len host port none h n p q = tt
url_of-Fits host_len path_len host port (some path) h n p (fits, slash) = record {
  host = h;
  some_host = n;
  path = fits;
  slash = slash;
  port = p;
}

parse_rest-Fits :
    (host_len path_len : ℕ) (p : Option Bytes)
    → OfSome (Fits host_len path_len) (parse_rest host_len path_len p)
parse_rest-Fits host_len path_len none = tt
parse_rest-Fits host_len path_len (some p) =
    let (host, q) = split_host p in
    elim (Bool-cases (length host == 0 || leb host_len (length host))) [
      | inl bad ↦ simp bad tt
      | inr good ↦ simp good (
          url_of-Fits host_len path_len host (split_port q).0 _ (ground (arith, good))
            (ground (arith, good)) (split_port_lt q) (path_of-IsPath path_len (split_port q).1))
    ]

-- What is parsed fits the buffers, NUL included: the host is not empty, the path starts with a slash and
-- the port is a uint16_t.
pub parse_url-Fits :
    (host_len path_len : ℕ) (url : Bytes) (u : Url)
    → parse_url host_len path_len url ≡ some u
    → Fits host_len path_len u
unfolding parse_url
parse_url-Fits host_len path_len url u e =
    subst (OfSome (Fits host_len path_len)) e (parse_rest-Fits host_len path_len (after_scheme url))

-- A character that does not end a host.
abbrev pub IsHostChar : ℕ → Type 0
IsHostChar c = (c ≢ b'/') × (c ≢ b':')

split_host-append :
    (host rest : Bytes)
    → All IsHostChar host
    → split_host (host ++ b'/' ∷ rest) ≡ (host, b'/' ∷ rest)
split_host-append [] rest h = refl
split_host-append (c ∷ host) rest ((slash, colon), h) =
    let go_on : (c == b'/' || c == b':') ≡ false = ground (arith, slash, colon) in
    simp go_on (ap (λ r. (c ∷ r.0, r.1)) (split_host-append host rest h))

-- A URL that is put together from a host and a path is parsed into them, with port 443, if they fit.
pub parse_url-append :
    (host_len path_len : ℕ) (host rest : Bytes)
    → All IsHostChar host
    → 0 < length host
    → length host < host_len
    → length (b'/' ∷ rest) < path_len
    → parse_url host_len path_len (ascii "https://" ++ (host ++ b'/' ∷ rest))
      ≡ some (record { host = host; port = 443; path = b'/' ∷ rest })
unfolding parse_url
parse_url-append host_len path_len host rest h n fits room =
    let good : (length host == 0 || leb host_len (length host)) ≡ false = ground (arith, n, fits) in
    let short : leb path_len (length (b'/' ∷ rest)) ≡ false = ground (arith, room) in
    simp (split_host-append host rest h, good, short)
