-- ===== src/Ota/Url/Tests.antt =====
-- URLs and the request for them.
use pad_proxy.Base.{◌≡◌, some, none, ◌∷◌, ◌++◌, Bytes, refl, arith}
use pad_proxy.Setup.Text.{ascii}
use pad_proxy.Ota.Url.{Url, parse_url}
use pad_proxy.Ota.Url.Laws.{parse_url-append}

abbrev release_url : Bytes
release_url = ascii "https://api.github.com/repos/a/b"

abbrev parsed_url : Url
parsed_url = record { host = ascii "api.github.com"; port = 443; path = ascii "/repos/a/b" }

no_scheme : parse_url 128 512 (ascii "ftp://x/y") ≡ none
unfolding parse_url
no_scheme = refl

parse_url-append_example :
    parse_url 128 512 (ascii "https://" ++ (ascii "h.io" ++ b'/' ∷ ascii "f:1"))
    ≡ some (record { host = ascii "h.io"; port = 443; path = b'/' ∷ ascii "f:1" })
parse_url-append_example =
    parse_url-append 128 512 (ascii "h.io") (ascii "f:1") (ground arith) (omega arith) (omega arith)
      (omega arith)
