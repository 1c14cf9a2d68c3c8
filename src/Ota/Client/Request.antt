-- ===== src/Ota/Client/Request.antt =====
-- The text of a request and its buffer.
use pad_proxy.Base.{
  suc, ◌+◌, ◌-◌, ◌<◌, ◌≡◌, refl, ap, true, some, [], ◌∷◌, ◌++◌, Bytes, length, length-append,
  take_whole, arith,
}
use pad_proxy.Setup.Text.{ascii}
use pad_proxy.Ota.Url.{Url, parse_url}
use pad_proxy.Ota.Url.Laws.{parse_url-Fits}
use pad_proxy.Ota.Headers.{crlf}
use pad_proxy.Ota.Client.{request_text, req_size, Client, http_connected_cb, write, to_url}

length-request_text :
    (path host : Bytes) → length (request_text path host) ≡ length path + length host + 87
unfolding request_text
length-request_text path host =
    let version = ascii " HTTP/1.1" ++ crlf in
    let tail =
      ascii "User-Agent: PadProxy-OTA/1.0"
      ++ (crlf
          ++ (ascii "Accept: */*" ++ (crlf ++ (ascii "Connection: close" ++ (crlf ++ crlf))))) in
    let lines = ascii "Host: " ++ ((host ++ crlf) ++ tail) in
    let whole : length (request_text path host)
        ≡ suc (suc (suc (suc (length ((path ++ version) ++ lines))))) =
      refl in
    omega (
      arith,
      whole,
      length-append (path ++ version) lines,
      length-append path version,
      length-append (host ++ crlf) tail,
      length-append host crlf,
    )

-- The request for a URL that was parsed fits its buffer of 768 bytes, NUL included, and is sent whole.
pub http_connected_cb-request_text :
    (url : Bytes) (u : Url) (c : Client)
    → parse_url 128 512 url ≡ some u
    → (length (request_text u.path u.host) < req_size)
      × ((http_connected_cb true true (to_url u c)).calls
          ≡ c.calls ++ write (request_text u.path u.host) ∷ [])
unfolding http_connected_cb
http_connected_cb-request_text url u c e =
    let f = parse_url-Fits 128 512 url u e in
    let fits : length (request_text u.path u.host) < req_size =
      omega (arith, length-request_text u.path u.host, f.host, f.path) in
    (
      fits,
      ap (λ t. c.calls ++ write t ∷ [])
          (take_whole (req_size - 1) (request_text u.path u.host) (omega (arith, fits))),
    )
