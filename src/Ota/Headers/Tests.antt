-- ===== src/Ota/Headers/Tests.antt =====
-- Response headers.
use pad_proxy.Base.{◌≡◌, List, [], ◌∷◌, ◌++◌, Bytes, refl, arith}
use pad_proxy.Base.Int.{pos}
use pad_proxy.Setup.Text.{ascii, skip_ws, sign, digits}
use pad_proxy.Ota.Text.{atoi}
use pad_proxy.Ota.Headers.{crlf, parse_status_code, find_from, find_header, find_content_length}
use pad_proxy.Ota.Headers.Fields.{header_text, first_field, find_header-header_text}

abbrev fields : List (Bytes × Bytes)
fields = (ascii "Server", ascii "x: y") ∷ (ascii "content-length", ascii "42") ∷ []

abbrev status_line : Bytes
status_line = ascii "HTTP/1.1 302 Found"

status : parse_status_code (status_line ++ (crlf ++ header_text fields)) ≡ pos 302
unfolding parse_status_code atoi skip_ws sign digits
status = refl

content_length : find_content_length (status_line ++ (crlf ++ header_text fields)) ≡ pos 42
unfolding find_content_length find_header find_from atoi skip_ws sign digits
content_length = refl

find_header-header_text_example :
    find_header (status_line ++ (crlf ++ header_text fields)) (ascii "Content-Length") 32
    ≡ first_field (ascii "Content-Length") 32 fields
find_header-header_text_example =
    find_header-header_text status_line (ascii "Content-Length") 32 fields (ground arith)
      (ground arith) (ground arith) (ground arith)
