-- ===== src/Ota/Http/Tests.antt =====
-- Responses in one buffer and in several.
use pad_proxy.Base.{◌≡◌, true, false, none, List, [], ◌∷◌, ◌++◌, Bytes, replicate, refl, arith}
use pad_proxy.Base.Int.{pos, negsuc}
use pad_proxy.Setup.Text.{ascii, skip_ws, sign, digits}
use pad_proxy.Ota.Text.{atoi}
use pad_proxy.Ota.Flash.Install.{concat}
use pad_proxy.Ota.Headers.{crlf, parse_status_code, find_from, find_header, find_content_length}
use pad_proxy.Ota.Http.{
  http_recv_headers, HttpCtx, header_loop, finish_headers, body_part, process_data,
}
use pad_proxy.Ota.Http.Segments.{receive, receive-concat}
use pad_proxy.Ota.Http.Headers.{receive-Stuck}

-- A request that has been sent, with 16 bytes for the body.
abbrev waiting : HttpCtx
waiting = record {
  state = http_recv_headers;
  has_pcb = true;
  host = ascii "h";
  port = 443;
  path = ascii "/";
  status_code = pos 0;
  content_length = negsuc 0;
  hdr_buf = [];
  headers_done = false;
  has_body_buf = true;
  body = [];
  text = [];
  body_cap = 16;
  sink = none;
  location = [];
  complete = false;
  error = false;
}

abbrev response : List Bytes
response =
    (ascii "HTTP/1.1 200 OK" ++ (crlf ++ ascii "Content-"))
    ∷ (ascii "Length: 4" ++ (crlf ++ (13 ∷ [])))
    ∷ (10 ∷ ascii "ab")
    ∷ ascii "cd"
    ∷ []

status : (receive response waiting).status_code ≡ pos 200
unfolding receive process_data header_loop finish_headers body_part parse_status_code find_header
    find_content_length find_from atoi skip_ws sign digits
status = refl

body : (receive response waiting).body ≡ ascii "abcd"
unfolding receive process_data header_loop finish_headers body_part parse_status_code find_header
    find_content_length find_from atoi skip_ws sign digits
body = refl

receive-concat_example : receive response waiting ≡ process_data (concat response) waiting
receive-concat_example = receive-concat response waiting (λ e. tt)

-- The header buffer is full of a long line.
abbrev long_line : HttpCtx
long_line = record waiting { hdr_buf = replicate 2047 b'a' }

receive-Stuck_example : receive response long_line ≡ long_line
receive-Stuck_example =
    receive-Stuck response long_line
      (record { full = omega arith; no_end = refl; in_headers = refl })
