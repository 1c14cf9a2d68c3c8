-- ===== src/Ota/Http.antt =====
-- The HTTP client's context and what it does with the bytes that arrive: firmware/src/ota_update.c.
pub mod Body
pub mod Segments
pub mod Headers
pub mod Response
mod Tests
use pad_proxy.Base.{
  ℕ, suc, ◌+◌, ◌-◌, Bool, true, false, not, ◌&&◌, ◌||◌, Option, none, some, List, [], ◌∷◌, ◌++◌,
  Bytes, length, take, drop, ltb, ◌==◌, if◌then◌else◌,
}
use pad_proxy.Base.Int.{ℤ}
use pad_proxy.Setup.Text.{ascii, c_string, is_same}
use pad_proxy.Ota.Headers.{crlf, parse_status_code, find_header, find_content_length}
use pad_proxy.Ota.Flash.{FlashWriter, flash_write_cb}

pub data HttpState : Type 0 where
  http_idle http_dns_wait http_connecting http_sending http_recv_headers : HttpState
  http_recv_body http_complete http_error : HttpState

pub record HttpCtx : Type 0 where
  pub state : HttpState
  pub has_pcb : Bool  -- `pcb` is not NULL
  pub host : Bytes
  pub port : ℕ
  pub path : Bytes
  pub status_code : ℤ
  pub content_length : ℤ
  pub hdr_buf : Bytes  -- the first hdr_len bytes
  pub headers_done : Bool
  pub has_body_buf : Bool  -- `body_buf` is not NULL
  pub body : Bytes  -- the first body_len bytes of body_buf
  pub text : Bytes  -- the bytes of body_buf before the NUL that was written last
  pub body_cap : ℕ
  pub sink : Option FlashWriter  -- `body_cb` is `flash_write_cb`, with this context, or NULL
  pub location : Bytes
  pub complete : Bool
  pub error : Bool

-- `sizeof(ctx->hdr_buf) - 1`
abbrev pub hdr_max : ℕ
hdr_max = 2047

-- The byte is stored as long as there is room.
abbrev pub push_header : ℕ → HttpCtx → HttpCtx
push_header b ctx =
    if ltb (length ctx.hdr_buf) hdr_max then record ctx { hdr_buf = ctx.hdr_buf ++ b ∷ [] } else ctx

-- The last four bytes are the end of the headers.
abbrev pub at_end : Bytes → Bool
at_end buf = is_same (drop (length buf - 4) buf) (crlf ++ crlf)

abbrev pub found_location : HttpCtx → Option Bytes → Bytes
found_location ctx none = ctx.location
found_location ctx (some value) = value

unfoldable pub finish_headers : HttpCtx → HttpCtx
finish_headers ctx =
    let hdr = c_string ctx.hdr_buf in
    record ctx {
      headers_done = true;
      status_code = parse_status_code hdr;
      content_length = find_content_length hdr;
      location = found_location ctx (find_header hdr (ascii "Location") 512);
    }

-- The loop over the header bytes, with the bytes that it leaves.
unfoldable pub header_loop : Bytes → HttpCtx → HttpCtx × Bytes
header_loop [] ctx = (ctx, [])
header_loop (b ∷ bs) ctx =
    let ctx1 = push_header b ctx in
    let rest = header_loop bs ctx1 in
    if at_end ctx1.hdr_buf then (finish_headers ctx1, bs) else rest

-- The callback's result.
abbrev pub after_cb : HttpCtx → Bool × FlashWriter → HttpCtx
after_cb ctx (true, fw) = record ctx { sink = some fw }
after_cb ctx (false, fw) = record ctx { sink = some fw; error = true }

-- `if (body_chunk_len > 0) …`
abbrev pub stored : Bytes → HttpCtx → HttpCtx
stored [] ctx = ctx
stored (b ∷ bs) ctx = record ctx { body = ctx.body ++ (b ∷ bs); text = ctx.body ++ (b ∷ bs) }

abbrev pub to_buffer : Bytes → HttpCtx → HttpCtx
to_buffer bs ctx = stored (take (ctx.body_cap - length ctx.body - 1) bs) ctx

-- The chunk of the body, which is not empty.
abbrev pub body_chunk : Bytes → HttpCtx → Option FlashWriter → HttpCtx
body_chunk bs ctx none = if ctx.has_body_buf then to_buffer bs ctx else ctx
body_chunk bs ctx (some fw) = after_cb ctx (flash_write_cb bs fw)

unfoldable pub body_part : Bytes → HttpCtx → HttpCtx
body_part [] ctx = ctx
body_part (b ∷ bs) ctx = body_chunk (b ∷ bs) ctx ctx.sink

-- The header bytes of a chunk, if the headers are not done, and what is left for the body.
abbrev pub split_headers : Bytes → HttpCtx → HttpCtx × Bytes
split_headers bytes ctx = if ctx.headers_done then (ctx, bytes) else header_loop bytes ctx

abbrev pub deliver : HttpCtx × Bytes → HttpCtx
deliver (ctx, rest) = body_part rest ctx

unfoldable pub process_data : Bytes → HttpCtx → HttpCtx
process_data bytes ctx =
    if ctx.error || ctx.complete then ctx else deliver (split_headers bytes ctx)
