-- ===== src/Ota/Client.antt =====
-- The lwIP callbacks and the blocking HTTPS GET of firmware/src/ota_update.c. What lwIP, mbedTLS and the
-- CYW43 driver answer, and what they deliver while they are polled, is an `Attempt`.
pub mod Results
pub mod Deadline
pub mod Sink
pub mod Tls
pub mod Request
pub mod Script
pub mod Rounds
pub mod Served
pub mod Answer
use pad_proxy.Base.{
  ℕ, zero, suc, ◌+◌, ◌-◌, ◌*◌, Bool, true, false, not, ◌&&◌, ◌||◌, Option, none, some, List, [],
  ◌∷◌, ◌++◌, Bytes, length, take, leb, ◌==◌, if◌then◌else◌,
}
use pad_proxy.Base.Int.{ℤ, pos, negsuc, ltb_ℤ}
use pad_proxy.Setup.Text.{ascii}
use pad_proxy.Ota.Url.{Url, parse_url}
use pad_proxy.Ota.Headers.{crlf}
use pad_proxy.Ota.Flash.{FlashWriter}
use pad_proxy.Ota.Http.{
  HttpState, http_idle, http_dns_wait, http_connecting, http_sending, http_recv_headers,
  http_recv_body, http_complete, http_error, HttpCtx, process_data,
}
use pad_proxy.Ota.Http.Segments.{receive}

-- The calls of the network libraries that change their state.
pub data NetCall : Type 0 where
  tls_config_new tls_config_free pcb_new pcb_close pcb_abort : NetCall
  write : Bytes → NetCall
  recved : ℕ → NetCall

pub record Client : Type 0 where
  pub ctx : HttpCtx
  pub calls : List NetCall  -- oldest first

-- A callback that a poll delivers.
pub data NetEvent : Type 0 where
  dns_found : Bool → NetEvent  -- whether `addr` is not NULL
  connected : Bool → Bool → NetEvent  -- whether `err` is ERR_OK, and whether `altcp_write` succeeds
  received : Option (List Bytes) → Bool → NetEvent  -- the pbuf chain or NULL; `err` is ERR_OK
  lost : NetEvent  -- the error callback

abbrev pub with_error : HttpCtx → HttpCtx
with_error ctx = record ctx { error = true; state = http_error }

abbrev pub logged : NetCall → Client → Client
logged call c = record c { calls = c.calls ++ call ∷ [] }

abbrev pub updated : (HttpCtx → HttpCtx) → Client → Client
updated f c = record c { ctx = f c.ctx }

unfoldable pub dns_found_cb : Bool → Client → Client
dns_found_cb true c = updated (λ ctx. record ctx { state = http_connecting }) c
dns_found_cb false c = updated with_error c

-- The text that `snprintf` formats. Of a text that does not fit its buffer, `http_connected_cb` below sends
-- what fits, where the code would go on behind the buffer.
unfoldable pub request_text : Bytes → Bytes → Bytes
request_text path host =
    (ascii "GET " ++ (path ++ (ascii " HTTP/1.1" ++ crlf)))
    ++ ((ascii "Host: " ++ (host ++ crlf))
        ++ (ascii "User-Agent: PadProxy-OTA/1.0"
            ++ (crlf
                ++ (ascii "Accept: */*"
                    ++ (crlf ++ (ascii "Connection: close" ++ (crlf ++ crlf)))))))

-- `sizeof(req)`
abbrev pub req_size : ℕ
req_size = 768

unfoldable pub http_connected_cb : Bool → Bool → Client → Client
http_connected_cb false wr_ok c = updated with_error c
http_connected_cb true wr_ok c =
    let c1 = logged (write (take (req_size - 1) (request_text c.ctx.path c.ctx.host))) c in
    if not wr_ok
    then updated with_error c1
    else updated (λ ctx. record ctx { state = http_recv_headers }) c1

abbrev pub total_length : List Bytes → ℕ
total_length [] = 0
total_length (bs ∷ chain) = length bs + total_length chain

abbrev pub completed : Client → Client
completed c = updated (λ ctx. record ctx { complete = true; state = http_complete }) c

unfoldable pub http_recv_cb : Option (List Bytes) → Bool → Client → Client
http_recv_cb none err_ok c = completed c
http_recv_cb (some chain) false c = completed c
http_recv_cb (some chain) true c = logged (recved (total_length chain)) (updated (receive chain) c)

unfoldable pub http_err_cb : Client → Client
http_err_cb c = updated (λ ctx. record ctx { has_pcb = false; error = true; state = http_error }) c

unfoldable pub on_event : NetEvent → Client → Client
unfolding dns_found_cb http_connected_cb http_recv_cb http_err_cb
on_event (dns_found has_addr) c = dns_found_cb has_addr c
on_event (connected err_ok wr_ok) c = http_connected_cb err_ok wr_ok c
on_event (received p err_ok) c = http_recv_cb p err_ok c
on_event lost c = http_err_cb c

unfoldable pub on_events : List NetEvent → Client → Client
unfolding on_event
on_events [] c = c
on_events (e ∷ es) c = on_events es (on_event e c)

pub data DnsAnswer : Type 0 where
  dns_ok dns_in_progress dns_failed : DnsAnswer

-- What one request meets.
pub record Attempt : Type 0 where
  pub tls_ok : Bool  -- `altcp_tls_create_config_client` is not NULL
  pub dns : DnsAnswer  -- `dns_gethostbyname`
  pub pcb_ok : Bool  -- `altcp_tls_new` is not NULL
  pub connect_ok : Bool  -- `altcp_connect` is ERR_OK
  pub polls : ℕ → List NetEvent  -- what each `cyw43_arch_poll` delivers
  pub clock : ℕ → ℕ  -- µs since the deadline was set, at each `get_absolute_time`

-- HTTP_TIMEOUT_MS, in µs.
abbrev pub timeout_us : ℕ
timeout_us = 20000000

abbrev pub is_dns_wait : HttpState → Bool
is_dns_wait http_dns_wait = true
is_dns_wait _ = false

-- How a polling loop ends: whether by the deadline, after how many polls, and with what.
pub record Waited : Type 0 where
  pub timed_out : Bool
  pub polled : ℕ
  pub client : Client

-- `while (test) { if (deadline passed) …; cyw43_arch_poll(); sleep_ms(…); }`; `none` where the fuel runs
-- out.
unfoldable pub poll_while : (HttpCtx → Bool) → Attempt → ℕ → ℕ → Client → Option Waited
poll_while test a zero i c = none
poll_while test a (suc fuel) i c =
    let later = poll_while test a fuel (suc i) (on_events (a.polls i) c) in
    if not (test c.ctx)
    then some (record { timed_out = false; polled = i; client = c })
    else if leb timeout_us (a.clock i)
    then some (record { timed_out = true; polled = i; client = c })
    else later

abbrev pub waits_dns : HttpCtx → Bool
waits_dns ctx = is_dns_wait ctx.state

abbrev pub waits_response : HttpCtx → Bool
waits_response ctx = not ctx.complete && not ctx.error

-- One poll each 1 ms at least, for 20 s, and the last test.
abbrev pub poll_fuel : ℕ
poll_fuel = 20001

-- The fields that each request sets.
unfoldable pub reset : HttpCtx → HttpCtx
reset ctx = record ctx {
  state = http_dns_wait;
  headers_done = false;
  hdr_buf = [];
  body = [];
  status_code = pos 0;
  content_length = negsuc 0;
  location = [];
  complete = false;
  error = false;
}

-- `altcp_tls_free_config(…); return false;`
abbrev pub give_up : Client → Bool × Client
give_up c = (false, logged tls_config_free c)

-- `if (ctx->pcb) { altcp_close or altcp_abort; ctx->pcb = NULL; }`
abbrev pub drop_pcb : NetCall → Client → Client
drop_pcb call c =
    if c.ctx.has_pcb then updated (λ ctx. record ctx { has_pcb = false }) (logged call c) else c

-- Behind the second loop.
unfoldable pub end_request : Option Waited → Option (Bool × Client)
end_request none = none
end_request (some w) =
    if w.timed_out
    then some (give_up (drop_pcb pcb_abort w.client))
    else (let c = logged tls_config_free (drop_pcb pcb_close w.client) in some (not c.ctx.error, c))

-- Behind the DNS loop.
unfoldable pub connect : Attempt → Option Waited → Option (Bool × Client)
connect a none = none
connect a (some w) =
    let c = updated (λ ctx. record ctx { has_pcb = true }) (logged pcb_new w.client) in
    if w.timed_out || w.client.ctx.error || not a.pcb_ok
    then some (give_up w.client)
    else if not a.connect_ok
    then some (give_up (logged pcb_close c))
    else end_request (poll_while waits_response a poll_fuel w.polled c)

abbrev pub after_dns : Attempt → DnsAnswer → Client → Option (Bool × Client)
after_dns a dns_ok c =
    connect a (
      poll_while waits_dns a poll_fuel 0
        (updated (λ ctx. record ctx { state = http_connecting }) c))
after_dns a dns_in_progress c = connect a (poll_while waits_dns a poll_fuel 0 c)
after_dns a dns_failed c = some (give_up c)

unfoldable pub https_get : Attempt → Client → Option (Bool × Client)
https_get a c =
    let c0 = updated reset c in
    if not a.tls_ok then some (false, c0) else after_dns a a.dns (logged tls_config_new c0)

-- `status_code >= 300 && status_code < 400 && location[0]`
abbrev pub is_redirect : HttpCtx → Bool
is_redirect ctx =
    not (ltb_ℤ ctx.status_code (pos 300))
    && ltb_ℤ ctx.status_code (pos 400)
    && not (length ctx.location == 0)

-- `sizeof(current_url) - 1`
abbrev pub url_max : ℕ
url_max = 511

abbrev pub to_url : Url → Client → Client
to_url u c = updated (λ ctx. record ctx { host = u.host; port = u.port; path = u.path }) c

-- The new URL, with `ctx->body_len = 0`.
abbrev pub redirected : Client → Option Url × Client
redirected c =
    (parse_url 128 512 (take url_max c.ctx.location), updated (λ ctx. record ctx { body = [] }) c)

-- Behind a request: `next` is what a redirect leads to.
unfoldable pub after_get :
    (Client → Option (Bool × Client)) → Option (Bool × Client) → Option (Bool × Client)
after_get next none = none
after_get next (some (false, c)) = some (false, c)
after_get next (some (true, c)) =
    let later = next c in if is_redirect c.ctx then later else some (true, c)

-- The rounds of `https_get_follow` that are left; `attempts i` is what the i-th request meets.
unfoldable pub follow : ℕ → (ℕ → Attempt) → ℕ → Option Url → Client → Option (Bool × Client)
follow zero attempts i url c = some (false, c)
follow (suc rounds) attempts i none c = some (false, c)
follow (suc rounds) attempts i (some u) c =
    after_get (λ c1. let (url, c2) = redirected c1 in follow rounds attempts (suc i) url c2)
      (https_get (attempts i) (to_url u c))

-- MAX_REDIRECTS
abbrev pub max_redirects : ℕ
max_redirects = 3

unfoldable pub https_get_follow : (ℕ → Attempt) → Bytes → Client → Option (Bool × Client)
unfolding follow
https_get_follow attempts url c =
    follow max_redirects attempts 0 (parse_url 128 512 (take url_max url)) c
