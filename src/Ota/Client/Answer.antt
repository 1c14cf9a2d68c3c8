-- ===== src/Ota/Client/Answer.antt =====
-- What a response with status 200 leaves in the context: its body in the buffer or in the flash.
use pad_proxy.Base.{
  ℕ, ◌+◌, ◌-◌, ◌≤◌, ◌<◌, ◌≡◌, refl, ap, ◌∙◌, Bool, true, false, Option, none, some, List, [], ◌∷◌,
  ◌++◌, Bytes, length, take, take_whole, arith,
}
use pad_proxy.Base.Int.{pos}
use pad_proxy.Setup.Text.{c_string}
use pad_proxy.Ota.Url.{Url, parse_url}
use pad_proxy.Ota.Headers.{parse_status_code}
use pad_proxy.Ota.Flash.{FlashWriter, sector_size, flash_write_cb}
use pad_proxy.Ota.Flash.Image.{Written, Ends}
use pad_proxy.Ota.Flash.Install.{concat, flash_write_cb-Ends}
use pad_proxy.Ota.Http.{HttpCtx, hdr_max, finish_headers, stored, after_cb, body_part, process_data}
use pad_proxy.Ota.Http.Segments.{receive, IsReady, receive-concat}
use pad_proxy.Ota.Http.Response.{EndsOnce, process_data-response}
use pad_proxy.Ota.Client.{
  Client, Attempt, reset, https_get, to_url, is_redirect, after_get, follow, url_max,
  https_get_follow,
}
use pad_proxy.Ota.Client.Script.{joined, Serves}
use pad_proxy.Ota.Client.Rounds.{finished}
use pad_proxy.Ota.Client.Served.{Got, requested, https_get-served}

-- A server that answers with status 200: the headers fit the buffer and end before the body.
pub record Answers (a : Attempt) (body : Bytes) : Type 0 where
  pub chains : List (List Bytes)
  pub serves : Serves a chains
  pub hdr : Bytes
  pub sent : concat (joined chains) ≡ hdr ++ body
  pub once : EndsOnce [] hdr
  pub fits : length hdr ≤ hdr_max
  pub status : parse_status_code (c_string hdr) ≡ pos 200

-- The context behind the headers.
abbrev headed : Bytes → HttpCtx → HttpCtx
headed hdr ctx = finish_headers (record ctx { hdr_buf = hdr })

receive-Answers :
    {a : Attempt} {body : Bytes} (s : Answers a body) (ctx : HttpCtx)
    → IsReady (requested ctx)
    → receive (joined s.chains) (requested ctx) ≡ body_part body (headed s.hdr (requested ctx))
unfolding reset
receive-Answers {body = body} s ctx o =
    receive-concat (joined s.chains) (requested ctx) o
    ∙ ap (λ bs. process_data bs (requested ctx)) s.sent
    ∙ process_data-response s.hdr body (requested ctx) refl refl refl refl s.once s.fits

-- What a context holds of a body that was collected, or written to the flash.
pub record Collected (body : Bytes) (ctx : HttpCtx) : Type 0 where
  pub no_error : ctx.error ≡ false
  pub status : ctx.status_code ≡ pos 200
  pub text : ctx.text ≡ body

pub record Flashed (start stop : ℕ) (body : Bytes) (ctx : HttpCtx) : Type 0 where
  pub no_error : ctx.error ≡ false
  pub status : ctx.status_code ≡ pos 200
  pub fw : FlashWriter
  pub is_sink : ctx.sink ≡ some fw
  pub written : Written start stop body fw

stored-Collected :
    (body : Bytes) (ctx : HttpCtx)
    → ctx.error ≡ false
    → ctx.status_code ≡ pos 200
    → ctx.body ≡ []
    → ctx.text ≡ []
    → Collected body (stored body ctx)
stored-Collected [] ctx e s b t = record { no_error = e; status = s; text = t }
stored-Collected (c ∷ body) ctx e s b t = record {
  no_error = e;
  status = s;
  text = ap (λ x. x ++ (c ∷ body)) b;
}

body_part-Collected :
    (body : Bytes) (ctx : HttpCtx)
    → ctx.error ≡ false
    → ctx.status_code ≡ pos 200
    → ctx.body ≡ []
    → ctx.text ≡ []
    → ctx.sink ≡ none
    → ctx.has_body_buf ≡ true
    → length body < ctx.body_cap
    → Collected body (body_part body ctx)
unfolding body_part
body_part-Collected [] ctx e s b t n has room = record { no_error = e; status = s; text = t }
body_part-Collected (c ∷ body) ctx e s b t n has room =
    let n0 : length ctx.body ≡ 0 = ap length b in
    let whole =
      take_whole (ctx.body_cap - length ctx.body - 1) (c ∷ body) (omega (arith, room, n0)) in
    simp (n, has) (rw whole (stored-Collected (c ∷ body) ctx e s b t))

after_cb-Flashed :
    (start stop : ℕ) (body : Bytes) (ctx : HttpCtx) (r : Bool × FlashWriter)
    → Ends start stop body r
    → start + length body ≤ stop
    → ctx.error ≡ false
    → ctx.status_code ≡ pos 200
    → Flashed start stop body (after_cb ctx r)
after_cb-Flashed start stop body ctx (true, fw) (ok, bad) fits e s = record {
  no_error = e;
  status = s;
  fw = fw;
  is_sink = refl;
  written = ok refl;
}
after_cb-Flashed start stop body ctx (false, fw) (ok, bad) fits e s =
    absurd (omega (arith, (bad refl).1, fits))

body_part-Flashed :
    (start stop : ℕ) (body : Bytes) (ctx : HttpCtx) (fw : FlashWriter)
    → stop + sector_size < 4294967296
    → ctx.sink ≡ some fw
    → Written start stop [] fw
    → start + length body ≤ stop
    → ctx.error ≡ false
    → ctx.status_code ≡ pos 200
    → Flashed start stop body (body_part body ctx)
unfolding body_part
body_part-Flashed start stop [] ctx fw small s w fits e st = record {
  no_error = e;
  status = st;
  fw = fw;
  is_sink = s;
  written = w;
}
body_part-Flashed start stop (c ∷ body) ctx fw small s w fits e st = simp s (
    after_cb-Flashed start stop (c ∷ body) ctx (flash_write_cb (c ∷ body) fw)
      (flash_write_cb-Ends start stop (c ∷ body) [] fw small w) fits e st)

not_redirect : (ctx : HttpCtx) → ctx.status_code ≡ pos 200 → is_redirect ctx ≡ false
not_redirect ctx ok = simp ok

after_get-ok :
    (next : Client → Option (Bool × Client)) (d : Client)
    → is_redirect d.ctx ≡ false
    → after_get next (some (true, d)) ≡ some (true, d)
unfolding after_get
after_get-ok next d h = simp h

-- A request with status 200 is not redirected.
pub https_get_follow-Got :
    (attempts : ℕ → Attempt) (url : Bytes) (u : Url) (c : Client) (ctx : HttpCtx)
    → parse_url 128 512 (take url_max url) ≡ some u
    → Got ctx (https_get (attempts 0) (to_url u c))
    → ctx.status_code ≡ pos 200
    → Got ctx (https_get_follow attempts url c)
unfolding https_get_follow follow
https_get_follow-Got attempts url u c ctx p (d, has_pcb, run, same) ok =
    let status : d.ctx.status_code ≡ pos 200 = ap (λ x. x.status_code) same ∙ ok in
    (d, has_pcb, simp (p, run) (after_get-ok _ d (not_redirect d.ctx status)), same)

module _ (attempts : ℕ → Attempt) (url : Bytes) (u : Url) (c : Client) (body : Bytes)
    (valid : parse_url 128 512 (take url_max url) ≡ some u) (s : Answers (attempts 0) body) where
  abbrev asked : HttpCtx
  asked = requested (to_url u c).ctx

  -- The context that the server's bytes lead to, if they lead to no error.
  followed :
      IsReady asked
      → (body_part body (headed s.hdr asked)).error ≡ false
      → (body_part body (headed s.hdr asked)).status_code ≡ pos 200
      → Got (finished (body_part body (headed s.hdr asked))) (https_get_follow attempts url c)
  followed o e ok =
      let same = receive-Answers s (to_url u c).ctx o in
      https_get_follow-Got attempts url u c (finished (body_part body (headed s.hdr asked))) valid
        (rw (← same) (
          https_get-served (attempts 0) s.chains s.serves (to_url u c) o
            (ap (λ x. x.error) same ∙ e)))
        ok

  -- The body of a response that fits the buffer is collected there.
  pub https_get_follow-Collected :
      c.ctx.sink ≡ none
      → c.ctx.has_body_buf ≡ true
      → c.ctx.text ≡ []
      → length body < c.ctx.body_cap
      → (d : Client) × (https_get_follow attempts url c ≡ some (true, d)) × Collected body d.ctx
  unfolding finish_headers reset
  https_get_follow-Collected n has t room =
      let got = body_part-Collected body (headed s.hdr asked) refl s.status refl t n has room in
      let (d, has_pcb, run, same) = followed (λ e. rw n tt) got.no_error got.status in
      (
        d,
        run,
        record {
          no_error = ap (λ x. x.error) same ∙ got.no_error;
          status = ap (λ x. x.status_code) same ∙ got.status;
          text = ap (λ x. x.text) same ∙ got.text;
        },
      )

  -- The body of a response that fits the partition is handed to the flash writer.
  pub https_get_follow-Flashed :
      (start stop : ℕ) (fw : FlashWriter)
      → stop + sector_size < 4294967296
      → c.ctx.sink ≡ some fw
      → Written start stop [] fw
      → start + length body ≤ stop
      → (d : Client) × (https_get_follow attempts url c ≡ some (true, d))
        × Flashed start stop body d.ctx
  unfolding finish_headers reset
  https_get_follow-Flashed start stop fw small n w fits =
      let got =
        body_part-Flashed start stop body (headed s.hdr asked) fw small n w fits refl s.status in
      let (d, has_pcb, run, same) = followed (λ e. rw n w.open_sector) got.no_error got.status in
      (
        d,
        run,
        record {
          no_error = ap (λ x. x.error) same ∙ got.no_error;
          status = ap (λ x. x.status_code) same ∙ got.status;
          fw = got.fw;
          is_sink = ap (λ x. x.sink) same ∙ got.is_sink;
          written = got.written;
        },
      )
