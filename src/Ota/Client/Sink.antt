-- ===== src/Ota/Client/Sink.antt =====
-- The flash writer that a download feeds stays within its partition, through every event and redirect.
use pad_proxy.Base.{
  ℕ, zero, suc, ◌+◌, ◌<◌, ◌≡◌, refl, sym, ◌∙◌, inl, inr, Bool, true, false, not, ◌||◌, Bool-cases,
  Option, none, some, List, [], ◌∷◌, ◌++◌, Bytes, take, leb, arith,
}
use pad_proxy.Ota.Url.{Url, parse_url}
use pad_proxy.Ota.Flash.{FlashWriter, sector_size, flash_write_cb}
use pad_proxy.Ota.Flash.Image.{Safe, Written, Ends}
use pad_proxy.Ota.Flash.Install.{flash_write_cb-Ends}
use pad_proxy.Ota.Http.{HttpCtx, after_cb, body_part, header_loop, process_data}
use pad_proxy.Ota.Http.Segments.{
  receive, header_loop-kept, process_data-stopped, process_data-body, process_data-headers,
}
use pad_proxy.Ota.Client.Results.{OfResult}
use pad_proxy.Ota.Client.{
  NetCall, Client, NetEvent, dns_found, connected, received, lost, dns_found_cb, http_connected_cb,
  http_recv_cb, http_err_cb, on_event, on_events, DnsAnswer, dns_ok, dns_in_progress, dns_failed,
  Attempt, Waited, waits_dns, waits_response, poll_while, tls_config_free, logged, poll_fuel,
  timeout_us, drop_pcb, pcb_abort, pcb_close, reset, end_request, connect, after_dns, https_get,
  to_url, is_redirect, after_get, follow, max_redirects, url_max, https_get_follow,
}

-- The writer of a context, and that what it has taken is written as long as there was no error.
pub record Fed (start stop : ℕ) (ctx : HttpCtx) : Type 0 where
  pub fw : FlashWriter
  pub is_sink : ctx.sink ≡ some fw
  pub safe : Safe start stop fw
  pub written : ctx.error ≡ false → (bytes : Bytes) × Written start stop bytes fw

-- Only the writer and the error flag matter.
Fed-kept :
    {start stop : ℕ} {ctx next : HttpCtx}
    → Fed start stop ctx
    → next.sink ≡ ctx.sink
    → (next.error ≡ false → ctx.error ≡ false)
    → Fed start stop next
Fed-kept f s e = record {
  fw = f.fw;
  is_sink = s ∙ f.is_sink;
  safe = f.safe;
  written = λ h. f.written (e h);
}

module _ (start stop : ℕ) (small : stop + sector_size < 4294967296) where
  after_cb-Fed :
      (bytes : Bytes) (ctx : HttpCtx) (r : Bool × FlashWriter)
      → Ends start stop bytes r
      → Fed start stop (after_cb ctx r)
  after_cb-Fed bytes ctx (true, w) (ok, bad) = record {
    fw = w;
    is_sink = refl;
    safe = (ok refl).safe;
    written = λ _. (bytes, ok refl);
  }
  after_cb-Fed bytes ctx (false, w) (ok, bad) = record {
    fw = w;
    is_sink = refl;
    safe = (bad refl).0;
    written = λ h. absurd (cc h);
  }

  body_part-Fed :
      (bs : Bytes) (ctx : HttpCtx)
      → ctx.error ≡ false
      → Fed start stop ctx
      → Fed start stop (body_part bs ctx)
  unfolding body_part
  body_part-Fed [] ctx e f = f
  body_part-Fed (b ∷ bs) ctx e f =
      let (bytes, w) = f.written e in
      rw f.is_sink (
        after_cb-Fed (bytes ++ (b ∷ bs)) ctx (flash_write_cb (b ∷ bs) f.fw)
          (flash_write_cb-Ends start stop (b ∷ bs) bytes f.fw small w))

  process_data-Fed :
      (bs : Bytes) (ctx : HttpCtx) → Fed start stop ctx → Fed start stop (process_data bs ctx)
  process_data-Fed bs ctx f = elim (Bool-cases (ctx.error || ctx.complete)) [
    | inl stopped ↦ rw (process_data-stopped bs ctx stopped) f
    | inr going ↦
        let good : ctx.error ≡ false = ground (arith, going) in
        elim (Bool-cases ctx.headers_done) [
          | inl body ↦ rw (process_data-body bs ctx going body) (body_part-Fed bs ctx good f)
          | inr headers ↦
              let (e, c, s) = header_loop-kept bs ctx in
              rw (process_data-headers bs ctx going headers) (
                body_part-Fed (header_loop bs ctx).1 (header_loop bs ctx).0 (e ∙ good)
                  (Fed-kept f s (λ h. sym e ∙ h)))
        ]
  ]

  receive-Fed :
      (chain : List Bytes) (ctx : HttpCtx) → Fed start stop ctx → Fed start stop (receive chain ctx)
  unfolding receive
  receive-Fed [] ctx f = f
  receive-Fed (bs ∷ chain) ctx f =
      receive-Fed chain (process_data bs ctx) (process_data-Fed bs ctx f)

  on_event-Fed :
      (e : NetEvent) (c : Client) → Fed start stop c.ctx → Fed start stop (on_event e c).ctx
  unfolding on_event dns_found_cb http_connected_cb http_recv_cb http_err_cb
  on_event-Fed (dns_found true) c f = Fed-kept f refl (λ h. h)
  on_event-Fed (dns_found false) c f = Fed-kept f refl (λ h. absurd (cc h))
  on_event-Fed (connected false wr_ok) c f = Fed-kept f refl (λ h. absurd (cc h))
  on_event-Fed (connected true false) c f = Fed-kept f refl (λ h. absurd (cc h))
  on_event-Fed (connected true true) c f = Fed-kept f refl (λ h. h)
  on_event-Fed (received none ok) c f = Fed-kept f refl (λ h. h)
  on_event-Fed (received (some chain) false) c f = Fed-kept f refl (λ h. h)
  on_event-Fed (received (some chain) true) c f = receive-Fed chain c.ctx f
  on_event-Fed lost c f = Fed-kept f refl (λ h. absurd (cc h))

  on_events-Fed :
      (es : List NetEvent) (c : Client) → Fed start stop c.ctx → Fed start stop (on_events es c).ctx
  unfolding on_events
  on_events-Fed [] c f = f
  on_events-Fed (e ∷ es) c f = on_events-Fed es (on_event e c) (on_event-Fed e c f)

  poll_while-Fed :
      (test : HttpCtx → Bool) (a : Attempt) (fuel i : ℕ) (c : Client)
      → Fed start stop c.ctx
      → OfResult (λ w. Fed start stop w.client.ctx) (poll_while test a fuel i c)
  unfolding poll_while
  poll_while-Fed test a zero i c f = tt
  poll_while-Fed test a (suc fuel) i c f = elim (Bool-cases (not (test c.ctx))) [
    | inl ends ↦ simp ends f
    | inr more ↦ elim (Bool-cases (leb timeout_us (a.clock i))) [
      | inl late ↦ simp (more, late) f
      | inr early ↦
          simp (more, early) (poll_while-Fed test a fuel (suc i) _ (on_events-Fed (a.polls i) c f))
    ]
  ]

  -- A request that succeeds leaves no error behind.
  unfoldable pub FedGet : Bool × Client → Type 0
  FedGet (ok, c) = Fed start stop c.ctx × (ok ≡ true → c.ctx.error ≡ false)

  refused : (c : Client) → Fed start stop c.ctx → FedGet (false, c)
  unfolding FedGet
  refused c f = (f, λ h. absurd (cc h))

  drop_pcb-Fed :
      (call : NetCall) (c : Client) → Fed start stop c.ctx → Fed start stop (drop_pcb call c).ctx
  drop_pcb-Fed call c f = elim (Bool-cases c.ctx.has_pcb) [
    | inl has ↦ simp has (Fed-kept f refl (λ h. h))
    | inr none_left ↦ simp none_left f
  ]

  end_request-Fed :
      (o : Option Waited)
      → OfResult (λ w. Fed start stop w.client.ctx) o
      → OfResult FedGet (end_request o)
  unfolding end_request FedGet
  end_request-Fed none f = tt
  end_request-Fed (some w) f = elim (Bool-cases w.timed_out) [
    | inl late ↦ simp late (drop_pcb-Fed pcb_abort w.client f, λ h. absurd (cc h))
    | inr done ↦ simp done (drop_pcb-Fed pcb_close w.client f, λ h. ground (arith, h))
  ]

  connect-Fed :
      (a : Attempt) (o : Option Waited)
      → OfResult (λ w. Fed start stop w.client.ctx) o
      → OfResult FedGet (connect a o)
  unfolding connect
  connect-Fed a none f = tt
  connect-Fed a (some w) f = elim (Bool-cases (w.timed_out || w.client.ctx.error || not a.pcb_ok)) [
    | inl ends ↦ simp ends (refused (logged tls_config_free w.client) f)
    | inr go ↦ elim (Bool-cases (not a.connect_ok)) [
      | inl no_connection ↦ simp (go, no_connection) (refused _ (Fed-kept f refl (λ h. h)))
      | inr connecting ↦
          simp (go, connecting)
            (end_request-Fed _
              (poll_while-Fed waits_response a poll_fuel w.polled _ (Fed-kept f refl (λ h. h))))
    ]
  ]

  after_dns-Fed :
      (a : Attempt) (d : DnsAnswer) (c : Client)
      → Fed start stop c.ctx
      → OfResult FedGet (after_dns a d c)
  after_dns-Fed a dns_ok c f =
      connect-Fed a _ (poll_while-Fed waits_dns a poll_fuel 0 _ (Fed-kept f refl (λ h. h)))
  after_dns-Fed a dns_in_progress c f = connect-Fed a _ (poll_while-Fed waits_dns a poll_fuel 0 c f)
  after_dns-Fed a dns_failed c f = refused (logged tls_config_free c) f

  https_get-Fed :
      (a : Attempt) (c : Client)
      → c.ctx.error ≡ false
      → Fed start stop c.ctx
      → OfResult FedGet (https_get a c)
  unfolding https_get reset
  https_get-Fed a c e f = elim (Bool-cases (not a.tls_ok)) [
    | inl no_tls ↦ simp no_tls (refused _ (Fed-kept f refl (λ h. e)))
    | inr tls ↦ simp tls (after_dns-Fed a a.dns _ (Fed-kept f refl (λ h. e)))
  ]

  after_get-Fed :
      (next : Client → Option (Bool × Client)) (o : Option (Bool × Client))
      → OfResult FedGet o
      → ((c : Client) → c.ctx.error ≡ false → Fed start stop c.ctx → OfResult FedGet (next c))
      → OfResult FedGet (after_get next o)
  unfolding after_get FedGet
  after_get-Fed next none f h = tt
  after_get-Fed next (some (false, c)) f h = f
  after_get-Fed next (some (true, c)) f h = elim (Bool-cases (is_redirect c.ctx)) [
    | inl again ↦ simp again (h c (f.1 refl) f.0)
    | inr done ↦ simp done f
  ]

  follow-Fed :
      (rounds : ℕ) (attempts : ℕ → Attempt) (i : ℕ) (url : Option Url) (c : Client)
      → c.ctx.error ≡ false
      → Fed start stop c.ctx
      → OfResult FedGet (follow rounds attempts i url c)
  unfolding follow
  follow-Fed zero attempts i url c e f = refused c f
  follow-Fed (suc rounds) attempts i none c e f = refused c f
  follow-Fed (suc rounds) attempts i (some u) c e f =
      after_get-Fed _ (https_get (attempts i) (to_url u c))
        (https_get-Fed (attempts i) (to_url u c) e (Fed-kept f refl (λ h. h)))
        (λ c1 e1 f1. follow-Fed rounds attempts (suc i) _ _ e1 (Fed-kept f1 refl (λ h. h)))

  pub https_get_follow-Fed :
      (attempts : ℕ → Attempt) (url : Bytes) (c : Client)
      → c.ctx.error ≡ false
      → Fed start stop c.ctx
      → OfResult FedGet (https_get_follow attempts url c)
  unfolding https_get_follow
  https_get_follow-Fed attempts url c e f =
      follow-Fed max_redirects attempts 0 (parse_url 128 512 (take url_max url)) c e f
