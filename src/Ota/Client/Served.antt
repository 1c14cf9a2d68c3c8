-- ===== src/Ota/Client/Served.antt =====
-- A request that a server answers.
use pad_proxy.Base.{
  ℕ, zero, suc, ◌+◌, ◌≤◌, ◌<◌, ◌≡◌, refl, ap, ◌∙◌, inl, inr, Bool, true, false, Bool-cases, Option,
  some, List, [], ◌∷◌, Bytes, length, arith,
}
use pad_proxy.Ota.Http.{HttpCtx, http_recv_headers}
use pad_proxy.Ota.Http.Segments.{receive, IsReady}
use pad_proxy.Ota.Client.{
  DnsAnswer, dns_failed, dns_in_progress, Client, tls_config_new, tls_config_free, pcb_new,
  pcb_close, logged, updated, NetEvent, connected, http_connected_cb, on_event, on_events, dns_ok,
  Attempt, Waited, waits_dns, waits_response, poll_while, poll_fuel, reset, end_request, connect,
  after_dns, https_get,
}
use pad_proxy.Ota.Client.Script.{
  joined, Connects, unconnected, connects, Resolves, cached, unresolved, resolves, Polls, Serves,
}
use pad_proxy.Ota.Client.Rounds.{
  finished, Answered, dns-round, waiting-round, going-round, no_events, connecting, address_found,
  after_event, delivered,
}

-- The request as it stands when the server answers.
abbrev pub requested : HttpCtx → HttpCtx
requested ctx = record (reset ctx) { state = http_recv_headers; has_pcb = true }

abbrev at_headers : HttpCtx → HttpCtx
at_headers ctx = record ctx { state = http_recv_headers }

at_connection : (c : Client) → (on_event (connected true true) c).ctx ≡ at_headers c.ctx
unfolding on_event http_connected_cb
at_connection c = refl

-- What a request returns: success, with the context but for the connection.
abbrev with_pcb : Bool → HttpCtx → HttpCtx
with_pcb has_pcb ctx = record ctx { has_pcb = has_pcb }

abbrev pub Got : HttpCtx → Option (Bool × Client) → Type 0
Got ctx o = (d : Client) × (has_pcb : Bool) × (o ≡ some (true, d)) × (d.ctx ≡ with_pcb has_pcb ctx)

end_request-Got :
    (ctx : HttpCtx) (w : Waited)
    → w.timed_out ≡ false
    → w.client.ctx ≡ ctx
    → ctx.error ≡ false
    → Got ctx (end_request (some w))
unfolding end_request
end_request-Got ctx w t same e = elim (Bool-cases w.client.ctx.has_pcb) [
  | inl has ↦ (
    logged tls_config_free (updated (with_pcb false) (logged pcb_close w.client)),
    false,
    simp (t, has, ap (λ x. x.error) same ∙ e),
    ap (with_pcb false) same,
  )
  | inr gone ↦ (
    logged tls_config_free w.client,
    ctx.has_pcb,
    simp (t, gone, ap (λ x. x.error) same ∙ e),
    same,
  )
]

abbrev with_connection : Client → Client
with_connection c = updated (λ ctx. record ctx { has_pcb = true }) (logged pcb_new c)

module _ (a : Attempt) where
  -- The loop that waits for the response, from the poll with the events `b` on.
  connected_then :
      (chains : List (List Bytes)) (b : List NetEvent) (s : List (List NetEvent)) (fuel i : ℕ)
      (c : Client)
      → Connects chains (b ∷ s)
      → Polls a i s
      → c.ctx.complete ≡ false
      → c.ctx.error ≡ false
      → IsReady c.ctx
      → (receive (joined chains) (at_headers c.ctx)).error ≡ false
      → length s < fuel
      → (w : Waited) × (poll_while waits_response a fuel i (on_events b c) ≡ some w)
        × Answered chains (at_headers c.ctx) w
  connected_then chains b s zero i c d p h e o fine few = absurd (omega (arith, few))
  connected_then chains [] [] (suc fuel) i c (unconnected d) p h e o fine few = elim d [ ]
  connected_then chains [] (b ∷ s) (suc fuel) i c (unconnected d) (events, early, p) h e o fine
        few =
      let (w, run, got) =
        connected_then chains b s fuel (suc i) c d p h e o fine (omega (arith, few)) in
      (
        w,
        ap (poll_while waits_response a (suc fuel) i) (no_events c)
            ∙ going-round a fuel i c h e early
            ∙ ap (λ es. poll_while waits_response a fuel (suc i) (on_events es c)) events
            ∙ run,
        got,
      )
  connected_then chains (_ ∷ b) s (suc fuel) i c (connects d) p h e o fine few =
      let c1 = on_event (connected true true) c in
      let same = at_connection c in
      let (w, run, (timely, left)) =
        delivered a chains b s (suc fuel) i c1 d p (ap (λ x. x.complete) same ∙ h) (rw same o)
          (ap (λ x. (receive (joined chains) x).error) same ∙ fine) few in
      (
        w,
        ap (poll_while waits_response a (suc fuel) i) (after_event (connected true true) b c) ∙ run,
        (timely, left ∙ ap (λ x. finished (receive (joined chains) x)) same),
      )

  respond :
      (chains : List (List Bytes)) (s : List (List NetEvent)) (i : ℕ) (c : Client)
      → Connects chains s
      → Polls a i s
      → c.ctx.complete ≡ false
      → c.ctx.error ≡ false
      → IsReady c.ctx
      → (receive (joined chains) (at_headers c.ctx)).error ≡ false
      → length s + 2 ≤ poll_fuel
      → Got
          (finished (receive (joined chains) (at_headers c.ctx)))
          (end_request (poll_while waits_response a poll_fuel i c))
  respond chains [] i c d p h e o fine few = elim d [ ]
  respond chains (b ∷ s) i c d (events, early, p) h e o fine few =
      let (w, run, (timely, left)) =
        connected_then chains b s 20000 (suc i) c d p h e o fine (omega (arith, few)) in
      rw
        (going-round a 20000 i c h e early
          ∙ ap (λ es. poll_while waits_response a 20000 (suc i) (on_events es c)) events
          ∙ run)
        (end_request-Got (finished (receive (joined chains) (at_headers c.ctx))) w timely left fine)

  -- The loop that waits for the address, from the poll with the events `b` on.
  resolved_then :
      (chains : List (List Bytes)) (b : List NetEvent) (s : List (List NetEvent)) (fuel i : ℕ)
      (c : Client)
      → Resolves dns_in_progress chains (b ∷ s)
      → Polls a i s
      → waits_dns c.ctx ≡ true
      → length s < fuel
      → (j : ℕ) × (rest : List (List NetEvent)) × (poll_while waits_dns a fuel i (on_events b c)
          ≡ some (record { timed_out = false; polled = j; client = updated connecting c }))
        × Connects chains rest
        × Polls a j rest
        × (length rest ≤ length s)
  resolved_then chains b s zero i c d p h few = absurd (omega (arith, few))
  resolved_then chains [] [] (suc fuel) i c (unresolved d) p h few = elim d [ ]
  resolved_then chains [] (b ∷ s) (suc fuel) i c (unresolved d) (events, early, p) h few =
      let (j, rest, run, found, polls, le) =
        resolved_then chains b s fuel (suc i) c d p h (omega (arith, few)) in
      (
        j,
        rest,
        ap (poll_while waits_dns a (suc fuel) i) (no_events c)
            ∙ waiting-round a fuel i c h early
            ∙ ap (λ es. poll_while waits_dns a fuel (suc i) (on_events es c)) events
            ∙ run,
        found,
        polls,
        omega (arith, le),
      )
  resolved_then chains (_ ∷ (_ ∷ _)) s (suc fuel) i c d p h few = elim d [ ]
  resolved_then chains (_ ∷ []) s (suc fuel) i c (resolves d) p h few = (
    i,
    s,
    ap (poll_while waits_dns a (suc fuel) i) (address_found c)
        ∙ dns-round a fuel i (updated connecting c) refl,
    d,
    p,
    omega arith,
  )

  connect-respond :
      (j : ℕ) (c : Client)
      → a.pcb_ok ≡ true
      → a.connect_ok ≡ true
      → c.ctx.error ≡ false
      → connect a (some (record { timed_out = false; polled = j; client = c }))
        ≡ end_request (poll_while waits_response a poll_fuel j (with_connection c))
  unfolding connect
  connect-respond j c pcb con e = simp (pcb, con, e)

  -- Behind `dns_gethostbyname`.
  answered :
      (dns : DnsAnswer) (chains : List (List Bytes)) (s : List (List NetEvent)) (c : Client)
      → a.pcb_ok ≡ true
      → a.connect_ok ≡ true
      → Resolves dns chains s
      → Polls a 0 s
      → length s + 2 ≤ poll_fuel
      → waits_dns c.ctx ≡ true
      → c.ctx.complete ≡ false
      → c.ctx.error ≡ false
      → IsReady (record c.ctx { state = http_recv_headers; has_pcb = true })
      → (receive (joined chains) (record c.ctx { state = http_recv_headers; has_pcb = true })).error
        ≡ false
      → Got
          (finished
            (receive (joined chains) (record c.ctx { state = http_recv_headers; has_pcb = true })))
          (after_dns a dns c)
  answered dns_ok chains s c pcb con (cached d) p few w h e o fine =
      let c1 = updated connecting c in
      rw (dns-round a 20000 0 c1 refl) (
        rw (connect-respond 0 c1 pcb con e)
          (respond chains s 0 (with_connection c1) d p h e o fine few))
  answered dns_in_progress chains [] c pcb con d p few w h e o fine = elim d [ ]
  answered dns_in_progress chains (b ∷ s) c pcb con d (events, early, p) few w h e o fine =
      let (j, rest, run, found, polls, le) =
        resolved_then chains b s 20000 1 c d p w (omega (arith, few)) in
      let c1 = updated connecting c in
      rw
        (waiting-round a 20000 0 c w early
          ∙ ap (λ es. poll_while waits_dns a 20000 1 (on_events es c)) events
          ∙ run)
        (rw (connect-respond j c1 pcb con e) (
          respond chains rest j (with_connection c1) found polls h e o fine
            (omega (arith, few, le))))
  answered dns_failed chains s c pcb con d p few w h e o fine = elim d [ ]

-- A request to such a server, if nothing goes wrong with what it sends, succeeds with that.
pub https_get-served :
    (a : Attempt) (chains : List (List Bytes))
    → Serves a chains
    → (c : Client) → IsReady (requested c.ctx)
    → (receive (joined chains) (requested c.ctx)).error ≡ false
    → Got (finished (receive (joined chains) (requested c.ctx))) (https_get a c)
unfolding https_get reset
https_get-served a chains s c o e = simp s.tls (
    answered a a.dns chains s.script (logged tls_config_new (updated reset c)) s.has_pcb
      s.connects_ok s.answer s.polls s.few refl refl refl o e)
