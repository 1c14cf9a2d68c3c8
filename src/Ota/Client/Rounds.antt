-- ===== src/Ota/Client/Rounds.antt =====
-- The rounds of the loops that poll the network while a server answers.
use pad_proxy.Base.{
  ℕ, zero, suc, ◌<◌, ◌≡◌, refl, ap, sym, ◌∙◌, true, false, none, some, List, [], ◌∷◌, Bytes, length,
  leb, arith,
}
use pad_proxy.Ota.Http.{HttpCtx, http_complete, http_connecting}
use pad_proxy.Ota.Http.Segments.{receive, IsReady}
use pad_proxy.Ota.Http.Response.{receive-nil, receive-append, receive-going, receive-no_error}
use pad_proxy.Ota.Client.{
  dns_found, dns_found_cb, Client, updated, NetEvent, received, http_recv_cb, on_event, on_events,
  Attempt, Waited, waits_dns, waits_response, poll_while, timeout_us,
}
use pad_proxy.Ota.Client.Script.{joined, Delivers, quiet, gives, closes, Polls}

abbrev pub finished : HttpCtx → HttpCtx
finished ctx = record ctx { complete = true; state = http_complete }

-- The context that a response leaves, and that it is complete.
abbrev pub Answered : List (List Bytes) → HttpCtx → Waited → Type 0
Answered chains ctx w =
    (w.timed_out ≡ false) × (w.client.ctx ≡ finished (receive (joined chains) ctx))

done-round :
    (a : Attempt) (fuel i : ℕ) (c : Client)
    → c.ctx.complete ≡ true
    → poll_while waits_response a (suc fuel) i c
      ≡ some (record { timed_out = false; polled = i; client = c })
unfolding poll_while
done-round a fuel i c h = simp h

pub dns-round :
    (a : Attempt) (fuel i : ℕ) (c : Client)
    → waits_dns c.ctx ≡ false
    → poll_while waits_dns a (suc fuel) i c
      ≡ some (record { timed_out = false; polled = i; client = c })
unfolding poll_while
dns-round a fuel i c h = simp h

pub waiting-round :
    (a : Attempt) (fuel i : ℕ) (c : Client)
    → waits_dns c.ctx ≡ true
    → a.clock i < timeout_us
    → poll_while waits_dns a (suc fuel) i c
      ≡ poll_while waits_dns a fuel (suc i) (on_events (a.polls i) c)
unfolding poll_while
waiting-round a fuel i c h t =
    let early : leb timeout_us (a.clock i) ≡ false = ground (arith, t) in simp (h, early)

pub going-round :
    (a : Attempt) (fuel i : ℕ) (c : Client)
    → c.ctx.complete ≡ false
    → c.ctx.error ≡ false
    → a.clock i < timeout_us
    → poll_while waits_response a (suc fuel) i c
      ≡ poll_while waits_response a fuel (suc i) (on_events (a.polls i) c)
unfolding poll_while
going-round a fuel i c h e t =
    let early : leb timeout_us (a.clock i) ≡ false = ground (arith, t) in simp (h, e, early)

pub no_events : (c : Client) → on_events [] c ≡ c
unfolding on_events
no_events c = refl

closed : (c : Client) → (on_events (received none true ∷ []) c).ctx ≡ finished c.ctx
unfolding on_events on_event http_recv_cb
closed c = refl

abbrev pub connecting : HttpCtx → HttpCtx
connecting ctx = record ctx { state = http_connecting }

pub address_found : (c : Client) → on_events (dns_found true ∷ []) c ≡ updated connecting c
unfolding on_events on_event dns_found_cb
address_found c = refl

-- Behind the first event of a poll.
pub after_event :
    (e : NetEvent) (b : List NetEvent) (c : Client)
    → on_events (e ∷ b) c ≡ on_events b (on_event e c)
unfolding on_events
after_event e b c = refl

chained :
    (chain : List Bytes) (c : Client)
    → (on_event (received (some chain) true) c).ctx ≡ receive chain c.ctx
unfolding on_event http_recv_cb
chained chain c = refl

module _ (a : Attempt) where
  pub delivered :
      (chains : List (List Bytes)) (b : List NetEvent) (s : List (List NetEvent)) (fuel i : ℕ)
      (c : Client)
      → Delivers chains (b ∷ s)
      → Polls a i s
      → c.ctx.complete ≡ false
      → IsReady c.ctx
      → (receive (joined chains) c.ctx).error ≡ false
      → length s < fuel
      → (w : Waited) × (poll_while waits_response a fuel i (on_events b c) ≡ some w)
        × Answered chains c.ctx w
  unfolding receive
  delivered chains b s zero i c d p h o e few = absurd (omega (arith, few))
  delivered chains [] [] (suc fuel) i c (quiet d) p h o e few = elim d [ ]
  delivered chains [] (b ∷ s) (suc fuel) i c (quiet d) (events, early, p) h o e few =
      let (w, run, got) = delivered chains b s fuel (suc i) c d p h o e (omega (arith, few)) in
      (
        w,
        ap (poll_while waits_response a (suc fuel) i) (no_events c)
            ∙ going-round a fuel i c h (receive-no_error [] (joined chains) c.ctx e) early
            ∙ ap (λ es. poll_while waits_response a fuel (suc i) (on_events es c)) events
            ∙ run,
        got,
      )
  delivered (chain ∷ chains) (_ ∷ b) s (suc fuel) i c (gives _ d) p h o e few =
      let c1 = on_event (received (some chain) true) c in
      let same = chained chain c in
      let (o1, h1) = receive-going chain c.ctx o in
      let split = receive-append chain (joined chains) c.ctx in
      let (w, run, (timely, left)) =
        delivered chains b s (suc fuel) i c1 d p (ap (λ x. x.complete) same ∙ h1 ∙ h) (rw same o1)
          (ap (λ x. (receive (joined chains) x).error) same ∙ sym (ap (λ x. x.error) split) ∙ e)
          few in
      (
        w,
        ap (poll_while waits_response a (suc fuel) i) (after_event (received (some chain) true) b c)
            ∙ run,
        (
          timely,
          left ∙ ap (λ x. finished (receive (joined chains) x)) same ∙ ap finished (sym split),
        ),
      )
  delivered [] (_ ∷ []) (b ∷ s) (suc fuel) i c d p h o e few = elim d [ ]
  delivered [] (_ ∷ (_ ∷ _)) s (suc fuel) i c d p h o e few = elim d [ ]
  delivered [] (_ ∷ []) [] (suc fuel) i c closes p h o e few =
      let c1 = on_events (received none true ∷ []) c in
      let done = closed c in
      (
        record { timed_out = false; polled = i; client = c1 },
        done-round a fuel i c1 (ap (λ x. x.complete) done),
        (refl, done ∙ ap finished (sym (receive-nil c.ctx))),
      )
