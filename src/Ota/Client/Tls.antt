-- ===== src/Ota/Client/Tls.antt =====
-- Each request frees the TLS configuration that it allocates, and uses the network only while it has one.
use mathlib.Core.Path.{subst}
use pad_proxy.Base.{
  ℕ, zero, suc, ◌≡◌, refl, ap, ◌∙◌, inl, inr, Bool, true, false, not, ◌||◌, Bool-cases, Option,
  none, some, List, [], ◌∷◌, ◌++◌, Bytes, take, leb,
}
use pad_proxy.Ota.Url.{Url, parse_url}
use pad_proxy.Ota.Http.{HttpCtx}
use pad_proxy.Ota.Client.Results.{OfResult}
use pad_proxy.Ota.Client.{
  NetCall, tls_config_new, tls_config_free, pcb_new, pcb_close, pcb_abort, write, recved, Client,
  NetEvent, dns_found, connected, received, lost, dns_found_cb, http_connected_cb, http_recv_cb,
  http_err_cb, on_event, on_events, DnsAnswer, dns_ok, dns_in_progress, dns_failed, Attempt, Waited,
  waits_dns, waits_response, poll_while, poll_fuel, timeout_us, drop_pcb, end_request, connect,
  after_dns, https_get, to_url, is_redirect, after_get, follow, max_redirects, url_max,
  https_get_follow,
}

pub data TlsState : Type 0 where
  freed live : TlsState

-- Every call but the allocation stands between an allocation and its release.
unfoldable pub use_tls : TlsState → NetCall → Option TlsState
use_tls freed tls_config_new = some live
use_tls freed _ = none
use_tls live tls_config_new = none
use_tls live tls_config_free = some freed
use_tls live _ = some live

unfoldable pub tls_after : Option TlsState → List NetCall → Option TlsState
unfolding use_tls
tls_after s [] = s
tls_after none (call ∷ calls) = none
tls_after (some s) (call ∷ calls) = tls_after (use_tls s call) calls

tls_after-append :
    (s : Option TlsState) (a b : List NetCall) → tls_after s (a ++ b) ≡ tls_after (tls_after s a) b
unfolding tls_after
tls_after-append s [] b = refl
tls_after-append none (call ∷ a) [] = refl
tls_after-append none (call ∷ a) (d ∷ b) = refl
tls_after-append (some s) (call ∷ a) b = tls_after-append (use_tls s call) a b

abbrev IsIn : TlsState → List NetCall → Type 0
IsIn s calls = tls_after (some freed) calls ≡ some s

logged-IsIn :
    (call : NetCall) (calls : List NetCall) (s t : TlsState)
    → use_tls s call ≡ some t
    → IsIn s calls
    → IsIn t (calls ++ call ∷ [])
unfolding tls_after
logged-IsIn call calls s t u h =
    tls_after-append (some freed) calls (call ∷ []) ∙ ap (λ x. tls_after x (call ∷ [])) h ∙ u

on_event-IsIn : (e : NetEvent) (c : Client) → IsIn live c.calls → IsIn live (on_event e c).calls
unfolding on_event dns_found_cb http_connected_cb http_recv_cb http_err_cb use_tls
on_event-IsIn (dns_found true) c h = h
on_event-IsIn (dns_found false) c h = h
on_event-IsIn (connected false wr_ok) c h = h
on_event-IsIn (connected true false) c h = logged-IsIn (write _) c.calls live live refl h
on_event-IsIn (connected true true) c h = logged-IsIn (write _) c.calls live live refl h
on_event-IsIn (received none ok) c h = h
on_event-IsIn (received (some chain) false) c h = h
on_event-IsIn (received (some chain) true) c h = logged-IsIn (recved _) c.calls live live refl h
on_event-IsIn lost c h = h

on_events-IsIn :
    (es : List NetEvent) (c : Client) → IsIn live c.calls → IsIn live (on_events es c).calls
unfolding on_events
on_events-IsIn [] c h = h
on_events-IsIn (e ∷ es) c h = on_events-IsIn es (on_event e c) (on_event-IsIn e c h)

poll_while-IsIn :
    (test : HttpCtx → Bool) (a : Attempt) (fuel i : ℕ) (c : Client)
    → IsIn live c.calls
    → OfResult (λ w. IsIn live w.client.calls) (poll_while test a fuel i c)
unfolding poll_while
poll_while-IsIn test a zero i c h = tt
poll_while-IsIn test a (suc fuel) i c h = elim (Bool-cases (not (test c.ctx))) [
  | inl ends ↦ simp ends h
  | inr more ↦ elim (Bool-cases (leb timeout_us (a.clock i))) [
    | inl late ↦ simp (more, late) h
    | inr early ↦
        simp (more, early) (poll_while-IsIn test a fuel (suc i) _ (on_events-IsIn (a.polls i) c h))
  ]
]

release : (calls : List NetCall) → IsIn live calls → IsIn freed (calls ++ tls_config_free ∷ [])
unfolding use_tls
release calls h = logged-IsIn tls_config_free calls live freed refl h

drop_pcb-IsIn :
    (call : NetCall) (c : Client)
    → use_tls live call ≡ some live
    → IsIn live c.calls
    → IsIn live (drop_pcb call c).calls
drop_pcb-IsIn call c u h = elim (Bool-cases c.ctx.has_pcb) [
  | inl has ↦ simp has (logged-IsIn call c.calls live live u h)
  | inr none_left ↦ simp none_left h
]

end_request-IsIn :
    (o : Option Waited)
    → OfResult (λ w. IsIn live w.client.calls) o
    → OfResult (λ r. IsIn freed r.1.calls) (end_request o)
unfolding end_request use_tls
end_request-IsIn none h = tt
end_request-IsIn (some w) h = elim (Bool-cases w.timed_out) [
  | inl late ↦ simp late (release _ (drop_pcb-IsIn pcb_abort w.client refl h))
  | inr done ↦ simp done (release _ (drop_pcb-IsIn pcb_close w.client refl h))
]

connect-IsIn :
    (a : Attempt) (o : Option Waited)
    → OfResult (λ w. IsIn live w.client.calls) o
    → OfResult (λ r. IsIn freed r.1.calls) (connect a o)
unfolding connect use_tls
connect-IsIn a none h = tt
connect-IsIn a (some w) h =
    let with_pcb = logged-IsIn pcb_new w.client.calls live live refl h in
    elim (Bool-cases (w.timed_out || w.client.ctx.error || not a.pcb_ok)) [
      | inl ends ↦ simp ends (release w.client.calls h)
      | inr go ↦ elim (Bool-cases (not a.connect_ok)) [
        | inl refused ↦
            simp (go, refused) (release _ (logged-IsIn pcb_close _ live live refl with_pcb))
        | inr connecting ↦
            simp (go, connecting)
              (end_request-IsIn _ (poll_while-IsIn waits_response a poll_fuel w.polled _ with_pcb))
      ]
    ]

after_dns-IsIn :
    (a : Attempt) (d : DnsAnswer) (c : Client)
    → IsIn live c.calls
    → OfResult (λ r. IsIn freed r.1.calls) (after_dns a d c)
after_dns-IsIn a dns_ok c h = connect-IsIn a _ (poll_while-IsIn waits_dns a poll_fuel 0 _ h)
after_dns-IsIn a dns_in_progress c h =
    connect-IsIn a _ (poll_while-IsIn waits_dns a poll_fuel 0 c h)
after_dns-IsIn a dns_failed c h = release c.calls h

https_get-IsIn :
    (a : Attempt) (c : Client)
    → IsIn freed c.calls
    → OfResult (λ r. IsIn freed r.1.calls) (https_get a c)
unfolding https_get use_tls
https_get-IsIn a c h = elim (Bool-cases (not a.tls_ok)) [
  | inl no_tls ↦ simp no_tls h
  | inr tls ↦ simp tls (after_dns-IsIn a a.dns _ (logged-IsIn tls_config_new _ freed live refl h))
]

after_get-IsIn :
    (next : Client → Option (Bool × Client)) (o : Option (Bool × Client))
    → OfResult (λ r. IsIn freed r.1.calls) o
    → ((c : Client) → IsIn freed c.calls → OfResult (λ r. IsIn freed r.1.calls) (next c))
    → OfResult (λ r. IsIn freed r.1.calls) (after_get next o)
unfolding after_get
after_get-IsIn next none h n = tt
after_get-IsIn next (some (false, c)) h n = h
after_get-IsIn next (some (true, c)) h n = elim (Bool-cases (is_redirect c.ctx)) [
  | inl again ↦ simp again (n c h)
  | inr done ↦ simp done h
]

follow-IsIn :
    (rounds : ℕ) (attempts : ℕ → Attempt) (i : ℕ) (url : Option Url) (c : Client)
    → IsIn freed c.calls
    → OfResult (λ r. IsIn freed r.1.calls) (follow rounds attempts i url c)
unfolding follow
follow-IsIn zero attempts i url c h = h
follow-IsIn (suc rounds) attempts i none c h = h
follow-IsIn (suc rounds) attempts i (some u) c h =
    after_get-IsIn _ (https_get (attempts i) (to_url u c))
      (https_get-IsIn (attempts i) (to_url u c) h)
      (λ c1 h1. follow-IsIn rounds attempts (suc i) _ _ h1)

-- From a client without a TLS configuration a download leaves none, on every path: each is freed once,
-- and no network call is made without one.
pub https_get_follow-IsIn :
    (attempts : ℕ → Attempt) (url : Bytes) (c : Client) (r : Bool × Client)
    → tls_after (some freed) c.calls ≡ some freed
    → https_get_follow attempts url c ≡ some r
    → tls_after (some freed) r.1.calls ≡ some freed
unfolding https_get_follow
https_get_follow-IsIn attempts url c r h e =
    subst (OfResult (λ r. IsIn freed r.1.calls)) e
      (follow-IsIn max_redirects attempts 0 (parse_url 128 512 (take url_max url)) c h)
