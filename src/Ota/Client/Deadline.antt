-- ===== src/Ota/Client/Deadline.antt =====
-- The polling loops of `https_get` end by their deadline.
use pad_proxy.Base.{
  ℕ, zero, suc, ◌+◌, ◌*◌, ◌≤◌, ◌≡◌, refl, inl, inr, Bool, true, false, not, ◌||◌, Bool-cases,
  Option, none, some, Bytes, take, leb, if◌then◌else◌, arith,
}
use pad_proxy.Ota.Url.{Url, parse_url}
use pad_proxy.Ota.Http.{HttpCtx}
use pad_proxy.Ota.Client.Results.{Returns}
use pad_proxy.Ota.Client.{
  DnsAnswer, dns_ok, dns_in_progress, dns_failed, Attempt, Client, Waited, poll_while, poll_fuel,
  timeout_us, on_events, end_request, connect, after_dns, waits_response, to_url, url_max,
  max_redirects, https_get, after_get, follow, https_get_follow,
}

-- Between two readings of the clock a loop sleeps a millisecond at least.
abbrev pub Sleeps : Attempt → Type 0
Sleeps a = (i : ℕ) → a.clock i + 1000 ≤ a.clock (suc i)

poll_while-round :
    (test : HttpCtx → Bool) (a : Attempt) (fuel i : ℕ) (c : Client)
    → (leb timeout_us (a.clock i) ≡ false
        → Returns (poll_while test a fuel (suc i) (on_events (a.polls i) c)))
    → Returns (poll_while test a (suc fuel) i c)
unfolding poll_while
poll_while-round test a fuel i c h = elim (Bool-cases (not (test c.ctx))) [
  | inl stop ↦ simp stop (_, refl)
  | inr more ↦ elim (Bool-cases (leb timeout_us (a.clock i))) [
    | inl late ↦ simp (more, late) (_, refl)
    | inr early ↦ simp (more, early) (h early)
  ]
]

poll_while-Returns :
    (test : HttpCtx → Bool) (a : Attempt) (fuel i : ℕ) (c : Client)
    → Sleeps a
    → timeout_us ≤ a.clock i + 1000 * fuel
    → Returns (poll_while test a (suc fuel) i c)
poll_while-Returns test a zero i c s h =
    poll_while-round test a zero i c (λ early. absurd (ground (arith, early, h)))
poll_while-Returns test a (suc fuel) i c s h = poll_while-round test a (suc fuel) i c (λ early.
    poll_while-Returns test a fuel (suc i) (on_events (a.polls i) c) s (omega (arith, s i, h)))

waits :
    (test : HttpCtx → Bool) (a : Attempt) (i : ℕ) (c : Client)
    → Sleeps a
    → Returns (poll_while test a poll_fuel i c)
waits test a i c s = poll_while-Returns test a 20000 i c s (omega arith)

end_request-Returns : (w : Waited) → Returns (end_request (some w))
unfolding end_request
end_request-Returns w = elim (Bool-cases w.timed_out) [
  | inl late ↦ simp late (_, refl)
  | inr done ↦ simp done (_, refl)
]

end_wait-Returns : (o : Option Waited) → Returns o → Returns (end_request o)
end_wait-Returns o (w, e) = rw e (end_request-Returns w)

connect-Returns : (a : Attempt) (w : Waited) → Sleeps a → Returns (connect a (some w))
unfolding connect
connect-Returns a w s = elim (Bool-cases (w.timed_out || w.client.ctx.error || not a.pcb_ok)) [
  | inl stop ↦ simp stop (_, refl)
  | inr go ↦ elim (Bool-cases (not a.connect_ok)) [
    | inl refused ↦ simp (go, refused) (_, refl)
    | inr connecting ↦
        simp (go, connecting) (end_wait-Returns _ (waits waits_response a w.polled _ s))
  ]
]

connect_wait-Returns :
    (a : Attempt) (o : Option Waited) → Sleeps a → Returns o → Returns (connect a o)
connect_wait-Returns a o s (w, e) = rw e (connect-Returns a w s)

after_dns-Returns :
    (a : Attempt) (d : DnsAnswer) (c : Client) → Sleeps a → Returns (after_dns a d c)
after_dns-Returns a dns_ok c s = connect_wait-Returns a _ s (waits _ a 0 _ s)
after_dns-Returns a dns_in_progress c s = connect_wait-Returns a _ s (waits _ a 0 c s)
after_dns-Returns a dns_failed c s = (_, refl)

https_get-Returns : (a : Attempt) (c : Client) → Sleeps a → Returns (https_get a c)
unfolding https_get
https_get-Returns a c s = elim (Bool-cases (not a.tls_ok)) [
  | inl no_tls ↦ simp no_tls (_, refl)
  | inr tls ↦ simp tls (after_dns-Returns a a.dns _ s)
]

after_get-Returns :
    (next : Client → Option (Bool × Client)) (r : Bool × Client)
    → ((c : Client) → Returns (next c))
    → Returns (after_get next (some r))
unfolding after_get
after_get-Returns next (false, c) h = (_, refl)
after_get-Returns next (true, c) h = if_Returns _ _ _ (h c) (_, refl)
  where
    if_Returns :
        (b : Bool) (x y : Option (Bool × Client))
        → Returns x
        → Returns y
        → Returns (if b then x else y)
    if_Returns true x y p q = p
    if_Returns false x y p q = q

after_wait-Returns :
    (next : Client → Option (Bool × Client)) (o : Option (Bool × Client))
    → Returns o
    → ((c : Client) → Returns (next c))
    → Returns (after_get next o)
after_wait-Returns next o (r, e) h = rw e (after_get-Returns next r h)

follow-Returns :
    (rounds : ℕ) (attempts : ℕ → Attempt) (i : ℕ) (url : Option Url) (c : Client)
    → ((k : ℕ) → Sleeps (attempts k))
    → Returns (follow rounds attempts i url c)
unfolding follow
follow-Returns zero attempts i url c s = (_, refl)
follow-Returns (suc rounds) attempts i none c s = (_, refl)
follow-Returns (suc rounds) attempts i (some u) c s =
    after_wait-Returns _ (https_get (attempts i) (to_url u c))
      (https_get-Returns (attempts i) (to_url u c) (s i))
      (λ c1. follow-Returns rounds attempts (suc i) _ _ s)

-- A download ends, whatever the network delivers or withholds, as each loop sleeps between two looks at
-- its deadline.
pub https_get_follow-Returns :
    (attempts : ℕ → Attempt) (url : Bytes) (c : Client)
    → ((k : ℕ) → Sleeps (attempts k))
    → Returns (https_get_follow attempts url c)
unfolding https_get_follow
https_get_follow-Returns attempts url c s =
    follow-Returns max_redirects attempts 0 (parse_url 128 512 (take url_max url)) c s
