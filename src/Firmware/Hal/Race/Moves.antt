-- ===== src/Firmware/Hal/Race/Moves.antt =====
-- What interrupts and statements for one alarm do to a slot, its own and the other.
use mathlib.Core.Path.{subst}
use pad_proxy.Base.{ℕ, ◌≡◌, ◌≢◌, sym, ◌∙◌, inl, inr}
use pad_proxy.Firmware.Hal.{AlarmCallback, AlarmSdk}
use pad_proxy.Firmware.Hal.Race.{AlarmPool}
use pad_proxy.Firmware.Hal.Race.Slots.{
  Phase, resting, cleared, storing, NoneOf, Known, Held, Away, Slot,
}

module _ {sdk : AlarmSdk} (a : AlarmPool sdk) where
  Known-map :
      {cb : AlarmCallback} {pool pool' : sdk.Pool} (v : ℕ) (ph : Phase)
      → ((i : ℕ) → a.Pending i cb pool' → a.Pending i cb pool)
      → Known a cb pool v ph
      → Known a cb pool' v ph
  Known-map v resting sub k = λ i p. k i (sub i p)
  Known-map v cleared sub k = λ i p. k i (sub i p)
  Known-map v (storing id) sub k = λ i p. k i (sub i p)

  Held-map :
      {cb : AlarmCallback} {pool pool' : sdk.Pool} (v : ℕ) (ph : Phase)
      → ((i : ℕ) → a.Pending i cb pool → a.Pending i cb pool')
      → Held a cb pool v ph
      → Held a cb pool' v ph
  Held-map v resting stay h = stay v h
  Held-map v cleared stay h = tt
  Held-map v (storing id) stay h = stay id h

  Away-zero :
      {cb : AlarmCallback} {pool : sdk.Pool} {i : ℕ} (ov : ℕ) (oph : Phase)
      → a.Pending i cb pool
      → Away a i ov oph
      → Away a i 0 oph
  Away-zero {pool = pool} ov resting p w = a.not_0 pool p
  Away-zero ov cleared p w = tt
  Away-zero ov (storing id) p w = w

  one-Known :
      {cb : AlarmCallback} {pool : sdk.Pool} (v : ℕ) (ph : Phase) (i j : ℕ)
      → Known a cb pool v ph
      → a.Pending i cb pool
      → a.Pending j cb pool
      → i ≡ j
  one-Known v resting i j k p q = k i p ∙ sym (k j q)
  one-Known v cleared i j k p q = absurd (k i p)
  one-Known v (storing id) i j k p q = k i p ∙ sym (k j q)

  none-Known :
      {cb : AlarmCallback} (pool : sdk.Pool) (v : ℕ) (ph : Phase)
      → NoneOf a cb pool
      → Known a cb pool v ph
  none-Known pool v resting n = λ i p. absurd (n i p)
  none-Known pool v cleared n = n
  none-Known pool v (storing id) n = λ i p. absurd (n i p)

  module _ {cb : AlarmCallback} {pool : sdk.Pool} {v ov : ℕ} where
    -- What leaves this alarm alone.
    pub same-Slot :
        {pool' : sdk.Pool} {ow : ℕ} {ph oph oph' : Phase} {on off : Type 0}
        → ((i : ℕ) → a.Pending i cb pool' → a.Pending i cb pool)
        → ((i : ℕ) → a.Pending i cb pool → a.Pending i cb pool')
        → ((i : ℕ) → a.Pending i cb pool → Away a i ow oph')
        → Slot a cb pool v ph ov oph on off
        → Slot a cb pool' v ph ow oph' on off
    same-Slot {ph = ph} sub stay away s = record {
      known = Known-map v ph sub s.known;
      apart = λ i p. away i (sub i p);
      held = λ o. Held-map v ph stay (s.held o);
      gone = λ o i p. s.gone o i (sub i p);
    }

    -- The other alarm is cancelled, as it is not this one.
    pub other-cancel :
        {ph : Phase} {on off : Type 0}
        → Slot a cb pool v ph ov resting on off
        → Slot a cb (sdk.cancel ov pool) v ph ov cleared on off
    other-cancel s =
        same-Slot (λ i p. (a.cancelled ov pool p).0)
          (λ i p. a.not_cancelled ov pool p (s.apart i p)) (λ i p. tt) s

    -- The other alarm is added.
    pub other-add :
        {ocb : AlarmCallback} {ph : Phase} {on off : Type 0} (ms : ℕ)
        → cb ≢ ocb
        → Slot a cb pool v ph ov cleared on off
        → Slot a cb
            (sdk.add_alarm ms ocb pool).0
            v
            ph
            ov
            (storing (sdk.add_alarm ms ocb pool).1)
            on
            off
    other-add {ocb = ocb} ms n s =
        same-Slot (λ i p. elim (a.added ms ocb pool p) [ inl q ↦ q | inr (_, e) ↦ absurd (n e) ])
          (λ i p. a.keeps ms ocb pool p) (λ i p. a.fresh ms ocb pool p) s

    -- The callback of the other alarm runs.
    pub other-fires :
        {ocb : AlarmCallback} {ph oph : Phase} {on off : Type 0} (j : ℕ)
        → cb ≢ ocb
        → a.Pending j ocb pool
        → Slot a cb pool v ph ov oph on off
        → Slot a cb (a.expire j pool) v ph 0 oph on off
    other-fires {ocb = ocb} {oph = oph} j n q s =
        same-Slot (λ i p. (a.expired j pool p).0)
          (λ i p.
            a.not_expired j pool p
              (λ e. n (a.one_callback pool (subst (λ k. a.Pending k cb pool) e p) q)))
          (λ i p. Away-zero ov oph p (s.apart i p)) s

    -- Its own callback runs.
    pub fires-Slot :
        {ph oph : Phase} {on off on' off' : Type 0} (j : ℕ)
        → ¬ on'
        → a.Pending j cb pool
        → Slot a cb pool v ph ov oph on off
        → Slot a cb (a.expire j pool) 0 ph ov oph on' off'
    fires-Slot {ph = ph} j n q s =
        let none_left : NoneOf a cb (a.expire j pool) =
          λ i p. let (r, d) = a.expired j pool p in d (one-Known v ph i j s.known r q) in
        record {
          known = none-Known (a.expire j pool) 0 ph none_left;
          apart = λ i p. absurd (none_left i p);
          held = λ o. absurd (n o);
          gone = λ _. none_left;
        }

    -- Only the other variable and its phase change.
    pub beside :
        {ow : ℕ} {ph oph oph' : Phase} {on off : Type 0}
        → ((i : ℕ) → a.Pending i cb pool → Away a i ow oph')
        → Slot a cb pool v ph ov oph on off
        → Slot a cb pool v ph ow oph' on off
    beside away s = same-Slot (λ i p. p) (λ i p. p) away s
