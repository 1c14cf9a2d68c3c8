-- ===== src/Firmware/Hal/Race/Slots.antt =====
-- One alarm of the hardware layer and the variable that holds its id, whatever happens to the other one.
use pad_proxy.Base.{ℕ, ◌<◌, ◌≡◌, ◌≢◌, sym, ◌∙◌, inl, inr}
use pad_proxy.Firmware.Hal.{AlarmCallback, AlarmSdk}
use pad_proxy.Firmware.Hal.Race.{AlarmPool}

-- Where the main loop is in its dealing with one alarm: the variable stands for the alarm; the alarm has
-- been cancelled; a new one has been added and its id is not stored yet.
pub data Phase : Type 0 where
  resting cleared : Phase
  storing : ℕ → Phase

module _ {sdk : AlarmSdk} (a : AlarmPool sdk) where
  abbrev pub OnlyOne : AlarmCallback → ℕ → sdk.Pool → Type 0
  OnlyOne cb v pool = (i : ℕ) → a.Pending i cb pool → i ≡ v

  abbrev pub NoneOf : AlarmCallback → sdk.Pool → Type 0
  NoneOf cb pool = (i : ℕ) → ¬ (a.Pending i cb pool)

  -- No alarm is pending but the one that the program knows of.
  abbrev pub Known : AlarmCallback → sdk.Pool → ℕ → Phase → Type 0
  Known cb pool v resting = OnlyOne cb v pool
  Known cb pool v cleared = NoneOf cb pool
  Known cb pool v (storing id) = OnlyOne cb id pool

  -- The alarm that the program knows of is pending.
  abbrev pub Held : AlarmCallback → sdk.Pool → ℕ → Phase → Type 0
  Held cb pool v resting = a.Pending v cb pool
  Held cb pool v cleared = Unit
  Held cb pool v (storing id) = a.Pending id cb pool

  -- An id that a later cancel with this variable does not hit.
  abbrev pub Away : ℕ → ℕ → Phase → Type 0
  Away i v resting = i ≢ v
  Away i v cleared = Unit
  Away i v (storing id) = i ≢ id

  -- The alarm with callback `cb`, variable `v` and phase `ph`, beside another with `ov` and `oph`. It is
  -- pending if `on`, and not pending if `off`.
  pub record Slot (cb : AlarmCallback) (pool : sdk.Pool) (v : ℕ) (ph : Phase) (ov : ℕ) (oph : Phase)
      (on off : Type 0) : Type 0 where
    pub known : Known cb pool v ph
    pub apart : (i : ℕ) → a.Pending i cb pool → Away i ov oph
    pub held : on → Held cb pool v ph
    pub gone : off → NoneOf cb pool

  -- A variable that is 0 stands for no alarm.
  zero-NoneOf :
      {cb : AlarmCallback} {pool : sdk.Pool} {v : ℕ} → v ≡ 0 → OnlyOne cb v pool → NoneOf cb pool
  zero-NoneOf {pool = pool} z only i p = a.not_0 pool p (only i p ∙ z)

  module _ {cb : AlarmCallback} {pool : sdk.Pool} {v ov : ℕ} where
    pub zero-cleared :
        {oph : Phase} {on off : Type 0}
        → v ≡ 0
        → Slot cb pool v resting ov oph on off
        → Slot cb pool v cleared ov oph on off
    zero-cleared z s = record {
      known = zero-NoneOf z s.known;
      apart = s.apart;
      held = λ _. tt;
      gone = s.gone;
    }

    -- Its own cancel.
    pub cancel-cleared :
        {oph : Phase} {on off : Type 0}
        → Slot cb pool v resting ov oph on off
        → Slot cb (sdk.cancel v pool) v cleared ov oph on off
    cancel-cleared s = record {
      known = λ i p. let (q, n) = a.cancelled v pool p in n (s.known i q);
      apart = λ i p. s.apart i (a.cancelled v pool p).0;
      held = λ _. tt;
      gone = λ o i p. s.gone o i (a.cancelled v pool p).0;
    }

    -- Where nothing is pending, the variables do not matter.
    pub cleared-Slot :
        {oph oph' : Phase} {on off on' off' : Type 0} {w ow : ℕ}
        → Slot cb pool v cleared ov oph on off
        → Slot cb pool w cleared ow oph' on' off'
    cleared-Slot s = record {
      known = s.known;
      apart = λ i p. absurd (s.known i p);
      held = λ _. tt;
      gone = λ _. s.known;
    }

    pub cleared-resting :
        {oph oph' : Phase} {on off on' off' : Type 0} {w ow : ℕ}
        → ¬ on'
        → Slot cb pool v cleared ov oph on off
        → Slot cb pool w resting ow oph' on' off'
    cleared-resting n s = record {
      known = λ i p. absurd (s.known i p);
      apart = λ i p. absurd (s.known i p);
      held = λ o. absurd (n o);
      gone = λ _. s.known;
    }

    -- A new alarm.
    pub add-storing :
        {on off on' off' : Type 0} (ms : ℕ)
        → 0 < ms
        → (sdk.add_alarm ms cb pool).1 ≢ ov
        → ¬ off'
        → Slot cb pool v cleared ov resting on off
        → Slot cb
            (sdk.add_alarm ms cb pool).0
            v
            (storing (sdk.add_alarm ms cb pool).1)
            ov
            resting
            on'
            off'
    add-storing {off' = off'} ms pos new n s =
        let only : OnlyOne cb (sdk.add_alarm ms cb pool).1 (sdk.add_alarm ms cb pool).0 =
          λ i p. elim (a.added ms cb pool p) [ inl q ↦ absurd (s.known i q) | inr (e, _) ↦ e ] in
        record {
          known = only;
          apart = λ i p e. new (sym (only i p) ∙ e);
          held = λ _. a.adds ms cb pool pos;
          gone = λ o. absurd (n o);
        }

    -- The id of the new alarm is stored.
    pub store-resting :
        {oph : Phase} {on off : Type 0} {id : ℕ}
        → Slot cb pool v (storing id) ov oph on off
        → Slot cb pool id resting ov oph on off
    store-resting s = record { known = s.known; apart = s.apart; held = s.held; gone = s.gone }

    -- Only the claims on its state change.
    pub told-Slot :
        {ph oph : Phase} {on off on' off' : Type 0}
        → (on' → on)
        → (off' → off)
        → Slot cb pool v ph ov oph on off
        → Slot cb pool v ph ov oph on' off'
    told-Slot f g s = record {
      known = s.known;
      apart = s.apart;
      held = λ o. s.held (f o);
      gone = λ o. s.gone (g o);
    }
