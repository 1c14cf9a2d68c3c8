-- ===== src/Firmware/Hal/Race/Rest.antt =====
-- What holds between two calls of the hardware layer, wherever the interrupts came.
use mathlib.Core.Path.{subst}
use pad_proxy.Base.{ℕ, ◌≡◌, ◌⊎◌, ◌↔◌, refl, inl, inr, Bool, true, false, Bool-cases}
use pad_proxy.Firmware.Hal.{AlarmCallback, power_btn_cb, boot_timer_cb, AlarmSdk, Hal, hal_init}
use pad_proxy.Firmware.Hal.Race.Moves.{other-fires, fires-Slot}
use pad_proxy.Firmware.Hal.Race.{
  Pc, at_rest, btn_add, boot_reset, boot_add, poll_clear, Call, trigger, start, cancel, poll, entry,
  Machine, next, AlarmPool, release, ring, Reach, started, called, ran, released, rang,
}
use pad_proxy.Firmware.Hal.Race.Statements.{Ready, Inv, InvOf, other_1, other_2, statement-Inv}

module _ {sdk : AlarmSdk} (a : AlarmPool sdk) where
  -- No alarm is pending in its own cleared phase, so that no interrupt undoes what has been done there.
  release-Ready :
      (pc : Pc) (h : Hal sdk) (awaited : Bool) (id : ℕ)
      → a.Pending id power_btn_cb h.pool
      → Inv a pc h awaited
      → Ready pc (record h { trigger_pin = false; btn_alarm = 0; pool = a.expire id h.pool })
  release-Ready (btn_add ms) h awaited id p i = absurd (i.btn.known id p)
  release-Ready (boot_reset k) h awaited id p i = i.ready
  release-Ready (boot_add ms) h awaited id p i = i.ready
  release-Ready poll_clear h awaited id p i = i.ready
  release-Ready _ h awaited id p i = tt

  release-Inv :
      (m : Machine sdk) (id : ℕ)
      → a.Pending id power_btn_cb m.hal.pool
      → InvOf a m
      → InvOf a (release sdk id a.expire m)
  unfolding release
  release-Inv m id p i = record {
    btn = fires-Slot a id (λ e. cc e) p i.btn;
    boot = other-fires a id (other_2 a) p i.boot;
    ready = release-Ready m.pc m.hal m.awaited id p i;
    heard = i.heard;
  }

  ring-Ready :
      (pc : Pc) (h : Hal sdk) (awaited : Bool) (id : ℕ)
      → a.Pending id boot_timer_cb h.pool
      → Inv a pc h awaited
      → Ready pc (record h { boot_expired = true; boot_alarm = 0; pool = a.expire id h.pool })
  ring-Ready (btn_add ms) h awaited id p i = i.ready
  ring-Ready (boot_reset k) h awaited id p i = refl
  ring-Ready (boot_add ms) h awaited id p i = absurd (i.boot.known id p)
  ring-Ready poll_clear h awaited id p i = refl
  ring-Ready _ h awaited id p i = tt

  awaited-Pending :
      (pc : Pc) (h : Hal sdk) (awaited : Bool) (id : ℕ)
      → a.Pending id boot_timer_cb h.pool
      → Inv a pc h awaited
      → awaited ≡ true
  awaited-Pending pc h true id p i = refl
  awaited-Pending pc h false id p i = absurd (i.boot.gone (inr refl) id p)

  ring-Inv :
      (m : Machine sdk) (id : ℕ)
      → a.Pending id boot_timer_cb m.hal.pool
      → InvOf a m
      → InvOf a (ring sdk id a.expire m)
  unfolding ring
  ring-Inv m id p i = record {
    btn = other-fires a id (other_1 a) p i.btn;
    boot = fires-Slot a id (λ o. cc o.1) p i.boot;
    ready = ring-Ready m.pc m.hal m.awaited id p i;
    heard = λ _. awaited-Pending m.pc m.hal m.awaited id p i;
  }

  entry-Inv :
      (c : Call) (h : Hal sdk) (awaited : Bool)
      → Inv a at_rest h awaited
      → Inv a (entry c) h awaited
  unfolding entry
  entry-Inv (trigger ms) h awaited i = record {
    btn = i.btn;
    boot = i.boot;
    ready = tt;
    heard = i.heard;
  }
  entry-Inv (start ms) h awaited i = record {
    btn = i.btn;
    boot = i.boot;
    ready = tt;
    heard = i.heard;
  }
  entry-Inv cancel h awaited i = record { btn = i.btn; boot = i.boot; ready = tt; heard = i.heard }
  entry-Inv poll h awaited i = record { btn = i.btn; boot = i.boot; ready = tt; heard = i.heard }

  hal_init-Inv :
      (h : Hal sdk)
      → ((i : ℕ) (c : AlarmCallback) → ¬ (a.Pending i c h.pool))
      → Inv a at_rest (hal_init sdk h) false
  unfolding hal_init
  hal_init-Inv h none_yet = record {
    btn = record {
      known = λ i p. absurd (none_yet i power_btn_cb p);
      apart = λ i p. absurd (none_yet i power_btn_cb p);
      held = λ e. cc e;
      gone = λ _ i p. none_yet i power_btn_cb p;
    };
    boot = record {
      known = λ i p. absurd (none_yet i boot_timer_cb p);
      apart = λ i p. absurd (none_yet i boot_timer_cb p);
      held = λ o. cc o.0;
      gone = λ _ i p. none_yet i boot_timer_cb p;
    };
    ready = tt;
    heard = λ e. cc e;
  }

  Reach-Inv : {m : Machine sdk} → Reach sdk a m → InvOf a m
  unfolding next
  Reach-Inv (started h none_yet) = hal_init-Inv h none_yet
  Reach-Inv (called {m = m} c r at) =
      entry-Inv c m.hal m.awaited (subst (λ pc. Inv a pc m.hal m.awaited) at (Reach-Inv r))
  Reach-Inv (ran {m = m} r new) = statement-Inv a m.pc m new (Reach-Inv r)
  Reach-Inv (released {m = m} id r p) = release-Inv m id p (Reach-Inv r)
  Reach-Inv (rang {m = m} id r p) = ring-Inv m id p (Reach-Inv r)

  -- Wherever between two statements of the hardware layer the alarms interrupt it: whenever no call is
  -- under way, the button is held down exactly as long as an alarm that releases it is pending under the
  -- id in `s_power_btn_alarm`; and a boot timer is awaited, that is added and neither cancelled nor read
  -- as expired, exactly as long as its alarm is pending under the id in `s_boot_timer_alarm` or its
  -- expiry waits to be read. Assumed: the alarm pool works as documented, an alarm is added for a time in
  -- the future, and the pool does not hand out an id that the program still holds.
  pub Reach-rest :
      (m : Machine sdk)
      → Reach sdk a m
      → m.pc ≡ at_rest
      → ((m.hal.trigger_pin ≡ true) ↔ a.Pending m.hal.btn_alarm power_btn_cb m.hal.pool)
        × ((m.awaited ≡ true)
            ↔ (a.Pending m.hal.boot_alarm boot_timer_cb m.hal.pool ⊎ (m.hal.boot_expired ≡ true)))
  Reach-rest m r at =
      let i = subst (λ pc. Inv a pc m.hal m.awaited) at (Reach-Inv r) in
      (
        (
          i.btn.held,
          λ p. elim (Bool-cases m.hal.trigger_pin) [
            | inl high ↦ high
            | inr low ↦ absurd (i.btn.gone low m.hal.btn_alarm p)
          ],
        ),
        (
          λ e. elim (Bool-cases m.hal.boot_expired) [
            | inl up ↦ inr up
            | inr down ↦ inl (i.boot.held (e, down))
          ],
          λ o. elim o [
            | inl p ↦ awaited-Pending at_rest m.hal m.awaited m.hal.boot_alarm p i
            | inr e ↦ i.heard e
          ],
        ),
      )
