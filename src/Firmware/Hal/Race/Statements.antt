-- ===== src/Firmware/Hal/Race/Statements.antt =====
-- What each statement of the hardware layer keeps.
use pad_proxy.Base.{
  ◌≡◌, ◌≢◌, ◌⊎◌, refl, ◌∙◌, inl, inr, Bool, true, false, Bool-cases, none, some, ◌==◌, arith,
}
use pad_proxy.Firmware.Hal.{power_btn_cb, boot_timer_cb, AlarmSdk, Hal}
use pad_proxy.Firmware.Hal.Race.Slots.{
  Phase, resting, cleared, storing, Slot, zero-cleared, cancel-cleared, cleared-Slot,
  cleared-resting, add-storing, store-resting, told-Slot,
}
use pad_proxy.Firmware.Hal.Race.Moves.{other-cancel, other-add, beside}
use pad_proxy.Firmware.Hal.Race.{
  Pc, at_rest, btn_test, btn_cancel, btn_clear, btn_raise, btn_add, btn_store, boot_test,
  boot_cancel, boot_clear, boot_reset, boot_begin, boot_add, boot_store, poll_test, poll_clear,
  behind_cancel, Machine, statement, AlarmPool, NewId,
}

abbrev pub btn_phase : Pc → Phase
btn_phase (btn_clear ms) = cleared
btn_phase (btn_raise ms) = cleared
btn_phase (btn_add ms) = cleared
btn_phase (btn_store id) = storing id
btn_phase _ = resting

abbrev pub boot_phase : Pc → Phase
boot_phase (boot_clear k) = cleared
boot_phase (boot_reset k) = cleared
boot_phase (boot_begin ms) = cleared
boot_phase (boot_add ms) = cleared
boot_phase (boot_store id) = storing id
boot_phase _ = resting

module _ {sdk : AlarmSdk} where
  -- What the earlier statements of the same function have done.
  abbrev pub Ready : Pc → Hal sdk → Type 0
  Ready (btn_add ms) h = h.trigger_pin ≡ true
  Ready (boot_reset k) h = h.boot_alarm ≡ 0
  Ready (boot_add ms) h = h.boot_expired ≡ false
  Ready poll_clear h = h.boot_expired ≡ true
  Ready _ h = Unit

  module _ (a : AlarmPool sdk) where
    abbrev pub Waits : Hal sdk → Bool → Type 0
    Waits h awaited = (awaited ≡ true) × (h.boot_expired ≡ false)

    abbrev pub Over : Hal sdk → Bool → Type 0
    Over h awaited = (h.boot_expired ≡ true) ⊎ (awaited ≡ false)

    -- The invariant at a statement.
    pub record Inv (pc : Pc) (h : Hal sdk) (awaited : Bool) : Type 0 where
      pub btn :
          Slot a power_btn_cb h.pool h.btn_alarm
            (btn_phase pc)
            h.boot_alarm
            (boot_phase pc)
            (h.trigger_pin ≡ true)
            (h.trigger_pin ≡ false)
      pub boot :
          Slot a boot_timer_cb h.pool h.boot_alarm
            (boot_phase pc)
            h.btn_alarm
            (btn_phase pc)
            (Waits h awaited)
            (Over h awaited)
      pub ready : Ready pc h
      pub heard : h.boot_expired ≡ true → awaited ≡ true

    abbrev pub InvOf : Machine sdk → Type 0
    InvOf m = Inv m.pc m.hal m.awaited

    pub other_1 : power_btn_cb ≢ boot_timer_cb
    other_1 e = cc e

    pub other_2 : boot_timer_cb ≢ power_btn_cb
    other_2 e = cc e

    pub statement-Inv :
        (pc : Pc) (m : Machine sdk)
        → NewId sdk pc m.hal
        → Inv pc m.hal m.awaited
        → InvOf (statement sdk pc m)
    unfolding statement NewId behind_cancel
    statement-Inv at_rest m new i = i
    statement-Inv (btn_test ms) m new i = elim (Bool-cases (m.hal.btn_alarm == 0)) [
      | inl z ↦ simp z (record {
        btn = zero-cleared a (ground (arith, z)) i.btn;
        boot = beside a (λ _ _. tt) i.boot;
        ready = tt;
        heard = i.heard;
      })
      | inr n ↦ simp n (record { btn = i.btn; boot = i.boot; ready = tt; heard = i.heard })
    ]
    statement-Inv (btn_cancel ms) m new i = record {
      btn = cancel-cleared a i.btn;
      boot = other-cancel a i.boot;
      ready = tt;
      heard = i.heard;
    }
    statement-Inv (btn_clear ms) m new i = record {
      btn = cleared-Slot a i.btn;
      boot = beside a (λ _ _. tt) i.boot;
      ready = tt;
      heard = i.heard;
    }
    statement-Inv (btn_raise ms) m new i = record {
      btn = cleared-Slot a i.btn;
      boot = i.boot;
      ready = refl;
      heard = i.heard;
    }
    statement-Inv (btn_add ms) m (pos, new) i = record {
      btn = add-storing a ms pos new (λ e. cc (e, i.ready)) i.btn;
      boot = other-add a ms other_2 i.boot;
      ready = tt;
      heard = i.heard;
    }
    statement-Inv (btn_store id) m new i = record {
      btn = store-resting a i.btn;
      boot = beside a i.boot.apart i.boot;
      ready = tt;
      heard = i.heard;
    }
    statement-Inv (boot_test k) m new i = elim (Bool-cases (m.hal.boot_alarm == 0)) [
      | inl z ↦ simp z (record {
        btn = beside a (λ _ _. tt) i.btn;
        boot = zero-cleared a (ground (arith, z)) i.boot;
        ready = ground (arith, z);
        heard = i.heard;
      })
      | inr n ↦ simp n (record { btn = i.btn; boot = i.boot; ready = tt; heard = i.heard })
    ]
    statement-Inv (boot_cancel k) m new i = record {
      btn = other-cancel a i.btn;
      boot = cancel-cleared a i.boot;
      ready = tt;
      heard = i.heard;
    }
    statement-Inv (boot_clear k) m new i = record {
      btn = beside a (λ _ _. tt) i.btn;
      boot = cleared-Slot a i.boot;
      ready = refl;
      heard = i.heard;
    }
    statement-Inv (boot_reset none) m new i = record {
      btn = beside a (λ j p e. a.not_0 m.hal.pool p (e ∙ i.ready)) i.btn;
      boot = cleared-resting a (λ o. cc o.0) i.boot;
      ready = tt;
      heard = λ e. cc e;
    }
    statement-Inv (boot_reset (some ms)) m new i = record {
      btn = i.btn;
      boot = cleared-Slot a i.boot;
      ready = tt;
      heard = λ e. cc e;
    }
    statement-Inv (boot_begin ms) m new i = record {
      btn = i.btn;
      boot = cleared-Slot a i.boot;
      ready = refl;
      heard = λ e. cc e;
    }
    statement-Inv (boot_add ms) m (pos, new) i = record {
      btn = other-add a ms other_1 i.btn;
      boot = add-storing a ms pos new (λ o. ground (arith, o, i.ready)) i.boot;
      ready = tt;
      heard = λ _. refl;
    }
    statement-Inv (boot_store id) m new i = record {
      btn = beside a i.btn.apart i.btn;
      boot = store-resting a i.boot;
      ready = tt;
      heard = i.heard;
    }
    statement-Inv poll_test m new i = elim (Bool-cases m.hal.boot_expired) [
      | inl up ↦ simp up (record { btn = i.btn; boot = i.boot; ready = up; heard = i.heard })
      | inr down ↦ simp down (record { btn = i.btn; boot = i.boot; ready = tt; heard = i.heard })
    ]
    statement-Inv poll_clear m new i = record {
      btn = i.btn;
      boot = told-Slot a (λ o. cc o.0) (λ o. inl i.ready) i.boot;
      ready = tt;
      heard = λ e. cc e;
    }
