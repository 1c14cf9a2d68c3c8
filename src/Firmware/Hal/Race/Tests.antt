-- ===== src/Firmware/Hal/Race/Tests.antt =====
-- An alarm pool that never hands out an id twice, and a pulse that its own release interrupts.
use mathlib.Core.Path.{subst}
use pad_proxy.Base.{
  ℕ, suc, ◌≤◌, ◌≡◌, ◌≢◌, ◌⊎◌, ◌↔◌, refl, sym, ap, ◌∙◌, inl, inr, true, false, Bool-cases, Option,
  none, some, List, [], ◌∷◌, length, ◌==◌, if◌then◌else◌, arith,
}
use pad_proxy.Firmware.Hal.{AlarmCallback, power_btn_cb, boot_timer_cb, AlarmSdk, Hal, hal_init}
use pad_proxy.Firmware.Hal.Race.{
  at_rest, trigger, start, entry, behind_cancel, Machine, statement, next, AlarmPool, NewId,
  release, Reach, started, called, ran, released,
}
use pad_proxy.Firmware.Hal.Race.Rest.{Reach-rest}

-- The alarms in the order in which they were added, the last one first: the n-th has the id n.
abbrev Log : Type 0
Log = List (Option AlarmCallback)

Pending : ℕ → AlarmCallback → Log → Type 0
Pending i c [] = ⊥
Pending i c (none ∷ l) = Pending i c l
Pending i c (some d ∷ l) = ((i ≡ suc (length l)) × (c ≡ d)) ⊎ Pending i c l

remove : ℕ → Log → Log
remove j [] = []
remove j (o ∷ l) = (if j == suc (length l) then none else o) ∷ remove j l

length-remove : (j : ℕ) (l : Log) → length (remove j l) ≡ length l
unfolding remove
length-remove j [] = refl
length-remove j (o ∷ l) = ap suc (length-remove j l)

Pending-le : (i : ℕ) (c : AlarmCallback) (l : Log) → Pending i c l → (i ≤ length l) × (i ≢ 0)
unfolding Pending
Pending-le i c [] p = absurd p
Pending-le i c (none ∷ l) p = let (le, n) = Pending-le i c l p in (omega (arith, le), n)
Pending-le i c (some d ∷ l) (inl (e, same)) = (omega (arith, e), omega (arith, e))
Pending-le i c (some d ∷ l) (inr p) = let (le, n) = Pending-le i c l p in (omega (arith, le), n)

Pending-unique : (i : ℕ) (c d : AlarmCallback) (l : Log) → Pending i c l → Pending i d l → c ≡ d
unfolding Pending
Pending-unique i c d [] p q = absurd p
Pending-unique i c d (none ∷ l) p q = Pending-unique i c d l p q
Pending-unique i c d (some b ∷ l) (inl (e, h)) (inl (e', h')) = h ∙ sym h'
Pending-unique i c d (some b ∷ l) (inl (e, h)) (inr q) =
    absurd (omega (arith, e, (Pending-le i d l q).0))
Pending-unique i c d (some b ∷ l) (inr p) (inl (e, h)) =
    absurd (omega (arith, e, (Pending-le i c l p).0))
Pending-unique i c d (some b ∷ l) (inr p) (inr q) = Pending-unique i c d l p q

Pending-skip :
    (i : ℕ) (c : AlarmCallback) (o : Option AlarmCallback) (l : Log)
    → Pending i c l
    → Pending i c (o ∷ l)
unfolding Pending
Pending-skip i c none l p = p
Pending-skip i c (some d) l p = inr p

remove-Pending :
    (j i : ℕ) (c : AlarmCallback) (l : Log) → Pending i c (remove j l) → Pending i c l × (i ≢ j)
unfolding remove Pending
remove-Pending j i c [] p = absurd p
remove-Pending j i c (none ∷ l) p =
    remove-Pending j i c l (elim (Bool-cases (j == suc (length l))) [
      | inl here ↦ subst (λ b. Pending i c ((if b then none else none) ∷ remove j l)) here p
      | inr there ↦ subst (λ b. Pending i c ((if b then none else none) ∷ remove j l)) there p
    ])
remove-Pending j i c (some d ∷ l) p = elim (Bool-cases (j == suc (length l))) [
  | inl here ↦
      let (r, n) =
        remove-Pending j i c l
          (subst (λ b. Pending i c ((if b then none else some d) ∷ remove j l)) here p) in
      (inr r, n)
  | inr there ↦
      elim (subst (λ b. Pending i c ((if b then none else some d) ∷ remove j l)) there p) [
        | inl (e, h) ↦
            (inl (e ∙ ap suc (length-remove j l), h), ground (arith, e, there, length-remove j l))
        | inr q ↦ let (r, n) = remove-Pending j i c l q in (inr r, n)
      ]
]

Pending-remove :
    (j i : ℕ) (c : AlarmCallback) (l : Log) → Pending i c l → i ≢ j → Pending i c (remove j l)
unfolding remove Pending
Pending-remove j i c [] p n = absurd p
Pending-remove j i c (none ∷ l) p n = elim (Bool-cases (j == suc (length l))) [
  | inl here ↦ simp here (Pending-remove j i c l p n)
  | inr there ↦ simp there (Pending-remove j i c l p n)
]
Pending-remove j i c (some d ∷ l) (inl (e, h)) n =
    let there : (j == suc (length l)) ≡ false = ground (arith, e, n) in
    simp there (inl (e ∙ ap suc (sym (length-remove j l)), h))
Pending-remove j i c (some d ∷ l) (inr p) n =
    Pending-skip i c (if j == suc (length l) then none else some d) (remove j l)
      (Pending-remove j i c l p n)

abbrev log : AlarmSdk
log = record { Pool = Log; add_alarm = λ ms cb l. (some cb ∷ l, suc (length l)); cancel = remove }

abbrev log_pool : AlarmPool log
log_pool = record {
  Pending = Pending;
  expire = remove;
  adds = λ ms cb l later. unfold Pending in inl (refl, refl);
  keeps = λ ms cb l p. Pending-skip _ _ (some cb) l p;
  added = λ ms cb l p. unfold Pending in (elim p [ inl h ↦ inr h | inr q ↦ inl q ]);
  fresh = λ {i} {c} ms cb l p. omega (arith, (Pending-le i c l p).0);
  cancelled = λ {i} {c} j l p. remove-Pending j i c l p;
  not_cancelled = λ {i} {c} j l p n. Pending-remove j i c l p n;
  expired = λ {i} {c} j l p. remove-Pending j i c l p;
  not_expired = λ {i} {c} j l p n. Pending-remove j i c l p n;
  one_callback = λ {i} {c} {d} l p q. Pending-unique i c d l p q;
  not_0 = λ {i} {c} l p. (Pending-le i c l p).1;
}

abbrev off_hal : Hal log
off_hal =
    hal_init log (record {
      trigger_pin = false;
      btn_alarm = 0;
      boot_alarm = 0;
      boot_expired = false;
      pool = [];
    })

-- The button is pressed for 200 ms, and the main loop is held up before it stores the id: the alarm
-- releases the button there. Then a boot timer is started.
abbrev step : Machine log → Machine log
step m = next log m

abbrev begun : Machine log
begun = record { pc = entry (trigger 200); hal = off_hal; awaited = false }

abbrev pressed : Machine log
pressed = step (step (step begun))

abbrev stored : Machine log
stored = step (release log 1 remove pressed)

abbrev starting : Machine log
starting = record stored { pc = entry (start 30000) }

abbrev timed : Machine log
timed = step (step (step (step (step starting))))

stored-Reach : Reach log log_pool stored
unfolding hal_init entry next statement release Pending NewId
stored-Reach =
    ran
      (released 1
        (ran (ran (ran (called (trigger 200) (started off_hal (λ i c p. p)) refl) tt) tt)
          (omega arith, λ e. omega (arith, e)))
        (inl (refl, refl)))
      tt

two_is_new : ◌≢◌ {A = ℕ} 2 1
two_is_new e = omega (arith, e)

timed-Reach : Reach log log_pool timed
unfolding hal_init entry next statement release NewId behind_cancel remove
timed-Reach =
    ran
      (ran (ran (ran (ran (called (start 30000) stored-Reach refl) tt) tt) tt)
        (omega arith, two_is_new))
      tt

Reach-rest_example :
    ((timed.hal.trigger_pin ≡ true) ↔ Pending timed.hal.btn_alarm power_btn_cb timed.hal.pool)
    × ((timed.awaited ≡ true) ↔ (
        Pending timed.hal.boot_alarm boot_timer_cb timed.hal.pool
        ⊎ (timed.hal.boot_expired ≡ true)))
unfolding hal_init entry next statement release behind_cancel
Reach-rest_example = Reach-rest log_pool timed timed-Reach refl

-- The stale id is in the variable, and the pin is low.
timed_state :
    (timed.pc ≡ at_rest)
    × (timed.hal.btn_alarm ≡ 1)
    × (timed.hal.trigger_pin ≡ false)
    × (timed.hal.boot_alarm ≡ 2)
unfolding hal_init entry next statement release behind_cancel remove
timed_state = (refl, refl, refl, refl)
