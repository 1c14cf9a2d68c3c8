-- ===== src/Setup/Laws.antt =====
-- What every setup command keeps.
use pad_proxy.Base.{
  Option, some, none, zero, suc, refl, [], ◌∷◌, take, Bool, true, false, inl, inr, ℕ, ◌≤◌, ◌≡◌, ◌≢◌,
  ◌||◌, Bool-cases, Bytes, length, set, get_or, ltb, ◌==◌, if◌then◌else◌, arith,
}
use pad_proxy.Config.{
  DeviceConfig, strncpy, wifi_ssid_max, wifi_password_max, device_name_max, power_pulse_min,
  power_pulse_max, boot_timeout_min, boot_timeout_max,
}
use pad_proxy.Config.Valid.{init-IsValid, IsValid}
use pad_proxy.Setup.Strings.{
  IsCString, IsArg, skip_ws-IsCString, take-IsCString, strip_end-IsCString, split_space-IsCString,
}
use pad_proxy.Setup.Text.{ascii, is_same, split_space, strip_end, skip_ws, parse_u16}
use pad_proxy.Setup.{
  arg_of, buf_max, is_unknown, set_split, run_set, run_command, run_trimmed, process_line,
  setup_process, find_key, Texts, ok, out_of_range, out_printf, ConfigKey, key_wifi_ssid,
  key_wifi_password, key_power_pulse_ms, key_boot_timeout_ms, key_device_name, key_unknown, copied,
  number_in, cmd_set,
}

get_or-set_zero : (xs : Bytes) (i : ℕ) → get_or (set xs i 0) i 0 ≡ 0
get_or-set_zero [] i = refl
get_or-set_zero (x ∷ xs) zero = refl
get_or-set_zero (x ∷ xs) (suc i) = get_or-set_zero xs i

if-IsValid :
    {A : Type 0} (b : Bool) (x y : A × DeviceConfig)
    → IsValid x.1
    → (b ≡ false → IsValid y.1)
    → let r : A × DeviceConfig = if b then x else y in IsValid r.1
if-IsValid true x y h f = h
if-IsValid false x y h f = f refl

number_in-IsValid :
    (low high : ℕ) (v : Option ℕ) (store : ℕ → DeviceConfig) (cfg : DeviceConfig) (room : ℕ)
    → ((n : ℕ) → low ≤ n → n ≤ high → IsValid (store n))
    → IsValid cfg
    → IsValid (number_in low high v store cfg room).1
number_in-IsValid low high none store cfg room stores h = h
number_in-IsValid low high (some v) store cfg room stores h =
    if-IsValid (ltb v low || ltb high v) (out_printf room (out_of_range low high), cfg)
      (out_printf room ok, store v) h (λ e. stores v (ground (arith, e)) (ground (arith, e)))

-- A copied name starts as the value does.
copied-named :
    (dst value : Bytes)
    → (length value == 0) ≡ false
    → IsCString value
    → get_or (copied dst value 32) 0 0 ≢ 0
unfolding strncpy
copied-named dst [] some_bytes h = absurd (cc some_bytes)
copied-named dst (c ∷ cs) some_bytes h = h.0

cmd_set-IsValid :
    (key : ConfigKey) (value : Bytes) (cfg : DeviceConfig) (room : ℕ)
    → IsCString value
    → IsValid cfg
    → IsValid (cmd_set key value cfg room).1
unfolding cmd_set
cmd_set-IsValid key_wifi_ssid value cfg room s h =
    if-IsValid (ltb wifi_ssid_max (length value)) _ _ h (λ e. record {
      pulse_min = h.pulse_min;
      pulse_max = h.pulse_max;
      timeout_min = h.timeout_min;
      timeout_max = h.timeout_max;
      named = h.named;
      password_ends = h.password_ends;
      name_ends = h.name_ends;
      ssid_ends = get_or-set_zero (strncpy cfg.wifi_ssid value wifi_ssid_max) 32;
    })
cmd_set-IsValid key_wifi_password value cfg room s h =
    if-IsValid (ltb wifi_password_max (length value)) _ _ h (λ e. record {
      pulse_min = h.pulse_min;
      pulse_max = h.pulse_max;
      timeout_min = h.timeout_min;
      timeout_max = h.timeout_max;
      named = h.named;
      ssid_ends = h.ssid_ends;
      name_ends = h.name_ends;
      password_ends = get_or-set_zero (strncpy cfg.wifi_password value wifi_password_max) 63;
    })
cmd_set-IsValid key_power_pulse_ms value cfg room s h =
    number_in-IsValid power_pulse_min power_pulse_max (parse_u16 value)
      (λ v. record cfg { power_pulse_ms = v }) cfg room
      (λ n low high. record {
        pulse_min = low;
        pulse_max = high;
        timeout_min = h.timeout_min;
        timeout_max = h.timeout_max;
        named = h.named;
        ssid_ends = h.ssid_ends;
        password_ends = h.password_ends;
        name_ends = h.name_ends;
      })
      h
cmd_set-IsValid key_boot_timeout_ms value cfg room s h =
    number_in-IsValid boot_timeout_min boot_timeout_max (parse_u16 value)
      (λ v. record cfg { boot_timeout_ms = v }) cfg room
      (λ n low high. record {
        pulse_min = h.pulse_min;
        pulse_max = h.pulse_max;
        timeout_min = low;
        timeout_max = high;
        named = h.named;
        ssid_ends = h.ssid_ends;
        password_ends = h.password_ends;
        name_ends = h.name_ends;
      })
      h
cmd_set-IsValid key_device_name value cfg room s h = elim (Bool-cases (length value == 0)) [
  | inl e ↦ rw e h
  | inr e ↦ rw e (
      if-IsValid (ltb device_name_max (length value)) _ _ h (λ _. record {
        pulse_min = h.pulse_min;
        pulse_max = h.pulse_max;
        timeout_min = h.timeout_min;
        timeout_max = h.timeout_max;
        named = copied-named cfg.device_name value e s;
        ssid_ends = h.ssid_ends;
        password_ends = h.password_ends;
        name_ends = get_or-set_zero (strncpy cfg.device_name value device_name_max) 32;
      }))
]
cmd_set-IsValid key_unknown value cfg room s h = h

set_split-IsValid :
    (args : Bytes × Option Bytes) (cfg : DeviceConfig) (room : ℕ)
    → IsArg args.1
    → IsValid cfg
    → IsValid (set_split args cfg room).1
unfolding set_split
set_split-IsValid (name, none) cfg room s h = h
set_split-IsValid (name, some behind) cfg room s h =
    if-IsValid (is_unknown (find_key name)) _ _ h (λ _.
      cmd_set-IsValid (find_key name) (skip_ws behind) cfg room (skip_ws-IsCString behind s) h)

run_set-IsValid :
    (arg : Option Bytes) (cfg : DeviceConfig) (room : ℕ)
    → IsArg arg
    → IsValid cfg
    → IsValid (run_set arg cfg room).1
unfolding run_set
run_set-IsValid none cfg room s h = h
run_set-IsValid (some []) cfg room s h = h
run_set-IsValid (some (c ∷ cs)) cfg room s h =
    set_split-IsValid (split_space (c ∷ cs)) cfg room (split_space-IsCString (c ∷ cs) s) h

run_command-IsValid :
    (texts : Texts) (cmd : Bytes) (arg : Option Bytes) (cfg : DeviceConfig) (room : ℕ)
    → IsArg arg
    → IsValid cfg
    → IsValid (run_command texts cmd arg cfg room).1
unfolding run_command
run_command-IsValid texts cmd arg cfg room s h = if-IsValid (is_same cmd (ascii "get")) _ _ h (λ _.
    if-IsValid (is_same cmd (ascii "set")) _ _ (run_set-IsValid arg cfg room s h) (λ _.
      if-IsValid (is_same cmd (ascii "list")) _ _ h (λ _.
        if-IsValid (is_same cmd (ascii "save")) _ _ h (λ _.
          if-IsValid (is_same cmd (ascii "defaults")) _ _ init-IsValid.1 (λ _.
            if-IsValid (is_same cmd (ascii "version")) _ _ h (λ _.
              if-IsValid (is_same cmd (ascii "status")) _ _ h
                (λ _. if-IsValid (is_same cmd (ascii "reboot")) _ _ h (λ _. h))))))))

arg_of-IsCString : (behind : Option Bytes) → IsArg behind → IsArg (arg_of behind)
arg_of-IsCString none h = h
arg_of-IsCString (some s) h = skip_ws-IsCString s h

run_trimmed-IsValid :
    (texts : Texts) (line : Bytes) (cfg : DeviceConfig) (room : ℕ)
    → IsCString line
    → IsValid cfg
    → IsValid (run_trimmed texts line cfg room).1
unfolding run_trimmed
run_trimmed-IsValid texts [] cfg room s h = h
run_trimmed-IsValid texts (c ∷ cs) cfg room s h =
    let (cmd, behind) = split_space (c ∷ cs) in
    run_command-IsValid texts cmd (arg_of behind) cfg room
      (arg_of-IsCString behind (split_space-IsCString (c ∷ cs) s)) h

pub process_line-IsValid :
    (texts : Texts) (line : Bytes) (cfg : DeviceConfig) (room : ℕ)
    → IsCString line
    → IsValid cfg
    → IsValid (process_line texts line cfg room).1
unfolding process_line
process_line-IsValid texts line cfg room s h =
    let trimmed = strip_end (take buf_max (skip_ws line)) in
    run_trimmed-IsValid texts trimmed cfg room
      (strip_end-IsCString _ (take-IsCString buf_max _ (skip_ws-IsCString line s))) h

-- Whatever line is read, of any length and content up to its NUL, and whatever the size of the output
-- buffer, a valid configuration is valid after the command.
pub setup_process-IsValid :
    (texts : Texts) (line : Bytes) (cfg : DeviceConfig) (has_out : Bool) (out_size : ℕ)
    → IsCString line
    → IsValid cfg
    → (cfg' : DeviceConfig) × ((setup_process texts (some line) (some cfg) has_out out_size).1
        ≡ some cfg')
      × IsValid cfg'
unfolding setup_process
setup_process-IsValid texts line cfg false out_size s h = (cfg, refl, h)
setup_process-IsValid texts line cfg true zero s h = (cfg, refl, h)
setup_process-IsValid texts line cfg true (suc room) s h =
    ((process_line texts line cfg room).1, refl, process_line-IsValid texts line cfg room s h)
