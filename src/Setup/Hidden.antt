-- ===== src/Setup/Hidden.antt =====
-- What the answers tell of the WiFi password.
use pad_proxy.Base.{
  ap₂, ℕ, ◌≡◌, refl, ap, ◌∙◌, Bool, true, false, ◌||◌, Option, none, some, List, [], ◌∷◌, Bytes,
  length, ltb, ◌==◌, if◌then◌else◌,
}
use pad_proxy.Config.{DeviceConfig, init_config, wifi_ssid_max, wifi_password_max, device_name_max}
use pad_proxy.Setup.Text.{ascii, is_same, skip_ws, split_space, parse_u16}
use pad_proxy.Setup.{
  Texts, ConfigKey, key_wifi_ssid, key_wifi_password, key_power_pulse_ms, key_boot_timeout_ms,
  key_device_name, key_unknown, find_key, cmd_get, number_in, cmd_set, cmd_list, SetupResult,
  answer, is_unknown, run_get, set_split, run_set, arg_of, run_command, run_trimmed, process_line,
}

abbrev pub with_password : Bytes → DeviceConfig → DeviceConfig
with_password p cfg = record cfg { wifi_password = p }

-- Two answers are the same, and the configurations behind them but for the password.
abbrev Alike : {A : Type 0} → A × DeviceConfig → A × DeviceConfig → Type 0
Alike r s = (r.0 ≡ s.0) × ((q : Bytes) × (r.1 ≡ with_password q s.1))

if-Alike :
    {A : Type 0} (b : Bool) (x y u v : A × DeviceConfig)
    → Alike x u
    → Alike y v
    → Alike (if b then x else y) (if b then u else v)
if-Alike true x y u v h k = h
if-Alike false x y u v h k = k

number_in-Alike :
    (low high : ℕ) (v : Option ℕ) (f g : ℕ → DeviceConfig) (p : Bytes) (cfg : DeviceConfig)
    (room : ℕ)
    → ((n : ℕ) → f n ≡ with_password p (g n))
    → Alike (number_in low high v f (with_password p cfg) room) (number_in low high v g cfg room)
number_in-Alike low high none f g p cfg room h = (refl, (p, refl))
number_in-Alike low high (some v) f g p cfg room h =
    if-Alike (ltb v low || ltb high v) _ _ _ _ (refl, (p, refl)) (refl, (p, h v))

cmd_set-Alike :
    (key : ConfigKey) (value p : Bytes) (cfg : DeviceConfig) (room : ℕ)
    → Alike (cmd_set key value (with_password p cfg) room) (cmd_set key value cfg room)
unfolding cmd_set
cmd_set-Alike key_wifi_ssid value p cfg room =
    if-Alike (ltb wifi_ssid_max (length value)) _ _ _ _ (refl, (p, refl)) (refl, (p, refl))
cmd_set-Alike key_wifi_password value p cfg room =
    if-Alike (ltb wifi_password_max (length value)) _ _ _ _ (refl, (p, refl)) (refl, (_, refl))
cmd_set-Alike key_power_pulse_ms value p cfg room =
    number_in-Alike _ _ (parse_u16 value) _ _ p cfg room (λ n. refl)
cmd_set-Alike key_boot_timeout_ms value p cfg room =
    number_in-Alike _ _ (parse_u16 value) _ _ p cfg room (λ n. refl)
cmd_set-Alike key_device_name value p cfg room =
    if-Alike (length value == 0) _ _ _ _ (refl, (p, refl))
      (if-Alike (ltb device_name_max (length value)) _ _ _ _ (refl, (p, refl)) (refl, (p, refl)))
cmd_set-Alike key_unknown value p cfg room = (refl, (p, refl))

set_split-Alike :
    (args : Bytes × Option Bytes) (p : Bytes) (cfg : DeviceConfig) (room : ℕ)
    → Alike (set_split args (with_password p cfg) room) (set_split args cfg room)
unfolding set_split
set_split-Alike (name, none) p cfg room = (refl, (p, refl))
set_split-Alike (name, some behind) p cfg room =
    if-Alike (is_unknown (find_key name)) _ _ _ _ (refl, (p, refl))
      (cmd_set-Alike (find_key name) (skip_ws behind) p cfg room)

run_set-Alike :
    (arg : Option Bytes) (p : Bytes) (cfg : DeviceConfig) (room : ℕ)
    → Alike (run_set arg (with_password p cfg) room) (run_set arg cfg room)
unfolding run_set
run_set-Alike none p cfg room = (refl, (p, refl))
run_set-Alike (some []) p cfg room = (refl, (p, refl))
run_set-Alike (some (c ∷ cs)) p cfg room = set_split-Alike (split_space (c ∷ cs)) p cfg room

cmd_get-password :
    (key : ConfigKey) (p : Bytes) (cfg : DeviceConfig) (room : ℕ)
    → cmd_get key (with_password p cfg) room ≡ cmd_get key cfg room
unfolding cmd_get
cmd_get-password key_wifi_ssid p cfg room = refl
cmd_get-password key_wifi_password p cfg room = refl
cmd_get-password key_power_pulse_ms p cfg room = refl
cmd_get-password key_boot_timeout_ms p cfg room = refl
cmd_get-password key_device_name p cfg room = refl
cmd_get-password key_unknown p cfg room = refl

run_get-password :
    (arg : Option Bytes) (p : Bytes) (cfg : DeviceConfig) (room : ℕ)
    → run_get arg (with_password p cfg) room ≡ run_get arg cfg room
unfolding run_get
run_get-password none p cfg room = refl
run_get-password (some []) p cfg room = refl
run_get-password (some (c ∷ cs)) p cfg room = rw (cmd_get-password (find_key (c ∷ cs)) p cfg room)

run_command-Alike :
    (texts : Texts) (cmd : Bytes) (arg : Option Bytes) (p : Bytes) (cfg : DeviceConfig) (room : ℕ)
    → Alike
        (run_command texts cmd arg (with_password p cfg) room)
        (run_command texts cmd arg cfg room)
unfolding run_command cmd_list
run_command-Alike texts cmd arg p cfg room =
    let (out, kept) = run_set-Alike arg p cfg room in
    if-Alike (is_same cmd (ascii "get")) _ _ _ _
      (ap answer (run_get-password arg p cfg room), (p, refl))
      (if-Alike (is_same cmd (ascii "set")) _ _ _ _ (ap answer out, kept)
        (if-Alike (is_same cmd (ascii "list")) _ _ _ _ (refl, (p, refl))
          (if-Alike (is_same cmd (ascii "save")) _ _ _ _ (refl, (p, refl))
            (if-Alike (is_same cmd (ascii "defaults")) _ _ _ _
              (refl, (init_config.wifi_password, refl))
              (if-Alike (is_same cmd (ascii "version")) _ _ _ _ (refl, (p, refl))
                (if-Alike (is_same cmd (ascii "status")) _ _ _ _ (refl, (p, refl))
                  (if-Alike (is_same cmd (ascii "reboot")) _ _ _ _ (refl, (p, refl))
                    (refl, (p, refl)))))))))

run_trimmed-Alike :
    (texts : Texts) (line p : Bytes) (cfg : DeviceConfig) (room : ℕ)
    → Alike (run_trimmed texts line (with_password p cfg) room) (run_trimmed texts line cfg room)
unfolding run_trimmed
run_trimmed-Alike texts [] p cfg room = (refl, (p, refl))
run_trimmed-Alike texts (c ∷ cs) p cfg room =
    let (cmd, behind) = split_space (c ∷ cs) in
    run_command-Alike texts cmd (arg_of behind) p cfg room

process_line-Alike :
    (texts : Texts) (line p : Bytes) (cfg : DeviceConfig) (room : ℕ)
    → Alike (process_line texts line (with_password p cfg) room) (process_line texts line cfg room)
unfolding process_line
process_line-Alike texts line p cfg room = run_trimmed-Alike texts _ p cfg room

-- The answers to a list of lines, each with the status text of its moment.
unfoldable pub session : List (Texts × Bytes) → DeviceConfig → ℕ → List SetupResult
session [] cfg room = []
session ((texts, line) ∷ lines) cfg room =
    let (r, cfg') = process_line texts line cfg room in r ∷ session lines cfg' room

-- Over any sequence of setup lines the answers are the same whatever the stored WiFi password is: no
-- command shows it, or anything that depends on it.
pub session-with_password :
    (lines : List (Texts × Bytes)) (p : Bytes) (cfg : DeviceConfig) (room : ℕ)
    → session lines (with_password p cfg) room ≡ session lines cfg room
unfolding session
session-with_password [] p cfg room = refl
session-with_password ((texts, line) ∷ lines) p cfg room =
    let (same, (q, kept)) = process_line-Alike texts line p cfg room in
    let cfg' = (process_line texts line cfg room).1 in
    ap₂ (λ x xs. x ∷ xs) same
      (ap (λ c. session lines c room) kept ∙ session-with_password lines q cfg' room)
