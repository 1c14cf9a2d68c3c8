-- ===== src/Setup/Bounds.antt =====
-- No answer of the setup commands is longer than the output buffer.
use pad_proxy.Base.{
  length-take_le, ℕ, zero, suc, ◌-◌, ◌≤◌, Bool, true, false, ◌||◌, Option, none, some, [], ◌∷◌,
  Bytes, length, take, ltb, ◌==◌, if◌then◌else◌, arith,
}
use pad_proxy.Config.{
  DeviceConfig, wifi_ssid_max, wifi_password_max, device_name_max, power_pulse_min, power_pulse_max,
  boot_timeout_min, boot_timeout_max,
}
use pad_proxy.Setup.Text.{ascii, is_same, skip_ws, strip_end, split_space, parse_u16}
use pad_proxy.Setup.Output.{list_text, cmd_list-take}
use pad_proxy.Setup.{
  Texts, buf_max, ConfigKey, key_wifi_ssid, key_wifi_password, key_power_pulse_ms,
  key_boot_timeout_ms, key_device_name, key_unknown, find_key, cmd_get, number_in, cmd_set,
  cmd_list, SetupResult, is_unknown, run_get, set_split, run_set, arg_of, run_command, run_trimmed,
  process_line, setup_process,
}

abbrev Fits : ℕ → Bytes × DeviceConfig → Type 0
Fits room r = length r.0 ≤ room

abbrev AnswerFits : ℕ → SetupResult × DeviceConfig → Type 0
AnswerFits room r = length r.0.out ≤ room

-- Both branches of a test.
both : {A : Type 0} (P : A → Type 0) (b : Bool) (x y : A) → P x → P y → P (if b then x else y)
both P true x y h k = h
both P false x y h k = k

cut : {room : ℕ} (text : Bytes) → length (take room text) ≤ room
cut {room} text = length-take_le room text

cmd_get-Fits :
    (key : ConfigKey) (cfg : DeviceConfig) (room : ℕ) → length (cmd_get key cfg room) ≤ room
unfolding cmd_get
cmd_get-Fits key_wifi_ssid cfg room = cut _
cmd_get-Fits key_wifi_password cfg room = cut _
cmd_get-Fits key_power_pulse_ms cfg room = cut _
cmd_get-Fits key_boot_timeout_ms cfg room = cut _
cmd_get-Fits key_device_name cfg room = cut _
cmd_get-Fits key_unknown cfg room = cut _

number_in-Fits :
    (low high : ℕ) (v : Option ℕ) (store : ℕ → DeviceConfig) (cfg : DeviceConfig) (room : ℕ)
    → Fits room (number_in low high v store cfg room)
number_in-Fits low high none store cfg room = cut _
number_in-Fits low high (some v) store cfg room =
    both (Fits room) (ltb v low || ltb high v) _ _ (cut _) (cut _)

cmd_set-Fits :
    (key : ConfigKey) (value : Bytes) (cfg : DeviceConfig) (room : ℕ)
    → Fits room (cmd_set key value cfg room)
unfolding cmd_set
cmd_set-Fits key_wifi_ssid value cfg room =
    both (Fits room) (ltb wifi_ssid_max (length value)) _ _ (cut _) (cut _)
cmd_set-Fits key_wifi_password value cfg room =
    both (Fits room) (ltb wifi_password_max (length value)) _ _ (cut _) (cut _)
cmd_set-Fits key_power_pulse_ms value cfg room =
    number_in-Fits power_pulse_min power_pulse_max (parse_u16 value) _ cfg room
cmd_set-Fits key_boot_timeout_ms value cfg room =
    number_in-Fits boot_timeout_min boot_timeout_max (parse_u16 value) _ cfg room
cmd_set-Fits key_device_name value cfg room =
    both (Fits room) (length value == 0) _ _ (cut _)
      (both (Fits room) (ltb device_name_max (length value)) _ _ (cut _) (cut _))
cmd_set-Fits key_unknown value cfg room = cut _

run_get-Fits :
    (arg : Option Bytes) (cfg : DeviceConfig) (room : ℕ) → length (run_get arg cfg room) ≤ room
unfolding run_get
run_get-Fits none cfg room = cut _
run_get-Fits (some []) cfg room = cut _
run_get-Fits (some (c ∷ cs)) cfg room =
    both (λ (text : Bytes). length text ≤ room) (is_unknown (find_key (c ∷ cs))) _ _ (cut _)
      (cmd_get-Fits (find_key (c ∷ cs)) cfg room)

set_split-Fits :
    (args : Bytes × Option Bytes) (cfg : DeviceConfig) (room : ℕ)
    → Fits room (set_split args cfg room)
unfolding set_split
set_split-Fits (name, none) cfg room = cut _
set_split-Fits (name, some behind) cfg room =
    both (Fits room) (is_unknown (find_key name)) _ _ (cut _)
      (cmd_set-Fits (find_key name) (skip_ws behind) cfg room)

run_set-Fits :
    (arg : Option Bytes) (cfg : DeviceConfig) (room : ℕ) → Fits room (run_set arg cfg room)
unfolding run_set
run_set-Fits none cfg room = cut _
run_set-Fits (some []) cfg room = cut _
run_set-Fits (some (c ∷ cs)) cfg room = set_split-Fits (split_space (c ∷ cs)) cfg room

cmd_list-Fits : (cfg : DeviceConfig) (room : ℕ) → length (cmd_list cfg room) ≤ room
cmd_list-Fits cfg room = rw (cmd_list-take cfg room) (cut (list_text cfg))

run_command-Fits :
    (texts : Texts) (cmd : Bytes) (arg : Option Bytes) (cfg : DeviceConfig) (room : ℕ)
    → AnswerFits room (run_command texts cmd arg cfg room)
unfolding run_command
run_command-Fits texts cmd arg cfg room =
    let test = both (AnswerFits room) in
    test (is_same cmd (ascii "get")) _ _ (run_get-Fits arg cfg room) (
      test (is_same cmd (ascii "set")) _ _ (run_set-Fits arg cfg room) (
        test (is_same cmd (ascii "list")) _ _ (cmd_list-Fits cfg room) (
          test (is_same cmd (ascii "save")) _ _ (cut _) (
            test (is_same cmd (ascii "defaults")) _ _ (cut _) (
              test (is_same cmd (ascii "version")) _ _ (cut _) (
                test (is_same cmd (ascii "status")) _ _ (cut _)
                  (test (is_same cmd (ascii "reboot")) _ _ (cut _) (cut _))))))))

run_trimmed-Fits :
    (texts : Texts) (line : Bytes) (cfg : DeviceConfig) (room : ℕ)
    → AnswerFits room (run_trimmed texts line cfg room)
unfolding run_trimmed
run_trimmed-Fits texts [] cfg room = omega arith
run_trimmed-Fits texts (c ∷ cs) cfg room =
    let (cmd, behind) = split_space (c ∷ cs) in run_command-Fits texts cmd (arg_of behind) cfg room

-- Whatever pointers are NULL, whatever line is read and whatever the configuration holds, the answer
-- leaves room for the NUL in the output buffer: its length is at most one less than the buffer's size,
-- and 0 for a buffer of size 0.
pub length-setup_process :
    (texts : Texts) (line : Option Bytes) (cfg : Option DeviceConfig) (has_out : Bool)
    (out_size : ℕ)
    → length (setup_process texts line cfg has_out out_size).0.out ≤ out_size - 1
unfolding setup_process process_line
length-setup_process texts none cfg has_out out_size = omega arith
length-setup_process texts (some line) none has_out out_size = omega arith
length-setup_process texts (some line) (some cfg) false out_size = omega arith
length-setup_process texts (some line) (some cfg) true zero = omega arith
length-setup_process texts (some line) (some cfg) true (suc room) =
    omega (arith, run_trimmed-Fits texts (strip_end (take buf_max (skip_ws line))) cfg room)
