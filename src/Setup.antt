-- ===== src/Setup.antt =====
-- The setup commands of the serial line: firmware/src/setup_cmd.c. `room` is one less than the size of
-- the output buffer, which `setup_cmd_process` requires to be positive; an output is the text that the
-- buffer then holds before its NUL, and its length is `out_len`.
pub mod Text
pub mod Strings
pub mod Laws
pub mod Hidden
pub mod Output
pub mod Bounds
pub mod Lines
pub mod Values
mod Tests
use pad_proxy.Base.{
  ℕ, zero, suc, ◌+◌, ◌-◌, ◌<◌, ◌≡◌, refl, Bool, true, false, not, ◌&&◌, ◌||◌, Option, none, some,
  List, [], ◌∷◌, ◌++◌, Bytes, length, set, take, ltb, leb, ◌==◌, if◌then◌else◌,
}
use pad_proxy.Config.{
  DeviceConfig, init_config, strncpy, wifi_ssid_max, wifi_password_max, device_name_max,
  power_pulse_min, power_pulse_max, boot_timeout_min, boot_timeout_max,
}
use pad_proxy.Ota.Version.{decimal}
use pad_proxy.Setup.Text.{ascii, c_string, is_same, skip_ws, strip_end, split_space, parse_u16}

pub data SetupAction : Type 0 where
  no_action save reboot : SetupAction

-- `s_version` and `s_status`.
pub record Texts : Type 0 where
  pub version : Bytes
  pub status : Bytes

pub set_version : Option Bytes → Texts → Texts
set_version none t = record t { version = ascii "0.0.0" }
set_version (some s) t = record t { version = s }

pub set_status : Option Bytes → Texts → Texts
set_status none t = record t { status = [] }
set_status (some s) t = record t { status = s }

-- What `vsnprintf` leaves of the formatted text.
abbrev pub out_printf : ℕ → Bytes → Bytes
out_printf room text = take room text

pub data ConfigKey : Type 0 where
  key_wifi_ssid key_wifi_password key_power_pulse_ms key_boot_timeout_ms key_device_name : ConfigKey
  key_unknown : ConfigKey

abbrev pub key_names : List (Bytes × ConfigKey)
key_names =
    (ascii "wifi_ssid", key_wifi_ssid)
    ∷ (ascii "wifi_password", key_wifi_password)
    ∷ (ascii "power_pulse_ms", key_power_pulse_ms)
    ∷ (ascii "boot_timeout_ms", key_boot_timeout_ms)
    ∷ (ascii "device_name", key_device_name)
    ∷ []

abbrev pub find_in : Bytes → List (Bytes × ConfigKey) → ConfigKey
find_in name [] = key_unknown
find_in name ((key_name, key) ∷ keys) =
    let later = find_in name keys in if is_same name key_name then key else later

unfoldable pub find_key : Bytes → ConfigKey
find_key name = find_in name key_names

abbrev pub newline : Bytes
newline = 10 ∷ []

abbrev pub ok : Bytes
ok = ascii "OK" ++ newline

unfoldable pub cmd_get : ConfigKey → DeviceConfig → ℕ → Bytes
cmd_get key_wifi_ssid cfg room = out_printf room (ascii "OK " ++ c_string cfg.wifi_ssid ++ newline)
cmd_get key_wifi_password cfg room = out_printf room (ascii "OK ********" ++ newline)
cmd_get key_power_pulse_ms cfg room =
    out_printf room (ascii "OK " ++ decimal cfg.power_pulse_ms ++ newline)
cmd_get key_boot_timeout_ms cfg room =
    out_printf room (ascii "OK " ++ decimal cfg.boot_timeout_ms ++ newline)
cmd_get key_device_name cfg room =
    out_printf room (ascii "OK " ++ c_string cfg.device_name ++ newline)
cmd_get key_unknown cfg room = out_printf room (ascii "ERR unknown key" ++ newline)

abbrev pub too_long : ℕ → Bytes
too_long max = ascii "ERR value too long (max " ++ decimal max ++ ascii ")" ++ newline

abbrev pub out_of_range : ℕ → ℕ → Bytes
out_of_range low high =
    ascii "ERR out of range (" ++ decimal low ++ ascii "-" ++ decimal high ++ ascii ")" ++ newline

-- `strncpy` of at most `max` bytes, and the NUL behind them.
abbrev pub copied : Bytes → Bytes → ℕ → Bytes
copied dst value max = set (strncpy dst value max) max 0

-- A number that is parsed and lies in the range, or the error text.
abbrev pub number_in :
    ℕ → ℕ → Option ℕ → (ℕ → DeviceConfig) → DeviceConfig → ℕ → Bytes × DeviceConfig
number_in low high none store cfg room =
    (out_printf room (ascii "ERR invalid number" ++ newline), cfg)
number_in low high (some v) store cfg room =
    if ltb v low || ltb high v
    then (out_printf room (out_of_range low high), cfg)
    else (out_printf room ok, store v)

unfoldable pub cmd_set : ConfigKey → Bytes → DeviceConfig → ℕ → Bytes × DeviceConfig
cmd_set key_wifi_ssid value cfg room =
    if ltb wifi_ssid_max (length value)
    then (out_printf room (too_long wifi_ssid_max), cfg)
    else (out_printf room ok, record cfg { wifi_ssid = copied cfg.wifi_ssid value wifi_ssid_max })
cmd_set key_wifi_password value cfg room =
    if ltb wifi_password_max (length value)
    then (out_printf room (too_long wifi_password_max), cfg)
    else (
      out_printf room ok,
      record cfg { wifi_password = copied cfg.wifi_password value wifi_password_max },
    )
cmd_set key_power_pulse_ms value cfg room =
    number_in power_pulse_min power_pulse_max (parse_u16 value)
      (λ v. record cfg { power_pulse_ms = v }) cfg room
cmd_set key_boot_timeout_ms value cfg room =
    number_in boot_timeout_min boot_timeout_max (parse_u16 value)
      (λ v. record cfg { boot_timeout_ms = v }) cfg room
cmd_set key_device_name value cfg room =
    if length value == 0
    then (out_printf room (ascii "ERR device name cannot be empty" ++ newline), cfg)
    else if ltb device_name_max (length value)
    then (out_printf room (too_long device_name_max), cfg)
    else (
      out_printf room ok,
      record cfg { device_name = copied cfg.device_name value device_name_max },
    )
cmd_set key_unknown value cfg room = (out_printf room (ascii "ERR unknown key" ++ newline), cfg)

-- One `out_printf(out + total, size - total, …)` of `cmd_list`, behind what is already there.
abbrev pub then_printf : ℕ → Bytes → Bytes → Bytes
then_printf room out text = out ++ out_printf (room - length out) text

unfoldable pub cmd_list : DeviceConfig → ℕ → Bytes
cmd_list cfg room =
    let out1 = then_printf room [] (ascii "OK wifi_ssid=" ++ c_string cfg.wifi_ssid ++ newline) in
    let out2 = then_printf room out1 (ascii "OK wifi_password=********" ++ newline) in
    let out3 =
      then_printf room out2 (ascii "OK power_pulse_ms=" ++ decimal cfg.power_pulse_ms ++ newline) in
    let out4 =
      then_printf room out3
        (ascii "OK boot_timeout_ms=" ++ decimal cfg.boot_timeout_ms ++ newline) in
    then_printf room out4 (ascii "OK device_name=" ++ c_string cfg.device_name ++ newline)

-- The result, with the text that the buffer holds; the length of the text is `out_len`.
pub record SetupResult : Type 0 where
  pub action : SetupAction
  pub out : Bytes

abbrev pub answer : Bytes → SetupResult
answer text = record { action = no_action; out = text }

abbrev pub is_unknown : ConfigKey → Bool
is_unknown key_unknown = true
is_unknown _ = false

abbrev pub unknown_key : ℕ → Bytes → Bytes
unknown_key room name = out_printf room (ascii "ERR unknown key: " ++ name ++ newline)

abbrev pub usage_get : Bytes
usage_get = ascii "ERR usage: get <key>" ++ newline

abbrev pub usage_set : Bytes
usage_set = ascii "ERR usage: set <key> <value>" ++ newline

-- The branch "get", with `arg` or NULL.
unfoldable pub run_get : Option Bytes → DeviceConfig → ℕ → Bytes
run_get none cfg room = out_printf room usage_get
run_get (some []) cfg room = out_printf room usage_get
run_get (some (c ∷ cs)) cfg room =
    let key = find_key (c ∷ cs) in
    if is_unknown key then unknown_key room (c ∷ cs) else cmd_get key cfg room

-- The branch "set" behind the split of `arg`.
unfoldable pub set_split : Bytes × Option Bytes → DeviceConfig → ℕ → Bytes × DeviceConfig
set_split (name, none) cfg room = (out_printf room usage_set, cfg)
set_split (name, some behind) cfg room =
    let key = find_key name in
    if is_unknown key then (unknown_key room name, cfg) else cmd_set key (skip_ws behind) cfg room

unfoldable pub run_set : Option Bytes → DeviceConfig → ℕ → Bytes × DeviceConfig
run_set none cfg room = (out_printf room usage_set, cfg)
run_set (some []) cfg room = (out_printf room usage_set, cfg)
run_set (some (c ∷ cs)) cfg room = set_split (split_space (c ∷ cs)) cfg room

abbrev pub arg_of : Option Bytes → Option Bytes
arg_of none = none
arg_of (some behind) = some (skip_ws behind)

-- The chain of `strcmp(cmd, …)`.
unfoldable pub run_command :
    Texts → Bytes → Option Bytes → DeviceConfig → ℕ → SetupResult × DeviceConfig
run_command texts cmd arg cfg room =
    if is_same cmd (ascii "get")
    then (answer (run_get arg cfg room), cfg)
    else if is_same cmd (ascii "set")
    then (let (out, cfg') = run_set arg cfg room in (answer out, cfg'))
    else if is_same cmd (ascii "list")
    then (answer (cmd_list cfg room), cfg)
    else if is_same cmd (ascii "save")
    then (record { action = save; out = out_printf room ok }, cfg)
    else if is_same cmd (ascii "defaults")
    then (answer (out_printf room ok), init_config)
    else if is_same cmd (ascii "version")
    then (answer (out_printf room (ascii "OK " ++ texts.version ++ newline)), cfg)
    else if is_same cmd (ascii "status")
    then (answer (out_printf room (ascii "OK " ++ texts.status ++ newline)), cfg)
    else if is_same cmd (ascii "reboot")
    then (record { action = reboot; out = out_printf room ok }, cfg)
    else (answer (out_printf room (ascii "ERR unknown command: " ++ cmd ++ newline)), cfg)

-- The most that `buf` holds of a line.
abbrev pub buf_max : ℕ
buf_max = 255

run_trimmed : Texts → Bytes → DeviceConfig → ℕ → SetupResult × DeviceConfig
run_trimmed texts [] cfg room = (answer [], cfg)
run_trimmed texts (c ∷ cs) cfg room =
    let (cmd, behind) = split_space (c ∷ cs) in run_command texts cmd (arg_of behind) cfg room

pub process_line : Texts → Bytes → DeviceConfig → ℕ → SetupResult × DeviceConfig
process_line texts line cfg room =
    run_trimmed texts (strip_end (take buf_max (skip_ws line))) cfg room

-- `setup_cmd_process`, with whether `out_buf` is not NULL; beside the result what `cfg` points to.
unfoldable pub setup_process :
    Texts → Option Bytes → Option DeviceConfig → Bool → ℕ → SetupResult × Option DeviceConfig
unfolding process_line run_trimmed
setup_process texts none cfg has_out out_size = (answer [], cfg)
setup_process texts (some line) none has_out out_size = (answer [], none)
setup_process texts (some line) (some cfg) false out_size = (answer [], some cfg)
setup_process texts (some line) (some cfg) true zero = (answer [], some cfg)
setup_process texts (some line) (some cfg) true (suc room) =
    let (r, cfg') = process_line texts line cfg room in (r, some cfg')
