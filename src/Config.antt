-- ===== src/Config.antt =====
-- The device configuration: firmware/src/device_config.c and firmware/include/device_config.h.
-- A `char` array is the list of its bytes; a pointer that the code tests for NULL is an `Option`.
-- The checksum and the byte order are in Config/Wire, the blob in Config/Serial.
pub mod Wire
pub mod Serial
pub mod Valid
mod Tests
use pad_proxy.Base.{
  ℕ, ◌-◌, Bool, true, false, ◌||◌, Option, none, some, List, [], ◌∷◌, ◌++◌, Bytes, length, get_or,
  set, replicate, take, drop, ltb, ◌==◌, not, if◌then◌else◌,
}

abbrev pub wifi_ssid_max : ℕ
wifi_ssid_max = 32

abbrev pub wifi_password_max : ℕ
wifi_password_max = 63

abbrev pub device_name_max : ℕ
device_name_max = 32

abbrev pub default_power_pulse_ms : ℕ
default_power_pulse_ms = 200

abbrev pub default_boot_timeout_ms : ℕ
default_boot_timeout_ms = 30000

-- "PadProxy"
abbrev pub default_device_name : Bytes
default_device_name = b'P' ∷ b'a' ∷ b'd' ∷ b'P' ∷ b'r' ∷ b'o' ∷ b'x' ∷ b'y' ∷ []

abbrev pub power_pulse_min : ℕ
power_pulse_min = 50

abbrev pub power_pulse_max : ℕ
power_pulse_max = 2000

abbrev pub boot_timeout_min : ℕ
boot_timeout_min = 5000

abbrev pub boot_timeout_max : ℕ
boot_timeout_max = 60000

pub record DeviceConfig : Type 0 where
  pub wifi_ssid : Bytes  -- char[33]
  pub wifi_password : Bytes  -- char[64]
  pub power_pulse_ms : ℕ  -- uint16_t
  pub boot_timeout_ms : ℕ  -- uint16_t
  pub device_name : Bytes  -- char[33]

-- `strncpy(dst, src, n)`: at most n bytes of the string, then zeros up to n; what lies behind stays.
unfoldable pub strncpy : Bytes → Bytes → ℕ → Bytes
strncpy dst src n = take n (src ++ replicate n 0) ++ drop n dst

-- `memset` of the struct, then the defaults.
unfoldable pub zeroed : DeviceConfig
zeroed = record {
  wifi_ssid = replicate 33 0;
  wifi_password = replicate 64 0;
  power_pulse_ms = 0;
  boot_timeout_ms = 0;
  device_name = replicate 33 0;
}

unfoldable pub init_config : DeviceConfig
unfolding zeroed strncpy
init_config = record zeroed {
  power_pulse_ms = default_power_pulse_ms;
  boot_timeout_ms = default_boot_timeout_ms;
  device_name =
      set (strncpy zeroed.device_name default_device_name device_name_max) device_name_max 0;
}

unfoldable pub init : Option DeviceConfig → Option DeviceConfig
unfolding init_config
init none = none
init (some cfg) = some init_config

-- The tests of `device_config_validate` behind its test for NULL.
validate_config : DeviceConfig → Bool
validate_config cfg =
    if ltb cfg.power_pulse_ms power_pulse_min || ltb power_pulse_max cfg.power_pulse_ms
    then false
    else if ltb cfg.boot_timeout_ms boot_timeout_min || ltb boot_timeout_max cfg.boot_timeout_ms
    then false
    else if get_or cfg.device_name 0 0 == 0
    then false
    else if not (get_or cfg.wifi_ssid wifi_ssid_max 0 == 0)
    then false
    else if not (get_or cfg.wifi_password wifi_password_max 0 == 0)
    then false
    else if not (get_or cfg.device_name device_name_max 0 == 0)
    then false
    else true

unfoldable pub validate : Option DeviceConfig → Bool
unfolding validate_config
validate none = false
validate (some cfg) = validate_config cfg
