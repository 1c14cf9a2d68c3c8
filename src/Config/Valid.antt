-- ===== src/Config/Valid.antt =====
-- What a configuration must satisfy: the ranges of its C types, and the documented limits.
use pad_proxy.Base.{◌≤◌, ◌<◌, ◌≡◌, ◌≢◌, ◌↔◌, true, Option, none, some, length, get_or, arith, refl}
use pad_proxy.Config.{
  init_config, DeviceConfig, init, validate, power_pulse_min, power_pulse_max, boot_timeout_min,
  boot_timeout_max,
}

-- The values that the struct's C types can hold.
pub record IsStruct (cfg : DeviceConfig) : Type 0 where
  pub ssid_size : length cfg.wifi_ssid ≡ 33
  pub password_size : length cfg.wifi_password ≡ 64
  pub name_size : length cfg.device_name ≡ 33
  pub pulse_u16 : cfg.power_pulse_ms < 65536
  pub timeout_u16 : cfg.boot_timeout_ms < 65536

-- The documented limits of the values.
pub record IsValid (cfg : DeviceConfig) : Type 0 where
  pub pulse_min : power_pulse_min ≤ cfg.power_pulse_ms
  pub pulse_max : cfg.power_pulse_ms ≤ power_pulse_max
  pub timeout_min : boot_timeout_min ≤ cfg.boot_timeout_ms
  pub timeout_max : cfg.boot_timeout_ms ≤ boot_timeout_max
  pub named : get_or cfg.device_name 0 0 ≢ 0
  pub ssid_ends : get_or cfg.wifi_ssid 32 0 ≡ 0
  pub password_ends : get_or cfg.wifi_password 63 0 ≡ 0
  pub name_ends : get_or cfg.device_name 32 0 ≡ 0

pub validate-IsValid : (cfg : DeviceConfig) → validate (some cfg) ≡ true → IsValid cfg
unfolding validate
validate-IsValid cfg h = ground arith

pub validate_of_IsValid : (cfg : DeviceConfig) → IsValid cfg → validate (some cfg) ≡ true
unfolding validate
validate_of_IsValid cfg h = ground arith

-- `device_config_validate` returns true exactly for a pointer to a configuration within the limits.
pub validate_iff :
    (p : Option DeviceConfig)
    → (validate p ≡ true) ↔ ((cfg : DeviceConfig) × (p ≡ some cfg) × IsValid cfg)
validate_iff none = (λ h. unfold validate in cc h, λ (cfg, e, v). cc e)
validate_iff (some cfg) =
    (λ h. (cfg, refl, validate-IsValid cfg h), λ (d, e, v). rw e (validate_of_IsValid d v))

-- `device_config_init` overwrites whatever it is given by one configuration, which its struct can
-- hold and which is within the limits, and leaves a NULL pointer alone.
pub init-IsValid :
    IsStruct init_config
    × IsValid init_config
    × ((cfg : DeviceConfig) → init (some cfg) ≡ some init_config)
    × (init none ≡ none)
unfolding init
init-IsValid = (omega arith, ground arith, λ cfg. refl, refl)
