-- ===== src/Config/Serial.antt =====
-- `device_config_serialize` and `device_config_deserialize` of firmware/src/device_config.c, and the
-- layout of the blob as a plain concatenation.
pub mod RoundTrip
pub mod Accepts
use pad_proxy.Base.{
  ℕ, ◌+◌, Bool, true, false, Option, none, some, [], ◌++◌, Bytes, length, replicate, take, drop,
  ltb, ◌==◌, not, if◌then◌else◌,
}
use pad_proxy.Config.{
  DeviceConfig, zeroed, validate, wifi_ssid_max, wifi_password_max, device_name_max,
}
use pad_proxy.Config.Wire.{crc32_update, put_u16, put_u32, get_u16, get_u32}

abbrev pub config_magic : ℕ
config_magic = 0x50434647

abbrev pub config_version : ℕ
config_version = 1

abbrev pub header_size : ℕ
header_size = 6

abbrev pub crc_size : ℕ
crc_size = 4

abbrev pub payload_size : ℕ
payload_size = wifi_ssid_max + 1 + (wifi_password_max + 1) + 2 + 2 + (device_name_max + 1)

abbrev pub total_size : ℕ
total_size = header_size + payload_size + crc_size

-- A buffer split at the pointer `p`: what stands before it, and what stands from it on.
record Cursor : Type 0 where
  before : Bytes
  ahead : Bytes

-- A write of some bytes at `p`, and `p` moved behind them.
abbrev write : Cursor → Bytes → Cursor
write c bs = record { before = c.before ++ bs; ahead = drop (length bs) c.ahead }

-- The writes before the checksum, in order. `memcpy` of n bytes reads the n bytes of the array.
write_fields : DeviceConfig → Cursor → Cursor
write_fields cfg c0 =
    let c1 = write c0 (put_u32 config_magic) in
    let c2 = write c1 (put_u16 config_version) in
    let c3 = write c2 (take (wifi_ssid_max + 1) cfg.wifi_ssid) in
    let c4 = write c3 (take (wifi_password_max + 1) cfg.wifi_password) in
    let c5 = write c4 (put_u16 cfg.power_pulse_ms) in
    let c6 = write c5 (put_u16 cfg.boot_timeout_ms) in
    write c6 (take (device_name_max + 1) cfg.device_name)

serialize_into : DeviceConfig → Bytes → Bytes
serialize_into cfg buf =
    let cleared = replicate total_size 0 ++ drop total_size buf in
    let c = write_fields cfg (record { before = []; ahead = cleared }) in
    let crc = crc32_update 0 (take (header_size + payload_size) (c.before ++ c.ahead)) in
    let done = write c (put_u32 crc) in done.before ++ done.ahead

-- The result is `none` for -1; beside it stands the buffer after the call.
unfoldable pub serialize : Option DeviceConfig → Option Bytes → ℕ → Option ℕ × Option Bytes
unfolding serialize_into write_fields
serialize none buf len = (none, buf)
serialize (some cfg) none len = (none, none)
serialize (some cfg) (some buf) len =
    if ltb len total_size
    then (none, some buf)
    else (some total_size, some (serialize_into cfg buf))

-- The copies into `tmp`, with `p` at the payload.
pub read_payload : Bytes → DeviceConfig
unfolding zeroed
read_payload p =
    let p1 = drop (wifi_ssid_max + 1) p in
    let p2 = drop (wifi_password_max + 1) p1 in
    let p3 = drop 2 p2 in
    let p4 = drop 2 p3 in
    record zeroed {
      wifi_ssid = take (wifi_ssid_max + 1) p;
      wifi_password = take (wifi_password_max + 1) p1;
      power_pulse_ms = get_u16 p2;
      boot_timeout_ms = get_u16 p3;
      device_name = take (device_name_max + 1) p4;
    }

pub deserialize_from : DeviceConfig → Bytes → Bool × DeviceConfig
deserialize_from cfg buf =
    let p = drop 4 buf in
    let payload = drop 2 p in
    let expected_crc = get_u32 (drop (header_size + payload_size) buf) in
    let actual_crc = crc32_update 0 (take (header_size + payload_size) buf) in
    let tmp = read_payload payload in
    if not (get_u32 buf == config_magic)
    then (false, cfg)
    else if not (get_u16 p == config_version)
    then (false, cfg)
    else if not (actual_crc == expected_crc)
    then (false, cfg)
    else if not (validate (some tmp))
    then (false, cfg)
    else (true, tmp)

-- The result, and what the output pointer then holds.
unfoldable pub deserialize : Option DeviceConfig → Option Bytes → ℕ → Bool × Option DeviceConfig
unfolding deserialize_from read_payload
deserialize none buf len = (false, none)
deserialize (some cfg) none len = (false, some cfg)
deserialize (some cfg) (some buf) len =
    if ltb len total_size
    then (false, some cfg)
    else (let (accepted, cfg') = deserialize_from cfg buf in (accepted, some cfg'))

-- The layout: header, payload and checksum, one behind the other.
abbrev pub body : DeviceConfig → Bytes
body cfg =
    put_u32 config_magic
    ++ (put_u16 config_version
        ++ (cfg.wifi_ssid
            ++ (cfg.wifi_password
                ++ (put_u16 cfg.power_pulse_ms
                    ++ (put_u16 cfg.boot_timeout_ms ++ cfg.device_name)))))

abbrev pub image : DeviceConfig → Bytes
image cfg = body cfg ++ put_u32 (crc32_update 0 (body cfg))
