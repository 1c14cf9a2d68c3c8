-- ===== src/Config/Serial/RoundTrip.antt =====
-- The blob that is written is the documented layout, and it is read back.
use mathlib.Core.List.{append_assoc}
use pad_proxy.Base.{
  drop-drop, ℕ, ◌≤◌, ◌≡◌, Bool, true, Option, some, [], ◌++◌, Bytes, length, arith, refl, take,
  drop, replicate, length-append, take-append, drop-append, take-length, ◌∙◌, ap, sym,
}
use pad_proxy.Config.{DeviceConfig, validate}
use pad_proxy.Config.Wire.{
  crc32_update, crc32_update-lt, put_u16, put_u32, get_u16, get_u32, get_u16-put_u16,
  get_u32-put_u32,
}
use pad_proxy.Config.Valid.{IsStruct, IsValid, validate_of_IsValid}
use pad_proxy.Config.Serial.{
  write_fields, serialize_into, read_payload, serialize, deserialize_from, deserialize,
  config_magic, config_version, total_size, body, image,
}

length-put_u16 : (v : ℕ) → length (put_u16 v) ≡ 2
unfolding put_u16
length-put_u16 v = refl

length-put_u32 : (v : ℕ) → length (put_u32 v) ≡ 4
unfolding put_u32
length-put_u32 v = refl

take_all : (n : ℕ) (xs : Bytes) → length xs ≡ n → take n xs ≡ xs
take_all n xs e = rw (← e) (take-length xs)

-- The fields before the checksum, grouped as the writes group them.
before_crc : DeviceConfig → Bytes
before_crc cfg =
    ((((((([] ++ put_u32 config_magic) ++ put_u16 config_version) ++ cfg.wifi_ssid)
            ++ cfg.wifi_password)
          ++ put_u16 cfg.power_pulse_ms)
        ++ put_u16 cfg.boot_timeout_ms)
      ++ cfg.device_name)

before_crc-body : (cfg : DeviceConfig) → before_crc cfg ≡ body cfg
unfolding before_crc
before_crc-body cfg = simp append_assoc

module _ {cfg : DeviceConfig} (s : IsStruct cfg) where
  length-body : length (body cfg) ≡ 140
  length-body =
      simp
        (length-append, length-put_u16, length-put_u32, s.ssid_size, s.password_size, s.name_size)

  write_fields_lem :
      (buf : Bytes)
      → write_fields cfg (record { before = []; ahead = buf })
        ≡ record { before = body cfg; ahead = drop 140 buf }
  unfolding write_fields
  write_fields_lem buf = simp (
    take_all 33 cfg.wifi_ssid s.ssid_size,
    take_all 64 cfg.wifi_password s.password_size,
    take_all 33 cfg.device_name s.name_size,
    append_assoc,
    length-put_u16,
    length-put_u32,
    s.ssid_size,
    s.password_size,
    s.name_size,
    drop-drop,
  )

  -- The buffer after a write: the image, and behind it what was there.
  serialize_into-image : (buf : Bytes) → serialize_into cfg buf ≡ image cfg ++ drop total_size buf
  unfolding serialize_into
  serialize_into-image buf = rw write_fields_lem (
      simp (
        take-append 140 (body cfg) (drop 140 (replicate total_size 0 ++ drop total_size buf))
            length-body,
        length-put_u32,
      ))

  abbrev payload_before : Bytes → Bytes
  payload_before rest =
      cfg.wifi_ssid
      ++ (cfg.wifi_password
          ++ (put_u16 cfg.power_pulse_ms
              ++ (put_u16 cfg.boot_timeout_ms ++ (cfg.device_name ++ rest))))

  read_payload-payload : (rest : Bytes) → read_payload (payload_before rest) ≡ cfg
  unfolding read_payload
  read_payload-payload rest =
      let r4 = cfg.device_name ++ rest in
      let r3 = put_u16 cfg.boot_timeout_ms ++ r4 in
      let r2 = put_u16 cfg.power_pulse_ms ++ r3 in
      let r1 = cfg.wifi_password ++ r2 in
      cc (
        take-append 33 cfg.wifi_ssid r1 s.ssid_size,
        drop-append 33 cfg.wifi_ssid r1 s.ssid_size,
        take-append 64 cfg.wifi_password r2 s.password_size,
        drop-append 64 cfg.wifi_password r2 s.password_size,
        get_u16-put_u16 cfg.power_pulse_ms r3 s.pulse_u16,
        drop-append 2 (put_u16 cfg.power_pulse_ms) r3 (length-put_u16 cfg.power_pulse_ms),
        get_u16-put_u16 cfg.boot_timeout_ms r4 s.timeout_u16,
        drop-append 2 (put_u16 cfg.boot_timeout_ms) r4 (length-put_u16 cfg.boot_timeout_ms),
        take-append 33 cfg.device_name rest s.name_size,
      )

-- What `deserialize` asks of a blob that holds `cfg`.
pub record Holds (cfg : DeviceConfig) (buf : Bytes) : Type 0 where
  pub magic : get_u32 buf ≡ config_magic
  pub version : get_u16 (drop 4 buf) ≡ config_version
  pub checksum : crc32_update 0 (take 140 buf) ≡ get_u32 (drop 140 buf)
  pub payload : read_payload (drop 2 (drop 4 buf)) ≡ cfg
  pub valid : validate (some cfg) ≡ true

pub deserialize_from-eq :
    {cfg : DeviceConfig} (out : DeviceConfig) (buf : Bytes)
    → Holds cfg buf
    → deserialize_from out buf ≡ (true, cfg)
unfolding deserialize_from
deserialize_from-eq out buf h = ground arith

pub deserialize_from-Holds :
    {cfg : DeviceConfig} (out : DeviceConfig) (buf : Bytes)
    → deserialize_from out buf ≡ (true, cfg)
    → Holds cfg buf
unfolding deserialize_from
deserialize_from-Holds out buf h = ground arith

image-Holds :
    {cfg : DeviceConfig}
    → IsStruct cfg
    → IsValid cfg
    → (rest : Bytes) → Holds cfg (image cfg ++ rest)
image-Holds {cfg} s v rest =
    let crc = crc32_update 0 (body cfg) in
    let tail = put_u32 crc ++ rest in
    let p6 = payload_before s tail in
    let p4 = put_u16 config_version ++ p6 in
    let by_body : image cfg ++ rest ≡ body cfg ++ tail =
      append_assoc (body cfg) (put_u32 crc) rest in
    let by_parts : image cfg ++ rest ≡ put_u32 config_magic ++ p4 = simp append_assoc in
    let at4 : drop 4 (image cfg ++ rest) ≡ p4 =
      ap (drop 4) by_parts
      ∙ drop-append 4 (put_u32 config_magic) p4 (length-put_u32 config_magic) in
    let at6 : drop 2 (drop 4 (image cfg ++ rest)) ≡ p6 =
      ap (drop 2) at4 ∙ drop-append 2 (put_u16 config_version) p6 (length-put_u16 config_version) in
    let at140 : drop 140 (image cfg ++ rest) ≡ tail =
      ap (drop 140) by_body ∙ drop-append 140 (body cfg) tail (length-body s) in
    let to140 : take 140 (image cfg ++ rest) ≡ body cfg =
      ap (take 140) by_body ∙ take-append 140 (body cfg) tail (length-body s) in
    record {
      magic = ap get_u32 by_parts ∙ get_u32-put_u32 config_magic p4 (omega arith);
      version = ap get_u16 at4 ∙ get_u16-put_u16 config_version p6 (omega arith);
      checksum =
          ap (crc32_update 0) to140
          ∙ sym (ap get_u32 at140 ∙ get_u32-put_u32 crc rest (crc32_update-lt 0 (body cfg)));
      payload = ap read_payload at6 ∙ read_payload-payload s tail;
      valid = validate_of_IsValid cfg v;
    }

serialize_at :
    (cfg : DeviceConfig) (buf : Bytes) (len : ℕ)
    → total_size ≤ len
    → serialize (some cfg) (some buf) len ≡ (some total_size, some (serialize_into cfg buf))
unfolding serialize
serialize_at cfg buf len h = ground arith

abbrev pub accepted_as : Bool × DeviceConfig → Bool × Option DeviceConfig
accepted_as (b, cfg) = (b, some cfg)

pub deserialize_at :
    (out : DeviceConfig) (buf : Bytes) (len : ℕ)
    → total_size ≤ len
    → deserialize (some out) (some buf) len ≡ accepted_as (deserialize_from out buf)
unfolding deserialize
deserialize_at out buf len h = ground arith

-- A valid configuration that its struct can hold is written, into any buffer of at least 144 bytes,
-- as its image in front of what the buffer held behind the first 144 bytes, with 144 returned; and
-- reading such a buffer back, at any length from 144 on, yields that configuration.
pub deserialize-serialize :
    {cfg : DeviceConfig} (out : DeviceConfig) (buf : Bytes) (len len' : ℕ)
    → IsStruct cfg
    → IsValid cfg
    → total_size ≤ len
    → total_size ≤ len'
    → (serialize (some cfg) (some buf) len
        ≡ (some total_size, some (image cfg ++ drop total_size buf)))
      × (deserialize (some out) (serialize (some cfg) (some buf) len).1 len' ≡ (true, some cfg))
deserialize-serialize {cfg} out buf len len' s v h h' =
    let behind = drop total_size buf in
    let written : serialize (some cfg) (some buf) len
        ≡ (some total_size, some (image cfg ++ behind)) =
      serialize_at cfg buf len h
      ∙ ap (λ b. (some total_size, some b)) (serialize_into-image s buf) in
    (
      written,
      rw written (
          deserialize_at out (image cfg ++ behind) len' h'
          ∙ ap accepted_as
              (deserialize_from-eq out (image cfg ++ behind) (image-Holds s v behind))),
    )
