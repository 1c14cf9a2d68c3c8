-- ===== src/Config/Serial/Accepts.antt =====
-- What `deserialize` accepts, and what it leaves alone.
use mathlib.Core.Path.{subst}
use pad_proxy.Base.{
  ℕ, ◌-◌, ◌≤◌, ◌<◌, ◌≡◌, Bool, true, false, Option, some, ◌++◌, Bytes, IsBytes, length, arith, take,
  drop, length-take, length-drop, take-add, drop-drop, All-drop, ◌∙◌, ap, sym,
}
use pad_proxy.Config.{DeviceConfig}
use pad_proxy.Config.Wire.{
  crc32_update, put_u16, put_u32, put_u16-get_u16, put_u32-get_u32, get_u16-lt,
}
use pad_proxy.Config.Valid.{IsStruct, IsValid, validate-IsValid}
use pad_proxy.Config.Serial.{
  read_payload, deserialize_from, deserialize, config_magic, config_version, total_size, body,
  image,
}
use pad_proxy.Config.Serial.RoundTrip.{Holds, deserialize_from-Holds, accepted_as, deserialize_at}

-- The pieces of the payload as slices of the buffer.
abbrev slice : ℕ → ℕ → Bytes → Bytes
slice from size buf = take size (drop from buf)

payload_IsStruct : (p : Bytes) → 134 ≤ length p → IsStruct (read_payload p)
unfolding read_payload
payload_IsStruct p l = record {
  ssid_size = length-take 33 p (omega arith);
  password_size = length-take 64 (drop 33 p) (omega (arith, length-drop 33 p));
  name_size =
      length-take 33 (drop 2 (drop 2 (drop 64 (drop 33 p))))
        (simp (drop-drop, length-drop) (omega arith));
  pulse_u16 = get_u16-lt _;
  timeout_u16 = get_u16-lt _;
}

payload_bytes :
    (p : Bytes)
    → IsBytes p
    → 134 ≤ length p
    → let cfg = read_payload p in
      cfg.wifi_ssid
        ++ (cfg.wifi_password
            ++ (put_u16 cfg.power_pulse_ms ++ (put_u16 cfg.boot_timeout_ms ++ cfg.device_name)))
      ≡ take 134 p
unfolding read_payload
payload_bytes p b l =
    let p1 = drop 33 p in
    let p2 = drop 64 p1 in
    let p3 = drop 2 p2 in
    let b2 = All-drop (λ x. x < 256) 64 p1 (All-drop (λ x. x < 256) 33 p b) in
    let b3 = All-drop (λ x. x < 256) 2 p2 b2 in
    let l2 : length p2 ≡ length p - 97 = simp (drop-drop, length-drop) in
    let l3 : length p3 ≡ length p - 99 = simp (drop-drop, length-drop) in
    cc (
      take-add 33 101 p,
      take-add 64 37 p1,
      take-add 2 35 p2,
      take-add 2 33 p3,
      put_u16-get_u16 p2 b2 (omega arith),
      put_u16-get_u16 p3 b3 (omega arith),
    )

module _ {cfg : DeviceConfig} (buf : Bytes) (b : IsBytes buf) (l : total_size ≤ length buf)
    (h : Holds cfg buf) where
  Holds-body : body cfg ≡ take 140 buf
  Holds-body =
      let p4 = drop 4 buf in
      let p6 = drop 2 p4 in
      let b4 = All-drop (λ x. x < 256) 4 buf b in
      let b6 = All-drop (λ x. x < 256) 2 p4 b4 in
      let l4 : length p4 ≡ length buf - 4 = length-drop 4 buf in
      let l6 : length p6 ≡ length buf - 6 = simp (drop-drop, length-drop) in
      let payload = payload_bytes p6 b6 (omega arith) in
      let magic : put_u32 config_magic ≡ take 4 buf =
        ap put_u32 (sym h.magic) ∙ put_u32-get_u32 buf b (omega arith) in
      let version : put_u16 config_version ≡ take 2 p4 =
        ap put_u16 (sym h.version) ∙ put_u16-get_u16 p4 b4 (omega arith) in
      cc (take-add 4 136 buf, take-add 2 134 p4, magic, version, payload, h.payload)

  Holds-image : image cfg ≡ take total_size buf
  Holds-image =
      let tail = drop 140 buf in
      let bt = All-drop (λ x. x < 256) 140 buf b in
      let lt : length tail ≡ length buf - 140 = length-drop 140 buf in
      let crc : put_u32 (crc32_update 0 (body cfg)) ≡ take 4 tail =
        ap (λ t. put_u32 (crc32_update 0 t)) Holds-body
        ∙ ap put_u32 h.checksum
        ∙ put_u32-get_u32 tail bt (omega arith) in
      cc (take-add 140 4 buf, Holds-body, crc)

  Holds-IsStruct : IsStruct cfg
  Holds-IsStruct =
      let l6 : length (drop 2 (drop 4 buf)) ≡ length buf - 6 = simp (drop-drop, length-drop) in
      subst IsStruct h.payload (payload_IsStruct (drop 2 (drop 4 buf)) (omega arith))

deserialize-le :
    {cfg : DeviceConfig} (out : DeviceConfig) (buf : Bytes) (len : ℕ)
    → deserialize (some out) (some buf) len ≡ (true, some cfg)
    → total_size ≤ len
unfolding deserialize
deserialize-le out buf len e = ground arith

accepted_as-eq :
    {cfg : DeviceConfig} (r : Bool × DeviceConfig)
    → accepted_as r ≡ (true, some cfg)
    → r ≡ (true, cfg)
accepted_as-eq r e = ground arith

-- A blob that is accepted is, up to its length of 144 bytes, the image of the configuration that is
-- read from it, and that configuration fits its struct and is within the limits: no other blob of
-- bytes of the stated length is accepted.
pub deserialize_accepts :
    {cfg : DeviceConfig} (out : DeviceConfig) (buf : Bytes) (len : ℕ)
    → IsBytes buf
    → length buf ≡ len
    → deserialize (some out) (some buf) len ≡ (true, some cfg)
    → (take total_size buf ≡ image cfg) × IsStruct cfg × IsValid cfg × (total_size ≤ len)
deserialize_accepts out buf len b l e =
    let long = deserialize-le out buf len e in
    let from =
      accepted_as-eq (deserialize_from out buf) (sym (deserialize_at out buf len long) ∙ e) in
    let h = deserialize_from-Holds out buf from in
    let long' : total_size ≤ length buf = omega arith in
    (
      sym (Holds-image buf b long' h),
      Holds-IsStruct buf b long' h,
      validate-IsValid _ h.valid,
      long,
    )

-- Where reading a blob fails, for NULL pointers too, the output pointer holds what it held.
pub deserialize_failed :
    (out : Option DeviceConfig) (buf : Option Bytes) (len : ℕ)
    → (deserialize out buf len).0 ≡ false
    → (deserialize out buf len).1 ≡ out
unfolding deserialize
deserialize_failed out buf len h = ground arith
