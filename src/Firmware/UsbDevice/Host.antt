-- ===== src/Firmware/UsbDevice/Host.antt =====
-- What a USB host reads in the descriptors of firmware/src/usb_hid_gamepad.c.
use pad_proxy.Base.{
  ℕ, ◌+◌, ◌*◌, ◌/◌, ◌%◌, ◌≡◌, refl, sym, ap, ◌∙◌, true, [], ◌∷◌, ◌++◌, Bytes, All, List, length,
  length-append, drop, drop-append, get_or, arith,
}
use pad_proxy.Gamepad.Usb.Descriptor.{length-report_descriptor}
use pad_proxy.Firmware.UsbDevice.Strings.{string_cb}
use pad_proxy.Firmware.UsbDevice.Descriptors.{
  TinyUsb, Documented, itf_num_hid, itf_num_cdc, itf_num_total, hid_ep_bufsize,
  report_descriptor_len, config_total_len, cdc_string, desc_configuration, device_cb,
  configuration_cb, report_cb,
}

-- The total length and the number of interfaces that a configuration descriptor states.
abbrev total_field : Bytes → ℕ
total_field d = get_or d 2 0 + 256 * get_or d 3 0

abbrev interfaces_field : Bytes → ℕ
interfaces_field d = get_or d 4 0

-- The part of the configuration descriptor for the game controller: its interface, and the length that
-- it gives for the report descriptor.
abbrev hid_part : TinyUsb → Bytes → Bytes
hid_part t d = drop t.config_desc_len d

abbrev hid_interface : Bytes → ℕ
hid_interface d = get_or d 2 0

abbrev report_length_field : Bytes → ℕ
report_length_field d = get_or d 16 0 + 256 * get_or d 17 0

-- The part for the serial line: its first interface, their number, and the string of the first one.
abbrev cdc_part : TinyUsb → Bytes → Bytes
cdc_part t d = drop t.hid_desc_len (hid_part t d)

abbrev first_interface : Bytes → ℕ
first_interface d = get_or d 2 0

abbrev interface_count : Bytes → ℕ
interface_count d = get_or d 3 0

abbrev string_field : Bytes → ℕ
string_field d = get_or d 16 0

-- The strings that the descriptors name.
abbrev named_strings : TinyUsb → Bytes → List ℕ
named_strings t d =
    let device = device_cb t in
    device.manufacturer ∷ device.product ∷ device.serial_number ∷ string_field (cdc_part t d) ∷ []

-- What the host learns from the bytes `d` of the configuration descriptor, with the report descriptor
-- `report` and the answers to the requests for strings: the bytes state their own length; the interfaces
-- are numbered from 0, the game controller's first and the serial line's behind it, as many as stated; the
-- stated length of the report descriptor is that of `report`; and each string that is named is answered.
pub record Consistent (t : TinyUsb) (d report : Bytes) (buf : List ℕ) : Type 0 where
  pub total : total_field d ≡ length d
  pub hid_first : hid_interface (hid_part t d) ≡ 0
  pub cdc_next : first_interface (cdc_part t d) ≡ hid_interface (hid_part t d) + 1
  pub interfaces :
      first_interface (cdc_part t d) + interface_count (cdc_part t d) ≡ interfaces_field d
  pub report_length : report_length_field (hid_part t d) ≡ length report
  pub strings : All (λ i. (string_cb i buf).0 ≡ true) (named_strings t d)

module _ (t : TinyUsb) (h : Documented t) where
  abbrev config_part : Bytes
  config_part = t.config_descriptor 1 itf_num_total 0 (config_total_len t) t.att_remote_wakeup 100

  abbrev hid_bytes_of : Bytes
  hid_bytes_of =
      t.hid_descriptor itf_num_hid 0 t.protocol_none report_descriptor_len 0x81 hid_ep_bufsize 1

  abbrev cdc_bytes_of : Bytes
  cdc_bytes_of = t.cdc_descriptor itf_num_cdc (cdc_string t) 0x82 8 0x03 0x83 64

  config_part-length : length config_part ≡ t.config_desc_len
  config_part-length = h.config_len 1 itf_num_total 0 (config_total_len t) t.att_remote_wakeup 100

  hid_bytes_of-length : length hid_bytes_of ≡ t.hid_desc_len
  hid_bytes_of-length =
      h.hid_len itf_num_hid 0 t.protocol_none report_descriptor_len 0x81 hid_ep_bufsize 1

  length-desc_configuration : length (desc_configuration t) ≡ config_total_len t
  length-desc_configuration = omega (
    arith,
    length-append config_part (hid_bytes_of ++ cdc_bytes_of),
    length-append hid_bytes_of cdc_bytes_of,
    config_part-length,
    hid_bytes_of-length,
    h.cdc_len itf_num_cdc (cdc_string t) 0x82 8 0x03 0x83 64,
  )

  hid_part-bytes : hid_part t (desc_configuration t) ≡ hid_bytes_of ++ cdc_bytes_of
  hid_part-bytes =
      drop-append t.config_desc_len config_part (hid_bytes_of ++ cdc_bytes_of) config_part-length

  cdc_part-bytes : cdc_part t (desc_configuration t) ≡ cdc_bytes_of
  cdc_part-bytes =
      ap (drop t.hid_desc_len) hid_part-bytes
      ∙ drop-append t.hid_desc_len hid_bytes_of cdc_bytes_of hid_bytes_of-length

  -- A field of the part for the game controller, and one of that for the serial line.
  hid_field :
      (f : Bytes → ℕ)
      → f (hid_part t (desc_configuration t))
        ≡ f (
            9
            ∷ 4
            ∷ itf_num_hid
            ∷ 0
            ∷ 1
            ∷ 3
            ∷ h.hid_sub_class t.protocol_none
            ∷ t.protocol_none
            ∷ 0
            ∷ 9
            ∷ 0x21
            ∷ 0x11
            ∷ 0x01
            ∷ 0
            ∷ 1
            ∷ 0x22
            ∷ report_descriptor_len % 256
            ∷ report_descriptor_len / 256 % 256
            ∷ (h.hid_rest itf_num_hid 0 t.protocol_none report_descriptor_len 0x81 hid_ep_bufsize 1
                ++ cdc_bytes_of))
  hid_field f = ap f (
      hid_part-bytes
      ∙ ap (λ x. x ++ cdc_bytes_of)
          (h.hid_bytes itf_num_hid 0 t.protocol_none report_descriptor_len 0x81 hid_ep_bufsize 1))

  cdc_field :
      (f : Bytes → ℕ)
      → f (cdc_part t (desc_configuration t))
        ≡ f (
            8
            ∷ 0x0B
            ∷ itf_num_cdc
            ∷ 2
            ∷ 2
            ∷ 2
            ∷ 0
            ∷ 0
            ∷ 9
            ∷ 4
            ∷ itf_num_cdc
            ∷ 0
            ∷ 1
            ∷ 2
            ∷ 2
            ∷ 0
            ∷ cdc_string t
            ∷ h.cdc_rest itf_num_cdc (cdc_string t) 0x82 8 0x03 0x83 64)
  cdc_field f = ap f (cdc_part-bytes ∙ h.cdc_bytes itf_num_cdc (cdc_string t) 0x82 8 0x03 0x83 64)

  cdc_string_answered :
      (buf : List ℕ) → (string_cb (string_field (cdc_part t (desc_configuration t))) buf).0 ≡ true
  unfolding string_cb
  cdc_string_answered buf = ap (λ i. (string_cb i buf).0) (cdc_field string_field)

-- If the macros of TinyUSB yield the bytes that they document: what a host reads in the answers to its
-- requests for descriptors is consistent. The configuration descriptor states its own length, interfaces
-- 0 to 2 with the controller's first, and the length of the report descriptor that is handed out; and each
-- string that it or the device descriptor names is answered.
pub configuration_cb-Consistent :
    (t : TinyUsb) (index instance_num : ℕ) (buf : List ℕ)
    → Documented t
    → Consistent t (configuration_cb t index) (report_cb instance_num) buf
unfolding string_cb
configuration_cb-Consistent t index instance_num buf h =
    let bytes = h.config_bytes 1 itf_num_total 0 (config_total_len t) t.att_remote_wakeup 100 in
    let behind = hid_bytes_of t h ++ cdc_bytes_of t h in
    let len = length-desc_configuration t h in
    let small = h.is_u16 in
    let hid = hid_field t h hid_interface in
    let first = cdc_field t h first_interface in
    let count = cdc_field t h interface_count in
    record {
      total = ap (λ c. total_field (c ++ behind)) bytes ∙ omega (arith, len, small);
      hid_first = hid;
      cdc_next = omega (arith, hid, first);
      interfaces =
          omega (arith, first, count) ∙ sym (ap (λ c. interfaces_field (c ++ behind)) bytes);
      report_length = hid_field t h report_length_field ∙ sym length-report_descriptor;
      strings = (refl, (refl, (refl, (cdc_string_answered t h buf, tt))));
    }
