-- ===== src/Firmware/UsbDevice/Descriptors.antt =====
-- The device and configuration descriptors of firmware/src/usb_hid_gamepad.c and the callbacks that hand
-- out descriptors. The constants and macros of the TinyUSB headers are parameters.
use pad_proxy.Base.{ℕ, ◌+◌, ◌/◌, ◌%◌, ◌<◌, ◌≡◌, ◌∷◌, ◌++◌, Bytes, length}
use pad_proxy.Gamepad.Usb.{report_descriptor}

pub record TinyUsb : Type 0 where
  pub device_desc_len : ℕ  -- sizeof(tusb_desc_device_t)
  pub desc_device_type : ℕ  -- TUSB_DESC_DEVICE
  pub class_misc : ℕ  -- TUSB_CLASS_MISC
  pub subclass_common : ℕ  -- MISC_SUBCLASS_COMMON
  pub protocol_iad : ℕ  -- MISC_PROTOCOL_IAD
  pub att_remote_wakeup : ℕ  -- TUSB_DESC_CONFIG_ATT_REMOTE_WAKEUP
  pub protocol_none : ℕ  -- HID_ITF_PROTOCOL_NONE
  pub config_desc_len : ℕ  -- TUD_CONFIG_DESC_LEN
  pub hid_desc_len : ℕ  -- TUD_HID_DESC_LEN
  pub cdc_desc_len : ℕ  -- TUD_CDC_DESC_LEN
  -- TUD_CONFIG_DESCRIPTOR, TUD_HID_DESCRIPTOR and TUD_CDC_DESCRIPTOR, with the arguments in order
  pub config_descriptor : ℕ → ℕ → ℕ → ℕ → ℕ → ℕ → Bytes
  pub hid_descriptor : ℕ → ℕ → ℕ → ℕ → ℕ → ℕ → ℕ → Bytes
  pub cdc_descriptor : ℕ → ℕ → ℕ → ℕ → ℕ → ℕ → ℕ → Bytes

-- What the code relies on: each macro yields as many bytes as its length says, and these bytes first. A
-- configuration descriptor: its own length and type, the total length and the number of interfaces. That
-- of a HID interface: the interface descriptor, and the HID descriptor as far as the length of the report
-- descriptor. That of a serial line: the association of its two interfaces, and the descriptor of the
-- first one as far as its string.
pub record Documented (t : TinyUsb) : Type 0 where
  pub config_rest : ℕ → ℕ → ℕ → ℕ → ℕ → ℕ → Bytes
  pub config_bytes :
      (num itfs str total att power : ℕ)
      → t.config_descriptor num itfs str total att power
        ≡ 9 ∷ 2 ∷ total % 256 ∷ total / 256 % 256 ∷ itfs ∷ config_rest num itfs str total att power
  pub config_len :
      (num itfs str total att power : ℕ)
      → length (t.config_descriptor num itfs str total att power) ≡ t.config_desc_len
  pub hid_sub_class : ℕ → ℕ
  pub hid_rest : ℕ → ℕ → ℕ → ℕ → ℕ → ℕ → ℕ → Bytes
  pub hid_bytes :
      (itf str boot len ep size interval : ℕ)
      → t.hid_descriptor itf str boot len ep size interval
        ≡ 9
          ∷ 4
          ∷ itf
          ∷ 0
          ∷ 1
          ∷ 3
          ∷ hid_sub_class boot
          ∷ boot
          ∷ str
          ∷ 9
          ∷ 0x21
          ∷ 0x11
          ∷ 0x01
          ∷ 0
          ∷ 1
          ∷ 0x22
          ∷ len % 256
          ∷ len / 256 % 256
          ∷ hid_rest itf str boot len ep size interval
  pub hid_len :
      (itf str boot len ep size interval : ℕ)
      → length (t.hid_descriptor itf str boot len ep size interval) ≡ t.hid_desc_len
  pub cdc_rest : ℕ → ℕ → ℕ → ℕ → ℕ → ℕ → ℕ → Bytes
  pub cdc_bytes :
      (itf str notif notif_size epout epin size : ℕ)
      → t.cdc_descriptor itf str notif notif_size epout epin size
        ≡ 8
          ∷ 0x0B
          ∷ itf
          ∷ 2
          ∷ 2
          ∷ 2
          ∷ 0
          ∷ 0
          ∷ 9
          ∷ 4
          ∷ itf
          ∷ 0
          ∷ 1
          ∷ 2
          ∷ 2
          ∷ 0
          ∷ str
          ∷ cdc_rest itf str notif notif_size epout epin size
  pub cdc_len :
      (itf str notif notif_size epout epin size : ℕ)
      → length (t.cdc_descriptor itf str notif notif_size epout epin size) ≡ t.cdc_desc_len
  pub is_u16 : t.config_desc_len + t.hid_desc_len + t.cdc_desc_len < 65536

abbrev usb_vid : ℕ
usb_vid = 0x1209

abbrev usb_pid : ℕ
usb_pid = 0x0001

abbrev pub itf_num_hid : ℕ
itf_num_hid = 0

abbrev pub itf_num_cdc : ℕ
itf_num_cdc = 1

abbrev pub itf_num_total : ℕ
itf_num_total = 3

-- `CFG_TUD_ENDPOINT0_SIZE` and `CFG_TUD_HID_EP_BUFSIZE` of tusb_config.h.
abbrev endpoint0_size : ℕ
endpoint0_size = 64

abbrev pub hid_ep_bufsize : ℕ
hid_ep_bufsize = 64

-- `USB_HID_REPORT_DESCRIPTOR_LEN`
abbrev pub report_descriptor_len : ℕ
report_descriptor_len = 91

pub record DeviceDescriptor : Type 0 where
  pub desc_len : ℕ
  pub desc_type : ℕ
  pub bcd_usb : ℕ
  pub device_class : ℕ
  pub device_sub_class : ℕ
  pub device_protocol : ℕ
  pub max_packet_size0 : ℕ
  pub id_vendor : ℕ
  pub id_product : ℕ
  pub bcd_device : ℕ
  pub manufacturer : ℕ
  pub product : ℕ
  pub serial_number : ℕ
  pub num_configurations : ℕ

module _ (t : TinyUsb) where
  abbrev desc_device : DeviceDescriptor
  desc_device = record {
    desc_len = t.device_desc_len;
    desc_type = t.desc_device_type;
    bcd_usb = 0x0200;
    device_class = t.class_misc;
    device_sub_class = t.subclass_common;
    device_protocol = t.protocol_iad;
    max_packet_size0 = endpoint0_size;
    id_vendor = usb_vid;
    id_product = usb_pid;
    bcd_device = 0x0100;
    manufacturer = 1;
    product = 2;
    serial_number = 3;
    num_configurations = 1;
  }

  abbrev pub config_total_len : ℕ
  config_total_len = t.config_desc_len + t.hid_desc_len + t.cdc_desc_len

  -- The index of the name of the serial line's interface.
  abbrev pub cdc_string : ℕ
  cdc_string = 4

  abbrev pub desc_configuration : Bytes
  desc_configuration =
      t.config_descriptor 1 itf_num_total 0 config_total_len t.att_remote_wakeup 100
      ++ (t.hid_descriptor itf_num_hid 0 t.protocol_none report_descriptor_len 0x81 hid_ep_bufsize 1
          ++ t.cdc_descriptor itf_num_cdc cdc_string 0x82 8 0x03 0x83 64)

  -- `tud_descriptor_device_cb`
  abbrev pub device_cb : DeviceDescriptor
  device_cb = desc_device

  -- `tud_descriptor_configuration_cb`
  abbrev pub configuration_cb : ℕ → Bytes
  configuration_cb index = desc_configuration

-- `tud_hid_descriptor_report_cb`
abbrev pub report_cb : ℕ → Bytes
report_cb instance_num = report_descriptor

-- `tud_hid_get_report_cb`: no report is returned.
abbrev pub get_report_cb : ℕ → ℕ → ℕ → ℕ
get_report_cb instance_num report_id reqlen = 0
