-- ===== src/Firmware/UsbDevice/Tests.antt =====
-- The descriptors with the bytes that the macros of TinyUSB document, and blanks behind them.
use pad_proxy.Base.{◌/◌, ◌%◌, refl, [], ◌∷◌, replicate, bit_or, arith}
use pad_proxy.Firmware.UsbDevice.Descriptors.{TinyUsb, Documented, configuration_cb, report_cb}
use pad_proxy.Firmware.UsbDevice.Host.{Consistent, configuration_cb-Consistent}

abbrev tiny_usb : TinyUsb
tiny_usb = record {
  device_desc_len = 18;
  desc_device_type = 1;
  class_misc = 0xEF;
  subclass_common = 2;
  protocol_iad = 1;
  att_remote_wakeup = 0x20;
  protocol_none = 0;
  config_desc_len = 9;
  hid_desc_len = 25;
  cdc_desc_len = 66;
  config_descriptor = λ num itfs str total att power.
      9 ∷ 2 ∷ total % 256 ∷ total / 256 % 256 ∷ itfs ∷ num ∷ str ∷ bit_or 0x80 att ∷ power / 2 ∷ [];
  hid_descriptor = λ itf str boot len ep size interval.
      9
      ∷ 4
      ∷ itf
      ∷ 0
      ∷ 1
      ∷ 3
      ∷ 0
      ∷ boot
      ∷ str
      ∷ 9
      ∷ 0x21
      ∷ 0x11
      ∷ 0x01
      ∷ 0
      ∷ 1
      ∷ 0x22
      ∷ len % 256
      ∷ len / 256 % 256
      ∷ replicate 7 0;
  cdc_descriptor = λ itf str notif notif_size epout epin size.
      8 ∷ 0x0B ∷ itf ∷ 2 ∷ 2 ∷ 2 ∷ 0 ∷ 0 ∷ 9 ∷ 4 ∷ itf ∷ 0 ∷ 1 ∷ 2 ∷ 2 ∷ 0 ∷ str ∷ replicate 49 0;
}

tiny_usb-Documented : Documented tiny_usb
tiny_usb-Documented = record {
  config_rest = λ num itfs str total att power. num ∷ str ∷ bit_or 0x80 att ∷ power / 2 ∷ [];
  config_bytes = λ num itfs str total att power. refl;
  config_len = λ num itfs str total att power. refl;
  hid_sub_class = λ boot. 0;
  hid_rest = λ itf str boot len ep size interval. replicate 7 0;
  hid_bytes = λ itf str boot len ep size interval. refl;
  hid_len = λ itf str boot len ep size interval. refl;
  cdc_rest = λ itf str notif notif_size epout epin size. replicate 49 0;
  cdc_bytes = λ itf str notif notif_size epout epin size. refl;
  cdc_len = λ itf str notif notif_size epout epin size. refl;
  is_u16 = omega arith;
}

configuration_cb-Consistent_example :
    Consistent tiny_usb (configuration_cb tiny_usb 0) (report_cb 0) (replicate 32 0)
configuration_cb-Consistent_example =
    configuration_cb-Consistent tiny_usb 0 0 (replicate 32 0) tiny_usb-Documented
