-- ===== src/Setup/Output.antt =====
-- The answers of the setup commands: they fit the buffer, and show what was set.
use pad_proxy.Base.{
  take-append-take, ℕ, zero, suc, ◌+◌, ◌-◌, ◌≤◌, ◌≡◌, ◌≢◌, refl, ap, ◌∙◌, false, [], ◌∷◌, ◌++◌,
  Bytes, length, set, take, drop, replicate, ltb, ◌==◌, arith,
}
use pad_proxy.Config.{DeviceConfig, strncpy}
use pad_proxy.Ota.Version.{decimal}
use pad_proxy.Setup.Text.{ascii, c_string}
use pad_proxy.Setup.Strings.{IsCString}
use pad_proxy.Setup.{
  newline, key_wifi_ssid, key_device_name, cmd_get, copied, cmd_set, then_printf, cmd_list,
}

first_printf : (room : ℕ) (b : Bytes) → then_printf room [] b ≡ take room b
first_printf room b = ap (λ n. take n b) (let e : room - 0 ≡ room = omega arith in e)

then_printf-take : (room : ℕ) (a b : Bytes) → then_printf room (take room a) b ≡ take room (a ++ b)
then_printf-take room a b = take-append-take room a b

-- The whole list of settings.
abbrev pub list_text : DeviceConfig → Bytes
list_text cfg =
    ((((ascii "OK wifi_ssid=" ++ c_string cfg.wifi_ssid ++ newline)
          ++ (ascii "OK wifi_password=********" ++ newline))
        ++ (ascii "OK power_pulse_ms=" ++ decimal cfg.power_pulse_ms ++ newline))
      ++ (ascii "OK boot_timeout_ms=" ++ decimal cfg.boot_timeout_ms ++ newline))
    ++ (ascii "OK device_name=" ++ c_string cfg.device_name ++ newline)

add_printf :
    (room : ℕ) (more x y : Bytes)
    → x ≡ take room y
    → then_printf room x more ≡ take room (y ++ more)
add_printf room more x y h = ap (λ t. then_printf room t more) h ∙ then_printf-take room y more

five_printfs :
    (room : ℕ) (a b c d e : Bytes)
    → then_printf room
        (then_printf room (then_printf room (then_printf room (then_printf room [] a) b) c) d)
        e
      ≡ take room ((((a ++ b) ++ c) ++ d) ++ e)
five_printfs room a b c d e =
    add_printf room e _ _
      (add_printf room d _ _ (add_printf room c _ _ (add_printf room b _ a (first_printf room a))))

-- The five separate writes of `list` give the list of all settings, each on a line, cut to what fits
-- the buffer: each write starts where the one before it ended.
pub cmd_list-take : (cfg : DeviceConfig) (room : ℕ) → cmd_list cfg room ≡ take room (list_text cfg)
unfolding cmd_list
cmd_list-take cfg room =
    five_printfs room (ascii "OK wifi_ssid=" ++ c_string cfg.wifi_ssid ++ newline)
      (ascii "OK wifi_password=********" ++ newline)
      (ascii "OK power_pulse_ms=" ++ decimal cfg.power_pulse_ms ++ newline)
      (ascii "OK boot_timeout_ms=" ++ decimal cfg.boot_timeout_ms ++ newline)
      (ascii "OK device_name=" ++ c_string cfg.device_name ++ newline)

c_string-set :
    (n k : ℕ) (value tail : Bytes)
    → IsCString value
    → length value ≤ n
    → n ≤ length value + k
    → c_string (set (take n (value ++ replicate k 0) ++ tail) n 0) ≡ value
c_string-set zero k [] [] h short long = refl
c_string-set zero k [] (t ∷ ts) h short long = refl
c_string-set (suc n) zero [] tail h short long = absurd (omega arith)
c_string-set (suc n) (suc k) [] tail h short long = refl
c_string-set zero k (c ∷ cs) tail h short long = absurd (omega arith)
c_string-set (suc n) k (c ∷ cs) tail h short long =
    simp (c_string-set n k cs tail h.1 (omega arith) (omega arith)) (ground (arith, h.0))

c_string-copied :
    (dst value : Bytes)
    → IsCString value
    → length value ≤ 32
    → c_string (copied dst value 32) ≡ value
unfolding strncpy
c_string-copied dst value h short = c_string-set 32 32 value (drop 32 dst) h short (omega arith)

cmd_set-wifi_ssid :
    (value : Bytes) (cfg : DeviceConfig) (room : ℕ)
    → ltb 32 (length value) ≡ false
    → (cmd_set key_wifi_ssid value cfg room).1.wifi_ssid ≡ copied cfg.wifi_ssid value 32
unfolding cmd_set
cmd_set-wifi_ssid value cfg room e = simp e

cmd_set-device_name :
    (value : Bytes) (cfg : DeviceConfig) (room : ℕ)
    → (length value == 0) ≡ false
    → ltb 32 (length value) ≡ false
    → (cmd_set key_device_name value cfg room).1.device_name ≡ copied cfg.device_name value 32
unfolding cmd_set
cmd_set-device_name value cfg room n e = simp (n, e)

pub length-nonempty : (s : Bytes) → s ≢ [] → (length s == 0) ≡ false
length-nonempty [] h = absurd (h refl)
length-nonempty (c ∷ cs) h = ground arith

-- A network name, or a device name, that is set and fits is what `get` then shows.
pub cmd_get-cmd_set :
    (value : Bytes) (cfg : DeviceConfig) (room : ℕ)
    → IsCString value
    → length value ≤ 32
    → (cmd_get key_wifi_ssid (cmd_set key_wifi_ssid value cfg room).1 room
        ≡ take room (ascii "OK " ++ value ++ newline))
      × (value ≢ []
          → cmd_get key_device_name (cmd_set key_device_name value cfg room).1 room
            ≡ take room (ascii "OK " ++ value ++ newline))
unfolding cmd_get
cmd_get-cmd_set value cfg room h short =
    let fits : ltb 32 (length value) ≡ false = ground (arith, short) in
    let shown = λ (s : Bytes). take room (ascii "OK " ++ s ++ newline) in
    (
      ap (λ s. take room (ascii "OK " ++ c_string s ++ newline))
            (cmd_set-wifi_ssid value cfg room fits)
          ∙ ap shown (c_string-copied cfg.wifi_ssid value h short),
      λ some_bytes.
          ap (λ s. take room (ascii "OK " ++ c_string s ++ newline))
            (cmd_set-device_name value cfg room (length-nonempty value some_bytes) fits)
          ∙ ap shown (c_string-copied cfg.device_name value h short),
    )
