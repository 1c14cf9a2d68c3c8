-- ===== src/Setup/Values.antt =====
-- Values that lines set and then show: numbers and names.
use pad_proxy.Base.{
  ℕ, ◌+◌, ◌≤◌, ◌<◌, ◌≡◌, ◌≢◌, ◌⊎◌, refl, ap, ◌∙◌, true, false, ◌||◌, some, [], ◌∷◌, ◌++◌, Bytes,
  length, length-append, take, ltb, arith,
}
use pad_proxy.Config.{
  DeviceConfig, power_pulse_min, power_pulse_max, boot_timeout_min, boot_timeout_max,
}
use pad_proxy.Ota.Version.{decimal}
use pad_proxy.Ota.Version.Decimal.{length-decimal, digits-decimal, decimal-IsNumber}
use pad_proxy.Setup.Text.{ascii, parse_u16}
use pad_proxy.Setup.Text.Numbers.{IsNumber, parse_u16-IsNumber}
use pad_proxy.Setup.{
  Texts, SetupResult, answer, find_key, is_unknown, newline, ok, out_of_range, number_in, cmd_get,
  cmd_set, process_line,
}
use pad_proxy.Setup.Lines.{
  StartsInk, EndsInk, set_line, get_line, ink, ink-IsWord, changed, process_line-set,
  process_line-get,
}
use pad_proxy.Setup.Strings.{IsCString}
use pad_proxy.Setup.Output.{cmd_get-cmd_set}
use pad_proxy.Setup.{key_wifi_ssid, key_device_name}

number-StartsInk : (s : Bytes) → IsNumber s → StartsInk s
number-StartsInk [] h = absurd h
number-StartsInk (c ∷ cs) h = ground (arith, h.0)

parse_u16-decimal : (n : ℕ) → n ≤ 65535 → parse_u16 (decimal n) ≡ some n
parse_u16-decimal n le = parse_u16-IsNumber (decimal n) n (decimal-IsNumber n) (digits-decimal n) le

number-EndsInk : (s : Bytes) → IsNumber s → EndsInk s
number-EndsInk [] h = absurd h
number-EndsInk (c ∷ []) h = ground (arith, h.0)
number-EndsInk (c ∷ d ∷ cs) h = number-EndsInk (d ∷ cs) h.1

-- What the line that sets a number answers and stores, for a setting with these limits.
abbrev pub Sets :
    ℕ → ℕ → ℕ → (ℕ → DeviceConfig) → DeviceConfig → ℕ → SetupResult × DeviceConfig → Type 0
Sets low high n store cfg room r =
    ((low ≤ n) × (n ≤ high) → r ≡ (answer (take room ok), store n))
    × ((n < low) ⊎ (high < n) → r ≡ (answer (take room (out_of_range low high)), cfg))

number_in-Sets :
    (low high n : ℕ) (store : ℕ → DeviceConfig) (cfg : DeviceConfig) (room : ℕ)
    → Sets low high n store cfg room (changed (number_in low high (some n) store cfg room))
number_in-Sets low high n store cfg room = (
  λ h. let inside : (ltb n low || ltb high n) ≡ false = ground (arith, h) in simp inside,
  λ h. let outside : (ltb n low || ltb high n) ≡ true = ground (arith, h) in simp outside,
)

some_ink : (s : Bytes) → StartsInk s → s ≢ []
some_ink [] h e = h
some_ink (c ∷ cs) h e = cc e

-- The answer to a line that shows a setting.
abbrev pub Shows : Texts → Bytes → Bytes → DeviceConfig → ℕ → Type 0
Shows texts name value cfg room =
    process_line texts (get_line name) cfg room
    ≡ (answer (take room (ascii "OK " ++ value ++ newline)), cfg)

module _ (texts : Texts) (cfg : DeviceConfig) (room : ℕ) where
  module _ (n : ℕ) (le : n ≤ 65535) where
    set_number :
        (c : ℕ) (cs : Bytes) (low high : ℕ) (store : ℕ → DeviceConfig)
        → ink (c ∷ cs) ≡ true
        → is_unknown (find_key (c ∷ cs)) ≡ false
        → length cs ≤ 200
        → cmd_set (find_key (c ∷ cs)) (decimal n) cfg room
          ≡ number_in low high (parse_u16 (decimal n)) store cfg room
        → Sets low high n store cfg room
            (process_line texts (set_line (c ∷ cs) (decimal n)) cfg room)
    set_number c cs low high store word known short same =
        let five = length-decimal n le in
        let number = decimal-IsNumber n in
        let done =
          process_line-set texts (c ∷ cs) (decimal n) cfg room (ink-IsWord c cs word)
            (number-StartsInk (decimal n) number) (number-EndsInk (decimal n) number) known
            (omega (arith, five, short, length-append cs (b' ' ∷ decimal n))) in
        rw
          (done
            ∙ ap changed
                (same ∙ ap (λ o. number_in low high o store cfg room) (parse_u16-decimal n le)))
          (number_in-Sets low high n store cfg room)

    -- For any number of a uint16_t, in decimal digits: the lines `set power_pulse_ms <n>` and
    -- `set boot_timeout_ms <n>` store it if it lies within the limits of the setting, and else answer with the
    -- limits and change nothing; a stored number is what `get` shows. Each answer is cut to the buffer.
    pub process_line-decimal :
        Sets power_pulse_min power_pulse_max n
          (λ v. record cfg { power_pulse_ms = v })
          cfg
          room
          (process_line texts (set_line (ascii "power_pulse_ms") (decimal n)) cfg room)
        × Sets boot_timeout_min boot_timeout_max n
            (λ v. record cfg { boot_timeout_ms = v })
            cfg
            room
            (process_line texts (set_line (ascii "boot_timeout_ms") (decimal n)) cfg room)
        × Shows texts (ascii "power_pulse_ms") (decimal n) (record cfg { power_pulse_ms = n }) room
        × Shows texts
            (ascii "boot_timeout_ms")
            (decimal n)
            (record cfg { boot_timeout_ms = n })
            room
    unfolding cmd_set cmd_get find_key
    process_line-decimal = (
      set_number b'p' (ascii "ower_pulse_ms") power_pulse_min power_pulse_max
          (λ v. record cfg { power_pulse_ms = v }) refl refl (omega arith) refl,
      set_number b'b' (ascii "oot_timeout_ms") boot_timeout_min boot_timeout_max
          (λ v. record cfg { boot_timeout_ms = v }) refl refl (omega arith) refl,
      process_line-get texts (ascii "power_pulse_ms") (record cfg { power_pulse_ms = n }) room
          (ink-IsWord b'p' (ascii "ower_pulse_ms") refl) refl (omega arith),
      process_line-get texts (ascii "boot_timeout_ms") (record cfg { boot_timeout_ms = n }) room
          (ink-IsWord b'b' (ascii "oot_timeout_ms") refl) refl (omega arith),
    )

  module _ (value : Bytes) (s : StartsInk value) (e : EndsInk value) (c : IsCString value)
      (short : length value ≤ 32) where
    -- A name of at most 32 bytes, which starts and ends with no whitespace, that a line sets for the network
    -- or the device is what the line `get` then shows, cut to the buffer.
    pub process_line-value :
        let after_ssid = (process_line texts (set_line (ascii "wifi_ssid") value) cfg room).1 in
        let after_name = (process_line texts (set_line (ascii "device_name") value) cfg room).1 in
        Shows texts (ascii "wifi_ssid") value after_ssid room
        × Shows texts (ascii "device_name") value after_name room
    unfolding find_key
    process_line-value =
        let line_fits : length value + 30 ≤ 255 = omega (arith, short) in
        let ssid =
          process_line-set texts (ascii "wifi_ssid") value cfg room
            (ink-IsWord b'w' (ascii "ifi_ssid") refl) s e refl (omega (arith, line_fits)) in
        let name =
          process_line-set texts (ascii "device_name") value cfg room
            (ink-IsWord b'd' (ascii "evice_name") refl) s e refl (omega (arith, line_fits)) in
        let (shown_ssid, shown_name) = cmd_get-cmd_set value cfg room c short in
        (
          rw ssid (
              process_line-get texts (ascii "wifi_ssid") (cmd_set key_wifi_ssid value cfg room).1
                room (ink-IsWord b'w' (ascii "ifi_ssid") refl) refl (omega arith)
              ∙ ap (λ t. (answer t, (cmd_set key_wifi_ssid value cfg room).1)) shown_ssid),
          rw name (
              process_line-get texts (ascii "device_name")
                (cmd_set key_device_name value cfg room).1 room
                (ink-IsWord b'd' (ascii "evice_name") refl) refl (omega arith)
              ∙ ap (λ t. (answer t, (cmd_set key_device_name value cfg room).1))
                  (shown_name (some_ink value s))),
        )
