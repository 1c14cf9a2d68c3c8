-- ===== src/Setup/Tests.antt =====
-- Setup lines and their answers.
use pad_proxy.Base.{
  ◌-◌, ◌≤◌, ◌≡◌, refl, true, some, List, [], ◌∷◌, ◌++◌, Bytes, length, take, arith,
}
use pad_proxy.Config.{
  DeviceConfig, init_config, power_pulse_min, power_pulse_max, boot_timeout_min, boot_timeout_max,
}
use pad_proxy.Ota.Version.{decimal}
use pad_proxy.Config.Valid.{IsValid, init-IsValid}
use pad_proxy.Setup.Text.{ascii, strip_end, skip_ws, parse_u16}
use pad_proxy.Setup.{
  Texts, cmd_list, cmd_set, run_set, set_split, run_command, setup_process, process_line, newline,
  find_key,
}
use pad_proxy.Setup.Laws.{setup_process-IsValid}
use pad_proxy.Setup.Hidden.{with_password, session, session-with_password}
use pad_proxy.Setup.Output.{list_text, cmd_list-take}
use pad_proxy.Setup.Lines.{set_line}
use pad_proxy.Setup.Values.{Sets, Shows, process_line-value, process_line-decimal}
use pad_proxy.Setup.Bounds.{length-setup_process}

abbrev texts : Texts
texts = record { version = ascii "1.4.0"; status = ascii "pc_state=off bt_connected=false" }

abbrev set_pulse : Bytes
set_pulse = ascii "  set power_pulse_ms 750 "

sets_pulse :
    let r = setup_process texts (some set_pulse) (some init_config) true 512 in
    (r.0.out ≡ ascii "OK" ++ newline) × (r.1 ≡ some (record init_config { power_pulse_ms = 750 }))
unfolding setup_process set_split strip_end skip_ws run_command run_set find_key cmd_set parse_u16
sets_pulse = (refl, refl)

setup_process-IsValid_example :
    (cfg : DeviceConfig) × ((setup_process texts (some set_pulse) (some init_config) true 512).1
      ≡ some cfg)
    × IsValid cfg
setup_process-IsValid_example =
    setup_process-IsValid texts set_pulse init_config true 512 (ground arith) init-IsValid.1

length-setup_process_example :
    length (setup_process texts (some set_pulse) (some init_config) true 2).0.out ≤ 2 - 1
length-setup_process_example = length-setup_process texts (some set_pulse) (some init_config) true 2

abbrev lines : List (Texts × Bytes)
lines = (texts, ascii "get wifi_password") ∷ (texts, ascii "list") ∷ []

session-with_password_example :
    session lines (with_password (ascii "hunter2") init_config) 511 ≡ session lines init_config 511
session-with_password_example = session-with_password lines (ascii "hunter2") init_config 511

abbrev home : Bytes
home = ascii "home net"

process_line-value_example :
    let after_ssid = (process_line texts (set_line (ascii "wifi_ssid") home) init_config 511).1 in
    let after_name = (process_line texts (set_line (ascii "device_name") home) init_config 511).1 in
    Shows texts (ascii "wifi_ssid") home after_ssid 511
    × Shows texts (ascii "device_name") home after_name 511
process_line-value_example =
    process_line-value texts init_config 511 home refl refl (ground arith) (omega arith)

process_line-decimal_example :
    Sets power_pulse_min power_pulse_max 750
      (λ v. record init_config { power_pulse_ms = v })
      init_config
      511
      (process_line texts (set_line (ascii "power_pulse_ms") (decimal 750)) init_config 511)
    × Sets boot_timeout_min boot_timeout_max 750
        (λ v. record init_config { boot_timeout_ms = v })
        init_config
        511
        (process_line texts (set_line (ascii "boot_timeout_ms") (decimal 750)) init_config 511)
    × Shows texts
        (ascii "power_pulse_ms")
        (decimal 750)
        (record init_config { power_pulse_ms = 750 })
        511
    × Shows texts
        (ascii "boot_timeout_ms")
        (decimal 750)
        (record init_config { boot_timeout_ms = 750 })
        511
process_line-decimal_example = process_line-decimal texts init_config 511 750 (omega arith)

cmd_list-take_example : cmd_list init_config 100 ≡ take 100 (list_text init_config)
cmd_list-take_example = cmd_list-take init_config 100
