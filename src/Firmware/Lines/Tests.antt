-- ===== src/Firmware/Lines/Tests.antt =====
-- A setup line as it arrives.
use pad_proxy.Base.{◌≡◌, refl, [], ◌∷◌, ◌++◌, Bytes, take, arith}
use pad_proxy.Config.{init_config}
use pad_proxy.Config.Valid.{init-IsValid}
use pad_proxy.Setup.{Texts, process_line}
use pad_proxy.Setup.Text.{ascii, c_string}
use pad_proxy.Firmware.Lines.{Reader, read_chars, response_room}
use pad_proxy.Firmware.Lines.Laws.{IsReader, read_chars-line, read_chars-IsReader}

abbrev texts : Texts
texts = record { version = ascii "1.4.0"; status = [] }

abbrev idle : Reader
idle = record { line = []; config = init_config; answers = [] }

idle-IsReader : IsReader idle
idle-IsReader = record { fits = omega arith; config_valid = init-IsValid.1 }

abbrev typed : Bytes
typed = 13 ∷ ascii "set boot_timeout_ms 9000" ++ 13 ∷ 10 ∷ []

read_chars-line_example :
    let (answer, cfg) =
      process_line texts (c_string (take 255 (ascii "save"))) init_config response_room in
    read_chars texts (ascii "save" ++ 13 ∷ []) idle
    ≡ record { line = []; config = cfg; answers = answer ∷ [] }
read_chars-line_example = read_chars-line texts b's' (ascii "ave") 13 idle refl (ground arith) refl

read_chars-IsReader_example : IsReader (read_chars texts typed idle)
read_chars-IsReader_example = read_chars-IsReader texts typed idle idle-IsReader
