-- ===== src/Firmware/Lines.antt =====
-- The reader of the setup serial line: `poll_cdc_setup` of firmware/src/main.c.
pub mod Laws
mod Tests
use pad_proxy.Base.{
  ℕ, ◌-◌, ◌≡◌, Bool, true, false, ◌||◌, Option, some, none, List, [], ◌∷◌, ◌++◌, Bytes, length, ltb,
  ◌==◌, if◌then◌else◌,
}
use pad_proxy.Config.{DeviceConfig}
use pad_proxy.Setup.Text.{c_string}
use pad_proxy.Setup.{Texts, SetupResult, process_line}

-- `CDC_LINE_MAX`
abbrev pub cdc_line_max : ℕ
cdc_line_max = 256

-- `sizeof(response) - 1`
abbrev pub response_room : ℕ
response_room = 511

pub record Reader : Type 0 where
  pub line : Bytes  -- the first s_cdc_line_pos bytes of s_cdc_line
  pub config : DeviceConfig
  pub answers : List SetupResult  -- newest first

abbrev pub is_line_end : ℕ → Bool
is_line_end ch = ch == 10 || ch == 13

-- A complete line, which is a C string once the NUL is written behind it.
take_line : Texts → Reader → Reader
take_line texts r =
    let (answer, cfg) = process_line texts (c_string r.line) r.config response_room in
    record { line = []; config = cfg; answers = answer ∷ r.answers }

-- One character that `tud_cdc_read_char` returned.
unfoldable pub read_char : Texts → ℕ → Reader → Reader
unfolding take_line
read_char texts ch r =
    if is_line_end ch
    then (if length r.line == 0 then r else take_line texts r)
    else if ltb (length r.line) (cdc_line_max - 1)
    then record r { line = r.line ++ ch ∷ [] }
    else r

-- The characters that are read until none is available.
unfoldable pub read_chars : Texts → Bytes → Reader → Reader
read_chars texts [] r = r
read_chars texts (ch ∷ chs) r = read_chars texts chs (read_char texts ch r)
