-- ===== src/Firmware/UsbDevice/Strings.antt =====
-- The string descriptors of firmware/src/usb_hid_gamepad.c.
use pad_proxy.Base.{
  ℕ, zero, suc, ◌+◌, ◌*◌, ◌≡◌, refl, Bool, true, false, Option, none, some, List, [], ◌∷◌, Bytes,
  length, replicate, set, take, ltb, if◌then◌else◌, u8, u16, bit_or,
}
use pad_proxy.Setup.Text.{ascii}

abbrev pub desc_strings : List Bytes
desc_strings =
    [] ∷ ascii "PadProxy" ∷ ascii "PadProxy Gamepad" ∷ ascii "000001" ∷ ascii "PadProxy Setup" ∷ []

abbrev pub string_at : List Bytes → ℕ → Option Bytes
string_at [] index = none
string_at (s ∷ strings) zero = some s
string_at (s ∷ strings) (suc index) = string_at strings index

-- `len`
abbrev pub string_len : Bytes → ℕ
string_len str = let len = u8 (length str) in if ltb 31 len then 31 else len

-- `buf[i] = str[…]` from `i` on.
abbrev pub put_units : ℕ → Bytes → List ℕ → List ℕ
put_units i [] buf = buf
put_units i (c ∷ cs) buf = put_units (suc i) cs (set buf i c)

-- The first unit: TUSB_DESC_STRING of TinyUSB, which is 3, and the length in bytes.
abbrev pub headed : ℕ → List ℕ → List ℕ
headed len buf = set buf 0 (u16 (bit_or 0x300 (2 * len + 2)))

abbrev pub string_of : Option Bytes → List ℕ → Bool × List ℕ
string_of none buf = (false, buf)
string_of (some str) buf =
    (true, headed (string_len str) (put_units 1 (take (string_len str) str) buf))

-- `tud_descriptor_string_cb` with its static buffer: whether the result is not NULL, and the buffer. The
-- index 0 asks for the language.
unfoldable pub string_cb : ℕ → List ℕ → Bool × List ℕ
string_cb zero buf = (true, headed 1 (set buf 1 0x0409))
string_cb (suc index) buf = string_of (string_at desc_strings (suc index)) buf

product_text : take 17 (string_cb 2 (replicate 32 0)).1 ≡ 802 ∷ ascii "PadProxy Gamepad"
unfolding string_cb
product_text = refl

language : string_cb 0 (7 ∷ 7 ∷ 7 ∷ []) ≡ (true, 772 ∷ 1033 ∷ 7 ∷ [])
unfolding string_cb
language = refl

no_string : string_cb 5 [] ≡ (false, [])
unfolding string_cb
no_string = refl
