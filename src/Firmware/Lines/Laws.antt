-- ===== src/Firmware/Lines/Laws.antt =====
-- What the reader of setup lines keeps, and which lines it delivers.
use mathlib.Core.List.{append-nil}
use pad_proxy.Setup.Output.{length-nonempty}
use pad_proxy.Base.{
  ℕ, zero, suc, ◌+◌, ◌≤◌, ◌<◌, ◌≡◌, ◌≢◌, refl, ap, sym, ◌∙◌, inl, inr, Bool, true, false,
  Bool-cases, [], ◌∷◌, ◌++◌, Bytes, All, length, length-append, take, ltb, ◌==◌, if◌then◌else◌,
  arith,
}
use pad_proxy.Config.Valid.{IsValid}
use pad_proxy.Setup.Text.{c_string}
use pad_proxy.Setup.{Texts, process_line}
use pad_proxy.Setup.Strings.{IsCString}
use pad_proxy.Setup.Laws.{process_line-IsValid}
use pad_proxy.Firmware.Lines.{
  cdc_line_max, response_room, Reader, is_line_end, take_line, read_char, read_chars,
}

pub record IsReader (r : Reader) : Type 0 where
  pub fits : length r.line < cdc_line_max
  pub config_valid : IsValid r.config

c_string-IsCString : (s : Bytes) → IsCString (c_string s)
c_string-IsCString [] = tt
c_string-IsCString (c ∷ cs) = elim (Bool-cases (c == 0)) [
  | inl e ↦ rw e tt
  | inr e ↦ rw e (ground (arith, e), c_string-IsCString cs)
]

if-IsReader :
    {x y : Reader} (b : Bool)
    → (b ≡ true → IsReader x)
    → (b ≡ false → IsReader y)
    → IsReader (if b then x else y)
if-IsReader true f g = f refl
if-IsReader false f g = g refl

read_char-IsReader :
    (texts : Texts) (ch : ℕ) (r : Reader) → IsReader r → IsReader (read_char texts ch r)
unfolding read_char take_line
read_char-IsReader texts ch r i =
    if-IsReader (is_line_end ch)
      (λ _.
        if-IsReader (length r.line == 0) (λ _. i)
          (λ _. record {
            fits = omega arith;
            config_valid =
                process_line-IsValid texts (c_string r.line) r.config response_room
                  (c_string-IsCString r.line) i.config_valid;
          }))
      (λ _.
        if-IsReader (ltb (length r.line) 255)
          (λ room. record {
            fits =
                let below : length r.line < 255 = ground (arith, room) in
                omega (arith, length-append r.line (ch ∷ []), below);
            config_valid = i.config_valid;
          })
          (λ _. i))

-- Whatever characters arrive, the line stays within its buffer, with a place left for the NUL, and the
-- configuration stays valid.
pub read_chars-IsReader :
    (texts : Texts) (chs : Bytes) (r : Reader) → IsReader r → IsReader (read_chars texts chs r)
unfolding read_chars
read_chars-IsReader texts [] r i = i
read_chars-IsReader texts (ch ∷ chs) r i =
    read_chars-IsReader texts chs (read_char texts ch r) (read_char-IsReader texts ch r i)

take_nil : (n : ℕ) → take {A = ℕ} n [] ≡ []
take_nil zero = refl
take_nil (suc n) = refl

append-one : (s : Bytes) (c : ℕ) (t : Bytes) → (s ++ c ∷ []) ++ t ≡ s ++ c ∷ t
append-one [] c t = refl
append-one (d ∷ s) c t = ap (λ x. d ∷ x) (append-one s c t)

read_char-text :
    (texts : Texts) (ch : ℕ) (r : Reader)
    → is_line_end ch ≡ false
    → length r.line < 255
    → read_char texts ch r ≡ record r { line = r.line ++ ch ∷ [] }
unfolding read_char
read_char-text texts ch r e room =
    let below : ltb (length r.line) 255 ≡ true = ground (arith, room) in simp (e, below)

read_char-full :
    (texts : Texts) (ch : ℕ) (r : Reader)
    → is_line_end ch ≡ false
    → 255 ≤ length r.line
    → read_char texts ch r ≡ r
unfolding read_char
read_char-full texts ch r e full =
    let above : ltb (length r.line) 255 ≡ false = ground (arith, full) in simp (e, above)

read_chars-append :
    (texts : Texts) (a b : Bytes) (r : Reader)
    → read_chars texts (a ++ b) r ≡ read_chars texts b (read_chars texts a r)
unfolding read_chars
read_chars-append texts [] b r = refl
read_chars-append texts (c ∷ a) b r = read_chars-append texts a b (read_char texts c r)

read_chars-text :
    (texts : Texts) (text : Bytes) (r : Reader) (room : ℕ)
    → All (λ c. is_line_end c ≡ false) text
    → length r.line + room ≡ 255
    → read_chars texts text r ≡ record r { line = r.line ++ take room text }
unfolding read_chars
read_chars-text texts [] r room plain size =
    ap (λ l. record r { line = l })
      (sym (append-nil r.line) ∙ ap (λ t. r.line ++ t) (sym (take_nil room)))
read_chars-text texts (c ∷ cs) r zero plain size =
    ap (read_chars texts cs) (read_char-full texts c r plain.0 (omega arith))
    ∙ read_chars-text texts cs r zero plain.1 size
read_chars-text texts (c ∷ cs) r (suc room) plain size =
    ap (read_chars texts cs) (read_char-text texts c r plain.0 (omega arith))
    ∙ read_chars-text texts cs (record r { line = r.line ++ c ∷ [] }) room plain.1
        (omega (arith, length-append r.line (c ∷ [])))
    ∙ ap (λ l. record r { line = l }) (append-one r.line c (take room cs))

read_char-end :
    (texts : Texts) (ch : ℕ) (r : Reader)
    → is_line_end ch ≡ true
    → r.line ≢ []
    → read_char texts ch r ≡ take_line texts r
unfolding read_char
read_char-end texts ch r e some_bytes =
    let n : (length r.line == 0) ≡ false = length-nonempty r.line some_bytes in simp (e, n)

-- To a reader with no line begun, a text without a line end and the line end behind it are one line:
-- it is processed as the string that its first 255 bytes hold, the answer is given, and the reader is
-- at the start of a line again.
pub read_chars-line :
    (texts : Texts) (c : ℕ) (cs : Bytes) (ch : ℕ) (r : Reader)
    → r.line ≡ []
    → All (λ x. is_line_end x ≡ false) (c ∷ cs)
    → is_line_end ch ≡ true
    → let (answer, cfg) =
        process_line texts (c_string (take 255 (c ∷ cs))) r.config response_room in
      read_chars texts ((c ∷ cs) ++ ch ∷ []) r
      ≡ record { line = []; config = cfg; answers = answer ∷ r.answers }
unfolding take_line read_chars
read_chars-line texts c cs ch r empty plain e =
    let kept = take 255 (c ∷ cs) in
    let size : length r.line + 255 ≡ 255 = ap (λ l. length l + 255) empty in
    let begun : read_chars texts (c ∷ cs) r ≡ record r { line = kept } =
      read_chars-text texts (c ∷ cs) r 255 plain size
      ∙ ap (λ l. record r { line = l ++ kept }) empty in
    read_chars-append texts (c ∷ cs) (ch ∷ []) r
    ∙ ap (read_char texts ch) begun
    ∙ read_char-end texts ch (record r { line = kept }) e (λ h. cc h)
