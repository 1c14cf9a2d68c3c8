-- ===== src/Setup/Lines.antt =====
-- Whole lines: what `get <key>` and `set <key> <value>` do, and numbers that are set.
use pad_proxy.Base.{
  ℕ, ◌≤◌, ◌≡◌, refl, ap, ◌∙◌, Bool, true, false, ◌&&◌, not, none, some, All, [], ◌∷◌, ◌++◌, Bytes,
  length, take_whole, ◌==◌, arith,
}
use pad_proxy.Config.{DeviceConfig}
use pad_proxy.Setup.Text.{ascii, is_space, skip_ws, strip_end, split_space}
use pad_proxy.Setup.{
  Texts, SetupResult, answer, find_key, is_unknown, cmd_get, cmd_set, run_get, set_split, run_set,
  run_command, buf_max, run_trimmed, process_line,
}

-- A word, and a text that starts and ends with no whitespace.
abbrev pub IsWord : Bytes → Type 0
IsWord [] = ⊥
IsWord (c ∷ cs) = All (λ b. is_space b ≡ false) (c ∷ cs)

abbrev pub StartsInk : Bytes → Type 0
StartsInk [] = ⊥
StartsInk (c ∷ cs) = is_space c ≡ false

abbrev pub EndsInk : Bytes → Type 0
EndsInk [] = ⊥
EndsInk (c ∷ []) = is_space c ≡ false
EndsInk (c ∷ d ∷ cs) = EndsInk (d ∷ cs)

append-EndsInk : (a b : Bytes) → EndsInk b → EndsInk (a ++ b)
append-EndsInk [] b h = h
append-EndsInk (c ∷ []) [] h = absurd h
append-EndsInk (c ∷ []) (d ∷ b) h = h
append-EndsInk (c ∷ d ∷ a) b h = append-EndsInk (d ∷ a) b h

word-EndsInk : (w : Bytes) → IsWord w → EndsInk w
word-EndsInk [] h = absurd h
word-EndsInk (c ∷ []) h = h.0
word-EndsInk (c ∷ d ∷ cs) h = word-EndsInk (d ∷ cs) h.1

word-StartsInk : (w : Bytes) → IsWord w → StartsInk w
word-StartsInk [] h = absurd h
word-StartsInk (c ∷ cs) h = h.0

skip_ws-ink : (s : Bytes) → StartsInk s → skip_ws s ≡ s
unfolding skip_ws
skip_ws-ink [] h = absurd h
skip_ws-ink (c ∷ cs) h = simp h

strip_end-ink : (s : Bytes) → EndsInk s → strip_end s ≡ s
unfolding strip_end
strip_end-ink [] h = absurd h
strip_end-ink (c ∷ []) h = simp h
strip_end-ink (c ∷ d ∷ cs) h = rw (strip_end-ink (d ∷ cs) h) refl

split_space-word :
    (w rest : Bytes)
    → All (λ b. is_space b ≡ false) w
    → split_space (w ++ b' ' ∷ rest) ≡ (w, some rest)
split_space-word [] rest h = refl
split_space-word (c ∷ w) rest (h, hs) =
    let ink : (c == 32) ≡ false = ground (arith, h) in simp (ink, split_space-word w rest hs)

split_space-whole : (w : Bytes) → All (λ b. is_space b ≡ false) w → split_space w ≡ (w, none)
split_space-whole [] h = refl
split_space-whole (c ∷ w) (h, hs) =
    let ink : (c == 32) ≡ false = ground (arith, h) in simp (ink, split_space-whole w hs)

abbrev pub set_line : Bytes → Bytes → Bytes
set_line name value = ascii "set " ++ name ++ b' ' ∷ value

abbrev pub get_line : Bytes → Bytes
get_line name = ascii "get " ++ name

-- A line that needs no trimming.
trimmed :
    (texts : Texts) (line : Bytes) (cfg : DeviceConfig) (room : ℕ)
    → StartsInk line
    → EndsInk line
    → length line ≤ buf_max
    → process_line texts line cfg room ≡ run_trimmed texts line cfg room
unfolding process_line
trimmed texts line cfg room s e short =
    rw (skip_ws-ink line s, take_whole buf_max line short, strip_end-ink line e) refl

found_set :
    (name value : Bytes) (cfg : DeviceConfig) (room : ℕ)
    → IsWord name
    → StartsInk value
    → is_unknown (find_key name) ≡ false
    → run_set (some (name ++ b' ' ∷ value)) cfg room ≡ cmd_set (find_key name) value cfg room
unfolding run_set set_split
found_set [] value cfg room w s known = absurd w
found_set (c ∷ name) value cfg room w s known =
    rw (split_space-word (c ∷ name) value w) (simp (known, skip_ws-ink value s))

found_get :
    (name : Bytes) (cfg : DeviceConfig) (room : ℕ)
    → IsWord name
    → is_unknown (find_key name) ≡ false
    → run_get (some name) cfg room ≡ cmd_get (find_key name) cfg room
unfolding run_get
found_get [] cfg room w known = absurd w
found_get (c ∷ name) cfg room w known = simp known

abbrev pub changed : Bytes × DeviceConfig → SetupResult × DeviceConfig
changed (out, cfg) = (answer out, cfg)

-- A line `set <key> <value>` that fits the buffer, with a known key and a value that starts and ends
-- with no whitespace, sets that key to that value.
pub process_line-set :
    (texts : Texts) (name value : Bytes) (cfg : DeviceConfig) (room : ℕ)
    → IsWord name
    → StartsInk value
    → EndsInk value
    → is_unknown (find_key name) ≡ false
    → length (set_line name value) ≤ buf_max
    → process_line texts (set_line name value) cfg room
      ≡ changed (cmd_set (find_key name) value cfg room)
unfolding run_trimmed run_command
process_line-set texts [] value cfg room w s e known short = absurd w
process_line-set texts (c ∷ name) value cfg room w s e known short =
    let ends =
      append-EndsInk (ascii "set " ++ c ∷ name) (b' ' ∷ value)
        (append-EndsInk (b' ' ∷ []) value e) in
    trimmed texts (set_line (c ∷ name) value) cfg room refl ends short
    ∙ ap (λ p. changed (run_set (some p) cfg room)) (skip_ws-ink (c ∷ name ++ b' ' ∷ value) w.0)
    ∙ ap changed (found_set (c ∷ name) value cfg room w s known)

-- A line `get <key>` shows that key.
pub process_line-get :
    (texts : Texts) (name : Bytes) (cfg : DeviceConfig) (room : ℕ)
    → IsWord name
    → is_unknown (find_key name) ≡ false
    → length (get_line name) ≤ buf_max
    → process_line texts (get_line name) cfg room ≡ (answer (cmd_get (find_key name) cfg room), cfg)
unfolding run_trimmed run_command
process_line-get texts name cfg room w known short =
    trimmed texts (get_line name) cfg room refl
      (append-EndsInk (ascii "get ") name (word-EndsInk name w)) short
    ∙ ap (λ p. (answer (run_get (some p) cfg room), cfg)) (skip_ws-ink name (word-StartsInk name w))
    ∙ ap (λ out. (answer out, cfg)) (found_get name cfg room w known)

-- A word that is written out.
abbrev pub ink : Bytes → Bool
ink [] = true
ink (c ∷ cs) = not (is_space c) && ink cs

ink-All : (s : Bytes) → ink s ≡ true → All (λ b. is_space b ≡ false) s
ink-All [] h = tt
ink-All (c ∷ cs) h = (ground (arith, h), ink-All cs (ground (arith, h)))

pub ink-IsWord : (c : ℕ) (cs : Bytes) → ink (c ∷ cs) ≡ true → IsWord (c ∷ cs)
ink-IsWord c cs h = ink-All (c ∷ cs) h
