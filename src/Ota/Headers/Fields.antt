-- ===== src/Ota/Headers/Fields.antt =====
-- `find_header` over printed header fields.
use mathlib.Core.List.{append_assoc}
use pad_proxy.Base.{
  ℕ, zero, suc, ◌+◌, ◌-◌, ◌≤◌, ◌<◌, ◌≡◌, ◌≢◌, ◌⊎◌, refl, ap, sym, ◌∙◌, inl, inr, Bool, true, false,
  ◌&&◌, Bool-cases, Option, none, some, List, [], ◌∷◌, ◌++◌, Bytes, All, length, length-append,
  take, drop, ◌==◌, if◌then◌else◌, arith,
}
use pad_proxy.Ota.Text.{to_lower, strstr, before, skip_spaces}
use pad_proxy.Ota.Headers.{crlf, is_field, field_value, find_from, find_header}

-- The bytes of a name, and those of a line.
abbrev pub IsNameChar : ℕ → Type 0
IsNameChar c = (c ≢ b':') × (c ≢ 13)

abbrev pub IsLineChar : ℕ → Type 0
IsLineChar c = c ≢ 13

abbrev pub NoSpace : Bytes → Type 0
NoSpace [] = Unit
NoSpace (c ∷ cs) = c ≢ b' '

abbrev pub IsField : Bytes × Bytes → Type 0
IsField (name, value) = All IsNameChar name × All IsLineChar value × NoSpace value

-- The fields as they are sent, up to the empty line.
abbrev pub header_text : List (Bytes × Bytes) → Bytes
header_text [] = crlf
header_text ((name, value) ∷ fields) = name ++ (b':' ∷ b' ' ∷ value ++ (crlf ++ header_text fields))

-- Two names that differ in case only.
abbrev pub is_like : Bytes → Bytes → Bool
is_like [] [] = true
is_like [] (d ∷ ds) = false
is_like (c ∷ cs) [] = false
is_like (c ∷ cs) (d ∷ ds) = to_lower d == to_lower c && is_like cs ds

-- The first field of that name, cut to the buffer.
abbrev pub first_field : Bytes → ℕ → List (Bytes × Bytes) → Option Bytes
first_field key buf_len [] = none
first_field key buf_len ((name, value) ∷ fields) =
    if is_like key name then some (take (buf_len - 1) value) else first_field key buf_len fields

lower_apart : (c d : ℕ) → c ≢ d → (d ≡ b':') ⊎ (d ≡ 13) → (to_lower d == to_lower c) ≡ false
lower_apart c d n (inl e) = ground (arith, n, e)
lower_apart c d n (inr e) = ground (arith, n, e)

is_field-is_like :
    (key name rest : Bytes)
    → All IsNameChar key
    → All IsNameChar name
    → is_field key (name ++ b':' ∷ rest) ≡ is_like key name
is_field-is_like [] [] rest k n = refl
is_field-is_like [] (d ∷ name) rest k ((colon, cr), n) = ground (arith, colon)
is_field-is_like (c ∷ key) [] rest ((colon, cr), k) n = simp (lower_apart c b':' colon (inl refl))
is_field-is_like (c ∷ key) (d ∷ name) rest (ok, k) (ok2, n) =
    elim (Bool-cases (to_lower d == to_lower c)) [
      | inl same ↦ simp same (is_field-is_like key name rest k n)
      | inr differ ↦ simp differ
    ]

-- A line without a colon is no field.
no_field :
    (key line rest : Bytes)
    → All IsNameChar key
    → All (λ c. c ≢ b':') line
    → is_field key (line ++ 13 ∷ rest) ≡ false
no_field [] [] rest k n = refl
no_field [] (d ∷ line) rest k (colon, n) = ground (arith, colon)
no_field (c ∷ key) [] rest ((colon, cr), k) n = simp (lower_apart c 13 cr (inr refl))
no_field (c ∷ key) (d ∷ line) rest (ok, k) (colon, n) =
    elim (Bool-cases (to_lower d == to_lower c)) [
      | inl same ↦ simp same (no_field key line rest k n)
      | inr differ ↦ simp differ
    ]

strstr-crlf :
    (line rest : Bytes)
    → All IsLineChar line
    → strstr crlf (line ++ (crlf ++ rest)) ≡ some (crlf ++ rest)
strstr-crlf [] rest h = refl
strstr-crlf (c ∷ line) rest (cr, h) =
    let other : (c == 13) ≡ false = ground (arith, cr) in simp other (strstr-crlf line rest h)

before-crlf :
    (line rest : Bytes) → All IsLineChar line → before crlf (line ++ (crlf ++ rest)) ≡ line
before-crlf [] rest h = refl
before-crlf (c ∷ line) rest (cr, h) =
    let other : (c == 13) ≡ false = ground (arith, cr) in
    simp other (ap (λ t. c ∷ t) (before-crlf line rest h))

skip_spaces-NoSpace :
    (value rest : Bytes)
    → NoSpace value
    → skip_spaces (value ++ (crlf ++ rest)) ≡ value ++ (crlf ++ rest)
skip_spaces-NoSpace [] rest h = refl
skip_spaces-NoSpace (c ∷ value) rest h =
    let other : (c == b' ') ≡ false = ground (arith, h) in simp other

is_like-length : (key name : Bytes) → is_like key name ≡ true → length key ≡ length name
is_like-length [] [] h = refl
is_like-length [] (d ∷ name) h = absurd (cc h)
is_like-length (c ∷ key) [] h = absurd (cc h)
is_like-length (c ∷ key) (d ∷ name) h = ap suc (is_like-length key name (ground (arith, h)))

drop_behind :
    (name : Bytes) (c : ℕ) (rest : Bytes) → drop (length name + 1) (name ++ c ∷ rest) ≡ rest
drop_behind name c rest =
    let e : length name + 1 ≡ suc (length name) = omega arith in
    ap (λ k. drop k (name ++ c ∷ rest)) e ∙ step name
  where
    step : (name : Bytes) → drop (suc (length name)) (name ++ c ∷ rest) ≡ rest
    step [] = refl
    step (d ∷ name) = step name

field_value-text :
    (key name value rest : Bytes) (buf_len : ℕ)
    → length key ≡ length name
    → All IsLineChar value
    → NoSpace value
    → field_value key buf_len (name ++ (b':' ∷ b' ' ∷ value ++ (crlf ++ rest)))
      ≡ take (buf_len - 1) value
field_value-text key name value rest buf_len e h n =
    ap (λ p. take (buf_len - 1) (before crlf (skip_spaces p)))
      (ap (λ k. drop (k + 1) (name ++ (b':' ∷ b' ' ∷ value ++ (crlf ++ rest)))) e
        ∙ drop_behind name b':' (b' ' ∷ value ++ (crlf ++ rest)))
    ∙ ap (λ p. take (buf_len - 1) (before crlf p)) (skip_spaces-NoSpace value rest n)
    ∙ ap (take (buf_len - 1)) (before-crlf value rest h)

line_chars :
    (name value : Bytes)
    → All IsNameChar name
    → All IsLineChar value
    → All IsLineChar (name ++ b':' ∷ b' ' ∷ value)
line_chars [] value n h = (omega arith, (omega arith, h))
line_chars (c ∷ name) value ((colon, cr), n) h = (cr, line_chars name value n h)

-- One round of the loop, at a line.
find_from-line :
    (fuel : ℕ) (key line rest : Bytes) (buf_len : ℕ)
    → All IsLineChar line
    → is_field key (line ++ (crlf ++ rest)) ≡ false
    → find_from (suc fuel) key buf_len (line ++ (crlf ++ rest)) ≡ find_from fuel key buf_len rest
unfolding find_from
find_from-line fuel key [] rest buf_len h f = simp f
find_from-line fuel key (c ∷ line) rest buf_len h f = simp (f, strstr-crlf (c ∷ line) rest h)

find_from-found :
    (fuel : ℕ) (key line rest : Bytes) (buf_len : ℕ)
    → is_field key (line ++ (crlf ++ rest)) ≡ true
    → find_from (suc fuel) key buf_len (line ++ (crlf ++ rest))
      ≡ some (field_value key buf_len (line ++ (crlf ++ rest)))
unfolding find_from
find_from-found fuel key [] rest buf_len f = simp f
find_from-found fuel key (c ∷ line) rest buf_len f = simp f

find_from_end : (fuel : ℕ) (key : Bytes) (buf_len : ℕ) → find_from fuel key buf_len [] ≡ none
unfolding find_from
find_from_end zero key buf_len = refl
find_from_end (suc fuel) key buf_len = refl

find_from-fields :
    (fuel : ℕ) (key : Bytes) (buf_len : ℕ) (fields : List (Bytes × Bytes))
    → All IsNameChar key
    → All IsField fields
    → length fields < fuel
    → find_from fuel key buf_len (header_text fields) ≡ first_field key buf_len fields
find_from-fields zero key buf_len fields k f h = absurd (omega (arith, h))
find_from-fields (suc fuel) key buf_len [] k f h =
    find_from-line fuel key [] [] buf_len tt (no_field key [] (10 ∷ []) k tt)
    ∙ find_from_end fuel key buf_len
find_from-fields (suc fuel) key buf_len ((name, value) ∷ fields) k ((n, v, s), f) h =
    let rest = header_text fields in
    let line = name ++ b':' ∷ b' ' ∷ value in
    let regroup : line ++ (crlf ++ rest) ≡ header_text ((name, value) ∷ fields) =
      append_assoc name (b':' ∷ b' ' ∷ value) (crlf ++ rest) in
    let field : is_field key (line ++ (crlf ++ rest)) ≡ is_like key name =
      ap (is_field key) regroup ∙ is_field-is_like key name (b' ' ∷ value ++ (crlf ++ rest)) k n in
    ap (find_from (suc fuel) key buf_len) (sym regroup) ∙ elim (Bool-cases (is_like key name)) [
      | inl same ↦
          find_from-found fuel key line rest buf_len (field ∙ same)
          ∙ ap (λ p. some (field_value key buf_len p)) regroup
          ∙ ap some
              (field_value-text key name value rest buf_len (is_like-length key name same) v s)
          ∙ simp same
      | inr differ ↦
          find_from-line fuel key line rest buf_len (line_chars name value n v) (field ∙ differ)
          ∙ find_from-fields fuel key buf_len fields k f (omega (arith, h))
          ∙ simp differ
    ]

length-header_text :
    (fields : List (Bytes × Bytes)) → length fields + 2 ≤ length (header_text fields)
length-header_text [] = omega arith
length-header_text ((name, value) ∷ fields) = omega (
  arith,
  length-append name (b':' ∷ b' ' ∷ value ++ (crlf ++ header_text fields)),
  length-append value (crlf ++ header_text fields),
  length-header_text fields,
)

-- In a status line without a colon and fields as they are sent, `find_header` finds the first field
-- whose name is the key but for its case, and its value without the spaces before it, cut to the buffer;
-- it fails if there is none. Names hold neither colons nor CR, values hold no CR.
pub find_header-header_text :
    (status key : Bytes) (buf_len : ℕ) (fields : List (Bytes × Bytes))
    → All (λ c. c ≢ b':') status
    → All IsLineChar status
    → All IsNameChar key
    → All IsField fields
    → find_header (status ++ (crlf ++ header_text fields)) key buf_len
      ≡ first_field key buf_len fields
unfolding find_header
find_header-header_text status key buf_len fields c h k f =
    let text = status ++ (crlf ++ header_text fields) in
    let fuel = length text - 1 in
    let size : (length text ≡ suc fuel) × (length fields < fuel) =
      omega (arith, length-append status (crlf ++ header_text fields), length-header_text fields) in
    ap (λ n. find_from n key buf_len text) size.0
    ∙ find_from-line fuel key status (header_text fields) buf_len h
        (no_field key status (10 ∷ header_text fields) k c)
    ∙ find_from-fields fuel key buf_len fields k f size.1
