-- ===== src/Setup/Strings.antt =====
-- C strings stay C strings under the steps of the line handling.
use pad_proxy.Base.{
  Option, some, none, zero, suc, [], ◌∷◌, take, inl, inr, All, ℕ, ◌≢◌, Bool-cases, Bytes, ◌==◌,
}
use pad_proxy.Setup.Text.{split_space, strip_end, skip_ws, is_space, put_before}

-- The bytes before a NUL.
abbrev pub IsCString : Bytes → Type 0
IsCString = All (λ c. c ≢ 0)

pub skip_ws-IsCString : (s : Bytes) → IsCString s → IsCString (skip_ws s)
unfolding skip_ws
skip_ws-IsCString [] h = h
skip_ws-IsCString (c ∷ cs) h = elim (Bool-cases (is_space c)) [
  | inl e ↦ rw e (skip_ws-IsCString cs h.1)
  | inr e ↦ rw e h
]

pub take-IsCString : (n : ℕ) (s : Bytes) → IsCString s → IsCString (take n s)
take-IsCString zero s h = tt
take-IsCString (suc n) [] h = tt
take-IsCString (suc n) (c ∷ cs) h = (h.0, take-IsCString n cs h.1)

put_before-IsCString : (c : ℕ) (s : Bytes) → c ≢ 0 → IsCString s → IsCString (put_before c s)
put_before-IsCString c [] n h = elim (Bool-cases (is_space c)) [
  | inl e ↦ rw e tt
  | inr e ↦ rw e (n, tt)
]
put_before-IsCString c (d ∷ ds) n h = (n, h)

pub strip_end-IsCString : (s : Bytes) → IsCString s → IsCString (strip_end s)
unfolding strip_end
strip_end-IsCString [] h = h
strip_end-IsCString (c ∷ cs) h =
    put_before-IsCString c (strip_end cs) h.0 (strip_end-IsCString cs h.1)

-- What stands behind the space, if there is one.
abbrev pub IsArg : Option Bytes → Type 0
IsArg none = Unit
IsArg (some s) = IsCString s

pub split_space-IsCString : (s : Bytes) → IsCString s → IsArg (split_space s).1
split_space-IsCString [] h = tt
split_space-IsCString (c ∷ cs) h = elim (Bool-cases (c == 32)) [
  | inl e ↦ rw e h.1
  | inr e ↦ rw e (split_space-IsCString cs h.1)
]
