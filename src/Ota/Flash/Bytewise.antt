-- ===== src/Ota/Flash/Bytewise.antt =====
-- The loop of `flash_write_cb` ends, and does what writing byte after byte does.
use mathlib.Core.List.{append_assoc}
use pad_proxy.Base.{
  length-take_le, ℕ, zero, suc, ◌+◌, ◌-◌, ◌≤◌, ◌<◌, ◌≡◌, refl, ap, ap₂, sym, ◌∙◌, inl, inr, Bool,
  true, false, Bool-cases, Option, some, [], ◌∷◌, ◌++◌, Bytes, length, length-append, length-drop,
  take, drop, ◌==◌, if◌then◌else◌, arith,
}
use pad_proxy.Ota.Flash.{
  FlashWriter, sector_size, flush, failed, flashed, filled, write_loop, outcome, flash_write_cb,
}

-- One byte into the sector buffer, which is written out when it is full.
unfoldable pub write_byte : ℕ → FlashWriter → Bool × FlashWriter
write_byte b fw =
    let fw1 = filled (b ∷ []) fw in
    let (ok, fw2) = flush fw1 in
    if length fw1.sector == sector_size
    then (if ok then (true, fw2) else failed fw2)
    else (true, fw1)

unfoldable pub write_bytes : Bytes → FlashWriter → Bool × FlashWriter
write_bytes [] fw = (true, fw)
write_bytes (b ∷ bs) fw =
    let (ok, fw1) = write_byte b fw in
    let rest = write_bytes bs fw1 in if ok then rest else (false, fw1)

-- One round of the loop behind the copy, with what is to follow.
abbrev after_copy : FlashWriter → (FlashWriter → Bool × FlashWriter) → Bool × FlashWriter
after_copy fw1 next =
    let (ok, fw2) = flush fw1 in
    if length fw1.sector == sector_size then (if ok then next fw2 else failed fw2) else next fw1

filled-filled : (a b : Bytes) (fw : FlashWriter) → filled b (filled a fw) ≡ filled (a ++ b) fw
unfolding filled
filled-filled a b fw =
    ap₂ (λ s t. record fw { sector = s; total_written = t }) (append_assoc fw.sector a b)
      (omega (arith, length-append a b))

pub length-filled :
    (chunk : Bytes) (fw : FlashWriter)
    → length (filled chunk fw).sector ≡ length fw.sector + length chunk
unfolding filled
length-filled chunk fw = length-append fw.sector chunk

write_byte-after_copy :
    (b : ℕ) (bs : Bytes) (fw : FlashWriter)
    → write_bytes (b ∷ bs) fw ≡ after_copy (filled (b ∷ []) fw) (write_bytes bs)
unfolding write_bytes write_byte
write_byte-after_copy b bs fw =
    elim (Bool-cases (length (filled (b ∷ []) fw).sector == sector_size)) [
      | inl full ↦ elim (Bool-cases (flush (filled (b ∷ []) fw)).0) [
        | inl ok ↦ simp (full, ok)
        | inr bad ↦ simp (full, bad)
      ]
      | inr more ↦ simp more
    ]

after_copy-more :
    (fw : FlashWriter) (next : FlashWriter → Bool × FlashWriter)
    → length fw.sector < sector_size
    → after_copy fw next ≡ next fw
after_copy-more fw next h =
    let more : (length fw.sector == sector_size) ≡ false = ground (arith, h) in simp more

-- Bytes up to the end of the sector, one by one or as a chunk.
write_bytes-after_copy :
    (bs : Bytes) (b : ℕ) (fw : FlashWriter) (room : ℕ)
    → suc room + length fw.sector ≡ sector_size
    → write_bytes (b ∷ bs) fw
      ≡ after_copy (filled (b ∷ take room bs) fw) (write_bytes (drop room bs))
write_bytes-after_copy bs b fw zero e = write_byte-after_copy b bs fw
write_bytes-after_copy [] b fw (suc room) e = write_byte-after_copy b [] fw
write_bytes-after_copy (c ∷ cs) b fw (suc room) e =
    write_byte-after_copy b (c ∷ cs) fw
    ∙ after_copy-more (filled (b ∷ []) fw) (write_bytes (c ∷ cs))
        (omega (arith, length-filled (b ∷ []) fw))
    ∙ write_bytes-after_copy cs c (filled (b ∷ []) fw) room
        (omega (arith, length-filled (b ∷ []) fw))
    ∙ ap (λ w. after_copy w (write_bytes (drop room cs)))
        (filled-filled (b ∷ []) (c ∷ take room cs) fw)

-- One round of the loop, by its three outcomes.
write_loop-round :
    (fuel b : ℕ) (bs : Bytes) (fw : FlashWriter) (room : ℕ)
    → sector_size - length fw.sector ≡ suc room
    → let fw1 = filled (b ∷ take room bs) fw in
      write_loop (suc fuel) (b ∷ bs) fw ≡ (
        if length fw1.sector == sector_size
        then (if (flush fw1).0
            then write_loop fuel (drop room bs) (flush fw1).1
            else some (failed (flush fw1).1))
        else write_loop fuel (drop room bs) fw1)
unfolding write_loop
write_loop-round fuel b bs fw room e =
    let fw1 = filled (b ∷ take room bs) fw in
    elim (Bool-cases (length fw1.sector == sector_size)) [
      | inl full ↦ simp (e, full)
      | inr more ↦ simp (e, more)
    ]

flush-open :
    (fw : FlashWriter)
    → (flush fw).0 ≡ true
    → length fw.sector ≤ sector_size
    → length (flush fw).1.sector < sector_size
unfolding flush flashed
flush-open fw ok h = ground (arith, h)

-- A loop that goes on as `next` does goes on so behind the copy.
after_copy-some :
    (fw1 : FlashWriter) (loop : FlashWriter → Option (Bool × FlashWriter))
    (next : FlashWriter → Bool × FlashWriter)
    → length fw1.sector ≤ sector_size
    → ((w : FlashWriter) → length w.sector < sector_size → loop w ≡ some (next w))
    → (if length fw1.sector == sector_size
        then (if (flush fw1).0 then loop (flush fw1).1 else some (failed (flush fw1).1))
        else loop fw1)
      ≡ some (after_copy fw1 next)
after_copy-some fw1 loop next fits h = elim (Bool-cases (length fw1.sector == sector_size)) [
  | inl full ↦ elim (Bool-cases (flush fw1).0) [
    | inl ok ↦ simp (full, ok) (h (flush fw1).1 (flush-open fw1 ok fits))
    | inr bad ↦ simp (full, bad)
  ]
  | inr more ↦ simp more (h fw1 (ground (arith, fits, more)))
]

pub write_loop-write_bytes :
    (fuel : ℕ) (bs : Bytes) (fw : FlashWriter)
    → length bs ≤ fuel
    → length fw.sector < sector_size
    → write_loop fuel bs fw ≡ some (write_bytes bs fw)
write_loop-write_bytes fuel [] fw h open_sector = unfold write_loop write_bytes in refl
write_loop-write_bytes zero (b ∷ bs) fw h open_sector = absurd (omega arith)
write_loop-write_bytes (suc fuel) (b ∷ bs) fw h open_sector =
    let room = sector_size - length fw.sector - 1 in
    let e : sector_size - length fw.sector ≡ suc room = omega (arith, open_sector) in
    let fw1 = filled (b ∷ take room bs) fw in
    let fits : length fw1.sector ≤ sector_size =
      omega (arith, length-filled (b ∷ take room bs) fw, length-take_le room bs) in
    let left : length (drop room bs) ≤ fuel = omega (arith, length-drop room bs) in
    write_loop-round fuel b bs fw room e
    ∙ after_copy-some fw1 (write_loop fuel (drop room bs)) (write_bytes (drop room bs)) fits
        (λ w o. write_loop-write_bytes fuel (drop room bs) w left o)
    ∙ ap some (sym (write_bytes-after_copy bs b fw room (omega (arith, open_sector))))

-- For a writer whose sector buffer is not full, as it is at the start and after every write that
-- succeeds, the loop of `flash_write_cb` ends within one round for each byte, and its result and the
-- writer it leaves are those of writing the bytes one at a time.
pub flash_write_cb-write_bytes :
    (bs : Bytes) (fw : FlashWriter)
    → length fw.sector < sector_size
    → (write_loop (length bs) bs fw ≡ some (write_bytes bs fw))
      × (flash_write_cb bs fw ≡ write_bytes bs fw)
unfolding flash_write_cb
flash_write_cb-write_bytes bs fw h = (
  write_loop-write_bytes (length bs) bs fw (omega arith) h,
  ap (outcome fw) (write_loop-write_bytes (suc (length bs)) bs fw (omega arith) h),
)

write_byte-open :
    (b : ℕ) (fw : FlashWriter)
    → length fw.sector < sector_size
    → (write_byte b fw).0 ≡ true
    → length (write_byte b fw).1.sector < sector_size
unfolding write_byte
write_byte-open b fw h ok =
    let fw1 = filled (b ∷ []) fw in ground (arith, ok, h, length-filled (b ∷ []) fw, flush-open fw1)

-- The sector buffer is not full behind a write that succeeds.
pub write_bytes-open :
    (bs : Bytes) (fw : FlashWriter)
    → length fw.sector < sector_size
    → (write_bytes bs fw).0 ≡ true
    → length (write_bytes bs fw).1.sector < sector_size
unfolding write_bytes
write_bytes-open [] fw h ok = h
write_bytes-open (b ∷ bs) fw h ok =
    ground (arith, ok, h, write_byte-open b fw, write_bytes-open bs (write_byte b fw).1)

pub write_bytes-append :
    (a b : Bytes) (fw : FlashWriter)
    → write_bytes (a ++ b) fw ≡ (
        if (write_bytes a fw).0
        then write_bytes b (write_bytes a fw).1
        else (false, (write_bytes a fw).1))
unfolding write_bytes
write_bytes-append [] b fw = refl
write_bytes-append (c ∷ a) b fw = elim (Bool-cases (write_byte c fw).0) [
  | inl ok ↦ simp ok (write_bytes-append a b (write_byte c fw).1)
  | inr bad ↦ simp bad
]
