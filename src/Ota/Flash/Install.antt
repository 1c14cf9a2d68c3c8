-- ===== src/Ota/Flash/Install.antt =====
-- A whole image through the flash writer: the chunks in which it arrives, then the last flush.
use mathlib.Core.List.{append_assoc, append-nil}
use pad_proxy.Base.{
  ℕ, ◌+◌, ◌-◌, ◌*◌, ◌≤◌, ◌<◌, ◌≡◌, ◌≢◌, ◌↔◌, ◌⊎◌, refl, ap, sym, ◌∙◌, inl, inr, Bool, true, false,
  Bool-cases, List, [], ◌∷◌, ◌++◌, Bytes, length, length-append, replicate, ◌==◌, if◌then◌else◌,
  u32, arith,
}
use pad_proxy.Ota.Flash.{
  FlashWriter, sector_size, writer_init, padded, flashed, flush, flash_write_cb,
}
use pad_proxy.Ota.Flash.Bytewise.{flash_write_cb-write_bytes}
use pad_proxy.Ota.Flash.Image.{
  none_yet, sector, image, image-sector, sectors_of, length-padded, flush-cases, Safe, Written,
  Ends, good, bad, write_bytes-Ends,
}

abbrev pub concat : List Bytes → Bytes
concat [] = []
concat (bs ∷ chunks) = bs ++ concat chunks

-- The chunks of a body, up to the first that is refused.
unfoldable pub write_chunks : List Bytes → FlashWriter → Bool × FlashWriter
write_chunks [] fw = (true, fw)
write_chunks (bs ∷ chunks) fw =
    let (ok, fw1) = flash_write_cb bs fw in
    let rest = write_chunks chunks fw1 in if ok then rest else (false, fw1)

-- The use that `ota_update_check_and_apply` makes of the writer.
unfoldable pub install : ℕ → ℕ → List Bytes → Bool × FlashWriter
install start max_size chunks =
    let (ok, fw) = write_chunks chunks (writer_init start max_size []) in
    if ok then flush fw else (false, fw)

pub flash_write_cb-Ends :
    (start stop : ℕ) (bs bytes : Bytes) (fw : FlashWriter)
    → stop + sector_size < 4294967296
    → Written start stop bytes fw
    → Ends start stop (bytes ++ bs) (flash_write_cb bs fw)
flash_write_cb-Ends start stop bs bytes fw small w =
    let same = (flash_write_cb-write_bytes bs fw w.open_sector).1 in
    rw same (write_bytes-Ends start stop bs bytes fw small w)

write_chunks-Ends :
    (start stop : ℕ) (chunks : List Bytes) (bytes : Bytes) (fw : FlashWriter)
    → stop + sector_size < 4294967296
    → Written start stop bytes fw
    → Ends start stop (bytes ++ concat chunks) (write_chunks chunks fw)
unfolding write_chunks
write_chunks-Ends start stop [] bytes fw small w = rw (append-nil bytes) (good w)
write_chunks-Ends start stop (bs ∷ chunks) bytes fw small w =
    let (yes_case, no_case) = flash_write_cb-Ends start stop bs bytes fw small w in
    let regroup = append_assoc bytes bs (concat chunks) in
    elim (Bool-cases (flash_write_cb bs fw).0) [
      | inl ok ↦
          simp (ok, sym regroup)
            (write_chunks-Ends start stop chunks (bytes ++ bs) (flash_write_cb bs fw).1 small
              (yes_case ok))
      | inr e ↦
          simp (e, sym regroup)
            (bad (no_case e).0
              (omega (arith, (no_case e).1, length-append (bytes ++ bs) (concat chunks))))
    ]

pub init-Written :
    (start max_size : ℕ)
    → start + max_size < 4294967296
    → Written start (start + max_size) [] (writer_init start max_size [])
unfolding writer_init
init-Written start max_size h = record {
  safe = record { laid = none_yet refl refl; within = omega arith };
  content = refl;
  size = refl;
  open_sector = omega arith;
  stop_at = omega (arith, h);
  total = refl;
  no_error = refl;
}

-- What a whole image leaves in the flash.
pub record Installed (start stop : ℕ) (bytes : Bytes) (fw : FlashWriter) : Type 0 where
  pub padding : ℕ
  pub content : image fw.calls ≡ bytes ++ replicate padding 0xFF
  pub short_padding : padding < sector_size
  pub total : fw.total_written ≡ u32 (length bytes)
  pub no_error : fw.error ≡ false

empty_of_length : (bs : Bytes) → (length bs == 0) ≡ true → bs ≡ []
empty_of_length [] h = refl
empty_of_length (b ∷ bs) h = absurd (ground (arith, h))

flush-empty : (fw : FlashWriter) → (length fw.sector == 0) ≡ true → flush fw ≡ (true, fw)
unfolding flush
flush-empty fw h = simp h

flashed-Installed :
    (start stop : ℕ) (bytes : Bytes) (fw : FlashWriter)
    → Written start stop bytes fw
    → length fw.sector ≢ 0
    → Installed start stop bytes (flashed fw)
unfolding flashed
flashed-Installed start stop bytes fw w n = record {
  padding = sector_size - length fw.sector;
  content =
      image-sector fw.calls fw.flash_offset (padded fw.sector)
      ∙ sym (append_assoc (image fw.calls) fw.sector _)
      ∙ ap (λ t. t ++ replicate (sector_size - length fw.sector) 0xFF) w.content;
  short_padding = omega (arith, n);
  total = w.total;
  no_error = w.no_error;
}

flashed-Safe :
    (start stop : ℕ) (bytes : Bytes) (fw : FlashWriter)
    → stop + sector_size < 4294967296
    → Written start stop bytes fw
    → fw.flash_offset + sector_size ≤ stop
    → Safe start stop (flashed fw)
unfolding flashed
flashed-Safe start stop bytes fw small w room = record {
  laid =
      sector (padded fw.sector) w.safe.laid (length-padded fw.sector (omega (arith, w.open_sector)))
        refl (omega (arith, small, room));
  within = omega (arith, small, room);
}

-- How the last flush ends.
pub record Flushed (start stop : ℕ) (bytes : Bytes) (fw : FlashWriter) (r : Bool × FlashWriter)
    : Type 0 where
  pub safe : Safe start stop r.1
  pub installs : r.0 ≡ true → Installed start stop bytes r.1
  pub room_iff : (r.0 ≡ true) ↔ ((length fw.sector ≡ 0) ⊎ (fw.flash_offset + sector_size ≤ stop))

pub flush-Flushed :
    (start stop : ℕ) (bytes : Bytes) (fw : FlashWriter)
    → stop + sector_size < 4294967296
    → Written start stop bytes fw
    → Flushed start stop bytes fw (flush fw)
flush-Flushed start stop bytes fw small w = elim (Bool-cases (length fw.sector == 0)) [
  | inl empty ↦ rw (flush-empty fw empty) (record {
    safe = w.safe;
    installs = λ _. record {
      padding = 0;
      content =
          sym (append-nil (image fw.calls))
          ∙ ap (λ s. image fw.calls ++ s) (sym (empty_of_length fw.sector empty))
          ∙ w.content
          ∙ sym (append-nil bytes);
      short_padding = omega arith;
      total = w.total;
      no_error = w.no_error;
    };
    room_iff = ground (arith, empty);
  })
  | inr n ↦
      let some_bytes : length fw.sector ≢ 0 = ground (arith, n) in
      elim (flush-cases fw some_bytes) [
        | inl (f, room) ↦
            let fits : fw.flash_offset + sector_size ≤ stop =
              omega (arith, small, w.stop_at, w.safe.within, room) in
            rw f (record {
              safe = flashed-Safe start stop bytes fw small w fits;
              installs = λ _. flashed-Installed start stop bytes fw w some_bytes;
              room_iff = ground (arith, fits);
            })
        | inr (f, over) ↦
            let full : stop < fw.flash_offset + sector_size =
              omega (arith, small, w.stop_at, w.safe.within, over) in
            rw f (record {
              safe = w.safe;
              installs = λ e. absurd (cc e);
              room_iff = ground (arith, full, some_bytes);
            })
      ]
]

install-Written :
    (start max_size : ℕ) (chunks : List Bytes)
    → start + max_size + sector_size < 4294967296
    → Ends start
        (start + max_size)
        (concat chunks)
        (write_chunks chunks (writer_init start max_size []))
install-Written start max_size chunks small =
    write_chunks-Ends start (start + max_size) chunks [] (writer_init start max_size []) small
      (init-Written start max_size (omega (arith, small)))

-- Whatever chunks arrive, every erase and write is of a whole sector of the partition, the sectors
-- follow one another from its start and none is touched twice. If the writer reports success, what was
-- written is the bytes of all chunks in order, padded with 0xFF to the end of the last sector.
pub install-Safe :
    (start max_size : ℕ) (chunks : List Bytes)
    → start + max_size + sector_size < 4294967296
    → let (ok, fw) = install start max_size chunks in
      Safe start (start + max_size) fw
      × (ok ≡ true → Installed start (start + max_size) (concat chunks) fw)
unfolding install
install-Safe start max_size chunks small =
    let ends = install-Written start max_size chunks small in
    let r = write_chunks chunks (writer_init start max_size []) in
    elim (Bool-cases r.0) [
      | inl ok ↦
          let f = flush-Flushed start (start + max_size) (concat chunks) r.1 small (ends.0 ok) in
          simp ok (f.safe, f.installs)
      | inr e ↦ simp e ((ends.1 e).0, λ h. absurd (cc h))
    ]

-- For a partition of whole sectors the writer reports success exactly when the image fits.
pub install_iff :
    (start sectors : ℕ) (chunks : List Bytes)
    → start + sectors * sector_size + sector_size < 4294967296
    → ((install start (sectors * sector_size) chunks).0 ≡ true)
      ↔ (length (concat chunks) ≤ sectors * sector_size)
unfolding install
install_iff start sectors chunks small =
    let stop = start + sectors * sector_size in
    let ends = install-Written start (sectors * sector_size) chunks small in
    let r = write_chunks chunks (writer_init start (sectors * sector_size) []) in
    elim (Bool-cases r.0) [
      | inl ok ↦
          let w = ends.0 ok in
          let f = flush-Flushed start stop (concat chunks) r.1 small w in
          let (k, at) = sectors_of w.safe.laid in
          simp ok (ground (arith, f.room_iff, at, w.size, w.safe.within, w.open_sector))
      | inr e ↦ simp e (ground (arith, (ends.1 e).1))
    ]
