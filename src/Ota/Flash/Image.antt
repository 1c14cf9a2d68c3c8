-- ===== src/Ota/Flash/Image.antt =====
-- What the flash holds after a download: `flash_write_cb` over the chunks that arrive, and the final
-- `flash_writer_flush`.
use mathlib.Core.List.{append_assoc, append-nil}
use pad_proxy.Base.{
  ℕ, ◌≢◌, suc, ◌+◌, ◌-◌, ◌*◌, ◌≤◌, ◌<◌, ◌≡◌, ◌⊎◌, refl, ap, sym, ◌∙◌, inl, inr, Bool, true, false,
  Bool-cases, List, [], ◌∷◌, ◌++◌, Bytes, length, length-append, length-replicate, replicate, ltb,
  ◌==◌, u32, arith,
}
use pad_proxy.Ota.Flash.{
  FlashCall, erase, program, FlashWriter, sector_size, padded, flashed, flush, filled,
}
use pad_proxy.Ota.Flash.Bytewise.{write_byte, write_bytes, length-filled}

-- Sectors erased and programmed one behind the other, each once, from `start` to `stop`.
pub data Laid (start : ℕ) : List FlashCall → ℕ → Type 0 where
  none_yet : {calls : List FlashCall} {stop : ℕ} → calls ≡ [] → stop ≡ start → Laid start calls stop
  sector :
      {calls before : List FlashCall} {at stop : ℕ} (bs : Bytes)
      → Laid start before at
      → length bs ≡ sector_size
      → calls ≡ before ++ (erase at sector_size ∷ program at bs ∷ [])
      → stop ≡ at + sector_size
      → Laid start calls stop

-- The bytes that were programmed, in order.
abbrev pub image : List FlashCall → Bytes
image [] = []
image (erase at size ∷ calls) = image calls
image (program at bs ∷ calls) = bs ++ image calls

image-append : (a b : List FlashCall) → image (a ++ b) ≡ image a ++ image b
image-append [] b = refl
image-append (erase at size ∷ a) b = image-append a b
image-append (program at bs ∷ a) b =
    ap (λ t. bs ++ t) (image-append a b) ∙ sym (append_assoc bs (image a) (image b))

pub sectors_of :
    {start stop : ℕ} {calls : List FlashCall}
    → Laid start calls stop
    → (k : ℕ) × (stop ≡ start + k * sector_size)
sectors_of (none_yet e s) = (0, omega (arith, s))
sectors_of (sector bs l n e s) = let (k, h) = sectors_of l in (suc k, omega (arith, h, s))

-- All flash calls are between `start` and `stop`.
pub record Safe (start stop : ℕ) (fw : FlashWriter) : Type 0 where
  pub laid : Laid start fw.calls fw.flash_offset
  pub within : fw.flash_offset ≤ stop

-- The bytes that came so far are in the flash, but for those that wait in the sector buffer.
pub record Written (start stop : ℕ) (bytes : Bytes) (fw : FlashWriter) : Type 0 where
  pub safe : Safe start stop fw
  pub content : image fw.calls ++ fw.sector ≡ bytes
  pub size : fw.flash_offset + length fw.sector ≡ start + length bytes
  pub open_sector : length fw.sector < sector_size
  pub stop_at : fw.partition_end ≡ stop
  pub total : fw.total_written ≡ u32 (length bytes)
  pub no_error : fw.error ≡ false

-- A write either succeeds, or the partition is too small for the bytes so far.
abbrev pub Ends : ℕ → ℕ → Bytes → Bool × FlashWriter → Type 0
Ends start stop bytes r =
    (r.0 ≡ true → Written start stop bytes r.1)
    × (r.0 ≡ false → Safe start stop r.1 × (stop < start + length bytes))

pub length-padded : (bs : Bytes) → length bs ≤ sector_size → length (padded bs) ≡ sector_size
length-padded bs h = omega (
  arith,
  length-append bs (replicate (sector_size - length bs) 0xFF),
  length-replicate {A = ℕ} (sector_size - length bs) 0xFF,
)

padded-full : (bs : Bytes) → length bs ≡ sector_size → padded bs ≡ bs
padded-full bs h = let e : sector_size - length bs ≡ 0 = omega (arith, h) in rw e (append-nil bs)

pub flush-cases :
    (fw : FlashWriter)
    → length fw.sector ≢ 0
    → ((flush fw ≡ (true, flashed fw)) × (u32 (fw.flash_offset + sector_size) ≤ fw.partition_end))
      ⊎ ((flush fw ≡ (false, fw)) × (fw.partition_end < u32 (fw.flash_offset + sector_size)))
unfolding flush
flush-cases fw h =
    let n : (length fw.sector == 0) ≡ false = ground (arith, h) in
    elim (Bool-cases (ltb fw.partition_end (u32 (fw.flash_offset + sector_size)))) [
      | inl e ↦ inr (simp (n, e), ground (arith, e))
      | inr e ↦ inl (simp (n, e), ground (arith, e))
    ]

pub good :
    {start stop : ℕ} {bytes : Bytes} {fw : FlashWriter}
    → Written start stop bytes fw
    → Ends start stop bytes (true, fw)
good w = (λ e. w, λ e. absurd (cc e))

pub bad :
    {start stop : ℕ} {bytes : Bytes} {fw : FlashWriter}
    → Safe start stop fw
    → stop < start + length bytes
    → Ends start stop bytes (false, fw)
bad s h = (λ e. absurd (cc e), λ e. (s, h))

pub image-sector :
    (calls : List FlashCall) (at : ℕ) (bs : Bytes)
    → image (calls ++ (erase at sector_size ∷ program at bs ∷ [])) ≡ image calls ++ bs
image-sector calls at bs =
    image-append calls (erase at sector_size ∷ program at bs ∷ [])
    ∙ ap (λ t. image calls ++ t) (append-nil bs)

-- A byte that leaves room in the sector buffer.
filled-Written :
    (start stop b : ℕ) (bytes : Bytes) (fw : FlashWriter)
    → Written start stop bytes fw
    → suc (length fw.sector) < sector_size
    → Written start stop (bytes ++ b ∷ []) (filled (b ∷ []) fw)
unfolding filled
filled-Written start stop b bytes fw w h = record {
  safe = record { laid = w.safe.laid; within = w.safe.within };
  content =
      sym (append_assoc (image fw.calls) fw.sector (b ∷ [])) ∙ ap (λ t. t ++ b ∷ []) w.content;
  size = omega (arith, w.size, length-append bytes (b ∷ []), length-append fw.sector (b ∷ []));
  open_sector = omega (arith, h, length-append fw.sector (b ∷ []));
  stop_at = w.stop_at;
  total = omega (arith, w.total, length-append bytes (b ∷ []));
  no_error = w.no_error;
}

-- The byte that fills the sector, written out.
flashed-Written :
    (start stop b : ℕ) (bytes : Bytes) (fw : FlashWriter)
    → stop + sector_size < 4294967296
    → Written start stop bytes fw
    → suc (length fw.sector) ≡ sector_size
    → fw.flash_offset + sector_size ≤ stop
    → Written start stop (bytes ++ b ∷ []) (flashed (filled (b ∷ []) fw))
unfolding filled flashed
flashed-Written start stop b bytes fw small w full room =
    let len : length (fw.sector ++ b ∷ []) ≡ sector_size =
      omega (arith, full, length-append fw.sector (b ∷ [])) in
    let whole = padded-full (fw.sector ++ b ∷ []) len in
    record {
      safe = record {
        laid =
            sector (padded (fw.sector ++ b ∷ [])) w.safe.laid (ap length whole ∙ len) refl
              (omega (arith, small, room));
        within = omega (arith, small, room);
      };
      content =
          append-nil (
            image (
              fw.calls
              ++ (erase fw.flash_offset sector_size
                  ∷ program fw.flash_offset (padded (fw.sector ++ b ∷ []))
                  ∷ [])))
          ∙ image-sector fw.calls fw.flash_offset (padded (fw.sector ++ b ∷ []))
          ∙ ap (λ t. image fw.calls ++ t) whole
          ∙ sym (append_assoc (image fw.calls) fw.sector (b ∷ []))
          ∙ ap (λ t. t ++ b ∷ []) w.content;
      size = omega (arith, w.size, full, small, room, length-append bytes (b ∷ []));
      open_sector = omega arith;
      stop_at = w.stop_at;
      total = omega (arith, w.total, length-append bytes (b ∷ []));
      no_error = w.no_error;
    }

write_byte-Ends :
    (start stop b : ℕ) (bytes : Bytes) (fw : FlashWriter)
    → stop + sector_size < 4294967296
    → Written start stop bytes fw
    → Ends start stop (bytes ++ b ∷ []) (write_byte b fw)
unfolding write_byte filled
write_byte-Ends start stop b bytes fw small w =
    let fw1 = filled (b ∷ []) fw in
    let len = length-filled (b ∷ []) fw in
    elim (Bool-cases (length fw1.sector == sector_size)) [
      | inl full ↦
          let e : suc (length fw.sector) ≡ sector_size = ground (arith, full, len) in
          elim (flush-cases fw1 (omega (arith, len))) [
            | inl (f, room) ↦
                simp (full, f)
                  (good (
                    flashed-Written start stop b bytes fw small w e
                      (omega (arith, small, w.stop_at, w.safe.within, room))))
            | inr (f, over) ↦
                simp (full, f)
                  (bad (record { laid = w.safe.laid; within = w.safe.within })
                    (omega (
                      arith,
                      small,
                      w.stop_at,
                      w.safe.within,
                      w.size,
                      e,
                      over,
                      length-append bytes (b ∷ []),
                    )))
          ]
      | inr more ↦
          simp more (
            good
              (filled-Written start stop b bytes fw w (ground (arith, more, len, w.open_sector))))
    ]

pub write_bytes-Ends :
    (start stop : ℕ) (bs bytes : Bytes) (fw : FlashWriter)
    → stop + sector_size < 4294967296
    → Written start stop bytes fw
    → Ends start stop (bytes ++ bs) (write_bytes bs fw)
unfolding write_bytes
write_bytes-Ends start stop [] bytes fw small w = rw (append-nil bytes) (good w)
write_bytes-Ends start stop (b ∷ bs) bytes fw small w =
    let (yes_case, no_case) = write_byte-Ends start stop b bytes fw small w in
    let regroup = append_assoc bytes (b ∷ []) bs in
    elim (Bool-cases (write_byte b fw).0) [
      | inl ok ↦
          simp (ok, sym regroup)
            (write_bytes-Ends start stop bs (bytes ++ b ∷ []) (write_byte b fw).1 small
              (yes_case ok))
      | inr e ↦
          simp (e, sym regroup)
            (bad (no_case e).0 (omega (arith, (no_case e).1, length-append (bytes ++ b ∷ []) bs)))
    ]
