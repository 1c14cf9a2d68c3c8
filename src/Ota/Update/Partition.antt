-- ===== src/Ota/Update/Partition.antt =====
-- A run of `ota_update_check_and_apply` writes to the target partition and nowhere else.
use mathlib.Core.Path.{subst}
use pad_proxy.Base.{
  ℕ, ◌+◌, ◌-◌, ◌*◌, ◌/◌, ◌%◌, ◌≤◌, ◌<◌, ◌≡◌, ◌≢◌, refl, ap, ap₂, sym, ◌∙◌, inl, inr, Bool, true,
  false, not, ◌||◌, Bool-cases, Option, none, some, List, [], Bytes, length, replicate,
  length-append, ◌==◌, shr, arith,
}
use pad_proxy.Base.Bits.{bit_and_ones}
use pad_proxy.Ota.Version.{Version}
use pad_proxy.Ota.Flash.{
  PartitionAnswer, find_target_partition, FlashCall, FlashWriter, sector_size, writer_init, flush,
}
use pad_proxy.Ota.Flash.Image.{Laid, none_yet, image, Safe, Written}
use pad_proxy.Ota.Flash.Install.{Installed, init-Written, flush-Flushed}
use pad_proxy.Ota.Client.{Client, https_get_follow}
use pad_proxy.Ota.Client.Results.{OfResult}
use pad_proxy.Ota.Client.Sink.{FedGet, https_get_follow-Fed}
use pad_proxy.Ota.Update.Runs.{check_and_apply-OfResult}
use pad_proxy.Ota.Update.Newer.{Justified, read_release-Justified}
use pad_proxy.Ota.Update.{
  UpdateResult, update_applied, error_http, error_flash, WifiCreds, World, Outcome, to_api_buf,
  to_flash, Verdict, ends, fetch, is_ok_status, written_of, finish_download, downloaded,
  after_download, run_verdict, read_release, after_release, ended, check_and_apply,
}

-- The numbers of the first and the last sector of the target partition.
abbrev pub first_sector : PartitionAnswer → ℕ
first_sector part = part.permissions_and_location % 8192

abbrev pub last_sector : PartitionAnswer → ℕ
last_sector part = part.permissions_and_location / 8192 % 8192

found :
    (part : PartitionAnswer)
    → first_sector part ≤ last_sector part
    → (part.rc == 0) ≡ true
    → find_target_partition part
      ≡ some (
        first_sector part * sector_size,
        (last_sector part - first_sector part + 1) * sector_size,
      )
unfolding find_target_partition
found part h ok =
    let x = part.permissions_and_location in
    let first = bit_and_ones 13 x in
    let last = bit_and_ones 13 (shr x 13) in
    simp ok (ap₂ (λ a b. some (a, b)) (omega (arith, first)) (omega (arith, first, last, h)))

not_found : (part : PartitionAnswer) → (part.rc == 0) ≡ false → find_target_partition part ≡ none
unfolding find_target_partition
not_found part bad = simp bad

pair_of : Option (ℕ × ℕ) → ℕ × ℕ
pair_of none = (0, 0)
pair_of (some p) = p

pub bounds :
    (part : PartitionAnswer) (target size : ℕ)
    → find_target_partition part ≡ some (target, size)
    → first_sector part ≤ last_sector part
    → (target ≡ first_sector part * sector_size)
      × (target + size ≡ (last_sector part + 1) * sector_size)
unfolding pair_of
bounds part target size e h = elim (Bool-cases (part.rc == 0)) [
  | inl ok ↦
      let same = ap pair_of (sym e ∙ found part h ok) in
      let at = ap (λ p. p.0) same in
      let room = ap (λ p. p.1) same in (at, omega (arith, at, room, h))
  | inr bad ↦ absurd (cc (e, not_found part bad))
]

-- The flash calls follow one another from the start of a partition and stay within it; a result of
-- UPDATE_APPLIED comes with at least one byte.
unfoldable pub WritesWithin : ℕ → ℕ → UpdateResult × List FlashCall → Type 0
WritesWithin start stop (r, calls) =
    (at : ℕ) × Laid start calls at × (at ≤ stop) × (r ≡ update_applied → 0 < length (image calls))

image_bytes :
    {start stop : ℕ} {bytes : Bytes} {fw : FlashWriter}
    → Installed start stop bytes fw
    → fw.total_written ≢ 0
    → 0 < length (image fw.calls)
image_bytes {bytes = bytes} i n =
    omega (arith, n, i.total, ap length i.content, length-append bytes (replicate i.padding 0xFF))

no_bytes :
    (start stop : ℕ) (r : UpdateResult)
    → start ≤ stop
    → r ≢ update_applied
    → WritesWithin start stop (r, [])
unfolding WritesWithin
no_bytes start stop r h n = (start, none_yet refl refl, h, λ e. absurd (n e))

module _ (start stop : ℕ) (small : stop + sector_size < 4294967296) where
  within :
      (r : UpdateResult) (fw : FlashWriter)
      → Safe start stop fw
      → (r ≡ update_applied → 0 < length (image fw.calls))
      → WritesWithin start stop (r, fw.calls)
  unfolding WritesWithin
  within r fw s h = (fw.flash_offset, s.laid, s.within, h)

  written_of-WritesWithin :
      (bytes : Bytes) (fw : FlashWriter)
      → Written start stop bytes fw
      → WritesWithin start stop (written_of (flush fw))
  written_of-WritesWithin bytes fw w =
      let f = flush-Flushed start stop bytes fw small w in
      elim (Bool-cases (not (flush fw).0 || (flush fw).1.error)) [
        | inl failed ↦ simp failed (within error_flash (flush fw).1 f.safe (λ e. absurd (cc e)))
        | inr fine ↦
            let ok : (flush fw).0 ≡ true = ground (arith, fine) in
            let done = f.installs ok in
            elim (Bool-cases ((flush fw).1.total_written == 0)) [
              | inl empty ↦
                  simp (fine, empty) (within error_http (flush fw).1 f.safe (λ e. absurd (cc e)))
              | inr full ↦
                  simp (fine, full)
                    (within update_applied (flush fw).1 f.safe
                      (λ _. image_bytes done (ground (arith, full))))
            ]
      ]

  finish_download-WritesWithin :
      (fw : FlashWriter) (r : Bool × Client)
      → Safe start stop fw
      → (r.0 ≡ true → (bytes : Bytes) × Written start stop bytes fw)
      → WritesWithin start stop (finish_download fw r)
  unfolding finish_download
  finish_download-WritesWithin fw (false, c) s h = within error_http fw s (λ e. absurd (cc e))
  finish_download-WritesWithin fw (true, c) s h =
      elim (Bool-cases (not (is_ok_status c.ctx.status_code))) [
        | inl status ↦ simp status (within error_http fw s (λ e. absurd (cc e)))
        | inr fine ↦ let (bytes, w) = h refl in simp fine (written_of-WritesWithin bytes fw w)
      ]

  after_download-WritesWithin :
      (o : Option (Bool × Client))
      → OfResult (FedGet start stop small) o
      → OfResult (WritesWithin start stop) (after_download o)
  unfolding FedGet
  after_download-WritesWithin none f = tt
  after_download-WritesWithin (some (ok, c)) (f, e) =
      subst (λ sink. WritesWithin start stop (downloaded sink (ok, c))) (sym f.is_sink)
        (finish_download-WritesWithin f.fw (ok, c) f.safe (λ h. f.written (e h)))

module _ (target size : ℕ) (small : target + size + sector_size < 4294967296) where
  run_verdict-WritesWithin :
      (w : World) (current : Version) (r : Bool × Client) (v : Verdict)
      → Justified current r v
      → OfResult (WritesWithin target (target + size)) (run_verdict w target size v)
  unfolding run_verdict Justified
  run_verdict-WritesWithin w current release (ends r) q =
      no_bytes target (target + size) r (omega arith) q
  run_verdict-WritesWithin w current release (fetch url) q =
      let begin = init-Written target size (omega (arith, small)) in
      after_download-WritesWithin target (target + size) small _ (
        https_get_follow-Fed target (target + size) small w.download url
          (to_flash (writer_init target size [])) refl
          (record {
            fw = writer_init target size [];
            is_sink = refl;
            safe = begin.safe;
            written = λ _. ([], begin);
          }))

  after_release-WritesWithin :
      (w : World) (current : Version) (o : Option (Bool × Client))
      → OfResult (WritesWithin target (target + size)) (after_release w current target size o)
  after_release-WritesWithin w current none = tt
  after_release-WritesWithin w current (some r) =
      run_verdict-WritesWithin w current r (read_release current r)
        (read_release-Justified current r)

abbrev ResultWithin : ℕ → ℕ → Outcome → Type 0
ResultWithin start stop o = WritesWithin start stop (o.result, o.flash)

abbrev start_of : PartitionAnswer → ℕ
start_of part = first_sector part * sector_size

abbrev stop_of : PartitionAnswer → ℕ
stop_of part = (last_sector part + 1) * sector_size

online-WritesWithin :
    (w : World) (current : Version) (url : Bytes) (target size : ℕ) (ssid : Bytes)
    (password : Option Bytes)
    → first_sector w.partition ≤ last_sector w.partition
    → find_target_partition w.partition ≡ some (target, size)
    → OfResult
        (λ r.
          ResultWithin (start_of w.partition) (stop_of w.partition) (ended ssid password target r))
        (after_release w current target size (https_get_follow w.release url to_api_buf))
online-WritesWithin w current url target size ssid password le e =
    let (at, end) = bounds w.partition target size e le in
    rw (sym at, sym end) (after_release-WritesWithin target size (omega (arith, end)) w current _)

-- For a partition table whose target partition does not end before it starts, whatever the release and
-- the download answer: each erase and write is of a whole sector of that partition, one behind the other
-- from its start, and none is touched twice; a result of UPDATE_APPLIED comes with at least one byte.
pub check_and_apply-WritesWithin :
    (w : World) (current : Version) (url : Bytes) (creds : Option WifiCreds) (o : Outcome)
    → first_sector w.partition ≤ last_sector w.partition
    → check_and_apply w current url creds ≡ some o
    → WritesWithin
        (first_sector w.partition * sector_size)
        ((last_sector w.partition + 1) * sector_size)
        (o.result, o.flash)
check_and_apply-WritesWithin w current url creds o le e =
    let P = ResultWithin (start_of w.partition) (stop_of w.partition) in
    subst (OfResult P) e (
      check_and_apply-OfResult w current url P
        (λ r radio n. no_bytes (start_of w.partition) (stop_of w.partition) r (omega (arith, le)) n)
        (λ target size ssid password f.
          online-WritesWithin w current url target size ssid password le f)
        creds)
