-- ===== src/Ota/Update/Installs.antt =====
-- The update that goes well.
use pad_proxy.Base.{
  ℕ, ◌+◌, ◌-◌, ◌≤◌, ◌<◌, ◌≡◌, refl, ap, ◌∙◌, true, false, ◌⊎◌, ◌*◌, Option, some, List, [], ◌∷◌,
  ◌++◌, Bytes, length, replicate, take, ◌==◌, u32, arith,
}
use pad_proxy.Base.Int.{pos}
use pad_proxy.Setup.Text.{c_string}
use pad_proxy.Ota.Url.{Url, parse_url}
use pad_proxy.Ota.Version.{Version}
use pad_proxy.Ota.Flash.{
  find_target_partition, FlashCall, FlashWriter, sector_size, writer_init, flush,
}
use pad_proxy.Ota.Flash.Image.{image, Written, sectors_of}
use pad_proxy.Ota.Flash.Install.{Installed, init-Written, flush-Flushed}
use pad_proxy.Ota.Client.{Client, url_max, https_get_follow}
use pad_proxy.Ota.Client.Answer.{
  Answers, Collected, https_get_follow-Collected, https_get_follow-Flashed,
}
use pad_proxy.Ota.Update.Newer.{Newer}
use pad_proxy.Ota.Update.Partition.{first_sector, last_sector, bounds}
use pad_proxy.Ota.Update.{
  UpdateResult, update_applied, WifiCreds, World, to_api_buf, to_flash, fetch, downloaded,
  after_download, opening, finish_download, run_verdict, read_release, after_release,
  check_and_apply, end_online, sta_off, radio_deinit, flash_update_reboot, xip_base,
}

-- Everything that an update needs: credentials, a target partition, the network, a release that is newer,
-- and an image that fits.
pub record GoesWell (w : World) (current : Version) (url : Bytes) (creds : WifiCreds)
    (json asset body : Bytes) : Type 0 where
  pub first : ℕ
  pub rest : Bytes
  pub has_ssid : creds.ssid ≡ some (first ∷ rest)
  pub target : ℕ
  pub size : ℕ
  pub partition : find_target_partition w.partition ≡ some (target, size)
  pub in_order : first_sector w.partition ≤ last_sector w.partition
  pub radio : w.radio_ok ≡ true
  pub wifi : w.wifi_ok ≡ true
  pub release_url : Url
  pub release_valid : parse_url 128 512 (take url_max url) ≡ some release_url
  pub release : Answers (w.release 0) json
  pub release_fits : length json < 8192
  pub newer : Newer current (c_string json) asset
  pub asset_url : Url
  pub asset_valid : parse_url 128 512 (take url_max asset) ≡ some asset_url
  pub download : Answers (w.download 0) body
  pub some_bytes : 0 < length body
  pub image_fits : length body ≤ size

pub read_release-fetch :
    (current : Version) (json asset : Bytes) (c : Client)
    → Collected json c.ctx
    → Newer current (c_string json) asset
    → read_release current (true, c) ≡ fetch asset
unfolding read_release
read_release-fetch current json asset c got n =
    simp (got.status, got.text, n.has_tag, n.parsed, n.newer, n.has_asset)

-- The last flush behind a download.
finish-Installed :
    (start stop : ℕ) (body : Bytes) (fw : FlashWriter) (d : Client)
    → stop + sector_size < 4294967296
    → Written start stop body fw
    → d.ctx.status_code ≡ pos 200
    → ((length fw.sector ≡ 0) ⊎ (fw.flash_offset + sector_size ≤ stop))
    → 0 < length body
    → start + length body ≤ stop
    → (v : FlashWriter) × (finish_download fw (true, d) ≡ (update_applied, v.calls))
      × Installed start stop body v
unfolding finish_download
finish-Installed start stop body fw d small w status room n fits =
    let f = flush-Flushed start stop body fw small w in
    let ok = f.room_iff.1 room in
    let done = f.installs ok in
    let some_written : ((flush fw).1.total_written == 0) ≡ false =
      ground (arith, done.total, n, fits, small) in
    ((flush fw).1, simp (status, ok, done.no_error, some_written), done)

-- The image in the flash: the bytes of the body, padded with 0xFF to the end of a sector.
abbrev pub IsImage : Bytes → List FlashCall → Type 0
IsImage body calls = (k : ℕ) × (k < sector_size) × (image calls ≡ body ++ replicate k 0xFF)

-- A step that ends with an update.
abbrev Applies : Bytes → Option (UpdateResult × List FlashCall) → Type 0
Applies body o = (calls : List FlashCall) × (o ≡ some (update_applied, calls)) × IsImage body calls

-- Step 4 against a server that answers.
run_verdict-Applies :
    (w : World) (target size sectors : ℕ) (url : Bytes) (u : Url) (body : Bytes)
    → target + size + sector_size < 4294967296
    → size ≡ sectors * sector_size
    → parse_url 128 512 (take url_max url) ≡ some u
    → Answers (w.download 0) body
    → 0 < length body
    → length body ≤ size
    → Applies body (run_verdict w target size (fetch url))
unfolding run_verdict
run_verdict-Applies w target size sectors url u body small whole valid s n fits =
    let stop = target + size in
    let fw = writer_init target size [] in
    let start = init-Written target size (omega (arith, small)) in
    let (d, run, got) =
      https_get_follow-Flashed w.download url u (to_flash fw) body valid s target stop fw small refl
        start (omega (arith, fits)) in
    let (k, at) = sectors_of got.written.safe.laid in
    let size_of = got.written.size in
    let within = got.written.safe.within in
    let open_sector = got.written.open_sector in
    let room : (length got.fw.sector ≡ 0) ⊎ (got.fw.flash_offset + sector_size ≤ stop) =
      ground (arith, at, size_of, within, open_sector, whole, fits) in
    let (v, ends_so, done) =
      finish-Installed target stop body got.fw d small got.written got.status room n
        (omega (arith, fits)) in
    (
      v.calls,
      ap after_download run
          ∙ ap (λ sink. some (downloaded sink (true, d))) got.is_sink
          ∙ ap some ends_so,
      (done.padding, done.short_padding, done.content),
    )

module _ (w : World) (current : Version) (url : Bytes) (creds : WifiCreds) (json asset body : Bytes)
    (g : GoesWell w current url creds json asset body) where
  -- Steps 1 to 4.
  applies :
      Applies body
        (after_release w current g.target g.size (https_get_follow w.release url to_api_buf))
  applies =
      let first = first_sector w.partition in
      let last = last_sector w.partition in
      let (at, end) = bounds w.partition g.target g.size g.partition g.in_order in
      let in_flash : last < 8192 = omega arith in
      let (c, run, got) =
        https_get_follow-Collected w.release url g.release_url to_api_buf json g.release_valid
          g.release refl refl refl g.release_fits in
      let (calls, ends_so, is_image) =
        run_verdict-Applies w g.target g.size (last - first + 1) asset g.asset_url body
          (omega (arith, end, in_flash)) (omega (arith, at, end, g.in_order)) g.asset_valid
          g.download g.some_bytes g.image_fits in
      (
        calls,
        ap (after_release w current g.target g.size) run
            ∙ ap (run_verdict w g.target g.size)
                (read_release-fetch current json asset c got g.newer)
            ∙ ends_so,
        is_image,
      )

  -- With an SSID, a target partition that does not end before it starts, a network that answers each
  -- request with status 200 in time (the name known or looked up, at most 19999 polls, of which any may
  -- deliver nothing), valid URLs, a release text that fits its buffer and describes a newer
  -- release, and an image that is not empty and fits the partition: the run ends with UPDATE_APPLIED,
  -- what it wrote to the partition is the image, padded with 0xFF to the end of a sector, and its last
  -- calls leave the station mode, switch off the radio and reboot into the partition.
  pub check_and_apply-IsImage :
      (calls : List FlashCall) × (check_and_apply w current url (some creds)
        ≡ some (record {
          result = update_applied;
          radio =
              opening (g.first ∷ g.rest) creds.password
              ++ sta_off ∷ radio_deinit ∷ flash_update_reboot (u32 (xip_base + g.target)) ∷ [];
          flash = calls;
        }))
      × IsImage body calls
  unfolding check_and_apply
  check_and_apply-IsImage =
      let (calls, ends_so, is_image) = applies in
      (
        calls,
        simp (g.has_ssid, g.partition, g.radio, g.wifi)
            (ap (end_online (g.first ∷ g.rest) creds.password g.target) ends_so),
        is_image,
      )
