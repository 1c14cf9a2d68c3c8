-- ===== src/Ota/Update/Newer.antt =====
-- What a run of `ota_update_check_and_apply` has seen before it asks for the new image, and before it
-- reboots into it.
use mathlib.Core.Path.{subst}
use pad_proxy.Base.{
  ℕ, ◌≡◌, ◌≢◌, refl, ap, ◌∙◌, inl, inr, Bool, true, false, Bool-cases, Option, none, some, List, [],
  Bytes, arith,
}
use pad_proxy.Base.Int.{ℤ, pos, negsuc, ltb_ℤ}
use pad_proxy.Setup.Text.{ascii, c_string}
use pad_proxy.Ota.Json.{json_find_string, find_bin_asset_url}
use pad_proxy.Ota.Version.{Version, parse, compare_versions}
use pad_proxy.Ota.Flash.{find_target_partition, FlashCall, FlashWriter, writer_init}
use pad_proxy.Ota.Client.{Client, https_get_follow}
use pad_proxy.Ota.Client.Results.{OfResult}
use pad_proxy.Ota.Update.Runs.{check_and_apply-OfResult}
use pad_proxy.Ota.Update.{
  UpdateResult, update_applied, WifiCreds, World, Outcome, to_api_buf, to_flash, Verdict, ends,
  fetch, is_ok_status, asset_of, newer_of, tag_of, finish_download, downloaded, after_download,
  run_verdict, read_release, after_release, ended, check_and_apply,
}

-- The release that the JSON text describes is newer, and has an image at `url`.
pub record Newer (current : Version) (json url : Bytes) : Type 0 where
  pub tag : Bytes
  pub remote : Version
  pub has_tag : json_find_string json (ascii "tag_name") 64 ≡ some tag
  pub parsed :
      parse (some tag) (some (record { major = 0; minor = 0; patch = 0 })) ≡ (true, some remote)
  pub newer : ltb_ℤ (pos 0) (compare_versions remote current) ≡ true
  pub has_asset : find_bin_asset_url json 512 ≡ some url

-- A verdict that ends the run does not claim an update; one that goes on has a newer release.
unfoldable pub Justified : Version → Bool × Client → Verdict → Type 0
Justified current r (ends result) = result ≢ update_applied
Justified current r (fetch url) =
    (r.0 ≡ true) × (r.1.ctx.status_code ≡ pos 200) × Newer current (c_string r.1.ctx.text) url

is_ok_status-pos : (code : ℤ) → is_ok_status code ≡ true → code ≡ pos 200
is_ok_status-pos (pos n) h = ap pos (ground (arith, h))
is_ok_status-pos (negsuc n) h = absurd (ground (arith, h))

module _ (current : Version) (c : Client) (ok : c.ctx.status_code ≡ pos 200) where
  abbrev json : Bytes
  json = c_string c.ctx.text

  asset_of-Justified :
      (tag : Bytes) (remote : Version) (url : Option Bytes)
      → json_find_string json (ascii "tag_name") 64 ≡ some tag
      → parse (some tag) (some (record { major = 0; minor = 0; patch = 0 })) ≡ (true, some remote)
      → ltb_ℤ (pos 0) (compare_versions remote current) ≡ true
      → find_bin_asset_url json 512 ≡ url
      → Justified current (true, c) (asset_of url)
  unfolding Justified
  asset_of-Justified tag remote none t p n u = λ e. absurd (cc e)
  asset_of-Justified tag remote (some url) t p n u = (
    refl,
    ok,
    record { tag = tag; remote = remote; has_tag = t; parsed = p; newer = n; has_asset = u },
  )

  newer_of-Justified :
      (tag : Bytes) (r : Bool × Option Version)
      → json_find_string json (ascii "tag_name") 64 ≡ some tag
      → parse (some tag) (some (record { major = 0; minor = 0; patch = 0 })) ≡ r
      → Justified current (true, c) (newer_of current json r)
  unfolding Justified
  newer_of-Justified tag (false, v) t p = λ e. absurd (cc e)
  newer_of-Justified tag (true, none) t p = λ e. absurd (cc e)
  newer_of-Justified tag (true, some remote) t p =
      elim (Bool-cases (ltb_ℤ (pos 0) (compare_versions remote current))) [
        | inl new ↦ simp new (asset_of-Justified tag remote _ t p new refl)
        | inr old ↦ simp old (λ e. absurd (cc e))
      ]

  tag_of-Justified :
      (tag : Option Bytes)
      → json_find_string json (ascii "tag_name") 64 ≡ tag
      → Justified current (true, c) (tag_of current json tag)
  unfolding Justified
  tag_of-Justified none t = λ e. absurd (cc e)
  tag_of-Justified (some tag) t = newer_of-Justified tag _ t refl

pub read_release-Justified :
    (current : Version) (r : Bool × Client) → Justified current r (read_release current r)
unfolding read_release Justified
read_release-Justified current (false, c) = λ e. absurd (cc e)
read_release-Justified current (true, c) = elim (Bool-cases (is_ok_status c.ctx.status_code)) [
  | inl ok ↦ simp ok (tag_of-Justified current c (is_ok_status-pos _ ok) _ refl)
  | inr bad ↦ simp bad (λ e. absurd (cc e))
]

-- The image was fetched from `url`, with status 200.
pub record Downloaded (w : World) (target size : ℕ) (url : Bytes) : Type 0 where
  pub client : Client
  pub fetched :
      https_get_follow w.download url (to_flash (writer_init target size [])) ≡ some (true, client)
  pub status : client.ctx.status_code ≡ pos 200

abbrev FromDownload : World → ℕ → ℕ → Bytes → UpdateResult × List FlashCall → Type 0
FromDownload w target size url r = r.0 ≡ update_applied → Downloaded w target size url

downloaded-FromDownload :
    (w : World) (target size : ℕ) (url : Bytes) (sink : Option FlashWriter) (r : Bool × Client)
    → https_get_follow w.download url (to_flash (writer_init target size [])) ≡ some r
    → FromDownload w target size url (downloaded sink r)
unfolding finish_download
downloaded-FromDownload w target size url none r e = λ h. absurd (cc h)
downloaded-FromDownload w target size url (some fw) (false, c) e = λ h. absurd (cc h)
downloaded-FromDownload w target size url (some fw) (true, c) e =
    elim (Bool-cases (is_ok_status c.ctx.status_code)) [
      | inl ok ↦ λ _. record { client = c; fetched = e; status = is_ok_status-pos _ ok }
      | inr bad ↦ simp bad (λ h. absurd (cc h))
    ]

after_download-FromDownload :
    (w : World) (target size : ℕ) (url : Bytes) (o : Option (Bool × Client))
    → https_get_follow w.download url (to_flash (writer_init target size [])) ≡ o
    → OfResult (FromDownload w target size url) (after_download o)
after_download-FromDownload w target size url none e = tt
after_download-FromDownload w target size url (some (ok, c)) e =
    downloaded-FromDownload w target size url c.ctx.sink (ok, c) e

-- What stands behind a reboot: the release, newer than the running version, and its image.
pub record Applied (w : World) (current : Version) (url : Bytes) (target size : ℕ) : Type 0 where
  pub release : Client
  pub fetched : https_get_follow w.release url to_api_buf ≡ some (true, release)
  pub status : release.ctx.status_code ≡ pos 200
  pub asset : Bytes
  pub newer : Newer current (c_string release.ctx.text) asset
  pub downloaded : Downloaded w target size asset

module _ (w : World) (current : Version) (url : Bytes) where
  abbrev Explained : ℕ → ℕ → UpdateResult → Type 0
  Explained target size r = r ≡ update_applied → Applied w current url target size

  run_verdict-Explained :
      (target size : ℕ) (r : Bool × Client) (v : Verdict)
      → https_get_follow w.release url to_api_buf ≡ some r
      → Justified current r v
      → OfResult (λ o. Explained target size o.0) (run_verdict w target size v)
  unfolding run_verdict Justified
  run_verdict-Explained target size r (ends result) e j = λ h. absurd (j h)
  run_verdict-Explained target size (ok, c) (fetch asset) e (o, s, n) =
      implied _ (after_download-FromDownload w target size asset _ refl)
    where
      implied :
          (o : Option (UpdateResult × List FlashCall))
          → OfResult (FromDownload w target size asset) o
          → OfResult (λ r. Explained target size r.0) o
      implied none h = tt
      implied (some r) h = λ u. record {
        release = c;
        fetched = e ∙ ap (λ b. some (b, c)) o;
        status = s;
        asset = asset;
        newer = n;
        downloaded = h u;
      }

  after_release-Explained :
      (target size : ℕ) (o : Option (Bool × Client))
      → https_get_follow w.release url to_api_buf ≡ o
      → OfResult (λ r. Explained target size r.0) (after_release w current target size o)
  after_release-Explained target size none e = tt
  after_release-Explained target size (some r) e =
      run_verdict-Explained target size r (read_release current r) e
        (read_release-Justified current r)

abbrev OutcomeExplained : World → Version → Bytes → Outcome → Type 0
OutcomeExplained w current url o =
    o.result ≡ update_applied
    → (target : ℕ) × (size : ℕ) × (find_target_partition w.partition ≡ some (target, size))
      × Applied w current url target size

online-Explained :
    (w : World) (current : Version) (url : Bytes) (target size : ℕ) (ssid : Bytes)
    (password : Option Bytes)
    → find_target_partition w.partition ≡ some (target, size)
    → OfResult
        (λ r. OutcomeExplained w current url (ended ssid password target r))
        (after_release w current target size (https_get_follow w.release url to_api_buf))
online-Explained w current url target size ssid password e =
    wider _ (after_release-Explained w current url target size _ refl)
  where
    wider :
        (o : Option (UpdateResult × List FlashCall))
        → OfResult (λ r. Explained w current url target size r.0) o
        → OfResult (λ r. OutcomeExplained w current url (ended ssid password target r)) o
    wider none h = tt
    wider (some r) h = λ u. (target, size, e, h u)

-- A result of UPDATE_APPLIED, with which the device reboots, means that the release was fetched with
-- status 200, that its tag is a version newer than the running one, that the image was fetched with
-- status 200 from the URL that the release names, and that there is a target partition.
pub check_and_apply-Newer :
    (w : World) (current : Version) (url : Bytes) (creds : Option WifiCreds) (o : Outcome)
    → check_and_apply w current url creds ≡ some o
    → o.result ≡ update_applied
    → (target : ℕ) × (size : ℕ) × (find_target_partition w.partition ≡ some (target, size))
      × Applied w current url target size
check_and_apply-Newer w current url creds o e =
    subst (OfResult (OutcomeExplained w current url)) e (
      check_and_apply-OfResult w current url (OutcomeExplained w current url)
        (λ r radio n h. absurd (n h)) (online-Explained w current url) creds)
