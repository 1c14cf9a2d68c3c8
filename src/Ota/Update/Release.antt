-- ===== src/Ota/Update/Release.antt =====
-- What is decided on a release text: it is fetched exactly if its version ranks above the running one.
use mathlib.Core.List.{append-nil}
use pad_proxy.Base.{
  ◌≤◌, ◌<◌, ◌≡◌, refl, ap, sym, ◌∙◌, true, false, some, [], ◌∷◌, ◌++◌, Bytes, length, length-append,
  ◌==◌, arith,
}
use pad_proxy.Base.Int.{pos, ltb_ℤ}
use pad_proxy.Setup.Text.{ascii, c_string}
use pad_proxy.Setup.Strings.{IsCString}
use pad_proxy.Ota.Version.{Version, parse, compare_versions, decimal, version_text}
use pad_proxy.Ota.Version.Order.{IsVersion, rank, compare_versions-rank}
use pad_proxy.Ota.Version.RoundTrip.{parse-version_text}
use pad_proxy.Ota.Version.Decimal.{length-decimal}
use pad_proxy.Ota.Json.{json_find_string}
use pad_proxy.Ota.Json.Names.{Names, Asset, json_find_string-Names, find_bin_asset_url-Asset}
use pad_proxy.Ota.Client.{Client}
use pad_proxy.Ota.Client.Answer.{Collected}
use pad_proxy.Ota.Update.Newer.{Newer}
use pad_proxy.Ota.Update.Installs.{read_release-fetch}
use pad_proxy.Ota.Update.{no_update, ends, fetch, read_release}

length-version_text : (v : Version) → IsVersion v → length (version_text v) ≤ 17
unfolding version_text
length-version_text v h = omega (
  arith,
  length-append (decimal v.major ++ (b'.' ∷ decimal v.minor)) (b'.' ∷ decimal v.patch),
  length-append (decimal v.major) (b'.' ∷ decimal v.minor),
  length-decimal v.major (omega (arith, h.major_u16)),
  length-decimal v.minor (omega (arith, h.minor_u16)),
  length-decimal v.patch (omega (arith, h.patch_u16)),
)

c_string-whole : (s : Bytes) → IsCString s → c_string s ≡ s
c_string-whole [] h = refl
c_string-whole (c ∷ s) (n, h) =
    let some_byte : (c == 0) ≡ false = ground (arith, n) in
    simp some_byte (ap (λ t. c ∷ t) (c_string-whole s h))

-- A release of the version `v` with an image at `url`, as a JSON text.
pub record Release (v : Version) (url json : Bytes) : Type 0 where
  pub is_text : IsCString json
  pub version : IsVersion v
  pub tag : Names (ascii "tag_name") (b'v' ∷ version_text v) json
  pub asset : Asset url json
  pub url_fits : length url < 512

module _ (current v : Version) (url json : Bytes) (r : Release v url json) where
  tag_found : json_find_string json (ascii "tag_name") 64 ≡ some (b'v' ∷ version_text v)
  tag_found =
      json_find_string-Names (ascii "tag_name") (b'v' ∷ version_text v) json 64 r.tag
        (omega (arith, length-version_text v r.version))

  abbrev unset : Version
  unset = record { major = 0; minor = 0; patch = 0 }

  tag_parsed : parse (some (b'v' ∷ version_text v)) (some unset) ≡ (true, some v)
  tag_parsed =
      ap (λ s. parse (some (b'v' ∷ s)) (some unset)) (sym (append-nil (version_text v)))
      ∙ (parse-version_text unset [] r.version refl).1

  release-Newer : IsVersion current → rank current < rank v → Newer current json url
  release-Newer h above = record {
    tag = b'v' ∷ version_text v;
    remote = v;
    has_tag = tag_found;
    parsed = tag_parsed;
    newer = ap (ltb_ℤ (pos 0)) ((compare_versions-rank v current r.version h).0.1 above);
    has_asset = find_bin_asset_url-Asset url json 512 r.asset r.url_fits;
  }

  not_newer :
      IsVersion current → rank v ≤ rank current → ltb_ℤ (pos 0) (compare_versions v current) ≡ false
  unfolding compare_versions
  not_newer h le =
      ground (arith, h.minor_u16, h.patch_u16, r.version.minor_u16, r.version.patch_u16, le)

  -- Once the text of a release has been collected with status 200, the run goes on to fetch the image of the
  -- release exactly if its version ranks above the running one, and ends with NO_UPDATE otherwise.
  pub read_release-rank :
      (c : Client)
      → Collected json c.ctx
      → IsVersion current
      → (rank current < rank v → read_release current (true, c) ≡ fetch url)
        × (rank v ≤ rank current → read_release current (true, c) ≡ ends no_update)
  unfolding read_release
  read_release-rank c got h =
      let same = c_string-whole json r.is_text in
      (
        λ above. read_release-fetch current json url c got (rw same (release-Newer h above)),
        λ le. simp (got.status, got.text, same, tag_found, tag_parsed, not_newer h le),
      )
