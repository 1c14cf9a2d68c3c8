-- ===== src/Ota/Update.antt =====
-- `ota_update_check_and_apply` of firmware/src/ota_update.c.

pub mod Runs
pub mod Ends
pub mod Partition
pub mod Newer
pub mod Installs
pub mod Release
mod Tests
use pad_proxy.Base.{
  ℕ, zero, suc, ◌+◌, ◌≡◌, Bool, true, false, not, ◌&&◌, ◌||◌, Option, none, some, List, [], ◌∷◌,
  ◌++◌, Bytes, length, take, ◌==◌, if◌then◌else◌, u32,
}
use pad_proxy.Base.Int.{ℤ, pos, negsuc, ltb_ℤ}
use pad_proxy.Setup.Text.{ascii, c_string}
use pad_proxy.Ota.Version.{Version, parse, compare_versions}
use pad_proxy.Ota.Json.{json_find_string, find_bin_asset_url}
use pad_proxy.Ota.Flash.{
  PartitionAnswer, find_target_partition, FlashCall, FlashWriter, writer_init, flush,
}
use pad_proxy.Ota.Http.{http_idle, HttpCtx}
use pad_proxy.Ota.Client.{Attempt, NetCall, Client, https_get_follow}

pub data UpdateResult : Type 0 where
  no_update update_applied error_no_wifi_config error_wifi error_http error_version error_flash :
      UpdateResult

-- `ota_update_result_name`
pub result_name : UpdateResult → Bytes
result_name no_update = ascii "NO_UPDATE"
result_name update_applied = ascii "UPDATE_APPLIED"
result_name error_no_wifi_config = ascii "ERROR_NO_WIFI_CONFIG"
result_name error_wifi = ascii "ERROR_WIFI"
result_name error_http = ascii "ERROR_HTTP"
result_name error_version = ascii "ERROR_VERSION"
result_name error_flash = ascii "ERROR_FLASH"

pub record WifiCreds : Type 0 where
  pub ssid : Option Bytes
  pub password : Option Bytes

-- The calls of the CYW43 driver, and the reboot.
pub data RadioCall : Type 0 where
  radio_init radio_deinit sta_on sta_off : RadioCall
  wifi_connect : Bytes → Option Bytes → RadioCall
  flash_update_reboot : ℕ → RadioCall

-- What the device and the network answer in one run.
pub record World : Type 0 where
  pub partition : PartitionAnswer
  pub radio_ok : Bool  -- `cyw43_arch_init` returns 0
  pub wifi_ok : Bool  -- `cyw43_arch_wifi_connect_timeout_ms` returns 0
  pub release : ℕ → Attempt  -- the requests for the release
  pub download : ℕ → Attempt  -- the requests for the image

pub record Outcome : Type 0 where
  pub result : UpdateResult
  pub radio : List RadioCall
  pub flash : List FlashCall

-- XIP_BASE of the SDK.
abbrev pub xip_base : ℕ
xip_base = 0x10000000

-- `memset(&http_ctx, 0, …)`, with the body's destination.
abbrev pub zeroed_ctx : HttpCtx
zeroed_ctx = record {
  state = http_idle;
  has_pcb = false;
  host = [];
  port = 0;
  path = [];
  status_code = pos 0;
  content_length = pos 0;
  hdr_buf = [];
  headers_done = false;
  has_body_buf = false;
  body = [];
  text = [];
  body_cap = 0;
  sink = none;
  location = [];
  complete = false;
  error = false;
}

abbrev pub to_api_buf : Client
to_api_buf = record { ctx = record zeroed_ctx { has_body_buf = true; body_cap = 8192 }; calls = [] }

abbrev pub to_flash : FlashWriter → Client
to_flash fw = record { ctx = record zeroed_ctx { sink = some fw }; calls = [] }

-- `GITHUB_OTA_OWNER` and `GITHUB_OTA_REPO`, if the build does not set them.
abbrev pub github_owner : Bytes
github_owner = ascii "mattico-inc"

abbrev pub github_repo : Bytes
github_repo = ascii "PadProxy"

-- The URL of the release, cut to `api_url`.
unfoldable pub api_url : Bytes → Bytes → Bytes
api_url owner repo = take 255 (
    ascii "https://api.github.com/repos/"
    ++ (owner ++ (ascii "/" ++ (repo ++ ascii "/releases/latest"))))

-- What a step decides: to end with a result, or to go on.
pub data Verdict : Type 0 where
  ends : UpdateResult → Verdict
  fetch : Bytes → Verdict

abbrev pub is_ok_status : ℤ → Bool
is_ok_status code = not (ltb_ℤ code (pos 200)) && not (ltb_ℤ (pos 200) code)

abbrev pub asset_of : Option Bytes → Verdict
asset_of none = ends error_http
asset_of (some url) = fetch url

abbrev pub newer_of : Version → Bytes → Bool × Option Version → Verdict
newer_of current json (false, v) = ends error_version
newer_of current json (true, none) = ends error_version
newer_of current json (true, some remote) =
    if not (ltb_ℤ (pos 0) (compare_versions remote current))
    then ends no_update
    else asset_of (find_bin_asset_url json 512)

abbrev pub tag_of : Version → Bytes → Option Bytes → Verdict
tag_of current json none = ends error_version
tag_of current json (some tag) =
    newer_of current json (parse (some tag) (some (record { major = 0; minor = 0; patch = 0 })))

-- Steps 1 to 3, behind the request: `remote_ver` is not initialised before `ota_version_parse`.
unfoldable pub read_release : Version → Bool × Client → Verdict
read_release current (false, c) = ends error_http
read_release current (true, c) =
    let json = c_string c.ctx.text in
    if not (is_ok_status c.ctx.status_code)
    then ends error_http
    else tag_of current json (json_find_string json (ascii "tag_name") 64)

abbrev pub written_of : Bool × FlashWriter → UpdateResult × List FlashCall
written_of (ok, fw) =
    if not ok || fw.error
    then (error_flash, fw.calls)
    else if fw.total_written == 0
    then (error_http, fw.calls)
    else (update_applied, fw.calls)

-- Step 4, behind the request.
unfoldable pub finish_download : FlashWriter → Bool × Client → UpdateResult × List FlashCall
finish_download fw (false, c) = (error_http, fw.calls)
finish_download fw (true, c) =
    if not (is_ok_status c.ctx.status_code) then (error_http, fw.calls) else written_of (flush fw)

-- The writer that the context points to.
abbrev pub downloaded : Option FlashWriter → Bool × Client → UpdateResult × List FlashCall
downloaded none r = (error_http, [])
downloaded (some fw) r = finish_download fw r

-- `cleanup`, or steps 5 and 6.
abbrev pub closing : ℕ → UpdateResult → List RadioCall
closing target update_applied =
    sta_off ∷ radio_deinit ∷ flash_update_reboot (u32 (xip_base + target)) ∷ []
closing target _ = sta_off ∷ radio_deinit ∷ []

-- The calls of `wifi_connect`.
abbrev pub join_wifi : Bytes → Option Bytes → List RadioCall
join_wifi ssid password = sta_on ∷ wifi_connect ssid password ∷ []

abbrev pub opening : Bytes → Option Bytes → List RadioCall
opening ssid password = radio_init ∷ join_wifi ssid password

abbrev pub ended : Bytes → Option Bytes → ℕ → UpdateResult × List FlashCall → Outcome
ended ssid password target (r, flash) = record {
  result = r;
  radio = opening ssid password ++ closing target r;
  flash = flash;
}

abbrev pub after_download : Option (Bool × Client) → Option (UpdateResult × List FlashCall)
after_download none = none
after_download (some (ok, c)) = some (downloaded c.ctx.sink (ok, c))

-- Step 4.
unfoldable pub run_verdict : World → ℕ → ℕ → Verdict → Option (UpdateResult × List FlashCall)
run_verdict w target size (ends r) = some (r, [])
run_verdict w target size (fetch url) =
    after_download (https_get_follow w.download url (to_flash (writer_init target size [])))

abbrev pub after_release :
    World → Version → ℕ → ℕ → Option (Bool × Client) → Option (UpdateResult × List FlashCall)
after_release w current target size none = none
after_release w current target size (some r) = run_verdict w target size (read_release current r)

abbrev pub end_online :
    Bytes → Option Bytes → ℕ → Option (UpdateResult × List FlashCall) → Option Outcome
end_online ssid password target none = none
end_online ssid password target (some r) = some (ended ssid password target r)

abbrev pub early : UpdateResult → List RadioCall → Option Outcome
early r radio = some (record { result = r; radio = radio; flash = [] })

-- Behind `find_target_partition`.
abbrev pub with_partition :
    World → Version → Bytes → Bytes → Option Bytes → Option (ℕ × ℕ) → Option Outcome
with_partition w current url ssid password none = early error_flash []
with_partition w current url ssid password (some (target, size)) =
    if not w.radio_ok
    then early error_wifi (radio_init ∷ [])
    else if not w.wifi_ok
    then early error_wifi (opening ssid password ++ radio_deinit ∷ [])
    else end_online ssid password target
        (after_release w current target size (https_get_follow w.release url to_api_buf))

-- The test of the SSID.
abbrev pub with_ssid : World → Version → Bytes → Option Bytes → Option Bytes → Option Outcome
with_ssid w current url password none = early error_no_wifi_config []
with_ssid w current url password (some []) = early error_no_wifi_config []
with_ssid w current url password (some (c ∷ cs)) =
    with_partition w current url (c ∷ cs) password (find_target_partition w.partition)

-- `none` would be a request that never ends.
unfoldable pub check_and_apply : World → Version → Bytes → Option WifiCreds → Option Outcome
check_and_apply w current url none = early error_no_wifi_config []
check_and_apply w current url (some creds) = with_ssid w current url creds.password creds.ssid
