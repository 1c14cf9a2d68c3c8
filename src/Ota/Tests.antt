-- ===== src/Ota/Tests.antt =====
-- A run against a server that has a newer release, and one against a server that is silent.
use mathlib.Core.List.{append-nil}
use pad_proxy.Base.{
  ℕ, zero, suc, ◌+◌, ◌*◌, ◌<◌, ◌≡◌, u32, length, get_or, Bool, true, false, Option, none, some,
  List, [], ◌∷◌, ◌++◌, Bytes, refl, arith,
}
use pad_proxy.Setup.Text.{ascii, c_string, skip_ws, sign, digits}
use pad_proxy.Ota.Text.{atoi}
use pad_proxy.Ota.Url.{Url, parse_url}
use pad_proxy.Ota.Headers.{crlf, parse_status_code, find_from, find_header, find_content_length}
use pad_proxy.Ota.Http.{header_loop, finish_headers, body_part, process_data}
use pad_proxy.Ota.Http.Segments.{receive}
use pad_proxy.Ota.Client.{
  req_size, write, Client, NetEvent, dns_found, connected, received, dns_ok, dns_in_progress,
  dns_found_cb, http_connected_cb, http_recv_cb, on_event, on_events, Attempt, poll_while, reset,
  end_request, connect, https_get, to_url, request_text, after_get, follow, https_get_follow,
}
use pad_proxy.Ota.Client.Script.{
  Serves, cached, unresolved, resolves, unconnected, connects, quiet, gives, closes,
}
use pad_proxy.Ota.Client.Answer.{Answers}
use pad_proxy.Ota.Client.Results.{Returns}
use pad_proxy.Ota.Client.Deadline.{Sleeps}
use pad_proxy.Ota.Client.Tls.{freed, tls_after, https_get_follow-IsIn}
use pad_proxy.Ota.Client.Request.{http_connected_cb-request_text}
use pad_proxy.Ota.Version.{Version, parse, compare_versions}
use pad_proxy.Ota.Json.{json_find_string, find_bin_asset_url}
use pad_proxy.Ota.Flash.{
  FlashCall, find_target_partition, sector_size, writer_init, flush, flash_write_cb, flashed,
  filled, write_loop,
}
use pad_proxy.Ota.Update.{
  update_applied, error_http, WifiCreds, World, Outcome, to_api_buf, github_owner, github_repo,
  api_url, run_verdict, read_release, finish_download, check_and_apply, opening, sta_off,
  radio_deinit, flash_update_reboot, xip_base,
}
use pad_proxy.Ota.Update.Installs.{GoesWell, IsImage, check_and_apply-IsImage}
use pad_proxy.Ota.Update.Ends.{check_and_apply-Returns}
use pad_proxy.Ota.Update.Newer.{Newer, Applied, check_and_apply-Newer}
use pad_proxy.Ota.Update.Partition.{WritesWithin, check_and_apply-WritesWithin}

-- A server that answers in one buffer and closes the connection.
abbrev answers : Bytes → Attempt
answers response = record {
  tls_ok = true;
  dns = dns_ok;
  pcb_ok = true;
  connect_ok = true;
  polls = λ i. delivered i;
  clock = λ i. i * 1000;
}
  where
    delivered : ℕ → List NetEvent
    delivered zero = connected true true ∷ []
    delivered (suc zero) = received (some (response ∷ [])) true ∷ []
    delivered (suc (suc i)) = received none true ∷ []

answers-Sleeps : (response : Bytes) → Sleeps (answers response)
answers-Sleeps response i = omega arith

-- A server whose name is looked up, with a poll that delivers nothing before each event.
abbrev late : Bytes → List (List NetEvent)
late response =
    []
    ∷ (dns_found true ∷ [])
    ∷ []
    ∷ (connected true true ∷ [])
    ∷ []
    ∷ (received (some (response ∷ [])) true ∷ [])
    ∷ []
    ∷ (received none true ∷ [])
    ∷ []

abbrev answers_late : Bytes → Attempt
answers_late response = record {
  tls_ok = true;
  dns = dns_in_progress;
  pcb_ok = true;
  connect_ok = true;
  polls = λ i. get_or (late response) i [];
  clock = λ i. i * 1000;
}

abbrev ok_headers : Bytes
ok_headers = ascii "HTTP/1.1 200 OK" ++ (crlf ++ crlf)

answers_late-Sleeps : (response : Bytes) → Sleeps (answers_late response)
answers_late-Sleeps response i = omega arith

abbrev ok_with : Bytes → Bytes
ok_with body = ok_headers ++ body

abbrev release_json : Bytes
release_json =
    ascii
      "{\"tag_name\": \"v1.2.3\",\"assets\":[{\"name\":\"padproxy.bin\",\"browser_download_url\":\"https://x/y\"}]}"

abbrev running : Version
running = record { major = 1; minor = 2; patch = 2 }

-- The sectors 2 to 3.
abbrev world : World
world = record {
  partition = record { rc = 0; permissions_and_location = 2 + 3 * 8192 };
  radio_ok = true;
  wifi_ok = true;
  release = λ k. answers (ok_with release_json);
  download = λ k. answers_late (ok_with (1 ∷ 2 ∷ 3 ∷ []));
}

abbrev net : WifiCreds
net = record { ssid = some (ascii "net"); password = none }

abbrev credentials : Option WifiCreds
credentials = some net

abbrev release_url : Bytes
release_url = ascii "https://api.github.com/repos/a/b/releases/latest"

url : api_url (ascii "a") (ascii "b") ≡ release_url
unfolding api_url
url = refl

url_of_build :
    api_url github_owner github_repo
    ≡ ascii "https://api.github.com/repos/mattico-inc/PadProxy/releases/latest"
unfolding api_url
url_of_build = refl

abbrev result_of : Option Outcome → Outcome
result_of none = record { result = error_http; radio = []; flash = [] }
result_of (some o) = o

abbrev last_run : Outcome
last_run = result_of (check_and_apply world running release_url credentials)

run_ends :
    (check_and_apply world running release_url credentials ≡ some last_run)
    × (last_run.result ≡ update_applied)
unfolding receive process_data header_loop finish_headers body_part parse_status_code find_header
    find_content_length find_from atoi skip_ws sign digits parse_url dns_found_cb http_connected_cb
    http_recv_cb on_event on_events poll_while reset end_request connect https_get request_text
    after_get follow https_get_follow parse compare_versions json_find_string find_bin_asset_url
    find_target_partition writer_init flush flash_write_cb flashed filled write_loop run_verdict
    read_release finish_download check_and_apply
run_ends = (refl, refl)

check_and_apply-Returns_example : Returns (check_and_apply world running release_url credentials)
check_and_apply-Returns_example =
    check_and_apply-Returns world running release_url credentials
      (λ k. answers-Sleeps (ok_with release_json))
      (λ k. answers_late-Sleeps (ok_with (1 ∷ 2 ∷ 3 ∷ [])))

check_and_apply-Newer_example :
    (target : ℕ) × (size : ℕ) × (find_target_partition world.partition ≡ some (target, size))
    × Applied world running release_url target size
check_and_apply-Newer_example =
    check_and_apply-Newer world running release_url credentials last_run run_ends.0 run_ends.1

check_and_apply-WritesWithin_example :
    WritesWithin (2 * sector_size) ((3 + 1) * sector_size) (last_run.result, last_run.flash)
check_and_apply-WritesWithin_example =
    check_and_apply-WritesWithin world running release_url credentials last_run (omega arith)
      run_ends.0

abbrev client_of : Option (Bool × Client) → Bool × Client
client_of none = (false, to_api_buf)
client_of (some r) = r

abbrev last_request : Bool × Client
last_request = client_of (https_get_follow world.release release_url to_api_buf)

request_ends : https_get_follow world.release release_url to_api_buf ≡ some last_request
unfolding receive process_data header_loop finish_headers body_part parse_status_code find_header
    find_content_length find_from atoi skip_ws sign digits parse_url dns_found_cb http_connected_cb
    http_recv_cb on_event on_events poll_while reset end_request connect https_get after_get follow
    https_get_follow
request_ends = refl

https_get_follow-IsIn_example : tls_after (some freed) last_request.1.calls ≡ some freed
https_get_follow-IsIn_example =
    https_get_follow-IsIn world.release release_url to_api_buf last_request
      (unfold tls_after in refl) request_ends

abbrev parsed_url : Url
parsed_url = record {
  host = ascii "api.github.com";
  port = 443;
  path = ascii "/repos/a/b/releases/latest";
}

http_connected_cb-request_text_example :
    (length (request_text parsed_url.path parsed_url.host) < req_size)
    × ((http_connected_cb true true (to_url parsed_url to_api_buf)).calls
        ≡ [] ++ write (request_text parsed_url.path parsed_url.host) ∷ [])
http_connected_cb-request_text_example =
    http_connected_cb-request_text release_url parsed_url to_api_buf (unfold parse_url in refl)

answers-Serves : (response : Bytes) → Serves (answers response) ((response ∷ []) ∷ [])
answers-Serves response = record {
  tls = refl;
  has_pcb = refl;
  connects_ok = refl;
  script =
      (connected true true ∷ [])
      ∷ (received (some (response ∷ [])) true ∷ [])
      ∷ (received none true ∷ [])
      ∷ [];
  answer = cached (connects (quiet (gives (response ∷ []) (quiet closes))));
  polls = (refl, omega arith, (refl, omega arith, (refl, omega arith, tt)));
  few = omega arith;
}

answers_late-Serves : (response : Bytes) → Serves (answers_late response) ((response ∷ []) ∷ [])
answers_late-Serves response = record {
  tls = refl;
  has_pcb = refl;
  connects_ok = refl;
  script = late response;
  answer = unresolved (
      resolves
        (unconnected (connects (quiet (quiet (gives (response ∷ []) (quiet (quiet closes))))))));
  polls = (
    refl,
    omega arith,
    (
      refl,
      omega arith,
      (
        refl,
        omega arith,
        (
          refl,
          omega arith,
          (refl, omega arith, (refl, omega arith, (refl, omega arith, (refl, omega arith, tt)))),
        ),
      ),
    ),
  );
  few = omega arith;
}

response-Answers :
    (a : Attempt) (body : Bytes) → Serves a ((ok_with body ∷ []) ∷ []) → Answers a body
unfolding parse_status_code find_header find_from atoi skip_ws sign digits
response-Answers a body s = record {
  chains = (ok_with body ∷ []) ∷ [];
  serves = s;
  hdr = ok_headers;
  sent = append-nil (ok_with body);
  once = (
    refl,
    (
      refl,
      (
        refl,
        (
          refl,
          (
            refl,
            (
              refl,
              (
                refl,
                (
                  refl,
                  (
                    refl,
                    (refl, (refl, (refl, (refl, (refl, (refl, (refl, (refl, (refl, refl))))))))),
                  ),
                ),
              ),
            ),
          ),
        ),
      ),
    ),
  );
  fits = omega arith;
  status = refl;
}

abbrev image_url : Bytes
image_url = ascii "https://x/y"

release_json-Newer : Newer running (c_string release_json) image_url
unfolding json_find_string find_bin_asset_url parse compare_versions atoi skip_ws sign digits
    find_from
release_json-Newer = record {
  tag = ascii "v1.2.3";
  remote = record { major = 1; minor = 2; patch = 3 };
  has_tag = refl;
  parsed = refl;
  newer = refl;
  has_asset = refl;
}

abbrev world-GoesWell :
    GoesWell world running release_url net release_json image_url (1 ∷ 2 ∷ 3 ∷ [])
world-GoesWell = record {
  first = 110;
  rest = ascii "et";
  has_ssid = refl;
  target = 2 * sector_size;
  size = 2 * sector_size;
  partition = unfold find_target_partition in refl;
  in_order = omega arith;
  radio = refl;
  wifi = refl;
  release_url = parsed_url;
  release_valid = unfold parse_url in refl;
  release =
      response-Answers (answers (ok_with release_json)) release_json
        (answers-Serves (ok_with release_json));
  release_fits = omega arith;
  newer = release_json-Newer;
  asset_url = record { host = ascii "x"; port = 443; path = ascii "/y" };
  asset_valid = unfold parse_url in refl;
  download =
      response-Answers (answers_late (ok_with (1 ∷ 2 ∷ 3 ∷ []))) (1 ∷ 2 ∷ 3 ∷ [])
        (answers_late-Serves (ok_with (1 ∷ 2 ∷ 3 ∷ [])));
  some_bytes = omega arith;
  image_fits = omega arith;
}

check_and_apply-IsImage_example :
    (calls : List FlashCall) × (check_and_apply world running release_url credentials
      ≡ some (record {
        result = update_applied;
        radio =
            opening (ascii "net") none
            ++ sta_off ∷ radio_deinit ∷ flash_update_reboot (u32 (xip_base + 2 * sector_size)) ∷ [];
        flash = calls;
      }))
    × IsImage (1 ∷ 2 ∷ 3 ∷ []) calls
check_and_apply-IsImage_example =
    check_and_apply-IsImage world running release_url net release_json image_url (1 ∷ 2 ∷ 3 ∷ [])
      world-GoesWell
