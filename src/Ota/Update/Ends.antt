-- ===== src/Ota/Update/Ends.antt =====
-- A run of `ota_update_check_and_apply` ends.
use pad_proxy.Base.{
  ℕ, refl, inl, inr, Bool, not, Bool-cases, Option, none, some, List, [], ◌∷◌, Bytes,
}
use pad_proxy.Ota.Version.{Version}
use pad_proxy.Ota.Flash.{find_target_partition, FlashCall, writer_init}
use pad_proxy.Ota.Client.{Client}
use pad_proxy.Ota.Client.Results.{Returns}
use pad_proxy.Ota.Client.Deadline.{Sleeps, https_get_follow-Returns}
use pad_proxy.Ota.Update.{
  UpdateResult, WifiCreds, World, to_api_buf, to_flash, Verdict, ends, fetch, after_download,
  run_verdict, read_release, after_release, end_online, with_partition, with_ssid, check_and_apply,
}

run_verdict-Returns :
    (w : World) (target size : ℕ) (v : Verdict)
    → ((k : ℕ) → Sleeps (w.download k))
    → Returns (run_verdict w target size v)
unfolding run_verdict
run_verdict-Returns w target size (ends r) s = (_, refl)
run_verdict-Returns w target size (fetch url) s =
    downloads _ (https_get_follow-Returns w.download url (to_flash (writer_init target size [])) s)
  where
    downloads : (o : Option (Bool × Client)) → Returns o → Returns (after_download o)
    downloads o (r, e) = rw e (_, refl)

after_release-Returns :
    (w : World) (current : Version) (target size : ℕ) (o : Option (Bool × Client))
    → Returns o
    → ((k : ℕ) → Sleeps (w.download k))
    → Returns (after_release w current target size o)
after_release-Returns w current target size o (r, e) s =
    rw e (run_verdict-Returns w target size (read_release current r) s)

end_online-Returns :
    (ssid : Bytes) (password : Option Bytes) (target : ℕ)
    (o : Option (UpdateResult × List FlashCall))
    → Returns o
    → Returns (end_online ssid password target o)
end_online-Returns ssid password target o (r, e) = rw e (_, refl)

with_partition-Returns :
    (w : World) (current : Version) (url ssid : Bytes) (password : Option Bytes)
    (p : Option (ℕ × ℕ))
    → ((k : ℕ) → Sleeps (w.release k))
    → ((k : ℕ) → Sleeps (w.download k))
    → Returns (with_partition w current url ssid password p)
with_partition-Returns w current url ssid password none s t = (_, refl)
with_partition-Returns w current url ssid password (some (target, size)) s t =
    elim (Bool-cases (not w.radio_ok)) [
      | inl no_radio ↦ simp no_radio (_, refl)
      | inr radio ↦ elim (Bool-cases (not w.wifi_ok)) [
        | inl no_wifi ↦ simp (radio, no_wifi) (_, refl)
        | inr wifi ↦
            simp (radio, wifi)
              (end_online-Returns ssid password target _ (
                after_release-Returns w current target size _
                  (https_get_follow-Returns w.release url to_api_buf s) t))
      ]
    ]

with_ssid-Returns :
    (w : World) (current : Version) (url : Bytes) (password ssid : Option Bytes)
    → ((k : ℕ) → Sleeps (w.release k))
    → ((k : ℕ) → Sleeps (w.download k))
    → Returns (with_ssid w current url password ssid)
with_ssid-Returns w current url password none s t = (_, refl)
with_ssid-Returns w current url password (some []) s t = (_, refl)
with_ssid-Returns w current url password (some (c ∷ cs)) s t =
    with_partition-Returns w current url (c ∷ cs) password (find_target_partition w.partition) s t

-- Each run ends with a result, whatever the partition table, the radio and the network answer, as the
-- loops that wait sleep a millisecond at least between two looks at their deadline.
pub check_and_apply-Returns :
    (w : World) (current : Version) (url : Bytes) (creds : Option WifiCreds)
    → ((k : ℕ) → Sleeps (w.release k))
    → ((k : ℕ) → Sleeps (w.download k))
    → Returns (check_and_apply w current url creds)
unfolding check_and_apply
check_and_apply-Returns w current url none s t = (_, refl)
check_and_apply-Returns w current url (some creds) s t =
    with_ssid-Returns w current url creds.password creds.ssid s t
