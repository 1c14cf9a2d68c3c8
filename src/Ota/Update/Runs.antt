-- ===== src/Ota/Update/Runs.antt =====
-- How a run of `ota_update_check_and_apply` comes to an end: before it has a network, or behind the
-- request for the release.
use pad_proxy.Base.{
  ℕ, ◌≡◌, ◌≢◌, refl, inl, inr, Bool-cases, Option, none, some, List, [], ◌∷◌, Bytes,
}
use pad_proxy.Ota.Version.{Version}
use pad_proxy.Ota.Flash.{find_target_partition, FlashCall}
use pad_proxy.Ota.Client.{https_get_follow}
use pad_proxy.Ota.Client.Results.{OfResult}
use pad_proxy.Ota.Update.{
  UpdateResult, update_applied, error_no_wifi_config, error_wifi, error_flash, WifiCreds, RadioCall,
  World, Outcome, to_api_buf, ended, after_release, end_online, with_partition, with_ssid,
  check_and_apply,
}

module _ (w : World) (current : Version) (url : Bytes) (P : Outcome → Type 0)
    (offline : (r : UpdateResult) (radio : List RadioCall)
      → r ≢ update_applied
      → P (record { result = r; radio = radio; flash = [] }))
    (online : (target size : ℕ) (ssid : Bytes) (password : Option Bytes)
      → find_target_partition w.partition ≡ some (target, size)
      → OfResult
          (λ r. P (ended ssid password target r))
          (after_release w current target size (https_get_follow w.release url to_api_buf))) where
  end_online-OfResult :
      (ssid : Bytes) (password : Option Bytes) (target : ℕ)
      (o : Option (UpdateResult × List FlashCall))
      → OfResult (λ r. P (ended ssid password target r)) o
      → OfResult P (end_online ssid password target o)
  end_online-OfResult ssid password target none h = tt
  end_online-OfResult ssid password target (some r) h = h

  with_partition-OfResult :
      (ssid : Bytes) (password : Option Bytes) (p : Option (ℕ × ℕ))
      → find_target_partition w.partition ≡ p
      → OfResult P (with_partition w current url ssid password p)
  with_partition-OfResult ssid password none e = offline error_flash _ (λ h. absurd (cc h))
  with_partition-OfResult ssid password (some (target, size)) e = elim (Bool-cases w.radio_ok) [
    | inl radio ↦ elim (Bool-cases w.wifi_ok) [
      | inl wifi ↦
          simp (radio, wifi)
            (end_online-OfResult ssid password target _ (online target size ssid password e))
      | inr no_wifi ↦ simp (radio, no_wifi) (offline error_wifi _ (λ h. absurd (cc h)))
    ]
    | inr no_radio ↦ simp no_radio (offline error_wifi _ (λ h. absurd (cc h)))
  ]

  with_ssid-OfResult :
      (password ssid : Option Bytes) → OfResult P (with_ssid w current url password ssid)
  with_ssid-OfResult password none = offline error_no_wifi_config _ (λ h. absurd (cc h))
  with_ssid-OfResult password (some []) = offline error_no_wifi_config _ (λ h. absurd (cc h))
  with_ssid-OfResult password (some (c ∷ cs)) = with_partition-OfResult (c ∷ cs) password _ refl

  pub check_and_apply-OfResult :
      (creds : Option WifiCreds) → OfResult P (check_and_apply w current url creds)
  unfolding check_and_apply
  check_and_apply-OfResult none = offline error_no_wifi_config _ (λ h. absurd (cc h))
  check_and_apply-OfResult (some creds) = with_ssid-OfResult creds.password creds.ssid
