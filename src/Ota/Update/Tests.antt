-- ===== src/Ota/Update/Tests.antt =====
-- A release text, and what is decided on it.
use pad_proxy.Base.{◌≤◌, ◌<◌, ◌≡◌, refl, inl, inr, true, [], ◌∷◌, Bytes, arith}
use pad_proxy.Base.Int.{pos}
use pad_proxy.Setup.Text.{ascii}
use pad_proxy.Ota.Version.{Version, decimal, version_text}
use pad_proxy.Ota.Version.Order.{rank}
use pad_proxy.Ota.Json.Names.{Names, Asset}
use pad_proxy.Ota.Client.{Client}
use pad_proxy.Ota.Update.Release.{Release, read_release-rank}
use pad_proxy.Ota.Update.{no_update, zeroed_ctx, ends, fetch, read_release}

abbrev url : Bytes
url = ascii "https://x/y"

abbrev json : Bytes
json =
    ascii
      "{\"name\":\"PadProxy\",\"tag_name\": \"v1.2.3\",\"assets\":[{\"name\":\"padproxy.bin\",\"browser_download_url\":\"https://x/y\"}]}"

abbrev old_version : Version
old_version = record { major = 1; minor = 2; patch = 2 }

abbrev new_version : Version
new_version = record { major = 1; minor = 2; patch = 3 }

new_version_text : version_text new_version ≡ ascii "1.2.3"
unfolding version_text decimal
new_version_text = refl

json-Names : Names (ascii "tag_name") (b'v' ∷ version_text new_version) json
unfolding version_text decimal
json-Names = inr (
  refl,
  record {
    pre = ascii "{\"name\":\"PadProxy\",";
    rest =
        ascii ",\"assets\":[{\"name\":\"padproxy.bin\",\"browser_download_url\":\"https://x/y\"}]}";
    text = refl;
    first = (
      refl,
      (
        refl,
        (
          refl,
          (
            refl,
            (
              refl,
              (
                refl,
                (
                  refl,
                  (
                    refl,
                    (
                      refl,
                      (
                        refl,
                        (refl, (refl, (refl, (refl, (refl, (refl, (refl, (refl, (refl, tt))))))))),
                      ),
                    ),
                  ),
                ),
              ),
            ),
          ),
        ),
      ),
    );
    unquoted = ground arith;
  },
)

json-Asset : Asset url json
json-Asset = record {
  pre = ascii "{\"name\":\"PadProxy\",\"tag_name\": \"v1.2.3\",\"assets\":[{\"name\":";
  rest = ascii ",\"browser_download_url\":\"https://x/y\"}]}";
  text = refl;
  first = (
    refl,
    (
      refl,
      (
        refl,
        (
          refl,
          (
            refl,
            (
              refl,
              (
                refl,
                (
                  refl,
                  (
                    refl,
                    (
                      refl,
                      (
                        refl,
                        (
                          refl,
                          (
                            refl,
                            (
                              refl,
                              (
                                refl,
                                (
                                  refl,
                                  (
                                    refl,
                                    (
                                      refl,
                                      (
                                        refl,
                                        (
                                          refl,
                                          (
                                            refl,
                                            (
                                              refl,
                                              (
                                                refl,
                                                (
                                                  refl,
                                                  (
                                                    refl,
                                                    (
                                                      refl,
                                                      (
                                                        refl,
                                                        (
                                                          refl,
                                                          (
                                                            refl,
                                                            (
                                                            refl,
                                                            (
                                                            refl,
                                                            (
                                                            refl,
                                                            (
                                                            refl,
                                                            (
                                                            refl,
                                                            (
                                                            refl,
                                                            (
                                                            refl,
                                                            (
                                                            refl,
                                                            (
                                                            refl,
                                                            (
                                                            refl,
                                                            (
                                                            refl,
                                                            (
                                                            refl,
                                                            (
                                                            refl,
                                                            (
                                                            refl,
                                                            (
                                                            refl,
                                                            (
                                                            refl,
                                                            (
                                                            refl,
                                                            (
                                                            refl,
                                                            (
                                                            refl,
                                                            (
                                                            refl,
                                                            (
                                                            refl,
                                                            (
                                                            refl,
                                                            (
                                                            refl,
                                                            (
                                                            refl,
                                                            (
                                                            refl,
                                                            (refl, (refl, (refl, (refl, tt)))),
                                                            ),
                                                            ),
                                                            ),
                                                            ),
                                                            ),
                                                            ),
                                                            ),
                                                            ),
                                                            ),
                                                            ),
                                                            ),
                                                            ),
                                                            ),
                                                            ),
                                                            ),
                                                            ),
                                                            ),
                                                            ),
                                                            ),
                                                            ),
                                                            ),
                                                            ),
                                                            ),
                                                            ),
                                                            ),
                                                          ),
                                                        ),
                                                      ),
                                                    ),
                                                  ),
                                                ),
                                              ),
                                            ),
                                          ),
                                        ),
                                      ),
                                    ),
                                  ),
                                ),
                              ),
                            ),
                          ),
                        ),
                      ),
                    ),
                  ),
                ),
              ),
            ),
          ),
        ),
      ),
    ),
  );
  names = inl (record {
    pre = ascii "\"padproxy.bin\",";
    rest = ascii "}]}";
    text = refl;
    first = (
      refl,
      (
        refl,
        (
          refl,
          (
            refl,
            (
              refl,
              (refl, (refl, (refl, (refl, (refl, (refl, (refl, (refl, (refl, (refl, tt)))))))))),
            ),
          ),
        ),
      ),
    );
    unquoted = ground arith;
  });
}

json-Release : Release new_version url json
json-Release = record {
  is_text = ground arith;
  version = record { major_u16 = omega arith; minor_u16 = omega arith; patch_u16 = omega arith };
  tag = json-Names;
  asset = json-Asset;
  url_fits = omega arith;
}

abbrev collected : Client
collected = record { ctx = record zeroed_ctx { status_code = pos 200; text = json }; calls = [] }

read_release-rank_example :
    (rank old_version < rank new_version → read_release old_version (true, collected) ≡ fetch url)
    × (rank new_version ≤ rank old_version
        → read_release old_version (true, collected) ≡ ends no_update)
read_release-rank_example =
    read_release-rank old_version new_version url json json-Release collected
      (record { no_error = refl; status = refl; text = refl })
      (record { major_u16 = omega arith; minor_u16 = omega arith; patch_u16 = omega arith })
