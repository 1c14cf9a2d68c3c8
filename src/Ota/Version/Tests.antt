-- ===== src/Ota/Version/Tests.antt =====
-- Versions read, printed and compared.
use pad_proxy.Base.{◌<◌, ◌≡◌, ◌↔◌, true, false, some, Bytes, [], ◌∷◌, ◌++◌, refl, arith}
use pad_proxy.Base.Int.{pos, negsuc}
use pad_proxy.Ota.Version.{Version, parse, compare_versions, version_text, decimal}
use pad_proxy.Ota.Version.Order.{rank, compare_versions-rank}
use pad_proxy.Ota.Version.RoundTrip.{parse-version_text}

abbrev zero_version : Version
zero_version = record { major = 0; minor = 0; patch = 0 }

abbrev release : Version
release = record { major = 1; minor = 12; patch = 305 }

-- "-rc1"
abbrev candidate : Bytes
candidate = b'-' ∷ b'r' ∷ b'c' ∷ b'1' ∷ []

printed : version_text release ≡ b'1' ∷ b'.' ∷ b'1' ∷ b'2' ∷ b'.' ∷ b'3' ∷ b'0' ∷ b'5' ∷ []
unfolding version_text decimal
printed = refl

too_large :
    parse (some (b'6' ∷ b'5' ∷ b'5' ∷ b'3' ∷ b'6' ∷ b'.' ∷ b'0' ∷ b'.' ∷ b'0' ∷ [])) (some release)
    ≡ (false, some release)
unfolding parse
too_large = refl

compare_versions-rank_example :
    ((compare_versions release zero_version ≡ pos 1) ↔ (rank zero_version < rank release))
    × ((compare_versions release zero_version ≡ negsuc 0) ↔ (rank release < rank zero_version))
    × ((compare_versions release zero_version ≡ pos 0) ↔ (release ≡ zero_version))
compare_versions-rank_example =
    compare_versions-rank release zero_version (omega arith) (omega arith)

parse-version_text_example :
    (parse (some (version_text release ++ candidate)) (some zero_version) ≡ (true, some release))
    × (parse (some (b'v' ∷ (version_text release ++ candidate))) (some zero_version)
        ≡ (true, some release))
    × (parse (some (b'V' ∷ (version_text release ++ candidate))) (some zero_version)
        ≡ (true, some release))
parse-version_text_example = parse-version_text zero_version candidate (omega arith) refl
