-- ===== src/Ota/Version/Order.antt =====
-- Versions are compared as their fields in order, most significant first.
use pad_proxy.Base.{ℕ, ◌+◌, ◌*◌, ◌<◌, ◌≡◌, ◌↔◌, arith}
use pad_proxy.Base.Int.{pos, negsuc}
use pad_proxy.Ota.Version.{Version, compare_versions}

-- The fields fit their uint16_t.
pub record IsVersion (v : Version) : Type 0 where
  pub major_u16 : v.major < 65536
  pub minor_u16 : v.minor < 65536
  pub patch_u16 : v.patch < 65536

-- The place of a version in the order of all versions.
abbrev pub rank : Version → ℕ
rank v = v.major * 4294967296 + v.minor * 65536 + v.patch

-- For versions whose fields fit their type the comparison is 1, -1 or 0 exactly where the first
-- ranks above the second, below it, or is the same version.
pub compare_versions-rank :
    (a b : Version)
    → IsVersion a
    → IsVersion b
    → ((compare_versions a b ≡ pos 1) ↔ (rank b < rank a))
      × ((compare_versions a b ≡ negsuc 0) ↔ (rank a < rank b))
      × ((compare_versions a b ≡ pos 0) ↔ (a ≡ b))
unfolding compare_versions
compare_versions-rank a b ha hb = (ground arith, ground arith, ground arith)
