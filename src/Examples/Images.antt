-- ===== src/Examples/Images.antt =====
-- pkg/operator/mysql at concrete images.
use vitess_operator.Prelude.{◌≡◌, refl, ◌↔◌, ◌⊎◌, ◌≤◌, true, false, some, [], ◌∷◌, ok, err, arith}
use vitess_operator.Mysql.{
  Version, is_8_0, find_version, compare_versions, patch_downgrade, docker_image_safe_upgrade,
  version_of, atoi,
}
use vitess_operator.Mysql.Upgrades.{
  Image, IsImage, text_of, print, find_version-print, docker_image_safe_upgrade-text_of,
  compare_versions-fast_iff, compare_versions-minor_downgrade,
}

-- "m:8.0.9-a" and "m:8.0.7".
abbrev newer : Image
newer = record {
  repo = 109 ∷ [];
  version = record { major = 56 ∷ []; minor = 48 ∷ []; patch = 57 ∷ [] };
  rest = 45 ∷ 97 ∷ [];
}

abbrev older : Image
older = record {
  repo = 109 ∷ [];
  version = record { major = 56 ∷ []; minor = 48 ∷ []; patch = 55 ∷ [] };
  rest = [];
}

newer-IsImage : IsImage newer
newer-IsImage = ((refl, tt), ((refl, tt), (refl, tt), (refl, tt)), refl)

older-IsImage : IsImage older
older-IsImage = ((refl, tt), ((refl, tt), (refl, tt), (refl, tt)), tt)

find_version-print_example : find_version (print newer.version newer.rest) ≡ some newer.version
find_version-print_example =
    find_version-print newer.version newer.rest newer-IsImage.1 newer-IsImage.2

docker_image_safe_upgrade-text_of_example :
    docker_image_safe_upgrade (text_of newer) (text_of older) ≡ err patch_downgrade
unfolding version_of atoi compare_versions
docker_image_safe_upgrade-text_of_example =
    docker_image_safe_upgrade-text_of newer older newer-IsImage older-IsImage

abbrev v8_4 : Version
v8_4 = record { major = 8; minor = 4; patch = 0 }

abbrev v8_0 : Version
v8_0 = record { major = 8; minor = 0; patch = 40 }

compare_versions-minor_downgrade_example : compare_versions v8_4 v8_0 ≡ ok true
compare_versions-minor_downgrade_example =
    compare_versions-minor_downgrade v8_4 v8_0 refl (omega arith) (omega arith)

compare_versions-fast_iff_example : (compare_versions v8_4 v8_0 ≡ ok false) ↔ (
    (v8_0.major ≡ v8_4.major)
    × (v8_0.minor ≡ v8_4.minor)
    × ((is_8_0 v8_0 ≡ false) ⊎ (34 ≤ v8_0.patch) × (34 ≤ v8_4.patch) ⊎ (v8_0.patch ≡ v8_4.patch)))
compare_versions-fast_iff_example = compare_versions-fast_iff v8_4 v8_0
