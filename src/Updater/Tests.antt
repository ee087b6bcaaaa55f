-- ===== src/Updater/Tests.antt =====
-- Versions compared, and the theorem of their order at two of them.
use awp.Common.{◌≡◌, refl, none, some}
use awp.Updater.{
  less, equal, greater, parsed, parse_version, compare_identifier, compare_prerelease,
  compare_parsed, compare_versions,
}
use awp.Common.Numbers.{digits, atoi}
use awp.Updater.Fields.{cut, split, trim_v}
use awp.Updater.Order.{opposite_of, compare_versions-opposite}

program : Unit {0}
unfolding parsed parse_version compare_identifier compare_prerelease compare_parsed compare_versions
    digits atoi cut split trim_v
program = tt

runs :
    (compare_versions "v1.2.3" "1.10.0" ≡ some less)
    × (compare_versions "1.2.3-rc.1" "1.2.3" ≡ some less)
    × (compare_versions "1.2.3-rc.2" "1.2.3-rc.10+b" ≡ some less)
    × (compare_versions "1.2.3-alpha" "1.2.3-1" ≡ some greater)
    × (compare_versions "1.2.3" "v1.2.3+x" ≡ some equal)
    × (compare_versions "1.2" "1.2.3" ≡ none)
    × (compare_versions "1.-2.3" "1.2.3" ≡ none)
    × (compare_versions "1.2.3-" "1.2.3" ≡ none)
unfolding program
runs = (refl, refl, refl, refl, refl, refl, refl, refl)

compare_versions-opposite_example :
    compare_versions "1.10.0" "v1.2.3-rc.1" ≡ opposite_of (compare_versions "v1.2.3-rc.1" "1.10.0")
compare_versions-opposite_example = compare_versions-opposite "v1.2.3-rc.1" "1.10.0"
