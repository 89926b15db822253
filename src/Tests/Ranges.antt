-- ===== src/Tests/Ranges.antt =====
-- Tests of the range evaluation (app/core/versions.py).
use Prim.Native.Nat.{lt}
use weedout.Base.{◌≡◌, refl, ◌↔◌, ◌⊎◌, true, false, none, some, [], ◌∷◌, is_some, In}
use weedout.Base.Order.{lexicographic}
use weedout.Base.Text.{Text, text, text_eq, lstrip, split, span, int}
use weedout.Tests.Data.{window, plain_pep, lodash_entry}
use weedout.Types.{npm, AffectedRange}
use weedout.Versions.Maven.{maven_tokens, maven_compare}
use weedout.Versions.Maven.Laws.{maven_compare_circle}
use weedout.Versions.Ranges.{
  normalize, parse_version, compare_versions, in_range, version_matches, first_fixed_version,
}
use weedout.Versions.Ranges.Fixed.{IsFirstFix, first_fixed_version-IsFirstFix}
use weedout.Versions.Ranges.Intervals.{IsInside, version_matches-IsInside}
use weedout.Versions.SemVer.{compare_semver, parse}

range_tests :
    (in_range plain_pep npm (text "4.17.20") window ≡ some true)
    × (in_range plain_pep npm (text "4.17.21") window ≡ some false)
    × (in_range plain_pep npm (text "latest") window ≡ none)
unfolding in_range compare_versions normalize parse_version parse compare_semver split int span
    lexicographic text_eq lstrip
range_tests = (refl, refl, refl)

version_matches-IsInside_example :
    (version_matches plain_pep npm (text "4.17.20") lodash_entry ≡ true) ↔ (
      (is_some (parse_version plain_pep npm (text "4.17.20")) ≡ true)
      × (((c : Text) × In c lodash_entry.versions
            × (normalize npm c ≡ normalize npm (text "4.17.20")))
          ⊎ ((r : AffectedRange) × In r lodash_entry.ranges
              × IsInside plain_pep npm (text "4.17.20") r)))
version_matches-IsInside_example =
    version_matches-IsInside plain_pep npm refl (text "4.17.20") lodash_entry

first_fixed_test :
    first_fixed_version plain_pep npm (text "4.17.20") lodash_entry ≡ some (text "4.17.21")
unfolding first_fixed_version compare_versions normalize parse_version parse compare_semver split
    int span lexicographic text_eq lstrip
first_fixed_test = refl

first_fixed_version-IsFirstFix_example :
    IsFirstFix plain_pep npm refl
      (text "4.17.20")
      lodash_entry
      (first_fixed_version plain_pep npm (text "4.17.20") lodash_entry)
first_fixed_version-IsFirstFix_example =
    first_fixed_version-IsFirstFix plain_pep npm refl (text "4.17.20") lodash_entry

maven_compare_circle_example :
    (maven_compare (text "1.0-alpha") (text "1") ≡ lt)
    × (maven_compare (text "1") (text "1-sp") ≡ lt)
    × (maven_compare (text "1-sp") (text "1.0-alpha") ≡ lt)
unfolding maven_tokens int
maven_compare_circle_example =
    maven_compare_circle (1 ∷ []) (text "1.0-alpha") (text "1") (text "1-sp") refl refl refl
