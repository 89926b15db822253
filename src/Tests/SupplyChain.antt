-- ===== src/Tests/SupplyChain.antt =====
-- Tests of the typosquat check (app/core/supply_chain.py).
use weedout.Base.{◌≡◌, refl, none, some, List, [], ◌∷◌}
use weedout.Base.Text.{Text, text}
use weedout.SupplyChain.Edits.{edit_distance}
use weedout.SupplyChain.Edits.Laws.{Settles, edit_distance-Settles}
use weedout.SupplyChain.Facts.{assess_facts}
use weedout.SupplyChain.Typosquats.{
  unmaintained, single_maintainer, concerning, notable, informational, separator, transposition,
  confusable, substitution, check_typosquat,
}
use weedout.Types.{npm}

abbrev popular_names : List Text
popular_names = text "lodash" ∷ text "python-dateutil" ∷ text "react" ∷ []

abbrev distinct_names : List Text
distinct_names = text "preact" ∷ []

edit_distance_tests :
    (edit_distance 2 (text "lodahs") (text "lodash") ≡ 2)
    × (edit_distance 2 (text "kitten") (text "sitting") ≡ 3)
    × (edit_distance 2 (text "flask") (text "tensorflow") ≡ 3)
    × (edit_distance 1 (text "flasks") (text "flask") ≡ 1)
unfolding edit_distance
edit_distance_tests = (refl, refl, refl, refl)

edit_distance-Settles_example :
    Settles 2 (text "lodahs") (text "lodash") (edit_distance 2 (text "lodahs") (text "lodash"))
edit_distance-Settles_example = edit_distance-Settles 2 (text "lodahs") (text "lodash")

check_typosquat_tests :
    (check_typosquat popular_names distinct_names (text "Lodahs")
      ≡ some
          (record { level = concerning; resembles = text "lodash"; resemblance = transposition }))
    × (check_typosquat popular_names distinct_names (text "1odash")
        ≡ some (record { level = concerning; resembles = text "lodash"; resemblance = confusable }))
    × (check_typosquat popular_names distinct_names (text "python_dateutil")
        ≡ some (record {
          level = concerning;
          resembles = text "python-dateutil";
          resemblance = separator;
        }))
    × (check_typosquat popular_names distinct_names (text "ledash")
        ≡ some (record { level = notable; resembles = text "lodash"; resemblance = substitution }))
    × (check_typosquat popular_names distinct_names (text "preact") ≡ none)
unfolding check_typosquat
check_typosquat_tests = (refl, refl, refl, refl, refl)

assess_facts_test :
    assess_facts (record {
      ecosystem = npm;
      name = text "left-pad";
      latest_version = none;
      days_since_release = some 900;
      maintainer_count = some 1;
      has_provenance = none;
      deprecated = some [];
    })
    ≡ ((unmaintained, notable) ∷ (single_maintainer, informational) ∷ [])
unfolding assess_facts
assess_facts_test = refl
