-- ===== src/Rules/PolicyFile/Everything.antt =====
-- A pattern of app/core/policy.py that is accepted and matches every name.
use weedout.Base.{ℕ, ◌≡◌, refl, true, [], ◌∷◌, ok}
use weedout.Base.Text.{Text, text, lower, strip}
use weedout.Matching.Glob.{star, translate, glob_match}
use weedout.Matching.Glob.Laws.{star-glob_match}
use weedout.Rules.PolicyFile.Ignores.{read_package_pattern}
use weedout.Rules.Yaml.{str, as_filled}

abbrev pub three_stars : Text
three_stars = text "***"

-- The check that refuses patterns which match every package name lets `***` through: it is read as it
-- stands, and it matches every name.
pub read_package_pattern-matches_everything :
    (i : ℕ) (name : Text)
    → (read_package_pattern i (str three_stars) ≡ ok three_stars)
      × (glob_match (translate three_stars) name ≡ true)
unfolding read_package_pattern as_filled strip lower translate glob_match
read_package_pattern-matches_everything i name =
    (refl, star-glob_match (star ∷ star ∷ []) name refl)
