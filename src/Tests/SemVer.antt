-- ===== src/Tests/SemVer.antt =====
-- Tests of the version parsers and orders (app/core/versions.py).
use Prim.Native.Nat.{eq}
use weedout.Base.{ℕ, ◌≡◌, refl, ◌↔◌, none, some, List, [], ◌∷◌, get_or}
use weedout.Base.Text.{text, is_digit, remove_prefix, lstrip, split, join, span, int, show}
use weedout.Versions.Maven.{Token}
use weedout.Versions.SemVer.{
  Ident, word, SemVer, release_key, compare_semver, print, is_label_char, is_number, parse,
}
use weedout.Versions.SemVer.Equality.{compare_semver-eq_iff}
use weedout.Versions.SemVer.RoundTrip.{IsPrintable, parse-print}

abbrev release_candidate : SemVer
release_candidate = record {
  major = 1;
  minor = 20;
  patch = 3;
  extra = 4 ∷ [];
  prerelease = word (text "rc") ∷ Ident.num 1 ∷ [];
  build = some (text "exp.5");
}

print_test : print release_candidate ≡ text "1.20.3.4-rc.1+exp.5"
unfolding print join show
print_test = refl

parse_tests :
    (parse (text " v1.2 ")
      ≡ some
          (record { major = 1; minor = 2; patch = 0; extra = []; prerelease = []; build = none }))
    × (parse (text "1.2.x") ≡ none)
    × (parse (text "1.2-") ≡ none)
unfolding parse lstrip remove_prefix span split int
parse_tests = (refl, refl, refl)

release_candidate-IsPrintable : IsPrintable release_candidate
unfolding is_label_char is_number is_digit
release_candidate-IsPrintable = record {
  idents = ((refl, refl, refl, refl), (tt, tt));
  metadata = (refl, refl);
}

parse-print_example : parse (print release_candidate) ≡ some release_candidate
parse-print_example = parse-print release_candidate release_candidate-IsPrintable

compare_semver-eq_iff_example :
    (compare_semver release_candidate (record release_candidate { build = none }) ≡ eq) ↔ (
      ((i : ℕ)
        → get_or (release_key release_candidate) i 0 ≡ get_or (release_key release_candidate) i 0)
      × (release_candidate.prerelease ≡ release_candidate.prerelease))
compare_semver-eq_iff_example =
    compare_semver-eq_iff release_candidate (record release_candidate { build = none })

abbrev one_zero : List Token
one_zero = Token.num 1 ∷ Token.num 0 ∷ []
