-- ===== src/Rules/PolicyFile/Kept.antt =====
-- The entries that `_read_ignores` of app/core/policy.py keeps.
use weedout.Base.{
  ℕ, suc, ◌≡◌, refl, Bool, true, false, List, [], ◌∷◌, if◌then◌else◌, any, All, Result, ok, err,
  Returns,
}
use weedout.Rules.PolicyFile.{IgnoreEntry, Warning, listed_twice}
use weedout.Rules.PolicyFile.Ignores.{same_entry, read_element, read_elements, read_ignores}
use weedout.Rules.PolicyFile.Reviews.{IsReviewable, read_element-IsReviewable}
use weedout.Rules.Yaml.{
  Yaml, null, bool, number, not_finite, other_value, str, sequence, mapping, elements,
}

-- No two entries have one kind and identifier, and none is among those kept before.
abbrev pub Apart : List IgnoreEntry → List IgnoreEntry → Type 0
Apart seen [] = Unit
Apart seen (e ∷ es) = (any (same_entry e) seen ≡ false) × Apart (e ∷ seen) es

abbrev pub IsKept : List IgnoreEntry → List IgnoreEntry × List Warning → Type 0
IsKept seen r = Apart seen r.0 × All IsReviewable r.0

read_elements-IsKept :
    (i : ℕ) (seen : List IgnoreEntry) (block : List Yaml) → IsKept seen (read_elements i seen block)
unfolding read_elements
read_elements-IsKept i seen [] = (tt, tt)
read_elements-IsKept i seen (raw ∷ block) =
    go (read_element i raw) (read_element-IsReviewable i raw)
      (read_elements-IsKept (suc i) seen block) (λ e. read_elements-IsKept (suc i) (e ∷ seen) block)
  where
    twice : List IgnoreEntry × List Warning
    twice = read_elements (suc i) seen block

    once : IgnoreEntry → List IgnoreEntry × List Warning
    once e = read_elements (suc i) (e ∷ seen) block

    pick :
        (e : IgnoreEntry)
        → IsReviewable e
        → IsKept seen twice
        → IsKept (e ∷ seen) (once e)
        → (b : Bool) → any (same_entry e) seen ≡ b
        → IsKept seen (
            if b
            then (twice.0, listed_twice e.identifier ∷ twice.1)
            else (e ∷ (once e).0, (once e).1))
    pick e h t o true k = t
    pick e h t (a, r) false k = ((k, a), (h, r))

    go :
        (r : Result Warning IgnoreEntry)
        → Returns IsReviewable r
        → IsKept seen twice
        → ((e : IgnoreEntry) → IsKept (e ∷ seen) (once e))
        → IsKept seen (elim r as (λ _. List IgnoreEntry × List Warning) [
          | err w ↦ (twice.0, w ∷ twice.1)
          | ok e ↦
              if any (same_entry e) seen
              then (twice.0, listed_twice e.identifier ∷ twice.1)
              else (e ∷ (once e).0, (once e).1)
        ])
    go (err w) h t o = t
    go (ok e) h t o = pick e h t (o e) _ refl

pub read_ignores-IsKept : (value : Yaml) → IsKept [] (read_ignores value)
unfolding read_ignores
read_ignores-IsKept (sequence vs) = read_elements-IsKept 0 [] (elements vs)
read_ignores-IsKept null = (tt, tt)
read_ignores-IsKept (bool b) = (tt, tt)
read_ignores-IsKept (number n m) = (tt, tt)
read_ignores-IsKept not_finite = (tt, tt)
read_ignores-IsKept other_value = (tt, tt)
read_ignores-IsKept (str s) = (tt, tt)
read_ignores-IsKept (mapping es) = (tt, tt)
