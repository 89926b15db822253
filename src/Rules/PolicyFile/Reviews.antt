-- ===== src/Rules/PolicyFile/Reviews.antt =====
-- What an entry of the block `ignore` of app/core/policy.py names, and its reason.
use weedout.Base.{◌>>=◌}
use weedout.Base.{
  ℕ, zero, suc, ◌≤◌, ◌≡◌, refl, Bool, true, false, ◌&&◌, Option, none, some, List, [], ◌∷◌, map,
  arith, ltb, if◌then◌else◌, length, take, is_empty, Result, ok, err, Returns, Returns-bind,
}
use weedout.Base.Text.{Text, text, upper_char, lower_char, upper, lower, strip}
use weedout.Rules.PolicyFile.{
  IgnoreKind, advisory_kind, package_kind, IgnoreEntry, Warning, both_subjects, no_subject,
  empty_package, package_too_long, ignores_everything, no_reason,
}
use weedout.Rules.PolicyFile.Ignores.{
  max_pattern_length, is_one_of, matches_everything, read_package_pattern, read_advisory_id,
  with_reason, is_no_value, read_subject, read_one_ignore, read_element,
}
use weedout.Rules.Yaml.{
  Yaml, null, bool, number, not_finite, other_value, str, sequence, mapping, lookup, is_true,
  as_filled,
}

abbrev pub IsSubject : IgnoreKind → Text → Type 0
IsSubject advisory_kind s = is_empty s ≡ false
IsSubject package_kind s =
    (is_empty s ≡ false)
    × (length s ≤ max_pattern_length)
    × (is_one_of matches_everything s ≡ false)

-- A reason is written down, and what is ignored is named: an identifier, or a pattern that is not too long and
-- not one of those that match every name.
abbrev pub IsReviewable : IgnoreEntry → Type 0
IsReviewable e =
    (is_empty e.reason ≡ false) × (length e.reason ≤ 500) × IsSubject e.kind e.identifier

pub length-take : {A : Type 0} (n : ℕ) (xs : List A) → length (take n xs) ≤ n
length-take zero xs = omega arith
length-take (suc n) [] = omega arith
length-take (suc n) (x ∷ xs) = omega (arith, length-take n xs)

take_filled :
    {A : Type 0} (n : ℕ) (xs : List A) → is_empty xs ≡ false → is_empty (take (suc n) xs) ≡ false
take_filled n [] h = h
take_filled n (x ∷ xs) h = refl

map_filled :
    {A B : Type 0} (f : A → B) (xs : List A) → is_empty xs ≡ false → is_empty (map f xs) ≡ false
map_filled f [] h = h
map_filled f (x ∷ xs) h = refl

-- The text of a value that is filled is not blank.
abbrev IsFilled : Option Text → Type 0
IsFilled none = Unit
IsFilled (some s) = is_empty (strip s) ≡ false

as_filled-IsFilled : (value : Yaml) → IsFilled (as_filled value)
unfolding as_filled
as_filled-IsFilled (str s) = go (is_empty (strip s)) refl
  where
    go : (b : Bool) → is_empty (strip s) ≡ b → IsFilled (if b then none else some s)
    go true e = tt
    go false e = e
as_filled-IsFilled null = tt
as_filled-IsFilled (bool b) = tt
as_filled-IsFilled (number n m) = tt
as_filled-IsFilled not_finite = tt
as_filled-IsFilled other_value = tt
as_filled-IsFilled (sequence vs) = tt
as_filled-IsFilled (mapping es) = tt

read_package_pattern-IsSubject :
    (i : ℕ) (value : Yaml) → Returns (IsSubject package_kind) (read_package_pattern i value)
unfolding read_package_pattern lower
read_package_pattern-IsSubject i value = go (as_filled value) (as_filled-IsFilled value)
  where
    pattern : Text → Text
    pattern s = lower (strip s)

    pick :
        (s : Text)
        → is_empty (strip s) ≡ false
        → (a : Bool) → ltb max_pattern_length (length (pattern s)) ≡ a
        → (b : Bool) → is_one_of matches_everything (pattern s) ≡ b
        → Returns (IsSubject package_kind) (
            if a
            then err (package_too_long i)
            else if b
            then err (ignores_everything i)
            else ok (pattern s))
    pick s f true p b q = tt
    pick s f false p true q = tt
    pick s f false p false q = (map_filled lower_char (strip s) f, ground arith, q)

    go :
        (o : Option Text)
        → IsFilled o
        → Returns (IsSubject package_kind) (elim o as (λ _. Result Warning Text) [
          | none ↦ err (empty_package i)
          | some s ↦
              if ltb max_pattern_length (length (pattern s))
              then err (package_too_long i)
              else if is_one_of matches_everything (pattern s)
              then err (ignores_everything i)
              else ok (pattern s)
        ])
    go none f = tt
    go (some s) f = pick s f _ refl _ refl

read_advisory_id-IsSubject :
    (i : ℕ) (value : Yaml) → Returns (IsSubject advisory_kind) (read_advisory_id i value)
unfolding read_advisory_id upper
read_advisory_id-IsSubject i value = go (as_filled value) (as_filled-IsFilled value)
  where
    go :
        (o : Option Text)
        → IsFilled o
        → Returns (IsSubject advisory_kind) (elim o as (λ _. Result Warning Text) [
          | none ↦ err (no_subject i)
          | some s ↦ ok (upper (strip s))
        ])
    go none f = tt
    go (some s) f = map_filled upper_char (strip s) f

with_reason-IsReviewable :
    (i : ℕ) (kind : IgnoreKind) (value : Yaml) (identifier : Text)
    → IsSubject kind identifier
    → Returns IsReviewable (with_reason i kind value identifier)
unfolding with_reason
with_reason-IsReviewable i kind value identifier h = go (as_filled value) (as_filled-IsFilled value)
  where
    go :
        (o : Option Text)
        → IsFilled o
        → Returns IsReviewable (elim o as (λ _. Result Warning IgnoreEntry) [
          | none ↦ err (no_reason i identifier)
          | some s ↦
              ok (record { identifier = identifier; reason = take 500 (strip s); kind = kind })
        ])
    go none f = tt
    go (some s) f = (take_filled 499 (strip s) f, length-take 500 (strip s), h)

read_subject-IsReviewable :
    (i : ℕ) (subject pattern reason : Yaml)
    → Returns IsReviewable (read_subject i subject pattern reason)
unfolding read_subject
read_subject-IsReviewable i subject pattern reason =
    go (is_true subject && is_true pattern) (is_no_value pattern)
  where
    go :
        (both no_pattern : Bool)
        → Returns IsReviewable (
            if both
            then err (both_subjects i)
            else if no_pattern
            then read_advisory_id i subject >>= with_reason i advisory_kind reason
            else read_package_pattern i pattern >>= with_reason i package_kind reason)
    go true b = tt
    go false true =
        Returns-bind (IsSubject advisory_kind) IsReviewable (read_advisory_id i subject) _
          (read_advisory_id-IsSubject i subject)
          (λ s h. with_reason-IsReviewable i advisory_kind reason s h)
    go false false =
        Returns-bind (IsSubject package_kind) IsReviewable (read_package_pattern i pattern) _
          (read_package_pattern-IsSubject i pattern)
          (λ s h. with_reason-IsReviewable i package_kind reason s h)

pub read_element-IsReviewable : (i : ℕ) (raw : Yaml) → Returns IsReviewable (read_element i raw)
unfolding read_element read_one_ignore
read_element-IsReviewable i (mapping raw) =
    let cve = lookup (text "cve") raw in
    read_subject-IsReviewable i (if is_true cve then cve else lookup (text "id") raw)
      (lookup (text "package") raw) (lookup (text "reason") raw)
read_element-IsReviewable i null = tt
read_element-IsReviewable i (bool b) = tt
read_element-IsReviewable i (number n m) = tt
read_element-IsReviewable i not_finite = tt
read_element-IsReviewable i other_value = tt
read_element-IsReviewable i (str s) = tt
read_element-IsReviewable i (sequence vs) = tt
