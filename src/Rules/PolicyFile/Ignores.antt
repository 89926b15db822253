-- ===== src/Rules/PolicyFile/Ignores.antt =====
-- The block `ignore` of app/core/policy.py.
use weedout.Base.{◌>>=◌}
use weedout.Base.{
  ℕ, suc, Bool, true, false, ◌&&◌, none, some, List, [], ◌∷◌, ltb, if◌then◌else◌, length, take, any,
  Result, ok, err,
}
use weedout.Base.Text.{Text, text, text_eq, upper, lower, strip}
use weedout.Rules.PolicyFile.{
  IgnoreKind, advisory_kind, package_kind, IgnoreEntry, Warning, ignore_not_a_list,
  entry_not_a_mapping, both_subjects, no_subject, empty_package, package_too_long,
  ignores_everything, no_reason, listed_twice, kind_is,
}
use weedout.Rules.Yaml.{
  Yaml, null, sequence, mapping, Entries, elements, lookup, is_true, as_filled,
}

abbrev pub max_pattern_length : ℕ
max_pattern_length = 256

abbrev one_of : List Text → Text → Bool
one_of names s = any (text_eq s) names

abbrev pub is_one_of : List Text → Text → Bool
is_one_of names s = any (text_eq s) names

-- `MATCHES_EVERYTHING`
abbrev pub matches_everything : List Text
matches_everything = text "*" ∷ text "**" ∷ text "?*" ∷ text "*?" ∷ []

-- `_read_package_pattern`, given the place of the entry
unfoldable pub read_package_pattern : ℕ → Yaml → Result Warning Text
unfolding as_filled lower strip text_eq
read_package_pattern i value = elim (as_filled value) as (λ _. Result Warning Text) [
  | none ↦ err (empty_package i)
  | some s ↦
      let pattern = lower (strip s) in
      if ltb max_pattern_length (length pattern)
      then err (package_too_long i)
      else if is_one_of matches_everything pattern
      then err (ignores_everything i)
      else ok pattern
]

-- `_read_advisory_id`
unfoldable pub read_advisory_id : ℕ → Yaml → Result Warning Text
unfolding as_filled upper strip
read_advisory_id i value = elim (as_filled value) as (λ _. Result Warning Text) [
  | none ↦ err (no_subject i)
  | some s ↦ ok (upper (strip s))
]

-- The reason that an entry needs
unfoldable pub with_reason : ℕ → IgnoreKind → Yaml → Text → Result Warning IgnoreEntry
unfolding as_filled strip
with_reason i kind value identifier = elim (as_filled value) as (λ _. Result Warning IgnoreEntry) [
  | none ↦ err (no_reason i identifier)
  | some s ↦ ok (record { identifier = identifier; reason = take 500 (strip s); kind = kind })
]

abbrev pub is_no_value : Yaml → Bool
is_no_value null = true
is_no_value _ = false

-- The rest of `_read_one_ignore`, given the values of `cve` or `id`, of `package` and of `reason`
unfoldable pub read_subject : ℕ → (subject pattern reason : Yaml) → Result Warning IgnoreEntry
unfolding is_true read_package_pattern read_advisory_id with_reason
read_subject i subject pattern reason =
    if is_true subject && is_true pattern
    then err (both_subjects i)
    else if is_no_value pattern
    then read_advisory_id i subject >>= with_reason i advisory_kind reason
    else read_package_pattern i pattern >>= with_reason i package_kind reason

-- `_read_one_ignore`
unfoldable pub read_one_ignore : ℕ → Entries → Result Warning IgnoreEntry
unfolding lookup is_true read_subject
read_one_ignore i raw =
    let cve = lookup (text "cve") raw in
    let subject = if is_true cve then cve else lookup (text "id") raw in
    read_subject i subject (lookup (text "package") raw) (lookup (text "reason") raw)

abbrev pub same_entry : IgnoreEntry → IgnoreEntry → Bool
same_entry a b = kind_is a.kind b.kind && text_eq a.identifier b.identifier

-- What an element of the list is: an entry, or the warning that skips it
unfoldable pub read_element : ℕ → Yaml → Result Warning IgnoreEntry
unfolding read_one_ignore
read_element i (mapping raw) = read_one_ignore i raw
read_element i _ = err (entry_not_a_mapping i)

-- The loop of `_read_ignores`; `seen` holds the entries kept so far
unfoldable pub read_elements : ℕ → List IgnoreEntry → List Yaml → List IgnoreEntry × List Warning
unfolding read_element text_eq
read_elements i seen [] = ([], [])
read_elements i seen (raw ∷ block) =
    elim (read_element i raw) as (λ _. List IgnoreEntry × List Warning) [
      | err w ↦
          let (entries, warnings) = read_elements (suc i) seen block in (entries, w ∷ warnings)
      | ok e ↦
          let twice = read_elements (suc i) seen block in
          let once = read_elements (suc i) (e ∷ seen) block in
          if any (same_entry e) seen
          then (twice.0, listed_twice e.identifier ∷ twice.1)
          else (e ∷ once.0, once.1)
    ]

-- `_read_ignores`
unfoldable pub read_ignores : Yaml → List IgnoreEntry × List Warning
unfolding read_elements
read_ignores null = ([], [])
read_ignores (sequence vs) = read_elements 0 [] (elements vs)
read_ignores _ = ([], ignore_not_a_list ∷ [])
