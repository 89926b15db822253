-- ===== src/Rules/PolicyFile/Laws.antt =====
-- What a policy file can ask for (app/core/policy.py).
use weedout.Base.{
  ◌/◌, ◌≤◌, ◌<◌, ◌≡◌, refl, Bool, true, false, not, ◌&&◌, Option, none, some, List, [], ◌∷◌, arith,
  ltb, leb, if◌then◌else◌, length, is_empty, All,
}
use weedout.Base.Text.{Text, text, lower, strip}
use weedout.Rules.PolicyFile.{
  SeverityKey, direct, transitive, dev, Warning, alert_above_out_of_range, not_a_severity,
  PolicyError, too_large, not_utf8, not_yaml, not_a_mapping, ParsedPolicy, empty_policy,
}
use weedout.Rules.PolicyFile.Blocks.{
  threshold_of, billion, read_alert_above, read_epss, read_threshold, SeverityBlock, read_severity,
}
use weedout.Rules.PolicyFile.Document.{
  max_policy_bytes, read_document, failed_policy, read_loaded, Content, no_content, bytes,
  characters, Loader, parse_text, parse_policy,
}
use weedout.Rules.PolicyFile.Kept.{Apart, read_ignores-IsKept}
use weedout.Rules.PolicyFile.Reviews.{IsReviewable}
use weedout.Rules.Yaml.{
  Yaml, null, bool, number, not_finite, other_value, str, sequence, mapping, lookup,
}
use weedout.Types.{Severity, low, medium, high, critical, rank, Score, key}

-- A floor that is set is a level, and not `unknown`.
abbrev pub IsFloor : Option Severity → Type 0
IsFloor none = Unit
IsFloor (some s) = 0 < rank s

threshold_of-IsFloor : (s : Text) → IsFloor (threshold_of s)
unfolding threshold_of
threshold_of-IsFloor s = go _ _ _ _
  where
    go :
        (a b c d : Bool)
        → IsFloor (
            if a
            then some low
            else if b
            then some medium
            else if c
            then some high
            else if d
            then some critical
            else none)
    go true b c d = omega arith
    go false true c d = omega arith
    go false false true d = omega arith
    go false false false true = omega arith
    go false false false false = tt

read_threshold-IsFloor : (key : SeverityKey) (value : Yaml) → IsFloor (read_threshold key value).0
unfolding read_threshold lower
read_threshold-IsFloor key (str s) =
    go (threshold_of (lower (strip s))) (threshold_of-IsFloor (lower (strip s)))
  where
    go :
        (o : Option Severity)
        → IsFloor o
        → IsFloor (
            let r = (elim o as (λ _. Option Severity × List Warning) [
              | none ↦ (none, not_a_severity key ∷ [])
              | some t ↦ (some t, [])
            ]) in
            r.0)
    go none h = tt
    go (some t) h = h
read_threshold-IsFloor key null = tt
read_threshold-IsFloor key (bool b) = tt
read_threshold-IsFloor key (number n m) = tt
read_threshold-IsFloor key not_finite = tt
read_threshold-IsFloor key other_value = tt
read_threshold-IsFloor key (sequence vs) = tt
read_threshold-IsFloor key (mapping es) = tt

abbrev pub AreFloors : SeverityBlock → Type 0
AreFloors b = IsFloor b.for_direct × IsFloor b.for_transitive × IsFloor b.for_dev

read_severity-AreFloors : (value : Yaml) → AreFloors (read_severity value)
unfolding read_severity
read_severity-AreFloors (mapping es) = (
  read_threshold-IsFloor direct (lookup (text "direct") es),
  read_threshold-IsFloor transitive (lookup (text "transitive") es),
  read_threshold-IsFloor dev (lookup (text "dev") es),
)
read_severity-AreFloors null = (tt, tt, tt)
read_severity-AreFloors (bool b) = (tt, tt, tt)
read_severity-AreFloors (number n m) = (tt, tt, tt)
read_severity-AreFloors not_finite = (tt, tt, tt)
read_severity-AreFloors other_value = (tt, tt, tt)
read_severity-AreFloors (str s) = (tt, tt, tt)
read_severity-AreFloors (sequence vs) = (tt, tt, tt)

-- A probability above 0 and up to 1, in billionths
abbrev pub IsProbability : Option Score → Type 0
IsProbability none = Unit
IsProbability (some p) = (0 < p) × (p ≤ 1000000000)

read_alert_above-IsProbability : (value : Yaml) → IsProbability (read_alert_above value).0
unfolding read_alert_above
read_alert_above-IsProbability (number negative n) =
    go (if not negative && ltb billion n then n / 100 else n)
  where
    go :
        (v : Score)
        → IsProbability (
            let r : Option Score × List Warning =
              (if not negative && ltb 0 v && leb v billion
                then (some v, [])
                else (none, alert_above_out_of_range ∷ [])) in
            r.0)
    go v = ground arith
read_alert_above-IsProbability null = tt
read_alert_above-IsProbability (bool b) = tt
read_alert_above-IsProbability not_finite = tt
read_alert_above-IsProbability other_value = tt
read_alert_above-IsProbability (str s) = tt
read_alert_above-IsProbability (sequence vs) = tt
read_alert_above-IsProbability (mapping es) = tt

read_epss-IsProbability : (value : Yaml) → IsProbability (read_epss value).0
unfolding read_epss
read_epss-IsProbability (mapping es) =
    read_alert_above-IsProbability (lookup (text "alert_above") es)
read_epss-IsProbability null = tt
read_epss-IsProbability (bool b) = tt
read_epss-IsProbability (number n m) = tt
read_epss-IsProbability not_finite = tt
read_epss-IsProbability other_value = tt
read_epss-IsProbability (str s) = tt
read_epss-IsProbability (sequence vs) = tt

-- The entries are reviewable and apart, the floors are levels, and the threshold is a probability.
pub record IsValid (p : ParsedPolicy) : Type 0 where
  pub reviewable : All IsReviewable p.ignores
  pub apart : Apart [] p.ignores
  pub direct_floor : IsFloor p.direct_threshold
  pub transitive_floor : IsFloor p.transitive_threshold
  pub dev_floor : IsFloor p.dev_threshold
  pub probability : IsProbability p.epss_threshold

nothing-IsValid : (o : Option PolicyError) → IsValid (record empty_policy { error = o })
nothing-IsValid o = record {
  reviewable = tt;
  apart = tt;
  direct_floor = tt;
  transitive_floor = tt;
  dev_floor = tt;
  probability = tt;
}

read_loaded-IsValid : (o : Option Yaml) → IsValid (read_loaded o)
unfolding read_loaded read_document
read_loaded-IsValid (some (mapping document)) =
    let (apart, reviewable) = read_ignores-IsKept (lookup (text "ignore") document) in
    let (d, t, v) = read_severity-AreFloors (lookup (text "severity") document) in
    record {
      reviewable = reviewable;
      apart = apart;
      direct_floor = d;
      transitive_floor = t;
      dev_floor = v;
      probability = read_epss-IsProbability (lookup (text "epss") document);
    }
read_loaded-IsValid none = nothing-IsValid (some not_yaml)
read_loaded-IsValid (some null) = nothing-IsValid none
read_loaded-IsValid (some (bool b)) = nothing-IsValid (some not_a_mapping)
read_loaded-IsValid (some (number n m)) = nothing-IsValid (some not_a_mapping)
read_loaded-IsValid (some not_finite) = nothing-IsValid (some not_a_mapping)
read_loaded-IsValid (some other_value) = nothing-IsValid (some not_a_mapping)
read_loaded-IsValid (some (str s)) = nothing-IsValid (some not_a_mapping)
read_loaded-IsValid (some (sequence vs)) = nothing-IsValid (some not_a_mapping)

-- A document that cannot be used asks for nothing.
abbrev pub IsDiscarded : ParsedPolicy → Type 0
IsDiscarded p = elim p.error [ none ↦ Unit | some e ↦ p ≡ failed_policy e ]

read_loaded-IsDiscarded : (o : Option Yaml) → IsDiscarded (read_loaded o)
unfolding read_loaded read_document
read_loaded-IsDiscarded (some (mapping document)) = tt
read_loaded-IsDiscarded none = refl
read_loaded-IsDiscarded (some null) = tt
read_loaded-IsDiscarded (some (bool b)) = refl
read_loaded-IsDiscarded (some (number n m)) = refl
read_loaded-IsDiscarded (some not_finite) = refl
read_loaded-IsDiscarded (some other_value) = refl
read_loaded-IsDiscarded (some (str s)) = refl
read_loaded-IsDiscarded (some (sequence vs)) = refl

module _ (loader : Loader) where
  parse_text_sound :
      (content : Text)
      → IsValid (parse_text loader content) × IsDiscarded (parse_text loader content)
  parse_text_sound content = go (ltb max_policy_bytes (length content)) (is_empty (strip content))
    where
      go :
          (a b : Bool)
          → (let p =
                (if a
                  then failed_policy too_large
                  else if b
                  then empty_policy
                  else read_loaded (loader.safe_load content)) in
              IsValid p × IsDiscarded p)
      go true b = (nothing-IsValid (some too_large), refl)
      go false true = (nothing-IsValid none, tt)
      go false false = (
        read_loaded-IsValid (loader.safe_load content),
        read_loaded-IsDiscarded (loader.safe_load content),
      )

  -- Whatever the file holds, what it asks for is in order: each ignore has a reason that is not empty and at
  -- most 500 characters long, and names an advisory, or a package pattern of at most 256 characters that is not
  -- one of the four listed ones that match every name; no two ignores have one kind and
  -- identifier; each severity floor is a level and not `unknown`; and the threshold of the probability
  -- is above 0 and at most 1. Where the file cannot be used, it asks for nothing at all.
  pub parse_policy-IsValid :
      (content : Content)
      → IsValid (parse_policy loader content) × IsDiscarded (parse_policy loader content)
  unfolding parse_policy
  parse_policy-IsValid no_content = (nothing-IsValid none, tt)
  parse_policy-IsValid (characters content) = parse_text_sound content
  parse_policy-IsValid (bytes content) =
      go (ltb max_policy_bytes (length content)) (loader.decode content)
    where
      go :
          (a : Bool) (o : Option Text)
          → (let p =
                (if a then failed_policy too_large else elim o [
                  | none ↦ failed_policy not_utf8
                  | some decoded ↦ parse_text loader decoded
                ]) in
              IsValid p × IsDiscarded p)
      go true o = (nothing-IsValid (some too_large), refl)
      go false none = (nothing-IsValid (some not_utf8), refl)
      go false (some decoded) = parse_text_sound decoded
