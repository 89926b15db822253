-- ===== src/Advisories/Severities/Laws.antt =====
-- Which of an advisory's severity entries decides, for app/core/cvss.py.
use weedout.Advisories.Cvss.Vectors.{score_cvss_vector}
use weedout.Advisories.Json.{num, Json, null, bool, str, arr, obj, get, filled}
use weedout.Advisories.Severities.{
  score_to_severity, label_to_severity, Best, settle, consider, consider_all, normalize_severity,
  beats, offer, or_else,
}
use weedout.Base.{
  ℕ, suc, ◌≤◌, ◌≡◌, refl, sym, ◌∙◌, subst, ◌⊎◌, inl, inr, Bool, true, false, Option, none, some,
  List, [], ◌∷◌, arith, ltb, if◌then◌else◌, Bool-cases, All, In,
}
use weedout.Base.Text.{Text, text, upper, starts_with}
use weedout.Types.{Severity, Score}

module _ (float_of : Text → Option Score) where
  -- The score that an entry gives: its CVSS v3 vector's, or the number that it is.
  abbrev pub entry_score : Json → Option Score
  entry_score (obj fs) = elim (filled (get (text "score") fs)) [
    | none ↦ none
    | some raw ↦
        if starts_with (text "CVSS:3") (upper raw)
        then score_cvss_vector raw
        else if starts_with (text "CVSS:") (upper raw)
        then none
        else float_of raw
  ]
  entry_score _ = none

  abbrev height : Option Score → ℕ
  height none = 0
  height (some s) = suc s

  -- The greatest of the entries' scores, or none where no entry has one.
  abbrev pub IsBest : List Json → Option Score → Type 0
  IsBest es o =
      All (λ e. height (entry_score e) ≤ height o) es
      × ((o ≡ none) ⊎ ((e : Json) × In e es × (entry_score e ≡ o)))

  larger : Option Score → Option Score → Option Score
  larger o none = o
  larger none (some s) = some s
  larger (some t) (some s) = if ltb t s then some s else some t

  largest : Option Score → List Json → Option Score
  unfolding larger
  largest o [] = o
  largest o (e ∷ es) = largest (larger o (entry_score e)) es

  offer-larger :
      (o : Option Score) (v : Option Text) (best : Best)
      → (offer o v best).best_score ≡ larger best.best_score o
  unfolding offer beats larger
  offer-larger none v best = refl
  offer-larger (some s) v best = go best.best_score
    where
      picked : Best
      picked = record {
        best_score = some s;
        best_vector = v;
        fallback_vector = best.fallback_vector;
      }

      go :
          (o : Option Score)
          → (if beats s o then picked else record {
            best_score = o;
            best_vector = best.best_vector;
            fallback_vector = best.fallback_vector;
          }).best_score
            ≡ larger o (some s)
      go none = refl
      go (some t) = ground arith

  consider-larger :
      (best : Best) (e : Json)
      → (consider float_of best e).best_score ≡ larger best.best_score (entry_score e)
  unfolding consider larger
  consider-larger best (obj fs) = go (filled (get (text "score") fs))
    where
      go :
          (o : Option Text)
          → (elim o as (λ _. Best) [
            | none ↦ best
            | some raw ↦
                if starts_with (text "CVSS:3") (upper raw)
                then offer (score_cvss_vector raw) (some raw) best
                else if starts_with (text "CVSS:") (upper raw)
                then record {
                  best_score = best.best_score;
                  best_vector = best.best_vector;
                  fallback_vector = or_else best.fallback_vector (some raw);
                }
                else offer (float_of raw) none best
          ]).best_score
            ≡ larger best.best_score (elim o [
              | none ↦ none
              | some raw ↦
                  if starts_with (text "CVSS:3") (upper raw)
                  then score_cvss_vector raw
                  else if starts_with (text "CVSS:") (upper raw)
                  then none
                  else float_of raw
            ])
      go none = refl
      go (some raw) = elim (Bool-cases (starts_with (text "CVSS:3") (upper raw))) [
        | inl e ↦ rw e (offer-larger (score_cvss_vector raw) (some raw) best)
        | inr e ↦ rw e (elim (Bool-cases (starts_with (text "CVSS:") (upper raw))) [
          | inl f ↦ rw f refl
          | inr f ↦ rw f (offer-larger (float_of raw) none best)
        ])
      ]
  consider-larger best null = refl
  consider-larger best (bool b) = refl
  consider-larger best (num n) = refl
  consider-larger best (str s) = refl
  consider-larger best (arr vs) = refl

  consider_all-largest :
      (best : Best) (es : List Json)
      → (consider_all float_of best es).best_score ≡ largest best.best_score es
  unfolding consider_all largest
  consider_all-largest best [] = refl
  consider_all-largest best (e ∷ es) =
      rw (consider_all-largest (consider float_of best e) es, consider-larger best e) refl

  larger-upper :
      (o p : Option Score) → (height o ≤ height (larger o p)) × (height p ≤ height (larger o p))
  unfolding larger
  larger-upper none none = (omega arith, omega arith)
  larger-upper (some t) none = (omega arith, omega arith)
  larger-upper none (some s) = (omega arith, omega arith)
  larger-upper (some t) (some s) = (ground arith, ground arith)

  larger_cases : (o p : Option Score) → (larger o p ≡ o) ⊎ (larger o p ≡ p)
  unfolding larger
  larger_cases o none = inl refl
  larger_cases none (some s) = inr refl
  larger_cases (some t) (some s) = go (ltb t s)
    where
      go :
          (b : Bool)
          → ((if b then some s else some t) ≡ some t) ⊎ ((if b then some s else some t) ≡ some s)
      go true = inr refl
      go false = inl refl

  largest-le : (o : Option Score) (es : List Json) → height o ≤ height (largest o es)
  unfolding largest
  largest-le o [] = omega arith
  largest-le o (e ∷ es) =
      omega (arith, larger-upper o (entry_score e), largest-le (larger o (entry_score e)) es)

  largest-upper :
      (o : Option Score) (es : List Json)
      → All (λ e. height (entry_score e) ≤ height (largest o es)) es
  unfolding largest
  largest-upper o [] = tt
  largest-upper o (e ∷ es) = (
    omega (arith, larger-upper o (entry_score e), largest-le (larger o (entry_score e)) es),
    largest-upper (larger o (entry_score e)) es,
  )

  largest_attained :
      (o : Option Score) (es : List Json)
      → (largest o es ≡ o) ⊎ ((e : Json) × In e es × (entry_score e ≡ largest o es))
  unfolding largest
  largest_attained o [] = inl refl
  largest_attained o (e ∷ es) = elim (largest_attained (larger o (entry_score e)) es) [
    | inr (d, m, q) ↦ inr (d, inr m, q)
    | inl q ↦ elim (larger_cases o (entry_score e)) [
      | inl r ↦ inl (q ∙ r)
      | inr r ↦ inr (e, inl refl, sym (q ∙ r))
    ]
  ]

  abbrev pub chosen : Option Score → Option Text → Severity
  chosen none label = label_to_severity label
  chosen (some s) label = score_to_severity (some s)

  settle-chosen :
      (best : Best) (label : Option Text)
      → ((settle best label).1 ≡ best.best_score)
        × ((settle best label).0 ≡ chosen (settle best label).1 label)
  unfolding settle
  settle-chosen best label = go best.best_score
    where
      go :
          (o : Option Score)
          → (let r = (elim o as (λ _. Severity × Option Score × Option Text) [
            | none ↦ (label_to_severity label, none, best.fallback_vector)
            | some s ↦
                (score_to_severity (some s), some s, or_else best.best_vector best.fallback_vector)
          ]) in
              (r.1 ≡ o) × (r.0 ≡ chosen r.1 label))
      go none = (refl, refl)
      go (some s) = (refl, refl)

  -- The score is the greatest that an entry gives, and there is none where no entry gives one. The
  -- severity is the band of that score, or, without one, what the label says.
  pub normalize_severity-IsBest :
      (es : List Json) (label : Option Text)
      → (let (severity, score, vector) = normalize_severity float_of es label in
          IsBest es score × (severity ≡ chosen score label))
  unfolding normalize_severity
  normalize_severity-IsBest es label =
      let start : Best = record { best_score = none; best_vector = none; fallback_vector = none } in
      let (score, severity) = settle-chosen (consider_all float_of start es) label in
      let same = score ∙ consider_all-largest start es in
      (subst (IsBest es) (sym same) (largest-upper none es, largest_attained none es), severity)
