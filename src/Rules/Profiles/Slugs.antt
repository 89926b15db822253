-- ===== src/Rules/Profiles/Slugs.antt =====
-- The slugs of app/services/profile_service.py.
use mathlib.Core.List.{reverse-reverse, reverse-cons}
use mathlib.Core.Path.{ap₂}
use weedout.Base.{
  ℕ, ◌≡◌, refl, ap, ◌∙◌, subst, ◌⊎◌, inl, inr, Bool, true, false, not, ◌&&◌, ◌||◌, [], ◌∷◌, reverse,
  arith, ◌==◌, if◌then◌else◌, ==_iff, and_cases, all, all-append,
}
use weedout.Base.Text.{Text, is_upper, is_space, lower_char, lower, lstrip, strip}
use weedout.Rules.Profiles.{is_slug_char, dash_runs, drop_dash, drop_last_dash, slugify_profile}

-- Lower-case letters, digits, and single dashes, where none comes first if `inside`
abbrev pub is_dashed : (inside : Bool) → Text → Bool
is_dashed inside [] = true
is_dashed inside (c ∷ s) =
    is_slug_char c && is_dashed false s || c == 45 && not inside && is_dashed true s

-- What `slugify_profile` returns: also without a dash at the end
abbrev pub IsSlug : Text → Type 0
IsSlug s = (is_dashed true s ≡ true) × (drop_last_dash s ≡ s)

dash_runs_dashed : (inside : Bool) (s : Text) → is_dashed inside (dash_runs inside s) ≡ true
unfolding dash_runs
dash_runs_dashed inside [] = refl
dash_runs_dashed inside (c ∷ s) =
    go (is_slug_char c) refl inside (dash_runs_dashed true s) (dash_runs_dashed false s)
  where
    go :
        (b : Bool)
        → is_slug_char c ≡ b
        → (i : Bool) → is_dashed true (dash_runs true s) ≡ true
        → is_dashed false (dash_runs false s) ≡ true
        → is_dashed i (
            if b
            then c ∷ dash_runs false s
            else if i
            then dash_runs true s
            else 45 ∷ dash_runs true s)
          ≡ true
    go true e i r w = rw (e, w) refl
    go false e true r w = r
    go false e false r w = rw r refl

weaken_dashed : (s : Text) → is_dashed true s ≡ true → is_dashed false s ≡ true
weaken_dashed [] h = refl
weaken_dashed (c ∷ s) h = ground arith

slug_char_dash : (c : ℕ) → is_slug_char c ≡ true → (c == 45) ≡ false
unfolding is_slug_char
slug_char_dash c h = ground arith

-- The two ways in which a dashed text begins
dashed_cases :
    (inside : Bool) (c : ℕ) (s : Text)
    → is_dashed inside (c ∷ s) ≡ true
    → ((is_slug_char c ≡ true) × (is_dashed false s ≡ true))
      ⊎ ((c ≡ 45) × (inside ≡ false) × (is_dashed true s ≡ true))
dashed_cases inside c s h =
    go (is_slug_char c) (c == 45) refl refl inside refl (is_dashed false s) (is_dashed true s) refl
      refl h
  where
    go :
        (a b : Bool)
        → is_slug_char c ≡ a
        → (c == 45) ≡ b
        → (i : Bool) → inside ≡ i
        → (x y : Bool) → is_dashed false s ≡ x
        → is_dashed true s ≡ y
        → (a && x || b && not i && y) ≡ true
        → ((is_slug_char c ≡ true) × (is_dashed false s ≡ true))
          ⊎ ((c ≡ 45) × (inside ≡ false) × (is_dashed true s ≡ true))
    go true b e f i k true y p q r = inl (e, p)
    go true true e f false k false true p q r = inr ((==_iff c 45).0 f, k, q)
    go false true e f false k x true p q r = inr ((==_iff c 45).0 f, k, q)
    go a b e f i k x y p q r = ground arith

dashed_word :
    (inside : Bool) (c : ℕ) (s : Text)
    → is_slug_char c ≡ true
    → is_dashed false s ≡ true
    → is_dashed inside (c ∷ s) ≡ true
dashed_word inside c s e h = rw (e, h) refl

dashed_dash :
    (inside : Bool) (s : Text)
    → inside ≡ false
    → is_dashed true s ≡ true
    → is_dashed inside (45 ∷ s) ≡ true
unfolding is_slug_char
dashed_dash inside s e h = rw (e, h) refl

drop_dash_dashed : (s : Text) → is_dashed false s ≡ true → is_dashed true (drop_dash s) ≡ true
drop_dash_dashed [] h = refl
drop_dash_dashed (c ∷ s) h = elim (dashed_cases false c s h) [
  | inl w ↦ rw (slug_char_dash c w.0) (dashed_word true c s w.0 w.1)
  | inr w ↦ rw (w.0) (w.2)
]

drop_last_dash_dashed :
    (inside : Bool) (s : Text)
    → is_dashed inside s ≡ true
    → is_dashed inside (drop_last_dash s) ≡ true
drop_last_dash_dashed inside [] h = refl
drop_last_dash_dashed inside (c ∷ []) h = go (c == 45)
  where
    go : (b : Bool) → is_dashed inside (if b then [] else c ∷ []) ≡ true
    go true = refl
    go false = h
drop_last_dash_dashed inside (c ∷ d ∷ s) h = elim (dashed_cases inside c (d ∷ s) h) [
  | inl w ↦
      dashed_word inside c (drop_last_dash (d ∷ s)) w.0 (drop_last_dash_dashed false (d ∷ s) w.1)
  | inr w ↦
      rw (w.0)
        (dashed_dash inside (drop_last_dash (d ∷ s)) w.1 (drop_last_dash_dashed true (d ∷ s) w.2))
]

no_two_dashes : (d : ℕ) → is_dashed true (d ∷ []) ≡ true → (d == 45) ≡ true → ⊥
unfolding is_slug_char
no_two_dashes d h e =
    let bad : is_dashed true (45 ∷ []) ≡ true =
      subst (λ x. is_dashed true (x ∷ []) ≡ true) ((==_iff d 45).0 e) h in
    cc

drop_two :
    (inside : Bool) (c d : ℕ)
    → is_dashed inside (c ∷ d ∷ []) ≡ true
    → (b : Bool) → (d == 45) ≡ b
    → drop_last_dash (c ∷ (if b then [] else d ∷ [])) ≡ c ∷ (if b then [] else d ∷ [])
drop_two inside c d h false e = rw e refl
drop_two inside c d h true e = elim (dashed_cases inside c (d ∷ []) h) [
  | inl w ↦ rw (slug_char_dash c w.0) refl
  | inr w ↦ absurd (no_two_dashes d w.2 e)
]

drop_last_dash_twice :
    (inside : Bool) (s : Text)
    → is_dashed inside s ≡ true
    → drop_last_dash (drop_last_dash s) ≡ drop_last_dash s
drop_last_dash_twice inside [] h = refl
drop_last_dash_twice inside (c ∷ []) h = ground arith
drop_last_dash_twice inside (c ∷ d ∷ []) h = drop_two inside c d h (d == 45) refl
drop_last_dash_twice inside (c ∷ d ∷ e ∷ s) h = elim (dashed_cases inside c (d ∷ e ∷ s) h) [
  | inl w ↦ ap (λ t. c ∷ t) (drop_last_dash_twice false (d ∷ e ∷ s) w.1)
  | inr w ↦ ap (λ t. c ∷ t) (drop_last_dash_twice true (d ∷ e ∷ s) w.2)
]

-- What `slugify_profile` returns is a slug.
pub slugify_profile-IsSlug : (name : Text) → IsSlug (slugify_profile name)
unfolding slugify_profile
slugify_profile-IsSlug name =
    let word = dash_runs false (lower (strip name)) in
    let dashed = drop_dash_dashed word (dash_runs_dashed false (lower (strip name))) in
    (
      drop_last_dash_dashed true (drop_dash word) dashed,
      drop_last_dash_twice true (drop_dash word) dashed,
    )

dash_runs_same : (inside : Bool) (s : Text) → is_dashed inside s ≡ true → dash_runs inside s ≡ s
unfolding dash_runs is_slug_char
dash_runs_same inside [] h = refl
dash_runs_same inside (c ∷ s) h = elim (dashed_cases inside c s h) [
  | inl w ↦ rw (w.0) (ap (λ t. c ∷ t) (dash_runs_same false s w.1))
  | inr w ↦ rw (w.0, w.1) (ap (λ t. 45 ∷ t) (dash_runs_same true s w.2))
]

drop_dash_same : (s : Text) → is_dashed true s ≡ true → drop_dash s ≡ s
drop_dash_same [] h = refl
drop_dash_same (c ∷ s) h = elim (dashed_cases true c s h) [
  | inl w ↦ rw (slug_char_dash c w.0) refl
  | inr w ↦ cc
]

-- The characters of a slug
abbrev is_slug_text : Text → Bool
is_slug_text = all (λ c. is_slug_char c || c == 45)

dashed-is_slug_text : (inside : Bool) (s : Text) → is_dashed inside s ≡ true → is_slug_text s ≡ true
unfolding is_slug_char
dashed-is_slug_text inside [] h = refl
dashed-is_slug_text inside (c ∷ s) h = elim (dashed_cases inside c s h) [
  | inl w ↦ rw (w.0, dashed-is_slug_text false s w.1) refl
  | inr w ↦ rw (w.0, dashed-is_slug_text true s w.2) refl
]

slug_lower : (s : Text) → is_slug_text s ≡ true → lower s ≡ s
unfolding lower is_slug_char lower_char is_upper
slug_lower [] h = refl
slug_lower (c ∷ s) h =
    let (a, b) = and_cases (is_slug_char c || c == 45) (is_slug_text s) h in
    ap₂ (λ x t. x ∷ t) (ground arith) (slug_lower s b)

is_slug_text-space : (c : ℕ) → (is_slug_char c || c == 45) ≡ true → is_space c ≡ false
unfolding is_slug_char is_space
is_slug_text-space c h = ground arith

slug_lstrip : (s : Text) → is_slug_text s ≡ true → lstrip s ≡ s
unfolding lstrip
slug_lstrip [] h = refl
slug_lstrip (c ∷ s) h =
    rw (is_slug_text-space c (and_cases (is_slug_char c || c == 45) (is_slug_text s) h).0) refl

slug_reverse : (s : Text) → is_slug_text s ≡ true → is_slug_text (reverse s) ≡ true
slug_reverse [] h = refl
slug_reverse (c ∷ s) h =
    let (a, b) = and_cases (is_slug_char c || c == 45) (is_slug_text s) h in
    ap is_slug_text (reverse-cons c s)
    ∙ all-append (λ x. is_slug_char x || x == 45) (reverse s) (c ∷ [])
    ∙ rw (slug_reverse s b, a) refl

slug_strip : (s : Text) → is_slug_text s ≡ true → strip s ≡ s
unfolding strip
slug_strip s h =
    rw (slug_lstrip s h)
      (ap reverse (slug_lstrip (reverse s) (slug_reverse s h)) ∙ reverse-reverse s)

-- A slug names itself.
pub slugify_profile-same : (s : Text) → IsSlug s → slugify_profile s ≡ s
unfolding slugify_profile
slugify_profile-same s (h, e) =
    let chars = dashed-is_slug_text true s h in
    ap (λ t. drop_last_dash (drop_dash (dash_runs false t)))
      (ap lower (slug_strip s chars) ∙ slug_lower s chars)
    ∙ ap (λ t. drop_last_dash (drop_dash t)) (dash_runs_same false s (weaken_dashed s h))
    ∙ ap drop_last_dash (drop_dash_same s h)
    ∙ e

-- A profile's slug is lower-case letters, digits and single dashes, with no dash first or last; and the
-- slug asked for as a name finds the same slug.
pub slugify_profile_again :
    (name : Text)
    → IsSlug (slugify_profile name)
      × (slugify_profile (slugify_profile name) ≡ slugify_profile name)
slugify_profile_again name =
    let h = slugify_profile-IsSlug name in (h, slugify_profile-same (slugify_profile name) h)
