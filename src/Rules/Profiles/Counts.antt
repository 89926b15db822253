-- ===== src/Rules/Profiles/Counts.antt =====
-- Counting the rule profiles of an account (app/services/profile_service.py).
use mathlib.Core.Path.{ap₂}
use weedout.Base.{
  ℕ, ◌+◌, ◌≤◌, ◌<◌, ◌≡◌, refl, sym, ap, subst, ◌⊎◌, inl, inr, Bool, true, false, ◌&&◌, some, List,
  [], ◌∷◌, ◌++◌, map, arith, ◌==◌, if◌then◌else◌, ==_iff, and_cases, any, how_many, how_many-append,
  how_many-none,
}
use weedout.Base.Text.{Text, text_eq, text_eq_iff}
use weedout.Rules.Profiles.{RuleProfile, max_profiles, is_of, has_slug, cleared, set_default}

abbrev pub is_default_of : ℕ → RuleProfile → Bool
is_default_of u p = is_of u p && p.is_default

-- At most 20 profiles of an account, one of a slug, and one that is its default
pub record IsTidy (rows : List RuleProfile) : Type 0 where
  pub few : (u : ℕ) → how_many (is_of u) rows ≤ max_profiles
  pub one_slug : (u : ℕ) (s : Text) → how_many (has_slug u s) rows ≤ 1
  pub one_default : (u : ℕ) → how_many (is_default_of u) rows ≤ 1

how_many-middle :
    (p : RuleProfile → Bool) (before after : List RuleProfile) (row : RuleProfile)
    → how_many p (before ++ row ∷ after)
      ≡ how_many p before + ((if p row then 1 else 0) + how_many p after)
how_many-middle p before after row = how_many-append p before (row ∷ after)

cleared-is_of : (u v : ℕ) (p : RuleProfile) → is_of v (cleared u p) ≡ is_of v p
cleared-is_of u v p = go (is_of u p)
  where
    go : (b : Bool) → is_of v (if b then record p { is_default = false } else p) ≡ is_of v p
    go true = refl
    go false = refl

cleared-has_slug :
    (u v : ℕ) (s : Text) (p : RuleProfile) → has_slug v s (cleared u p) ≡ has_slug v s p
cleared-has_slug u v s p = go (is_of u p)
  where
    go :
        (b : Bool)
        → has_slug v s (if b then record p { is_default = false } else p) ≡ has_slug v s p
    go true = refl
    go false = refl

how_many-map :
    (p q : RuleProfile → Bool) (f : RuleProfile → RuleProfile)
    → ((x : RuleProfile) → p (f x) ≡ q x)
    → (xs : List RuleProfile) → how_many p (map f xs) ≡ how_many q xs
how_many-map p q f h [] = refl
how_many-map p q f h (x ∷ xs) = rw (h x) (omega (arith, how_many-map p q f h xs))

cleared-default :
    (u v : ℕ) (p : RuleProfile)
    → is_default_of v (cleared u p) ≡ (if u == v then false else is_default_of v p)
cleared-default u v p = go (is_of u p) refl
  where
    go :
        (b : Bool)
        → is_of u p ≡ b
        → is_default_of v (if b then record p { is_default = false } else p)
          ≡ (if u == v then false else is_default_of v p)
    go true e = ground (arith, e)
    go false e = ground (arith, e)

-- After the defaults of `u` are cleared
how_many-cleared :
    (u v : ℕ) (xs : List RuleProfile)
    → how_many (is_default_of v) (map (cleared u) xs)
      ≡ (if u == v then 0 else how_many (is_default_of v) xs)
how_many-cleared u v [] = ground arith
how_many-cleared u v (x ∷ xs) = rw (cleared-default u v x) (go (u == v) (how_many-cleared u v xs))
  where
    go :
        (b : Bool)
        → how_many (is_default_of v) (map (cleared u) xs)
          ≡ (if b then 0 else how_many (is_default_of v) xs)
        → ((if (if b then false else is_default_of v x) then 1 else 0)
            + how_many (is_default_of v) (map (cleared u) xs))
          ≡ (if b then 0 else (if is_default_of v x then 1 else 0) + how_many (is_default_of v) xs)
    go true e = omega (arith, e)
    go false e = omega (arith, e)

-- A profile added to those whose defaults are cleared, or made the default among them
pub defaulted-IsTidy :
    (before after : List RuleProfile) (row : RuleProfile)
    → IsTidy (before ++ row ∷ after)
    → IsTidy (set_default row.user_id before (some row) after)
unfolding set_default
defaulted-IsTidy before after row t = record {
  few = λ v. omega (
    arith,
    how_many-middle (is_of v) (map (cleared u) before) (map (cleared u) after) chosen_row,
    how_many-map (is_of v) (is_of v) (cleared u) (cleared-is_of u v) before,
    how_many-map (is_of v) (is_of v) (cleared u) (cleared-is_of u v) after,
    how_many-middle (is_of v) before after row,
    t.few v,
  );
  one_slug = λ v s. omega (
    arith,
    how_many-middle (has_slug v s) (map (cleared u) before) (map (cleared u) after) chosen_row,
    how_many-map (has_slug v s) (has_slug v s) (cleared u) (cleared-has_slug u v s) before,
    how_many-map (has_slug v s) (has_slug v s) (cleared u) (cleared-has_slug u v s) after,
    how_many-middle (has_slug v s) before after row,
    t.one_slug v s,
  );
  one_default = λ v. ground (
    arith,
    how_many-middle (is_default_of v) (map (cleared u) before) (map (cleared u) after) chosen_row,
    how_many-cleared u v before,
    how_many-cleared u v after,
    how_many-middle (is_default_of v) before after row,
    t.one_default v,
  );
}
  where
    u : ℕ
    u = row.user_id

    chosen_row : RuleProfile
    chosen_row = record row { is_default = true }

-- Rows that have nothing of the account and slug of `p` have nothing of those of a test that `p` passes.
slug_is :
    (p : RuleProfile) (v : ℕ) (s : Text)
    → has_slug v s p ≡ true
    → (rows : List RuleProfile) → any (has_slug p.user_id p.slug) rows ≡ false
    → any (has_slug v s) rows ≡ false
slug_is p v s e rows h =
    let (a, b) = and_cases (is_of v p) (text_eq p.slug s) e in
    subst (λ w. any (has_slug w s) rows ≡ false) ((==_iff p.user_id v).0 a)
      (subst (λ x. any (has_slug p.user_id x) rows ≡ false) ((text_eq_iff p.slug s).0 b) h)

-- The slug is that of the profile `p`, or nobody's among the rows.
abbrev pub IsFreeSlug : List RuleProfile → RuleProfile → Text → Type 0
IsFreeSlug rows p s = (s ≡ p.slug) ⊎ (any (has_slug p.user_id s) rows ≡ false)

pub added-IsTidy :
    (rows : List RuleProfile) (p : RuleProfile)
    → IsTidy rows
    → p.is_default ≡ false
    → how_many (is_of p.user_id) rows < max_profiles
    → any (has_slug p.user_id p.slug) rows ≡ false
    → IsTidy (rows ++ p ∷ [])
added-IsTidy rows p t plain room free = record {
  few = λ v. few_of v (p.user_id == v) refl;
  one_slug = λ v s. one_of_slug v s (has_slug v s p) refl;
  one_default = λ v.
      rw (how_many-middle (is_default_of v) rows [] p, plain) (ground (arith, t.one_default v));
}
  where
    few_of :
        (v : ℕ) (b : Bool)
        → (p.user_id == v) ≡ b
        → how_many (is_of v) (rows ++ p ∷ []) ≤ max_profiles
    few_of v true e =
        let fewer : how_many (is_of v) rows < max_profiles =
          subst (λ w. how_many (is_of w) rows < max_profiles) ((==_iff p.user_id v).0 e) room in
        ground (arith, how_many-append (is_of v) rows (p ∷ []), e, fewer)
    few_of v false e = ground (arith, how_many-append (is_of v) rows (p ∷ []), e, t.few v)

    one_of_slug :
        (v : ℕ) (s : Text) (b : Bool)
        → has_slug v s p ≡ b
        → how_many (has_slug v s) (rows ++ p ∷ []) ≤ 1
    one_of_slug v s true e = ground (
      arith,
      how_many-append (has_slug v s) rows (p ∷ []),
      e,
      how_many-none (has_slug v s) rows (slug_is p v s e rows free),
    )
    one_of_slug v s false e =
        ground (arith, how_many-append (has_slug v s) rows (p ∷ []), e, t.one_slug v s)

-- A profile changed in its place, which keeps its account and whether it is the default
pub replaced-IsTidy :
    (before after : List RuleProfile) (row p : RuleProfile)
    → IsTidy (before ++ row ∷ after)
    → p.user_id ≡ row.user_id
    → p.is_default ≡ row.is_default
    → IsFreeSlug (before ++ row ∷ after) row p.slug
    → IsTidy (before ++ p ∷ after)
replaced-IsTidy before after row p t same_user same_default free = record {
  few = λ v. omega (
    arith,
    how_many-middle (is_of v) before after row,
    how_many-middle (is_of v) before after p,
    ap {B = ℕ} (λ u. if u == v then 1 else 0) same_user,
    t.few v,
  );
  one_slug = λ v s. slugs free v s (has_slug v s p) refl;
  one_default = λ v. omega (
    arith,
    how_many-middle (is_default_of v) before after row,
    how_many-middle (is_default_of v) before after p,
    ap₂ {C = ℕ} (λ u d. if u == v && d then 1 else 0) same_user same_default,
    t.one_default v,
  );
}
  where
    slugs :
        IsFreeSlug (before ++ row ∷ after) row p.slug
        → (v : ℕ) (s : Text) (b : Bool) → has_slug v s p ≡ b
        → how_many (has_slug v s) (before ++ p ∷ after) ≤ 1
    slugs (inl same_slug) v s b e = omega (
      arith,
      how_many-middle (has_slug v s) before after row,
      how_many-middle (has_slug v s) before after p,
      ap₂ {C = ℕ} (λ u x. if u == v && text_eq x s then 1 else 0) same_user same_slug,
      t.one_slug v s,
    )
    slugs (inr nobody) v s true e =
        let none_there : any (has_slug p.user_id p.slug) (before ++ row ∷ after) ≡ false =
          subst (λ u. any (has_slug u p.slug) (before ++ row ∷ after) ≡ false) (sym same_user)
            nobody in
        ground (
          arith,
          how_many-middle (has_slug v s) before after row,
          how_many-middle (has_slug v s) before after p,
          e,
          how_many-none (has_slug v s) (before ++ row ∷ after)
              (slug_is p v s e (before ++ row ∷ after) none_there),
        )
    slugs (inr nobody) v s false e = ground (
      arith,
      how_many-middle (has_slug v s) before after row,
      how_many-middle (has_slug v s) before after p,
      e,
      t.one_slug v s,
    )

pub removed-IsTidy :
    (before after : List RuleProfile) (row : RuleProfile)
    → IsTidy (before ++ row ∷ after)
    → IsTidy (before ++ after)
removed-IsTidy before after row t = record {
  few = λ v. fewer (is_of v) max_profiles (t.few v);
  one_slug = λ v s. fewer (has_slug v s) 1 (t.one_slug v s);
  one_default = λ v. fewer (is_default_of v) 1 (t.one_default v);
}
  where
    fewer :
        (p : RuleProfile → Bool) (n : ℕ)
        → how_many p (before ++ row ∷ after) ≤ n
        → how_many p (before ++ after) ≤ n
    fewer p n h =
        omega (arith, how_many-middle p before after row, how_many-append p before after, h)

pub cleared-IsTidy : (u : ℕ) (rows : List RuleProfile) → IsTidy rows → IsTidy (map (cleared u) rows)
cleared-IsTidy u rows t = record {
  few = λ v. rw (how_many-map (is_of v) (is_of v) (cleared u) (cleared-is_of u v) rows) (t.few v);
  one_slug = λ v s.
      rw (how_many-map (has_slug v s) (has_slug v s) (cleared u) (cleared-has_slug u v s) rows)
        (t.one_slug v s);
  one_default = λ v. ground (arith, how_many-cleared u v rows, t.one_default v);
}
