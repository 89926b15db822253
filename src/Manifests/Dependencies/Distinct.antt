-- ===== src/Manifests/Dependencies/Distinct.antt =====
-- What `_dedupe` of app/core/manifests.py keeps.
use weedout.Base.{
  ◌≡◌, refl, Bool, true, false, ◌&&◌, List, [], ◌∷◌, arith, ltb, leb, ◌==◌, if◌then◌else◌, any, All,
  how_many,
}
use weedout.Base.Text.{text_eq_refl, text_eq_iff}
use weedout.Manifests.Dependencies.{same_key, exposure, keep_best}
use weedout.Types.{ecosystem_value, Dependency}

abbrev pub is_like : Dependency → Dependency → Bool
is_like d c = same_key c d

-- A dependency with the key of `d`, at least as exposed as `d` is
abbrev pub covers : Dependency → Dependency → Bool
covers d c = same_key c d && leb (exposure c.reachability) (exposure d.reachability)

same_key_refl : (d : Dependency) → same_key d d ≡ true
unfolding same_key
same_key_refl d =
    ground (
      arith,
      text_eq_refl (ecosystem_value d.ecosystem),
      text_eq_refl d.name,
      text_eq_refl d.version,
    )

-- Where two dependencies have one key, a third has it with both or with neither.
same_key_alike : (c d e : Dependency) → same_key d e ≡ true → same_key c d ≡ same_key c e
unfolding same_key
same_key_alike c d e h =
    let x =
      (text_eq_iff (ecosystem_value d.ecosystem) (ecosystem_value e.ecosystem)).0
        (ground (arith, h)) in
    let y = (text_eq_iff d.name e.name).0 (ground (arith, h)) in
    let z = (text_eq_iff d.version e.version).0 (ground (arith, h)) in rw (x, y, z) refl

same_key_left : (c e d : Dependency) → same_key c e ≡ true → same_key c d ≡ same_key e d
unfolding same_key
same_key_left c e d h =
    let x =
      (text_eq_iff (ecosystem_value c.ecosystem) (ecosystem_value e.ecosystem)).0
        (ground (arith, h)) in
    let y = (text_eq_iff c.name e.name).0 (ground (arith, h)) in
    let z = (text_eq_iff c.version e.version).0 (ground (arith, h)) in rw (x, y, z) refl

keep_best_of_another :
    (d e : Dependency) (kept : List Dependency)
    → is_like d e ≡ false
    → how_many (is_like d) (keep_best e kept) ≡ how_many (is_like d) kept
keep_best_of_another d e [] h = ground (arith, h)
keep_best_of_another d e (c ∷ kept) h =
    ground (arith, same_key_left c e d, h, keep_best_of_another d e kept h)

keep_best_alike :
    (d e : Dependency) (kept : List Dependency)
    → is_like d e ≡ true
    → how_many (is_like d) (keep_best e kept)
      ≡ (if how_many (is_like d) kept == 0 then 1 else how_many (is_like d) kept)
keep_best_alike d e [] h = ground (arith, h)
keep_best_alike d e (c ∷ kept) h =
    ground (arith, same_key_alike c e d h, h, keep_best_alike d e kept h)

pub keep_best_once :
    (d e : Dependency) (kept : List Dependency)
    → leb (how_many (is_like d) kept) 1 ≡ true
    → leb (how_many (is_like d) (keep_best e kept)) 1 ≡ true
keep_best_once d e kept h = go (is_like d e) refl
  where
    go : (b : Bool) → is_like d e ≡ b → leb (how_many (is_like d) (keep_best e kept)) 1 ≡ true
    go true x = ground (arith, keep_best_alike d e kept x, h)
    go false x = ground (arith, keep_best_of_another d e kept x, h)

-- A dependency that is covered stays covered, and one that is read is.
pub keep_best-covers :
    (d e : Dependency) (kept : List Dependency)
    → any (covers d) kept ≡ true
    → any (covers d) (keep_best e kept) ≡ true
keep_best-covers d e [] h = cc
keep_best-covers d e (c ∷ kept) h =
    ground (arith, same_key_left c e d, h, keep_best-covers d e kept)

pub keep_best_read :
    (d : Dependency) (kept : List Dependency) → any (covers d) (keep_best d kept) ≡ true
keep_best_read d [] = ground (arith, same_key_refl d)
keep_best_read d (c ∷ kept) = ground (arith, same_key_refl d, keep_best_read d kept)

pub keep_best_from :
    (P : Dependency → Type 0) (e : Dependency) (kept : List Dependency)
    → P e
    → All P kept
    → All P (keep_best e kept)
keep_best_from P e [] p a = (p, tt)
keep_best_from P e (c ∷ kept) p (q, a) =
    go (same_key c e) (ltb (exposure e.reachability) (exposure c.reachability)) refl refl
      (keep_best_from P e kept p a)
  where
    go :
        (x y : Bool)
        → same_key c e ≡ x
        → ltb (exposure e.reachability) (exposure c.reachability) ≡ y
        → All P (keep_best e kept)
        → All P (keep_best e (c ∷ kept))
    go true true h k ih = rw (h, k) (p, a)
    go true false h k ih = rw (h, k) (q, a)
    go false y h k ih = rw h (q, ih)
