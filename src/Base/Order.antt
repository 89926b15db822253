-- ===== src/Base/Order.antt =====
-- Comparators: functions into -1, 0 and 1 (here `lt`, `eq`, `gt`), when they are total preorders,
-- and the ways in which the code builds one from others.
use Prim.Native.Nat.{compare, Ordering, lt, eq, gt}
use mathlib.Core.Path.{◌≡◌, refl}
use mathlib.Core.Logic.{◌≢◌}
use mathlib.Core.List.{List, [], ◌∷◌}
use native.Mathlib.Omega.{arith}

-- `-c`
abbrev pub swap : Ordering → Ordering
swap lt = gt
swap eq = eq
swap gt = lt

-- The second comparison decides where the first is 0.
abbrev pub then_by : Ordering → Ordering → Ordering
then_by lt d = lt
then_by eq d = d
then_by gt d = gt

-- A total preorder: `eq` is an equivalence that the other answers respect, `lt` is transitive.
pub record IsPreorder {ℓ} {A : Type ℓ} (cmp : A → A → Ordering) : Type ℓ where
  pub flip : (a b : A) → cmp b a ≡ swap (cmp a b)
  pub lt_trans : (a b c : A) → cmp a b ≡ lt → cmp b c ≡ lt → cmp a c ≡ lt
  pub eq_left : (a b c : A) → cmp a b ≡ eq → cmp a c ≡ cmp b c

module _ {ℓ} {A : Type ℓ} {cmp : A → A → Ordering} (o : IsPreorder cmp) where
  pub cmp_refl : (a : A) → cmp a a ≡ eq
  cmp_refl a = ground (arith, o.flip a a)

  pub eq_right : (a b c : A) → cmp b c ≡ eq → cmp a b ≡ cmp a c
  eq_right a b c h = ground (arith, o.flip b a, o.flip c a, o.eq_left b c a h)

  pub le_trans : (a b c : A) → cmp a b ≢ gt → cmp b c ≢ gt → cmp a c ≢ gt
  le_trans a b c h k = ground (arith, o.lt_trans a b c, o.eq_left a b c, eq_right a b c)

  pub lt_le_trans : (a b c : A) → cmp a b ≡ lt → cmp b c ≢ gt → cmp a c ≡ lt
  lt_le_trans a b c h k = ground (arith, o.lt_trans a b c, eq_right a b c)

  pub le_lt_trans : (a b c : A) → cmp a b ≢ gt → cmp b c ≡ lt → cmp a c ≡ lt
  le_lt_trans a b c h k = ground (arith, o.lt_trans a b c, o.eq_left a b c)

pub compare-IsPreorder : IsPreorder compare
compare-IsPreorder = record {
  flip = λ a b. ground arith;
  lt_trans = λ a b c h k. ground arith;
  eq_left = λ a b c h. ground arith;
}

-- Comparing by a key.
pub on-IsPreorder {ℓ κ} :
    {A : Type ℓ} {B : Type κ} (key : B → A) {cmp : A → A → Ordering}
    → IsPreorder cmp
    → IsPreorder (λ a b. cmp (key a) (key b))
on-IsPreorder key o = record {
  flip = λ a b. o.flip (key a) (key b);
  lt_trans = λ a b c. o.lt_trans (key a) (key b) (key c);
  eq_left = λ a b c. o.eq_left (key a) (key b) (key c);
}

-- Comparing by one criterion, then by another.
pub then_by-IsPreorder {ℓ} :
    {A : Type ℓ} {cmp cmp' : A → A → Ordering}
    → IsPreorder cmp
    → IsPreorder cmp'
    → IsPreorder (λ a b. then_by (cmp a b) (cmp' a b))
then_by-IsPreorder o o' = record {
  flip = λ a b. ground (arith, o.flip a b, o'.flip a b);
  lt_trans = λ a b c h k.
      ground (arith, o.lt_trans a b c, o'.lt_trans a b c, o.eq_left a b c, eq_right o a b c);
  eq_left = λ a b c h. ground (arith, o.eq_left a b c, o'.eq_left a b c);
}

-- The lexicographic order of Python's tuples, lists and strings: a proper prefix is less.
unfoldable pub lexicographic {ℓ} : {A : Type ℓ} → (A → A → Ordering) → List A → List A → Ordering
lexicographic cmp [] [] = eq
lexicographic cmp [] (y ∷ ys) = lt
lexicographic cmp (x ∷ xs) [] = gt
lexicographic cmp (x ∷ xs) (y ∷ ys) = then_by (cmp x y) (lexicographic cmp xs ys)

module _ {ℓ} {A : Type ℓ} {cmp : A → A → Ordering} (o : IsPreorder cmp) where
  lexicographic_flip : (xs ys : List A) → lexicographic cmp ys xs ≡ swap (lexicographic cmp xs ys)
  unfolding lexicographic
  lexicographic_flip [] [] = refl
  lexicographic_flip [] (y ∷ ys) = refl
  lexicographic_flip (x ∷ xs) [] = refl
  lexicographic_flip (x ∷ xs) (y ∷ ys) = ground (arith, o.flip x y, lexicographic_flip xs ys)

  lexicographic_trans :
      (xs ys zs : List A)
      → lexicographic cmp xs ys ≡ lt
      → lexicographic cmp ys zs ≡ lt
      → lexicographic cmp xs zs ≡ lt
  unfolding lexicographic
  lexicographic_trans [] ys [] h k = ground (arith, lexicographic_flip [] ys)
  lexicographic_trans [] ys (z ∷ zs) h k = refl
  lexicographic_trans (x ∷ xs) [] zs h k = cc
  lexicographic_trans (x ∷ xs) (y ∷ ys) [] h k = cc
  lexicographic_trans (x ∷ xs) (y ∷ ys) (z ∷ zs) h k =
      ground
        (arith, o.lt_trans x y z, o.eq_left x y z, eq_right o x y z, lexicographic_trans xs ys zs)

  lexicographic_congr :
      (xs ys zs : List A)
      → lexicographic cmp xs ys ≡ eq
      → lexicographic cmp xs zs ≡ lexicographic cmp ys zs
  unfolding lexicographic
  lexicographic_congr [] [] zs h = refl
  lexicographic_congr [] (y ∷ ys) zs h = cc
  lexicographic_congr (x ∷ xs) [] zs h = cc
  lexicographic_congr (x ∷ xs) (y ∷ ys) [] h = refl
  lexicographic_congr (x ∷ xs) (y ∷ ys) (z ∷ zs) h =
      ground (arith, o.eq_left x y z, lexicographic_congr xs ys zs)

  pub lexicographic-IsPreorder : IsPreorder (lexicographic cmp)
  lexicographic-IsPreorder = record {
    flip = lexicographic_flip;
    lt_trans = lexicographic_trans;
    eq_left = lexicographic_congr;
  }

-- Comparing the other way round.
pub reverse-IsPreorder {ℓ} :
    {A : Type ℓ} {cmp : A → A → Ordering} → IsPreorder cmp → IsPreorder (λ a b. cmp b a)
reverse-IsPreorder o = record {
  flip = λ a b. o.flip b a;
  lt_trans = λ a b c h k. o.lt_trans c b a k h;
  eq_left = λ a b c h. eq_right o c a b (ground (arith, o.flip a b));
}
