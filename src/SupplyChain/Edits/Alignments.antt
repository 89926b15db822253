-- ===== src/SupplyChain/Edits/Alignments.antt =====
-- Alignments: the ways to edit one text into another, with the number of edits.
use Prim.Native.Nat.{min}
use mathlib.Core.List.{reverse-reverse, reverse-cons}
use weedout.Base.{
  ℕ, suc, ◌+◌, ◌≤◌, ◌≡◌, sym, subst, ◌⊎◌, inl, inr, [], ◌∷◌, ◌++◌, reverse, append-nil, arith, leb,
  ◌==◌, Bool-cases, length,
}
use weedout.Base.Text.{Text}
use weedout.SupplyChain.Edits.{cost}

pub data Align : Text → Text → ℕ → Type 0 where
  done : Align [] [] 0
  same : {c : ℕ} {s t : Text} {n : ℕ} → Align s t n → Align (c ∷ s) (c ∷ t) n
  change : {c d : ℕ} {s t : Text} {n : ℕ} → Align s t n → Align (c ∷ s) (d ∷ t) (suc n)
  insert : {d : ℕ} {s t : Text} {n : ℕ} → Align s t n → Align s (d ∷ t) (suc n)
  remove : {c : ℕ} {s t : Text} {n : ℕ} → Align s t n → Align (c ∷ s) t (suc n)

pub Align-refl : (s : Text) → Align s s 0
Align-refl [] = done
Align-refl (c ∷ s) = same (Align-refl s)

pub Align-length :
    {s t : Text} {n : ℕ} → Align s t n → (length s ≤ length t + n) × (length t ≤ length s + n)
Align-length done = (omega arith, omega arith)
Align-length (same a) = (omega (arith, Align-length a), omega (arith, Align-length a))
Align-length (change a) = (omega (arith, Align-length a), omega (arith, Align-length a))
Align-length (insert a) = (omega (arith, Align-length a), omega (arith, Align-length a))
Align-length (remove a) = (omega (arith, Align-length a), omega (arith, Align-length a))

pub costing : {s t : Text} {n : ℕ} → Align s t n → {m : ℕ} → n ≡ m → Align s t m
costing a {m} e = subst (Align _ _) e a

pub Align-append :
    {s t u v : Text} {n m : ℕ} → Align s t n → Align u v m → Align (s ++ u) (t ++ v) (n + m)
Align-append done b = costing b (omega arith)
Align-append (same a) b = same (Align-append a b)
Align-append (change a) b = costing (change (Align-append a b)) (omega arith)
Align-append (insert a) b = costing (insert (Align-append a b)) (omega arith)
Align-append (remove a) b = costing (remove (Align-append a b)) (omega arith)

-- An alignment read backwards
pub Align-reverse : {s t : Text} {n : ℕ} → Align s t n → Align (reverse s) (reverse t) n
Align-reverse done = done
Align-reverse (same {c} {s} {t} a) =
    rw (reverse-cons c s, reverse-cons c t)
      (costing (Align-append (Align-reverse a) (same done)) (omega arith))
Align-reverse (change {c} {d} {s} {t} a) =
    rw (reverse-cons c s, reverse-cons d t)
      (costing (Align-append (Align-reverse a) (change done)) (omega arith))
Align-reverse (insert {d} {s} {t} {n} a) = rw (reverse-cons d t) (
    subst (λ r. Align r (reverse t ++ d ∷ []) (suc n)) (append-nil (reverse s))
      (costing (Align-append (Align-reverse a) (insert done)) (omega arith)))
Align-reverse (remove {c} {s} {t} {n} a) = rw (reverse-cons c s) (
    subst (λ r. Align (reverse s ++ c ∷ []) r (suc n)) (append-nil (reverse t))
      (costing (Align-append (Align-reverse a) (remove done)) (omega arith)))

-- `n` is the number of edits of a shortest alignment.
pub record IsDistance (s t : Text) (n : ℕ) : Type 0 where
  pub aligned : Align s t n
  pub shortest : (m : ℕ) → Align s t m → n ≤ m

pub empty-IsDistance : (t : Text) → IsDistance [] t (length t)
empty-IsDistance t = record {
  aligned = all_inserted t;
  shortest = λ m a. omega (arith, Align-length a);
}
  where
    all_inserted : (t : Text) → Align [] t (length t)
    all_inserted [] = done
    all_inserted (c ∷ t) = insert (all_inserted t)

pub removed-IsDistance : (s : Text) → IsDistance s [] (length s)
removed-IsDistance s = record {
  aligned = all_removed s;
  shortest = λ m a. omega (arith, Align-length a);
}
  where
    all_removed : (s : Text) → Align s [] (length s)
    all_removed [] = done
    all_removed (c ∷ s) = remove (all_removed s)

pub reversed-IsDistance :
    (s t : Text) (n : ℕ) → IsDistance (reverse s) (reverse t) n → IsDistance s t n
reversed-IsDistance s t n d = record {
  aligned =
      subst (λ u. Align u t n) (reverse-reverse s)
        (subst (λ u. Align (reverse (reverse s)) u n) (reverse-reverse t)
          (Align-reverse d.aligned));
  shortest = λ m a. d.shortest m (Align-reverse a);
}

-- The recurrence of the table
cell-below :
    (x y : ℕ) (s t : Text) (up back diagonal m : ℕ)
    → ((k : ℕ) → Align s (y ∷ t) k → up ≤ k)
    → ((k : ℕ) → Align (x ∷ s) t k → back ≤ k)
    → ((k : ℕ) → Align s t k → diagonal ≤ k)
    → Align (x ∷ s) (y ∷ t) m
    → min (min (up + 1) (back + 1)) (diagonal + cost x y) ≤ m
cell-below x y s t up back diagonal m u b d (same a) = ground (arith, d _ a)
cell-below x y s t up back diagonal m u b d (change a) = ground (arith, d _ a)
cell-below x y s t up back diagonal m u b d (insert a) = ground (arith, b _ a)
cell-below x y s t up back diagonal m u b d (remove a) = ground (arith, u _ a)

min_cases : (a b : ℕ) → (min a b ≡ a) ⊎ (min a b ≡ b)
min_cases a b = elim (Bool-cases (leb a b)) [
  | inl h ↦ inl (ground arith)
  | inr h ↦ inr (ground arith)
]

diagonal_step : (x y : ℕ) (s t : Text) (n : ℕ) → Align s t n → Align (x ∷ s) (y ∷ t) (n + cost x y)
diagonal_step x y s t n a = elim (Bool-cases (x == y)) [
  | inl h ↦
      subst (λ z. Align (x ∷ s) (z ∷ t) (n + cost x y)) (ground arith)
        (costing (same a) (ground arith))
  | inr h ↦ costing (change a) (ground arith)
]

pub cell-IsDistance :
    (x y : ℕ) (s t : Text) (up back diagonal : ℕ)
    → IsDistance s (y ∷ t) up
    → IsDistance (x ∷ s) t back
    → IsDistance s t diagonal
    → IsDistance (x ∷ s) (y ∷ t) (min (min (up + 1) (back + 1)) (diagonal + cost x y))
cell-IsDistance x y s t up back diagonal u b d = record {
  aligned = elim (min_cases (min (up + 1) (back + 1)) (diagonal + cost x y)) [
    | inr e ↦ costing (diagonal_step x y s t diagonal d.aligned) (sym e)
    | inl e ↦ elim (min_cases (up + 1) (back + 1)) [
      | inl f ↦ costing (remove u.aligned) (omega arith)
      | inr f ↦ costing (insert b.aligned) (omega arith)
    ]
  ];
  shortest = λ m a. cell-below x y s t up back diagonal m u.shortest b.shortest d.shortest a;
}
