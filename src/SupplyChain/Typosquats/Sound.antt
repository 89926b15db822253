-- ===== src/SupplyChain/Typosquats/Sound.antt =====
-- What a signal of `check_typosquat` of app/core/supply_chain.py is about.
use mathlib.Core.Option.{none-ne-some}
use weedout.Base.{
  ℕ, ◌≤◌, ◌≡◌, refl, sym, ◌∙◌, subst, ◌⊎◌, inl, inr, Bool, true, false, not, ◌&&◌, ◌||◌, Option,
  none, some, List, [], ◌∷◌, arith, leb, ◌==◌, if◌then◌else◌, Bool-cases, and_cases, length, In,
}
use weedout.Base.Text.{Text, text_eq, text_eq_iff}
use weedout.SupplyChain.Edits.{edit_distance}
use weedout.SupplyChain.Edits.Alignments.{Align, Align-refl}
use weedout.SupplyChain.Edits.Laws.{edit_distance-Settles}
use weedout.SupplyChain.Typosquats.{
  concerning, Resemblance, separator, TyposquatSignal, canonical, is_confusable_swap,
  is_transposition, classify, resemblance_of, check_target, check_targets, check_typosquat, report,
  first_of,
}
use weedout.SupplyChain.Typosquats.Laws.{lowered_name, is_checked, check_typosquat-is_checked}

-- A signal is about a popular name that is at most two edits away, two only where two neighbouring
-- characters are swapped.
abbrev pub IsAbout : List Text → Text → TyposquatSignal → Type 0
IsAbout popular lowered signal =
    In signal.resembles popular
    × ((n : ℕ) × Align (canonical lowered) (canonical signal.resembles) n
        × ((n ≤ 1)
            ⊎ (n ≡ 2) × (is_transposition (canonical lowered) (canonical signal.resembles) ≡ true)))

-- `classify` reports nothing else: the distance is at most 1, or it is 2 and the texts are transposed.
classify-none :
    (distance : ℕ) (transposed swapped same_length : Bool)
    → (leb distance 1 || distance == 2 && transposed) ≡ false
    → classify distance transposed swapped same_length ≡ none
unfolding classify
classify-none distance true swapped same_length h = ground arith
classify-none distance false swapped same_length h = ground arith

classify-near :
    (distance : ℕ) (transposed swapped same_length : Bool) (r : Resemblance)
    → classify distance transposed swapped same_length ≡ some r
    → (distance ≤ 1) ⊎ (distance ≡ 2) × (transposed ≡ true)
classify-near distance transposed swapped same_length r h =
    elim (Bool-cases (leb distance 1 || distance == 2 && transposed)) [
      | inl e ↦ elim (Bool-cases (leb distance 1)) [
        | inl f ↦ inl (ground arith)
        | inr f ↦ inr (ground arith, ground arith)
      ]
      | inr e ↦
          elim (none-ne-some r
            (sym (classify-none distance transposed swapped same_length e) ∙ h)) [ ]
    ]

near-Align :
    (s t : Text) (r : Resemblance)
    → resemblance_of s t ≡ some r
    → (n : ℕ) × Align s t n × ((n ≤ 1) ⊎ (n ≡ 2) × (is_transposition s t ≡ true))
unfolding resemblance_of
near-Align s t r h =
    let near =
      classify-near (edit_distance 2 s t) (is_transposition s t) (is_confusable_swap s t)
        (length s == length t) r h in
    elim (edit_distance-Settles 2 s t) [
      | inl d ↦ (edit_distance 2 s t, d.aligned, near)
      | inr (e, far) ↦ elim (over near e) [ ]
    ]
  where
    over :
        (edit_distance 2 s t ≤ 1) ⊎ (edit_distance 2 s t ≡ 2) × (is_transposition s t ≡ true)
        → edit_distance 2 s t ≡ 3
        → ⊥
    over (inl a) e = omega arith
    over (inr (a, b)) e = omega arith

abbrev AreAbout : List Text → Text → Option TyposquatSignal → Type 0
AreAbout popular lowered none = Unit
AreAbout popular lowered (some signal) = IsAbout popular lowered signal

check_target-about :
    (popular : List Text) (lowered target : Text)
    → In target popular
    → AreAbout popular lowered (check_target lowered target)
unfolding check_target report
check_target-about popular lowered target m =
    go (Bool-cases same_name) (resemblance_of (canonical lowered) (canonical target))
      (near-Align (canonical lowered) (canonical target))
  where
    same_name : Bool
    same_name = text_eq (canonical lowered) (canonical target) && not (text_eq lowered target)

    equal : same_name ≡ true → canonical lowered ≡ canonical target
    equal e =
        (text_eq_iff (canonical lowered) (canonical target)).0
          (and_cases (text_eq (canonical lowered) (canonical target)) _ e).0

    go :
        ((same_name ≡ true) ⊎ (same_name ≡ false))
        → (o : Option Resemblance)
        → ((r : Resemblance)
            → o ≡ some r
            → (n : ℕ) × Align (canonical lowered) (canonical target) n
              × ((n ≤ 1)
                  ⊎ (n ≡ 2) × (is_transposition (canonical lowered) (canonical target) ≡ true)))
        → AreAbout popular lowered (
            if same_name
            then some record { level = concerning; resembles = target; resemblance = separator }
            else report target o)
    go (inl e) o near = rw e (
      m,
      (
        0,
        subst (λ t. Align (canonical lowered) t 0) (equal e) (Align-refl (canonical lowered)),
        inl (omega arith),
      ),
    )
    go (inr e) none near = rw e tt
    go (inr e) (some r) near = rw e (m, near r refl)

first_of-about :
    (popular : List Text) (lowered : Text) (o r : Option TyposquatSignal)
    → AreAbout popular lowered o
    → AreAbout popular lowered r
    → AreAbout popular lowered (first_of o r)
first_of-about popular lowered (some signal) r a b = a
first_of-about popular lowered none r a b = b

check_targets-about :
    (popular : List Text) (lowered : Text) (targets : List Text)
    → ((t : Text) → In t targets → In t popular)
    → AreAbout popular lowered (check_targets lowered targets)
unfolding check_targets
check_targets-about popular lowered [] sub = tt
check_targets-about popular lowered (t ∷ ts) sub =
    first_of-about popular lowered (check_target lowered t) (check_targets lowered ts)
      (check_target-about popular lowered t (sub t (inl refl)))
      (check_targets-about popular lowered ts (λ u m. sub u (inr m)))

-- A signal is given only for a name that is checked, so never for a popular one, and it is about a
-- popular name that is at most two edits away, separators dropped, and two only where two
-- neighbouring characters are swapped.
pub check_typosquat_sound :
    (popular distinct : List Text) (name : Text) (signal : TyposquatSignal)
    → check_typosquat popular distinct name ≡ some signal
    → (is_checked popular distinct name ≡ true) × IsAbout popular (lowered_name name) signal
check_typosquat_sound popular distinct name signal h =
    go (is_checked popular distinct name) refl
      (sym (check_typosquat-is_checked popular distinct name) ∙ h)
  where
    go :
        (b : Bool)
        → is_checked popular distinct name ≡ b
        → (if b then check_targets (lowered_name name) popular else none) ≡ some signal
        → (is_checked popular distinct name ≡ true) × IsAbout popular (lowered_name name) signal
    go true e k = (
      e,
      subst (AreAbout popular (lowered_name name)) k
          (check_targets-about popular (lowered_name name) popular (λ t m. m)),
    )
    go false e k = elim (none-ne-some signal k) [ ]
