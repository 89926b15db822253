-- ===== src/Base/Text/Decimal.antt =====
-- `int(s)` on a text of digits, `str(n)`, and their round trip.
use Prim.Native.Nat.{ℕ, zero, suc, ◌+◌, ◌-◌, ◌*◌, ◌/◌, ◌%◌, ◌<◌, ◌≤◌}
use mathlib.Core.Path.{◌≡◌, refl, ap}
use mathlib.Core.Logic.{inl, inr}
use mathlib.Core.Bool.{Bool, true}
use mathlib.Core.List.{List, [], ◌∷◌}
use native.Mathlib.Omega.{arith}
use weedout.Base.Tests.{ltb, if◌then◌else◌, Bool-cases}
use weedout.Base.Lists.{all, length}

int_from : ℕ → List ℕ → ℕ
int_from n [] = n
int_from n (c ∷ s) = int_from (n * 10 + (c - 48)) s

-- `int(s)` for a text of decimal digits
unfoldable pub int : List ℕ → ℕ
unfolding int_from
int s = int_from 0 s

digits_onto : ℕ → ℕ → List ℕ → List ℕ
digits_onto zero n acc = acc
digits_onto (suc fuel) n acc =
    let rest = digits_onto fuel (n / 10) ((n % 10 + 48) ∷ acc) in
    if ltb n 10 then (n + 48) ∷ acc else rest

-- `str(n)` for n ≥ 0: a number has no more digits than its value, plus one.
unfoldable pub show : ℕ → List ℕ
unfolding digits_onto
show n = digits_onto (suc n) n []

last_digit : (n : ℕ) → n / 10 * 10 + (n % 10 + 48 - 48) ≡ n
last_digit n = omega arith

only_digit : (n : ℕ) → 0 * 10 + (n + 48 - 48) ≡ n
only_digit n = omega arith

int_from-digits_onto :
    (fuel n : ℕ) (acc : List ℕ) → n < fuel → int_from 0 (digits_onto fuel n acc) ≡ int_from n acc
unfolding int_from digits_onto
int_from-digits_onto zero n acc h = elim h [ ]
int_from-digits_onto (suc fuel) n acc h = ground (
  arith,
  int_from-digits_onto fuel (n / 10) ((n % 10 + 48) ∷ acc),
  ap (λ m. int_from m acc) (last_digit n),
  ap (λ m. int_from m acc) (only_digit n),
)

-- Parsing what was printed gives the number back.
pub int-show : (n : ℕ) → int (show n) ≡ n
unfolding int show
int-show n = int_from-digits_onto (suc n) n [] (omega arith)

module _ (p : ℕ → Bool) (digit : (d : ℕ) → d < 10 → p (d + 48) ≡ true) where
  all-digits_onto :
      (fuel n : ℕ) (acc : List ℕ) → all p acc ≡ true → all p (digits_onto fuel n acc) ≡ true
  unfolding digits_onto
  all-digits_onto zero n acc h = h
  all-digits_onto (suc fuel) n acc h =
      ground (arith, digit n, digit (n % 10), all-digits_onto fuel (n / 10) ((n % 10 + 48) ∷ acc))

  -- What holds of the ten digits holds of every character of a printed number.
  pub all-show : (n : ℕ) → all p (show n) ≡ true
  unfolding show
  all-show n = all-digits_onto (suc n) n [] refl

digits_onto-nonempty :
    (fuel n c : ℕ) (acc : List ℕ) → (d : ℕ) × (s : List ℕ) × (digits_onto fuel n (c ∷ acc) ≡ d ∷ s)
unfolding digits_onto
digits_onto-nonempty zero n c acc = (c, acc, refl)
digits_onto-nonempty (suc fuel) n c acc = elim (Bool-cases (ltb n 10)) [
  | inl small ↦ (n + 48, c ∷ acc, rw small)
  | inr big ↦
      let (d, s, e) = digits_onto-nonempty fuel (n / 10) (n % 10 + 48) (c ∷ acc) in (d, s, rw big e)
]

-- A printed number has a first digit.
pub show-nonempty : (n : ℕ) → (d : ℕ) × (s : List ℕ) × (show n ≡ d ∷ s)
unfolding show digits_onto
show-nonempty n = elim (Bool-cases (ltb n 10)) [
  | inl small ↦ (n + 48, [], rw small)
  | inr big ↦ let (d, s, e) = digits_onto-nonempty n (n / 10) (n % 10 + 48) [] in (d, s, rw big e)
]

-- Ten to a power
abbrev pub ten_to : ℕ → ℕ
ten_to zero = 1
ten_to (suc k) = 10 * ten_to k

digits_onto-length :
    (fuel k n : ℕ) (acc : List ℕ)
    → n < ten_to (suc k)
    → length (digits_onto fuel n acc) ≤ suc k + length acc
unfolding digits_onto
digits_onto-length zero k n acc h = omega arith
digits_onto-length (suc fuel) zero n acc h = ground arith
digits_onto-length (suc fuel) (suc k) n acc h =
    let shorter : n / 10 < ten_to (suc k) = omega arith in
    ground (arith, digits_onto-length fuel k (n / 10) ((n % 10 + 48) ∷ acc) shorter)

-- A number below a power of ten has no more digits than its exponent.
pub length-show : (k n : ℕ) → n < ten_to (suc k) → length (show n) ≤ suc k
unfolding show
length-show k n h = omega (arith, digits_onto-length (suc n) k n [] h)
