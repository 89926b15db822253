-- ===== src/SupplyChain/Edits/Laws.antt =====
-- `edit_distance` of app/core/supply_chain.py is the least number of edits, up to its limit.

-- A row of the table: for the prefix of the left text read so far, and each prefix of the right
-- text from `seen` on, the distance. Prefixes are held backwards.
use Prim.Native.Nat.{min}
use mathlib.Core.List.{reverse-cons}
use weedout.Base.{
  ℕ, suc, ◌+◌, ◌-◌, ◌<◌, max, ◌≡◌, refl, sym, subst, ◌⊎◌, inl, inr, Bool, true, false, List, [],
  ◌∷◌, ◌++◌, reverse, append_assoc, append-nil, arith, ltb, if◌then◌else◌, Bool-cases, length, All,
}
use weedout.Base.Text.{Text, text_eq, text_eq_iff}
use weedout.SupplyChain.Edits.{
  cost, cells, next_row, least, first_row, last, rows_within, edit_distance,
}
use weedout.SupplyChain.Edits.Alignments.{
  Align, Align-refl, Align-length, Align-reverse, IsDistance, empty-IsDistance, removed-IsDistance,
  reversed-IsDistance, cell-IsDistance,
}

abbrev IsRow : (left seen : Text) → List ℕ → Text → Type 0
IsRow left seen [] rs = ⊥
IsRow left seen (v ∷ []) [] = IsDistance left seen v
IsRow left seen (v ∷ w ∷ vs) [] = ⊥
IsRow left seen (v ∷ vs) (r ∷ rs) = IsDistance left seen v × IsRow left (r ∷ seen) vs rs

first_row-IsRow : (i : ℕ) (seen rs : Text) → i ≡ length seen → IsRow [] seen (first_row i rs) rs
unfolding first_row
first_row-IsRow i seen [] e = subst (IsDistance [] seen) (sym e) (empty-IsDistance seen)
first_row-IsRow i seen (r ∷ rs) e = (
  subst (IsDistance [] seen) (sym e) (empty-IsDistance seen),
  first_row-IsRow (suc i) (r ∷ seen) rs (omega arith),
)

head-IsDistance :
    (left seen : Text) (v : ℕ) (vs : List ℕ) (rs : Text)
    → IsRow left seen (v ∷ vs) rs
    → IsDistance left seen v
head-IsDistance left seen v [] [] h = h
head-IsDistance left seen v (w ∷ vs) [] h = elim h [ ]
head-IsDistance left seen v [] (r ∷ rs) h = h.0
head-IsDistance left seen v (w ∷ vs) (r ∷ rs) h = h.0

last-IsDistance :
    (left seen : Text) (row : List ℕ) (rs : Text)
    → IsRow left seen row rs
    → IsDistance left (reverse rs ++ seen) (last row)
last-IsDistance left seen [] rs h = elim h [ ]
last-IsDistance left seen (v ∷ []) [] h = h
last-IsDistance left seen (v ∷ w ∷ vs) [] h = elim h [ ]
last-IsDistance left seen (v ∷ []) (r ∷ rs) h = elim h.1 [ ]
last-IsDistance left seen (v ∷ w ∷ vs) (r ∷ rs) h =
    rw (reverse-cons r rs, append_assoc) (last-IsDistance left (r ∷ seen) (w ∷ vs) rs h.1)

cells-IsRow :
    (x : ℕ) (left : Text) (row : List ℕ) (rs seen : Text) (c : ℕ)
    → IsRow left seen row rs
    → IsDistance (x ∷ left) seen c
    → IsRow (x ∷ left) seen (c ∷ cells x c row rs) rs
unfolding cells
cells-IsRow x left (d ∷ row) [] seen c h k = k
cells-IsRow x left (d ∷ u ∷ us) (r ∷ rs) seen c h k = (
  k,
  cells-IsRow x left (u ∷ us) rs (r ∷ seen) (min (min (u + 1) (c + 1)) (d + cost x r)) h.1
      (cell-IsDistance x r left seen u c d (head-IsDistance left (r ∷ seen) u us rs h.1) k h.0),
)
cells-IsRow x left (d ∷ []) (r ∷ rs) seen c h k = elim h.1 [ ]
cells-IsRow x left [] rs seen c h k = elim h [ ]

next_row-IsRow :
    (x i : ℕ) (left : Text) (row : List ℕ) (rs : Text)
    → i ≡ suc (length left)
    → IsRow left [] row rs
    → IsRow (x ∷ left) [] (next_row x i row rs) rs
unfolding next_row
next_row-IsRow x i left row rs e h =
    cells-IsRow x left row rs [] i h
      (subst (IsDistance (x ∷ left) []) (sym e) (removed-IsDistance (x ∷ left)))

-- Each entry is over the limit.
abbrev AreOver : ℕ → List ℕ → Type 0
AreOver limit = All (λ v. limit < v)

cells-AreOver :
    (limit x : ℕ) (row : List ℕ) (rs : Text) (c : ℕ)
    → AreOver limit row
    → limit < c
    → AreOver limit (cells x c row rs)
unfolding cells
cells-AreOver limit x row [] c h k = tt
cells-AreOver limit x [] (r ∷ rs) c h k = tt
cells-AreOver limit x (d ∷ []) (r ∷ rs) c h k = tt
cells-AreOver limit x (d ∷ u ∷ us) (r ∷ rs) c (hd, (hu, hs)) k =
    let over : limit < min (min (u + 1) (c + 1)) (d + cost x r) = ground arith in
    (
      over,
      cells-AreOver limit x (u ∷ us) rs (min (min (u + 1) (c + 1)) (d + cost x r)) (hu, hs) over,
    )

least-AreOver :
    (limit best : ℕ) (vs : List ℕ) → limit < least best vs → (limit < best) × AreOver limit vs
unfolding least
least-AreOver limit best [] h = (h, tt)
least-AreOver limit best (v ∷ vs) h =
    let (b, a) = least-AreOver limit (min best v) vs h in (omega (arith, b), (omega (arith, b), a))

last-over :
    (limit : ℕ) (left : Text) (row : List ℕ) (rs : Text)
    → IsRow left [] row rs
    → AreOver limit row
    → limit < last row
last-over limit left [] rs h a = elim h [ ]
last-over limit left (v ∷ vs) rs h a = go v vs a.0 a.1
  where
    go : (v : ℕ) (vs : List ℕ) → limit < v → AreOver limit vs → limit < last (v ∷ vs)
    go v [] k a = k
    go v (w ∷ vs) k a = go w vs a.0 a.1

row-IsDistance :
    (left : Text) (row : List ℕ) (rs : Text)
    → IsRow left [] row rs
    → IsDistance left (reverse rs) (last row)
row-IsDistance left row rs h =
    subst (λ t. IsDistance left t (last row)) (append-nil (reverse rs))
      (last-IsDistance left [] row rs h)

reverse-move : (l : ℕ) (ls left : Text) → (reverse (l ∷ ls) ++ left) ≡ (reverse ls ++ (l ∷ left))
reverse-move l ls left = rw (reverse-cons l ls, append_assoc) refl

-- A row that is over the limit puts every later one over it.
over-Align :
    (limit : ℕ) (rs ls left : Text) (row : List ℕ) (i m : ℕ)
    → i ≡ suc (length left)
    → IsRow left [] row rs
    → AreOver limit row
    → limit < i
    → Align (reverse ls ++ left) (reverse rs) m
    → limit < m
unfolding next_row
over-Align limit rs [] left row i m e h a k al =
    omega (arith, last-over limit left row rs h a, (row-IsDistance left row rs h).shortest m al)
over-Align limit rs (l ∷ ls) left row i m e h a k al =
    over-Align limit rs ls (l ∷ left) (next_row l i row rs) (suc i) m (omega arith)
      (next_row-IsRow l i left row rs e h) (k, cells-AreOver limit l row rs i a k) (omega arith)
      (subst (λ t. Align t (reverse rs) m) (reverse-move l ls left) al)

-- What a limited search returns: the distance, or one more than the limit where the distance is
-- over it.
abbrev pub Settles : ℕ → Text → Text → ℕ → Type 0
Settles limit s t n = IsDistance s t n ⊎ (n ≡ limit + 1) × ((m : ℕ) → Align s t m → limit < m)

rows_within-Settles :
    (limit : ℕ) (rs ls left : Text) (row : List ℕ) (i : ℕ)
    → i ≡ suc (length left)
    → IsRow left [] row rs
    → Settles limit (reverse ls ++ left) (reverse rs) (rows_within limit i ls rs row)
unfolding rows_within
rows_within-Settles limit rs [] left row i e h = inl (row-IsDistance left row rs h)
rows_within-Settles limit rs (l ∷ ls) left row i e h =
    let current = next_row l i row rs in
    let rest =
      rows_within-Settles limit rs ls (l ∷ left) current (suc i) (omega arith)
        (next_row-IsRow l i left row rs e h) in
    rw (reverse-move l ls left) (go (Bool-cases (ltb limit (least i current))) rest)
  where
    go :
        ((ltb limit (least i (next_row l i row rs)) ≡ true)
          ⊎ (ltb limit (least i (next_row l i row rs)) ≡ false))
        → Settles limit
            (reverse ls ++ (l ∷ left))
            (reverse rs)
            (rows_within limit (suc i) ls rs (next_row l i row rs))
        → Settles limit (reverse ls ++ (l ∷ left)) (reverse rs) (
            if ltb limit (least i (next_row l i row rs))
            then limit + 1
            else rows_within limit (suc i) ls rs (next_row l i row rs))
    go (inr f) rest = rw f rest
    go (inl f) rest =
        let (k, a) = least-AreOver limit i (next_row l i row rs) (ground arith) in
        rw f (
          inr (
            refl,
            λ m al.
                over-Align limit rs ls (l ∷ left) (next_row l i row rs) (suc i) m (omega arith)
                  (next_row-IsRow l i left row rs e h) a (omega arith) al,
          ))

reversed-Settles :
    (limit : ℕ) (s t : Text) (n : ℕ) → Settles limit (reverse s) (reverse t) n → Settles limit s t n
reversed-Settles limit s t n (inl d) = inl (reversed-IsDistance s t n d)
reversed-Settles limit s t n (inr (e, f)) = inr (e, λ m a. f m (Align-reverse a))

-- `edit_distance` returns the least number of insertions, removals and substitutions that turn one
-- text into the other, or one more than the limit, and that only where this number is over the
-- limit.
pub edit_distance-Settles : (limit : ℕ) (s t : Text) → Settles limit s t (edit_distance limit s t)
unfolding edit_distance
edit_distance-Settles limit s t = go (Bool-cases (text_eq s t)) (Bool-cases far)
  where
    far : Bool
    far = ltb limit (max (length s - length t) (length t - length s))

    table : ℕ
    table = rows_within limit 1 s t (first_row 0 t)

    go :
        ((text_eq s t ≡ true) ⊎ (text_eq s t ≡ false))
        → ((far ≡ true) ⊎ (far ≡ false))
        → Settles limit s t (if text_eq s t then 0 else if far then limit + 1 else table)
    go (inl e) f = rw e (
        inl record {
          aligned = subst (λ u. Align s u 0) ((text_eq_iff s t).0 e) (Align-refl s);
          shortest = λ m a. omega arith;
        })
    go (inr e) (inl f) = rw (e, f) (inr (refl, λ m a. ground (arith, Align-length a)))
    go (inr e) (inr f) =
        rw (e, f)
          (reversed-Settles limit s t table (
            subst (λ u. Settles limit u (reverse t) table) (append-nil (reverse s))
              (rows_within-Settles limit t s [] (first_row 0 t) 1 refl
                (first_row-IsRow 0 [] t refl))))
