-- ===== src/Versions/SemVer/RoundTrip.antt =====
-- Parsing what `SemVer.__str__` prints gives the version back.
use mathlib.Core.Path.{ap₂}
use weedout.Base.{
  ℕ, ◌+◌, ◌<◌, ◌≡◌, refl, sym, ap, ◌∙◌, Bool, true, false, Option, none, some, List, [], ◌∷◌, ◌++◌,
  map, append_assoc, append-nil, arith, ◌==◌, any, all, is_empty, All,
}
use weedout.Base.Text.{
  Text, text, is_digit, remove_prefix, lstrip, split, join, span, int, show, int-show, all-show,
  show-nonempty,
}
use weedout.Versions.SemVer.{
  num, Ident, word, SemVer, release_key, print_ident, print, is_label_char, is_number, parse,
  print_extra, print_prerelease, print_build, is_release_char, section, read_ident, read_prerelease,
  release,
}
use weedout.Versions.SemVer.Pieces.{Stops, span-append, split-join, all-join, all_mono, any-none}

-- An identifier that the pattern can read back: a word has at least one character, none of them a
-- dot, and not only digits.
abbrev pub IsIdent : Ident → Type 0
IsIdent (num n) = Unit
IsIdent (word t) =
    (all is_label_char t ≡ true)
    × (any (λ c. c == 46) t ≡ false)
    × (is_number t ≡ false)
    × (is_empty t ≡ false)

abbrev pub IsBuild : Option Text → Type 0
IsBuild none = Unit
IsBuild (some b) = (all is_label_char b ≡ true) × (is_empty b ≡ false)

pub record IsPrintable (v : SemVer) : Type 0 where
  pub idents : All IsIdent v.prerelease
  pub metadata : IsBuild v.build

digit-ok : (d : ℕ) → d < 10 → is_digit (d + 48) ≡ true
unfolding is_digit
digit-ok d h = ground arith

show-digits : (n : ℕ) → all is_digit (show n) ≡ true
show-digits = all-show is_digit digit-ok

show-is_number : (n : ℕ) → is_number (show n) ≡ true
unfolding is_number
show-is_number n = let (d, s, e) = show-nonempty n in ground (arith, show-digits n, e)

show-no_dot : (n : ℕ) → any (λ c. c == 46) (show n) ≡ false
unfolding is_digit
show-no_dot n = any-none is_digit _ (show n) (λ c h. ground arith) (show-digits n)

section-none : (mark : ℕ) (s : Text) → Stops (λ c. c == mark) s → section mark s ≡ (none, s)
unfolding section
section-none mark [] h = refl
section-none mark (c ∷ s) h = rw h

section-some :
    (mark : ℕ) (w s : Text)
    → all is_label_char w ≡ true
    → is_empty w ≡ false
    → Stops is_label_char s
    → section mark (mark ∷ (w ++ s)) ≡ (some w, s)
unfolding section
section-some mark w s h k e = rw (span-append is_label_char w s h e) (ground arith)

read_ident-print_ident : (i : Ident) → IsIdent i → read_ident (print_ident i) ≡ i
unfolding read_ident print_ident
read_ident-print_ident (num n) h = ground (arith, show-is_number n, int-show n)
read_ident-print_ident (word t) h = ground arith

read_idents : (is : List Ident) → All IsIdent is → map read_ident (map print_ident is) ≡ is
read_idents [] h = refl
read_idents (i ∷ is) (h, k) = ap₂ (λ j js. j ∷ js) (read_ident-print_ident i h) (read_idents is k)

int-shows : (ns : List ℕ) → map int (map show ns) ≡ ns
int-shows [] = refl
int-shows (n ∷ ns) = ap₂ (λ m ms. m ∷ ms) (int-show n) (int-shows ns)

All-shows : (P : Text → Type 0) → ((n : ℕ) → P (show n)) → (ns : List ℕ) → All P (map show ns)
All-shows P f [] = tt
All-shows P f (n ∷ ns) = (f n, All-shows P f ns)

all_numbers : (ns : List ℕ) → all is_number (map show ns) ≡ true
all_numbers [] = refl
all_numbers (n ∷ ns) = ground (arith, show-is_number n, all_numbers ns)

ident_no_dot : (i : Ident) → IsIdent i → any (λ c. c == 46) (print_ident i) ≡ false
unfolding print_ident
ident_no_dot (num n) h = show-no_dot n
ident_no_dot (word t) h = h.1

ident_chars : (i : Ident) → IsIdent i → all is_label_char (print_ident i) ≡ true
unfolding print_ident is_label_char
ident_chars (num n) h =
    all_mono is_digit is_label_char (show n) (λ c k. ground arith) (show-digits n)
ident_chars (word t) h = h.0

ident_nonempty : (i : Ident) (s : Text) → IsIdent i → is_empty (print_ident i ++ s) ≡ false
unfolding print_ident
ident_nonempty (num n) s h = let (d, t, e) = show-nonempty n in rw e
ident_nonempty (word (c ∷ t)) s h = refl
ident_nonempty (word []) s h = cc h.3

All-idents :
    (P : Text → Type 0)
    → ((i : Ident) → IsIdent i → P (print_ident i))
    → (is : List Ident) → All IsIdent is
    → All P (map print_ident is)
All-idents P f [] h = tt
All-idents P f (i ∷ is) (h, k) = (f i h, All-idents P f is k)

join_nonempty :
    (i : Ident) (is : List Ident)
    → IsIdent i
    → is_empty (join (text ".") (map print_ident (i ∷ is))) ≡ false
unfolding join
join_nonempty i [] h = rw (← append-nil (print_ident i)) (ident_nonempty i [] h)
join_nonempty i (j ∷ is) h = ident_nonempty i _ h

-- The three parts of a printed version.
abbrev core : SemVer → Text
core v = join (text ".") (map show (release_key v))

print-core :
    (v : SemVer) → print v ≡ core v ++ (print_prerelease v.prerelease ++ print_build v.build)
unfolding print print_extra join
print-core v = go v.extra
  where
    tail : Text
    tail = print_prerelease v.prerelease ++ print_build v.build

    go :
        (extra : List ℕ)
        → ((show v.major ++ (text "." ++ (show v.minor ++ (text "." ++ show v.patch))))
              ++ print_extra extra)
            ++ tail
          ≡ join (text ".") (map show (v.major ∷ v.minor ∷ v.patch ∷ extra)) ++ tail
    go [] = simp append-nil
    go (n ∷ ns) = simp append_assoc

parse-parts :
    (raw c s s' : Text) (pre b : Option Text)
    → span is_release_char (remove_prefix (text "v") (lstrip raw)) ≡ (c, s)
    → section 45 s ≡ (pre, s')
    → section 43 s' ≡ (b, [])
    → all is_number (split 46 c) ≡ true
    → parse raw ≡ some (release (map int (split 46 c)) pre b)
unfolding parse
parse-parts raw c s s' pre b h k l m = rw (h, k, l, m)

build_section : (b : Option Text) → IsBuild b → section 43 (print_build b) ≡ (b, [])
unfolding print_build
build_section none h = section-none 43 [] tt
build_section (some []) h = cc h.1
build_section (some (c ∷ b)) h =
    ap (section 43) (ap (λ t. 43 ∷ t) (sym (append-nil (c ∷ b))))
    ∙ section-some 43 (c ∷ b) [] h.0 refl tt

Stops-build : (p : ℕ → Bool) (b : Option Text) → p 43 ≡ false → Stops p (print_build b)
unfolding print_build
Stops-build p none h = tt
Stops-build p (some []) h = tt
Stops-build p (some (c ∷ b)) h = h

pre_text : List Ident → Option Text
pre_text [] = none
pre_text (i ∷ is) = some (join (text ".") (map print_ident (i ∷ is)))

prerelease_section :
    (is : List Ident) (b : Option Text)
    → All IsIdent is
    → section 45 (print_prerelease is ++ print_build b) ≡ (pre_text is, print_build b)
unfolding print_prerelease pre_text is_label_char
prerelease_section [] b h = section-none 45 (print_build b) (Stops-build _ b refl)
prerelease_section (i ∷ is) b h =
    section-some 45 (join (text ".") (map print_ident (i ∷ is))) (print_build b)
      (all-join is_label_char (map print_ident (i ∷ is)) refl
        (All-idents (λ w. all is_label_char w ≡ true) ident_chars (i ∷ is) h))
      (join_nonempty i is h.0) (Stops-build is_label_char b refl)

Stops-prerelease :
    (is : List Ident) (b : Option Text)
    → Stops is_release_char (print_prerelease is ++ print_build b)
unfolding print_prerelease is_release_char
Stops-prerelease [] b = Stops-build is_release_char b refl
Stops-prerelease (i ∷ is) b = refl

read_pre_text : (is : List Ident) → All IsIdent is → read_prerelease (pre_text is) ≡ is
unfolding read_prerelease pre_text
read_pre_text [] h = refl
read_pre_text (i ∷ is) h =
    ap (map read_ident) (
      split-join (print_ident i) (map print_ident is)
        (All-idents (λ v. any (λ c. c == 46) v ≡ false) ident_no_dot (i ∷ is) h))
    ∙ read_idents (i ∷ is) h

-- A printed number stays as it is under `lstrip` and `removeprefix("v")`.
leading_number : (n : ℕ) (s : Text) → remove_prefix (text "v") (lstrip (show n ++ s)) ≡ show n ++ s
unfolding remove_prefix lstrip is_digit
leading_number n s =
    let (d, t, e) = show-nonempty n in let first = show-digits n in ground (arith, e)

core_chars : (v : SemVer) → all is_release_char (core v) ≡ true
unfolding is_release_char
core_chars v = all-join is_release_char (map show (release_key v)) refl (
    All-shows (λ w. all is_release_char w ≡ true)
      (λ n. all_mono is_digit is_release_char (show n) (λ c h. ground arith) (show-digits n))
      (release_key v))

split-core : (v : SemVer) → split 46 (core v) ≡ map show (release_key v)
split-core v =
    split-join (show v.major) _
      (All-shows (λ w. any (λ c. c == 46) w ≡ false) show-no_dot (release_key v))

release_lem :
    (v : SemVer) (pre : Option Text)
    → read_prerelease pre ≡ v.prerelease
    → release (release_key v) pre v.build ≡ v
unfolding release
release_lem v pre h = λ i. record v { prerelease = h i }

leading_core :
    (v : SemVer) (s : Text) → remove_prefix (text "v") (lstrip (core v ++ s)) ≡ core v ++ s
unfolding join
leading_core v s =
    let same = append_assoc (show v.major) _ s in
    ap (λ t. remove_prefix (text "v") (lstrip t)) same ∙ leading_number v.major _ ∙ sym same

-- A printed version with well-formed identifiers parses to the version that was printed.
pub parse-print : (v : SemVer) → IsPrintable v → parse (print v) ≡ some v
parse-print v h =
    parse-parts (print v) (core v) (print_prerelease v.prerelease ++ print_build v.build)
      (print_build v.build) (pre_text v.prerelease) v.build
      (ap (λ t. span is_release_char (remove_prefix (text "v") (lstrip t))) (print-core v)
        ∙ ap (span is_release_char) (leading_core v _)
        ∙ span-append is_release_char (core v) _ (core_chars v)
            (Stops-prerelease v.prerelease v.build))
      (prerelease_section v.prerelease v.build h.idents) (build_section v.build h.metadata)
      (rw split-core (all_numbers (release_key v)))
    ∙ ap some (
        ap (λ ns. release ns (pre_text v.prerelease) v.build)
          (ap (map int) (split-core v) ∙ int-shows (release_key v))
        ∙ release_lem v (pre_text v.prerelease) (read_pre_text v.prerelease h.idents))
