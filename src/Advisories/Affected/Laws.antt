-- ===== src/Advisories/Affected/Laws.antt =====
-- What `parse_affected` of app/core/osv.py returns: packages that can be evaluated.
use weedout.Base.{◌>>=◌}
use weedout.Advisories.Affected.{
  parse_ecosystem, is_version_type, parse_range, parse_ranges, parse_package, parse_entry,
  parse_entries, parse_affected,
}
use weedout.Advisories.Events.{pair_range_events}
use weedout.Advisories.Events.Laws.{Interval, interval_range, pair_range_events-intervals}
use weedout.Advisories.Json.{
  num, Json, null, bool, str, arr, obj, Fields, items, get, iterate, filled, filled_texts,
}
use weedout.Base.{
  ◌≡◌, refl, Bool, true, false, ◌&&◌, Option, none, some, List, [], ◌∷◌, ◌++◌, map, if◌then◌else◌,
  is_empty, All, All-append, ok, Returns, Returns-bind, Returns-any,
}
use weedout.Base.Text.{Text, text}
use weedout.Types.{Ecosystem, AffectedRange, AffectedPackage}
-- A package with a name, and with windows or versions to compare against.
use weedout.Advisories.Affected.{parse_range, parse_ranges}
use weedout.Advisories.Events.Laws.{Interval, interval_range}
use weedout.Advisories.Json.{num, Json, null, bool, str, arr, obj, filled, filled_texts}
use weedout.Base.{◌≡◌, refl, false, ◌&&◌, some, List, [], ◌∷◌, ◌++◌, map, is_empty, All, ok}
use weedout.Base.Text.{Text}
use weedout.Types.{AffectedRange, AffectedPackage}

abbrev pub IsEvaluable : AffectedPackage → Type 0
IsEvaluable p =
    (is_empty p.name ≡ false)
    × (is_empty p.ranges && is_empty p.versions ≡ false)
    × ((ws : List Interval) × (p.ranges ≡ map interval_range ws))
    × All (λ v. is_empty v ≡ false) p.versions

pub filled-some : (v : Json) (s : Text) → filled v ≡ some s → is_empty s ≡ false
unfolding filled
filled-some (str (c ∷ t)) [] h = cc
filled-some (str (c ∷ t)) (d ∷ s) h = refl
filled-some (str []) s h = cc
filled-some null s h = cc
filled-some (bool b) s h = cc
filled-some (num n) s h = cc
filled-some (arr vs) s h = cc
filled-some (obj fs) s h = cc

filled_texts-filled : (vs : List Json) → All (λ v. is_empty v ≡ false) (filled_texts vs)
unfolding filled_texts
filled_texts-filled [] = tt
filled_texts-filled (v ∷ vs) =
    go (filled v) (filled-some v) (filled_texts vs) (filled_texts-filled vs)
  where
    go :
        (o : Option Text)
        → ((s : Text) → o ≡ some s → is_empty s ≡ false)
        → (rest : List Text) → All (λ w. is_empty w ≡ false) rest
        → All (λ w. is_empty w ≡ false) (elim o [ none ↦ rest | some s ↦ s ∷ rest ])
    go none h rest a = a
    go (some s) h rest a = (h s refl, a)

map-append : {A B : Type 0} (f : A → B) (xs ys : List A) → map f (xs ++ ys) ≡ (map f xs ++ map f ys)
map-append f [] ys = refl
map-append f (x ∷ xs) ys = rw (map-append f xs ys) refl

abbrev AreWindows : List AffectedRange → Type 0
AreWindows rs = (ws : List Interval) × (rs ≡ map interval_range ws)

AreWindows-append :
    (xs ys : List AffectedRange) → AreWindows xs → AreWindows ys → AreWindows (xs ++ ys)
AreWindows-append xs ys (vs, e) (ws, f) = (vs ++ ws, rw (e, f, map-append) refl)

module _ (repr : Json → Text) where
  events-AreWindows :
      (v : Json) → AreWindows (elim v [ arr es ↦ pair_range_events repr (items es) | _ ↦ [] ])
  events-AreWindows (arr es) = pair_range_events-intervals repr (items es)
  events-AreWindows null = ([], refl)
  events-AreWindows (bool b) = ([], refl)
  events-AreWindows (num n) = ([], refl)
  events-AreWindows (str s) = ([], refl)
  events-AreWindows (obj fs) = ([], refl)

  parse_range-windows : (r : Json) → Returns AreWindows (parse_range repr r)
  unfolding parse_range
  parse_range-windows (obj fs) =
      Returns-bind (λ b. Unit) AreWindows (is_version_type (get (text "type") fs)) _ (Returns-any _)
        (λ b u. go b)
    where
      go :
          (b : Bool)
          → AreWindows (
              if b
              then (elim (get (text "events") fs) [
                | arr es ↦ pair_range_events repr (items es)
                | _ ↦ []
              ])
              else [])
      go true = events-AreWindows (get (text "events") fs)
      go false = ([], refl)
  parse_range-windows null = ([], refl)
  parse_range-windows (bool b) = ([], refl)
  parse_range-windows (num n) = ([], refl)
  parse_range-windows (str s) = ([], refl)
  parse_range-windows (arr vs) = ([], refl)

  parse_ranges-windows : (rs : List Json) → Returns AreWindows (parse_ranges repr rs)
  unfolding parse_ranges
  parse_ranges-windows [] = ([], refl)
  parse_ranges-windows (r ∷ rs) =
      Returns-bind AreWindows AreWindows (parse_range repr r) _ (parse_range-windows r) (λ a p.
        Returns-bind AreWindows AreWindows (parse_ranges repr rs) _ (parse_ranges-windows rs)
          (λ b q. AreWindows-append a b p q))

  abbrev AreEvaluable : List AffectedPackage → Type 0
  AreEvaluable = All IsEvaluable

  parse_package-evaluable :
      (e : Ecosystem) (n : Text) (fs : Fields)
      → is_empty n ≡ false
      → Returns AreEvaluable (parse_package repr e n fs)
  unfolding parse_package
  parse_package-evaluable e n fs h =
      Returns-bind (λ u. Unit) AreEvaluable (iterate (get (text "ranges") fs)) _ (Returns-any _)
        (λ raw u.
          Returns-bind AreWindows AreEvaluable (parse_ranges repr raw) _ (parse_ranges-windows raw)
            (λ rs w.
              Returns-bind (λ u. Unit) AreEvaluable (iterate (get (text "versions") fs)) _
                (Returns-any _) (λ vs u. go rs w (filled_texts vs) (filled_texts-filled vs))))
    where
      go :
          (rs : List AffectedRange)
          → AreWindows rs
          → (vs : List Text) → All (λ v. is_empty v ≡ false) vs
          → AreEvaluable (
              if is_empty rs && is_empty vs
              then []
              else record { ecosystem = e; name = n; ranges = rs; versions = vs } ∷ [])
      go [] w [] a = tt
      go [] w (v ∷ vs) a = ((h, refl, w, a), tt)
      go (r ∷ rs) w vs a = ((h, refl, w, a), tt)

  parse_entry-evaluable : (v : Json) → Returns AreEvaluable (parse_entry repr v)
  unfolding parse_entry
  parse_entry-evaluable (obj fs) = go (get (text "package") fs)
    where
      named :
          (e : Ecosystem) (o : Option Text)
          → ((s : Text) → o ≡ some s → is_empty s ≡ false)
          → Returns AreEvaluable (elim o [ none ↦ ok [] | some n ↦ parse_package repr e n fs ])
      named e none h = tt
      named e (some n) h = parse_package-evaluable e n fs (h n refl)

      known :
          (o : Option Ecosystem) (v : Json)
          → Returns AreEvaluable (elim o [
            | none ↦ ok []
            | some e ↦ elim (filled v) [ none ↦ ok [] | some n ↦ parse_package repr e n fs ]
          ])
      known none v = tt
      known (some e) v = named e (filled v) (filled-some v)

      go :
          (p : Json)
          → Returns AreEvaluable (elim p [
            | obj ps ↦ parse_ecosystem (get (text "ecosystem") ps) >>= λ o. elim o [
              | none ↦ ok []
              | some e ↦ elim (filled (get (text "name") ps)) [
                | none ↦ ok []
                | some n ↦ parse_package repr e n fs
              ]
            ]
            | _ ↦ ok []
          ])
      go (obj ps) =
          Returns-bind (λ u. Unit) AreEvaluable (parse_ecosystem (get (text "ecosystem") ps)) _
            (Returns-any _) (λ o u. known o (get (text "name") ps))
      go null = tt
      go (bool b) = tt
      go (num n) = tt
      go (str s) = tt
      go (arr vs) = tt
  parse_entry-evaluable null = tt
  parse_entry-evaluable (bool b) = tt
  parse_entry-evaluable (num n) = tt
  parse_entry-evaluable (str s) = tt
  parse_entry-evaluable (arr vs) = tt

  parse_entries-evaluable : (es : List Json) → Returns AreEvaluable (parse_entries repr es)
  unfolding parse_entries
  parse_entries-evaluable [] = tt
  parse_entries-evaluable (e ∷ es) =
      Returns-bind AreEvaluable AreEvaluable (parse_entry repr e) _ (parse_entry-evaluable e)
        (λ a p.
          Returns-bind AreEvaluable AreEvaluable (parse_entries repr es) _
            (parse_entries-evaluable es) (λ b q. All-append IsEvaluable a b p q))

  -- Whatever the value is, where `parse_affected` does not raise, each package that it returns has
  -- a name, windows or versions to compare against, windows with a start and at most one end, and
  -- no empty version.
  pub parse_affected-IsEvaluable :
      (raw : Json) → Returns (All IsEvaluable) (parse_affected repr raw)
  unfolding parse_affected
  parse_affected-IsEvaluable raw =
      Returns-bind (λ u. Unit) AreEvaluable (iterate raw) _ (Returns-any _)
        (λ es u. parse_entries-evaluable es)
