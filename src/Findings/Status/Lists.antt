-- ===== src/Findings/Status/Lists.antt =====
-- `list_findings` of app/services/finding_service.py, with the history window of the plan and the cap.
use Prim.Native.Nat.{Ordering, compare}
use weedout.Base.{
  ℕ, zero, suc, ◌+◌, ◌*◌, ◌≡◌, refl, sym, ap, subst, ◌↔◌, ◌⊎◌, inl, inr, Bool, true, false, ◌&&◌,
  Option, none, some, List, [], ◌∷◌, arith, ltb, leb, if◌then◌else◌, length, take, keep, how_many,
  length-keep, In,
}
use weedout.Base.Order.{then_by}
use weedout.Findings.{CveMatch}
use weedout.Findings.Life.{view}
use weedout.Findings.Status.{
  FindingShow, open_tab, filtered_tab, dismissed_tab, resolved_tab, is_shown,
}
use weedout.Types.{rank}
use weedout.Versions.Ranges.{is_lt}

-- `_ARCHIVED`: the date of a row in the tabs that the window trims
abbrev pub archived_at : FindingShow → CveMatch → Option ℕ
archived_at open_tab row = none
archived_at filtered_tab row = none
archived_at dismissed_tab row = row.dismissed_at
archived_at resolved_tab row = row.resolved_at

-- `history_window`, where `history_days` is `history_cutoff_days` of the plan
abbrev pub history_window : (history_days : ℕ) → FindingShow → Option ℕ
history_window history_days open_tab = none
history_window history_days filtered_tab = none
history_window history_days dismissed_tab = some history_days
history_window history_days resolved_tab = some history_days

-- `dated.is_(None)`, or `dated >= utcnow() - timedelta(days=days)`, in seconds
abbrev dated_within : (now days : ℕ) → Option ℕ → Bool
dated_within now days none = true
dated_within now days (some at) = leb now (at + days * 86400)

unfoldable pub is_recent : (history_days now : ℕ) → FindingShow → CveMatch → Bool
is_recent history_days now tab row = elim (history_window history_days tab) [
  | none ↦ true
  | some days ↦ dated_within now days (archived_at tab row)
]

-- `capped_finding_limit`
abbrev pub capped_finding_limit : ℕ → ℕ
capped_finding_limit limit =
    let least = if ltb limit 1 then 1 else limit in if ltb 200 least then 200 else least

abbrev pub kev_first : CveMatch → ℕ
kev_first row = if row.assessment.is_kev then 0 else 1

-- `order_by`: exploited first, then the higher severity, then the one that was seen later
abbrev pub compare_rows : CveMatch → CveMatch → Ordering
compare_rows a b = then_by (compare (kev_first a) (kev_first b)) (
    then_by (compare (rank b.assessment.severity) (rank a.assessment.severity))
      (compare b.first_seen_at a.first_seen_at))

abbrev insert_row : CveMatch → List CveMatch → List CveMatch
insert_row row [] = row ∷ []
insert_row row (r ∷ rows) =
    let later = r ∷ insert_row row rows in
    if is_lt (compare_rows r row) then later else row ∷ r ∷ rows

abbrev sort_rows : List CveMatch → List CveMatch
sort_rows [] = []
sort_rows (row ∷ rows) = insert_row row (sort_rows rows)

-- The filters of the query, for the rows of one user
abbrev pub is_selected : (history_days now : ℕ) → FindingShow → CveMatch → Bool
is_selected history_days now tab row = is_shown tab (view row) && is_recent history_days now tab row

-- `list_findings`, for the rows of one user
unfoldable pub list_findings :
    (history_days now : ℕ) → FindingShow → (limit : ℕ) → List CveMatch → List CveMatch
unfolding is_shown is_recent
list_findings history_days now tab limit rows =
    take (capped_finding_limit limit) (sort_rows (keep (is_selected history_days now tab) rows))

In-take : (n : ℕ) (row : CveMatch) (rows : List CveMatch) → In row (take n rows) → In row rows
In-take zero row rows m = elim m [ ]
In-take (suc n) row [] m = m
In-take (suc n) row (r ∷ rows) (inl e) = inl e
In-take (suc n) row (r ∷ rows) (inr m) = inr (In-take n row rows m)

take_whole : (n : ℕ) (rows : List CveMatch) → leb (length rows) n ≡ true → take n rows ≡ rows
take_whole zero [] h = refl
take_whole zero (r ∷ rows) h = ground arith
take_whole (suc n) [] h = refl
take_whole (suc n) (r ∷ rows) h = ground (arith, take_whole n rows)

insert_row-In :
    (row r : CveMatch) (rows : List CveMatch)
    → In row (insert_row r rows) ↔ ((r ≡ row) ⊎ In row rows)
insert_row-In row r [] = (λ m. m, λ m. m)
insert_row-In row r (x ∷ rows) = go (is_lt (compare_rows x r)) refl (insert_row-In row r rows)
  where
    go :
        (b : Bool)
        → is_lt (compare_rows x r) ≡ b
        → (In row (insert_row r rows) ↔ ((r ≡ row) ⊎ In row rows))
        → In row (insert_row r (x ∷ rows)) ↔ ((r ≡ row) ⊎ In row (x ∷ rows))
    go true e (f, g) = rw e (
      λ m. elim m [
        | inl y ↦ inr (inl y)
        | inr y ↦ (elim (f y) [ inl z ↦ inl z | inr z ↦ inr (inr z) ])
      ],
      λ m. elim m [
        | inl y ↦ inr (g (inl y))
        | inr y ↦ (elim y [ inl z ↦ inl z | inr z ↦ inr (g (inr z)) ])
      ],
    )
    go false e h = rw e (λ m. m, λ m. m)

sort_rows-In : (row : CveMatch) (rows : List CveMatch) → In row (sort_rows rows) ↔ In row rows
sort_rows-In row [] = (λ m. m, λ m. m)
sort_rows-In row (r ∷ rows) =
    let (f, g) = insert_row-In row r (sort_rows rows) in
    let (f', g') = sort_rows-In row rows in
    (
      λ m. elim (f m) [ inl e ↦ inl e | inr y ↦ inr (f' y) ],
      λ m. g (elim m [ inl e ↦ inl e | inr y ↦ inr (g' y) ]),
    )

length-insert_row :
    (row : CveMatch) (rows : List CveMatch) → length (insert_row row rows) ≡ length rows + 1
length-insert_row row [] = refl
length-insert_row row (r ∷ rows) = go (is_lt (compare_rows r row)) refl (length-insert_row row rows)
  where
    go :
        (b : Bool)
        → is_lt (compare_rows r row) ≡ b
        → length (insert_row row rows) ≡ length rows + 1
        → length (insert_row row (r ∷ rows)) ≡ length (r ∷ rows) + 1
    go true e ih = rw e (ground (arith, ih))
    go false e ih = rw e (ground arith)

length-sort_rows : (rows : List CveMatch) → length (sort_rows rows) ≡ length rows
length-sort_rows [] = refl
length-sort_rows (r ∷ rows) =
    ground (arith, length-insert_row r (sort_rows rows), length-sort_rows rows)

clash : (a b : Bool) → a ≡ b → a ≡ true → ¬ (b ≡ false)
clash a b x h k = cc

keep-In :
    (p : CveMatch → Bool) (row : CveMatch) (rows : List CveMatch)
    → In row (keep p rows) ↔ (In row rows × (p row ≡ true))
keep-In p row [] = (λ m. elim m [ ], λ m. elim (m.0) [ ])
keep-In p row (r ∷ rows) = go (p r) refl (keep-In p row rows)
  where
    go :
        (b : Bool)
        → p r ≡ b
        → (In row (keep p rows) ↔ (In row rows × (p row ≡ true)))
        → In row (keep p (r ∷ rows)) ↔ (In row (r ∷ rows) × (p row ≡ true))
    go true e (f, g) = rw e (
      λ m. elim m [
        | inl y ↦ (inl y, subst (λ x. p x ≡ true) y e)
        | inr y ↦ let (m', k) = f y in (inr m', k)
      ],
      λ (m, k). elim m [ inl y ↦ inl y | inr y ↦ inr (g (y, k)) ],
    )
    go false e (f, g) = rw e (
      λ m. let (m', k) = f m in (inr m', k),
      λ (m, k). elim m [
        | inl y ↦ absurd (clash (p row) (p r) (ap p (sym y)) k e)
        | inr y ↦ g (y, k)
      ],
    )

-- What a tab lists passes its filters, and all that passes is listed where it is not more than the cap.
pub list_findings-In :
    (history_days now : ℕ) (tab : FindingShow) (limit : ℕ) (rows : List CveMatch) (row : CveMatch)
    → (In row (list_findings history_days now tab limit rows)
        → is_selected history_days now tab row ≡ true)
      × (leb (how_many (is_selected history_days now tab) rows) (capped_finding_limit limit) ≡ true
          → In row rows
          → is_selected history_days now tab row ≡ true
          → In row (list_findings history_days now tab limit rows))
unfolding list_findings
list_findings-In history_days now tab limit rows row = (
  λ m.
      ((keep-In p row rows).0 (
        (sort_rows-In row kept).0 (In-take (capped_finding_limit limit) row (sort_rows kept) m))).1,
  λ few m k.
      subst (In row)
        (sym (
          take_whole (capped_finding_limit limit) (sort_rows kept)
            (ground (arith, length-sort_rows kept, length-keep p rows, few))))
        ((sort_rows-In row kept).1 ((keep-In p row rows).1 (m, k))),
)
  where
    p : CveMatch → Bool
    p = is_selected history_days now tab

    kept : List CveMatch
    kept = keep p rows
