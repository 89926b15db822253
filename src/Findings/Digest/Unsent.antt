-- ===== src/Findings/Digest/Unsent.antt =====
-- An alert that no channel delivered, in the scan cycles that follow (app/jobs/tasks.py).
use weedout.Base.{
  ℕ, ◌≡◌, refl, sym, ap, ◌∙◌, subst, inl, inr, Bool, true, false, some, List, [], ◌∷◌,
  if◌then◌else◌, Bool-cases, and_cases4, keep, is_empty, All, All-append, All-weaken,
}
use weedout.Base.Maybe.{map_option}
use weedout.Findings.{
  opened, verdict_is_actionable, CveMatch, Identity, same_identity, row_identity, Reconciled,
  reconcile_matches,
}
use weedout.Findings.Digest.{
  Alert, Channels, Delivery, is_sendable, mark_notified, Digest, send_new_match_digest, Tick,
  scan_and_tell, scan_cycles,
}
use weedout.Findings.Digest.Laws.{
  is_settled, digest_rows, IsAlertable, send_new_match_digest-IsAlertable,
}
use weedout.Findings.Life.{Finding, view}
use weedout.Findings.Life.Lookup.{row_at-hit, row_at-miss}
use weedout.Findings.Life.Rows.{same_identity_iff, row_at}
use weedout.Findings.Life.Traces.{life_at, among}
use weedout.Findings.Series.{Matches, IsUntouched, rescan_open}
use weedout.Matching.Triage.Verdict.{alerts}
use weedout.SupplyChain.Edits.{last}
use weedout.Types.{actionable, ScanResult}

mark_notified-row_at :
    (now : ℕ) (told : List Identity) (i : Identity) (rows : List CveMatch)
    → among i told ≡ false
    → row_at i (mark_notified now told rows) ≡ row_at i rows
mark_notified-row_at now told i [] h = refl
mark_notified-row_at now told i (row ∷ rows) h =
    elim (Bool-cases (same_identity i (row_identity row))) [
      | inl k ↦
          row_at-hit i (marked row) (mark_notified now told rows)
            (ap (same_identity i) (marked-identity row) ∙ k)
          ∙ ap some (
              unmarked row (
                subst (λ j. among j told ≡ false) ((same_identity_iff i (row_identity row)).0 k) h))
          ∙ sym (row_at-hit i row rows k)
      | inr k ↦
          row_at-miss i (marked row) (mark_notified now told rows)
            (ap (same_identity i) (marked-identity row) ∙ k)
          ∙ mark_notified-row_at now told i rows h
          ∙ sym (row_at-miss i row rows k)
    ]
  where
    marked : CveMatch → CveMatch
    marked r = if is_sendable told r then record r { notified_at = some now } else r

    marked-identity : (r : CveMatch) → row_identity (marked r) ≡ row_identity r
    marked-identity r = go (is_sendable told r)
      where
        go :
            (b : Bool)
            → row_identity (if b then record r { notified_at = some now } else r) ≡ row_identity r
        go true = refl
        go false = refl

    unmarked : (r : CveMatch) → among (row_identity r) told ≡ false → marked r ≡ r
    unmarked r e = rw e refl

-- What a digest leaves alone, and does not write about
digest_skips :
    (channels : Channels) (delivery : Delivery) (now : ℕ) (told : List Identity)
    (rows : List CveMatch) (i : Identity)
    → among i told ≡ false
    → (let digest = send_new_match_digest channels delivery now told rows in
        (row_at i digest.rows ≡ row_at i rows)
        × All (λ a. same_identity i a.match ≡ false) digest.alerts)
digest_skips channels delivery now told rows i h = (
  ap (row_at i) (digest_rows channels delivery now told rows)
      ∙ go (is_empty (keep (is_sendable told) rows)) (is_settled channels delivery),
  All-weaken (IsAlertable told rows) (λ a. same_identity i a.match ≡ false) skipped
      (send_new_match_digest channels delivery now told rows).alerts
      (send_new_match_digest-IsAlertable channels delivery now told rows),
)
  where
    go :
        (a b : Bool)
        → row_at i (if a then rows else if b then mark_notified now told rows else rows)
          ≡ row_at i rows
    go true b = refl
    go false true = mark_notified-row_at now told i rows h
    go false false = refl

    skipped : (a : Alert) → IsAlertable told rows a → same_identity i a.match ≡ false
    skipped a (row, m, e, k) = elim (Bool-cases (same_identity i a.match)) [
      | inl own ↦
          let was_told = (and_cases4 (among (row_identity row) told) _ _ _ k).0 in
          let agree : i ≡ row_identity row = (same_identity_iff i a.match).0 own ∙ sym e in cc
      | inr other ↦ other
    ]

abbrev tick_scan : Tick → ℕ × ScanResult
tick_scan tick = (tick.now, tick.result)

module _ (target_id manifest_id : ℕ) (channels : Channels) where
  scan_and_tell_skips :
      (i : Identity) (tick : Tick) (rows : List CveMatch) (f : Finding)
      → Matches verdict_is_actionable i (tick_scan tick)
      → life_at i rows ≡ some f
      → f.status ≡ opened
      → f.verdict ≡ actionable
      → (let (after, alerts) = scan_and_tell target_id manifest_id channels tick rows in
          ((g : Finding) × (life_at i after ≡ some g) × IsUntouched f g)
          × All (λ a. same_identity i a.match ≡ false) alerts)
  unfolding scan_and_tell
  scan_and_tell_skips i tick rows f m e s v =
      let ((g, eg, h), silent) =
        rescan_open target_id manifest_id i tick.now tick.result rows f m e s v in
      go (is_empty out.new_actionable) g eg h
        (digest_skips channels tick.delivery tick.now out.new_actionable out.rows i silent)
    where
      out : Reconciled
      out = reconcile_matches target_id manifest_id tick.now rows tick.result

      digest : Digest
      digest = send_new_match_digest channels tick.delivery tick.now out.new_actionable out.rows

      go :
          (b : Bool) (g : Finding)
          → life_at i out.rows ≡ some g
          → IsUntouched f g
          → (row_at i digest.rows ≡ row_at i out.rows)
            × All (λ a. same_identity i a.match ≡ false) digest.alerts
          → (let r : List CveMatch × List Alert =
                (if b then (out.rows, []) else (digest.rows, digest.alerts)) in
              ((g : Finding) × (life_at i r.0 ≡ some g) × IsUntouched f g)
              × All (λ a. same_identity i a.match ≡ false) r.1)
      go true g eg h d = ((g, eg, h), tt)
      go false g eg h (same_row, quiet) = ((g, ap (map_option view) same_row ∙ eg, h), quiet)

  -- An alert that was not delivered is not tried again: once an open, actionable finding is stored, and as long
  -- as each scan of a series of cycles wants it seen, no cycle writes an alert about it and the time at which
  -- the user was told stays as it was, so one that is unset stays unset, however well the later
  -- deliveries fare.
  pub scan_cycles_no_retry :
      (i : Identity) (ticks : List Tick) (rows : List CveMatch) (f : Finding)
      → All (λ tick. Matches verdict_is_actionable i (tick_scan tick)) ticks
      → life_at i rows ≡ some f
      → f.status ≡ opened
      → f.verdict ≡ actionable
      → (let (last, alerts) = scan_cycles target_id manifest_id channels ticks rows in
          ((g : Finding) × (life_at i last ≡ some g) × IsUntouched f g)
          × All (λ a. same_identity i a.match ≡ false) alerts)
  unfolding scan_cycles
  scan_cycles_no_retry i [] rows f m e s v = ((f, e, (s, v, refl)), tt)
  scan_cycles_no_retry i (tick ∷ ticks) rows f (m, ms) e s v =
      let ((g, eg, (gs, gv, gn)), silent) = scan_and_tell_skips i tick rows f m e s v in
      let ((h, eh, (hs, hv, hn)), more) =
        scan_cycles_no_retry i ticks (scan_and_tell target_id manifest_id channels tick rows).0 g ms
          eg gs gv in
      (
        (h, eh, (hs, hv, hn ∙ gn)),
        All-append (λ a. same_identity i a.match ≡ false) _ _ silent more,
      )
