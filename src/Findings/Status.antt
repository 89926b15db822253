-- ===== src/Findings/Status.antt =====
-- The status that a person sets (`update_status` of app/routes/internal_alerts.py, `MatchActionForm` of
-- app/schemas.py), the tabs of app/services/finding_service.py, and the steps that a manifest's findings take.
pub mod Lists
pub mod Tabs
pub mod Dates
use weedout.Base.{
  ℕ, ◌≡◌, Bool, true, false, ◌&&◌, Option, none, some, List, [], ◌∷◌, ◌++◌, if◌then◌else◌, is_empty,
}
use weedout.Base.Maybe.{map_option}
use weedout.Base.Text.{Text}
use weedout.Findings.{
  AlertStatus, opened, filtered, dismissed, status_is_open, status_is_dismissed, status_is_resolved,
  verdict_is_actionable, verdict_is_suppressed, CveMatch, Identity, reconcile_matches,
}
use weedout.Findings.Digest.{Channels, Delivery, send_new_match_digest}
use weedout.Findings.Life.{Finding}
use weedout.Findings.Life.Refinement.{all_decided}
use weedout.Types.{ScanResult}

-- `MatchActionForm.only_user_settable`
unfoldable pub only_user_settable : AlertStatus → Option AlertStatus
only_user_settable opened = some opened
only_user_settable dismissed = some dismissed
only_user_settable _ = none

-- The body of `update_status` for the row it finds; none where the form is refused
unfoldable pub update_status :
    (status : AlertStatus) (note : Text) (now : ℕ) → CveMatch → Option CveMatch
unfolding only_user_settable
update_status status note now match =
    map_option
      (λ s.
        if status_is_dismissed s
        then record match {
          status = dismissed;
          dismissed_at = some now;
          dismiss_note = if is_empty note then none else some note;
        }
        else record match { status = opened; dismissed_at = none; dismiss_note = none })
      (only_user_settable status)

pub data FindingShow : Type 0 where
  open_tab filtered_tab dismissed_tab resolved_tab : FindingShow

-- `_FILTERS`
unfoldable pub is_shown : FindingShow → Finding → Bool
is_shown open_tab f = verdict_is_actionable f.verdict && status_is_open f.status
is_shown filtered_tab f =
    verdict_is_suppressed f.verdict && (elim f.status [ filtered ↦ true | _ ↦ false ])
is_shown dismissed_tab f = status_is_dismissed f.status
is_shown resolved_tab f = status_is_resolved f.status

-- A step of the findings of a manifest: a scan, a digest, or a person's choice for one row
pub data Step : List CveMatch → List CveMatch → Type 0 where
  scanned :
      (target_id manifest_id now : ℕ) (rows : List CveMatch) (result : ScanResult)
      → all_decided (result.actionable ++ result.suppressed) ≡ true
      → Step rows (reconcile_matches target_id manifest_id now rows result).rows
  digested :
      (channels : Channels) (delivery : Delivery) (now : ℕ) (news : List Identity)
      (rows : List CveMatch)
      → Step rows (send_new_match_digest channels delivery now news rows).rows
  user_set :
      (status : AlertStatus) (note : Text) (now : ℕ) (before after : List CveMatch)
      (row written : CveMatch)
      → update_status status note now row ≡ some written
      → Step (before ++ row ∷ after) (before ++ written ∷ after)

-- What is reached from a manifest without findings
pub data Reached : List CveMatch → Type 0 where
  begin : Reached []
  then_step : {rows after : List CveMatch} → Reached rows → Step rows after → Reached after
