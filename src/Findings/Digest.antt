-- ===== src/Findings/Digest.antt =====
-- `send_new_match_digest` of app/services/alert_service.py, and a tick of `run_scan_cycle`
-- (app/jobs/tasks.py) for one target with one manifest. The texts of the messages are left out.
pub mod Laws
pub mod Unsent
use weedout.Base.{
  ℕ, Bool, false, not, ◌&&◌, ◌||◌, Option, none, some, List, [], ◌∷◌, ◌++◌, map, if◌then◌else◌,
  is_some, length, keep, is_empty,
}
use weedout.Base.Text.{Text}
use weedout.Findings.{
  status_is_open, verdict_is_actionable, CveMatch, Identity, row_identity, reconcile_matches,
}
use weedout.Findings.Life.Traces.{among}
use weedout.SupplyChain.Edits.{last}
use weedout.Types.{ScanResult}

pub data AlertChannel : Type 0 where
  email webhook : AlertChannel

pub data AlertState : Type 0 where
  sent failed : AlertState

-- A row of the table of alerts, as a digest leaves it
pub record Alert : Type 0 where
  pub match : Identity
  pub channel : AlertChannel
  pub status : AlertState
  pub sent_at : Option ℕ

-- What the user and the target have set
pub record Channels : Type 0 where
  pub email_alerts_enabled : Bool
  pub discord_webhook_url : Option Text

-- Whether `send_email` ends without an `EmailError`, and `post_webhook` with `ok`
pub record Delivery : Type 0 where
  pub email_ok : Bool
  pub webhook_ok : Bool

-- The rows that the scan told, less those that the guards leave out
abbrev pub is_sendable : List Identity → CveMatch → Bool
is_sendable told row =
    among (row_identity row) told
    && verdict_is_actionable row.assessment.verdict
    && status_is_open row.status
    && not (is_some row.notified_at)

abbrev pub alert_of : AlertChannel → (now : ℕ) → (delivered : Bool) → CveMatch → Alert
alert_of channel now delivered row = record {
  match = row_identity row;
  channel = channel;
  status = if delivered then sent else failed;
  sent_at = if delivered then some now else none;
}

-- `_deliver_email` and `_deliver_discord`: whether it got through, and the alerts
unfoldable pub deliver_email : (now : ℕ) → Delivery → List CveMatch → Bool × List Alert
deliver_email now delivery rows =
    (delivery.email_ok, map (alert_of email now delivery.email_ok) rows)

abbrev pub has_webhook : Channels → Bool
has_webhook channels = elim channels.discord_webhook_url [
  | none ↦ false
  | some u ↦ not (is_empty u)
]

unfoldable pub deliver_discord : (now : ℕ) → Channels → Delivery → List CveMatch → Bool × List Alert
deliver_discord now channels delivery rows =
    if has_webhook channels
    then (delivery.webhook_ok, map (alert_of webhook now delivery.webhook_ok) rows)
    else (false, [])

abbrev pub mark_notified : (now : ℕ) → List Identity → List CveMatch → List CveMatch
mark_notified now told =
    map (λ row. if is_sendable told row then record row { notified_at = some now } else row)

pub record Digest : Type 0 where
  pub rows : List CveMatch
  pub alerts : List Alert
  pub covered : ℕ

unfoldable pub send_new_match_digest :
    Channels → Delivery → (now : ℕ) → List Identity → List CveMatch → Digest
unfolding deliver_email deliver_discord
send_new_match_digest channels delivery now told rows =
    let sendable = keep (is_sendable told) rows in
    let (by_email, alerts) = deliver_email now delivery sendable in
    let (by_webhook, more) = deliver_discord now channels delivery sendable in
    if is_empty sendable
    then record { rows = rows; alerts = []; covered = 0 }
    else if not channels.email_alerts_enabled
    then record { rows = mark_notified now told rows; alerts = []; covered = 0 }
    else if by_email || by_webhook
    then record {
      rows = mark_notified now told rows;
      alerts = alerts ++ more;
      covered = length sendable;
    }
    else record { rows = rows; alerts = alerts ++ more; covered = 0 }

-- A scan of the cycle: its time, its result, and how its digest fares
pub record Tick : Type 0 where
  pub now : ℕ
  pub result : ScanResult
  pub delivery : Delivery

module _ (target_id manifest_id : ℕ) (channels : Channels) where
  -- `if outcome.new_matches: ...`
  unfoldable pub scan_and_tell : Tick → List CveMatch → List CveMatch × List Alert
  unfolding reconcile_matches send_new_match_digest
  scan_and_tell tick rows =
      let out = reconcile_matches target_id manifest_id tick.now rows tick.result in
      let digest =
        send_new_match_digest channels tick.delivery tick.now out.new_actionable out.rows in
      if is_empty out.new_actionable then (out.rows, []) else (digest.rows, digest.alerts)

  unfoldable pub scan_cycles : List Tick → List CveMatch → List CveMatch × List Alert
  unfolding scan_and_tell
  scan_cycles [] rows = (rows, [])
  scan_cycles (tick ∷ ticks) rows =
      let (after, alerts) = scan_and_tell tick rows in
      let (last, more) = scan_cycles ticks after in (last, alerts ++ more)
