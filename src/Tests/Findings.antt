-- ===== src/Tests/Findings.antt =====
-- Tests of scans, digests and statuses (app/services/scan_service.py, app/services/alert_service.py).
use weedout.Base.{
  ◌+◌, ◌*◌, ℕ, ◌≡◌, refl, true, false, Option, none, some, List, [], ◌∷◌, map, length, All,
}
use weedout.Base.Maybe.{map_option}
use weedout.Base.Text.{text}
use weedout.Findings.{
  AlertStatus, opened, dismissed, resolved, verdict_is_actionable, CveMatch, Identity,
  same_identity, decision_identity, new_match, restate, revisit, revisit_stored, absorb, absorb_all,
  resolve_unseen, reconcile_matches,
}
use weedout.Findings.Again.{reconcile_matches_again}
use weedout.Findings.Digest.{
  AlertChannel, email, webhook, Channels, Delivery, deliver_email, deliver_discord,
  send_new_match_digest, Tick, scan_and_tell, scan_cycles,
}
use weedout.Findings.Digest.Laws.{send_new_match_digest_once}
use weedout.Findings.Status.{Reached, begin, then_step}
use weedout.Findings.Digest.Unsent.{scan_cycles_no_retry}
use weedout.Findings.Life.{Finding, view, after_scan, is_news}
use weedout.Findings.Life.Refinement.{reconcile_matches-after_scan}
use weedout.Findings.Life.Rows.{row_at, decision_at, verdict_is_decided}
use weedout.Findings.Life.Traces.{life_at, verdict_at, among}
use weedout.Findings.Series.{
  scan_all, all_of, IsSound, Matches, Silent, dismissed_stays, IsUntouched,
}
use weedout.Findings.Status.{
  update_status, open_tab, filtered_tab, dismissed_tab, resolved_tab, is_shown, scanned, user_set,
}
use weedout.Findings.Status.Dates.{IsDated, Reached-IsDated}
use weedout.Findings.Status.Lists.{list_findings}
use weedout.Findings.Status.Tabs.{IsListedOnce, reconcile_matches-IsListedOnce}
use weedout.Matching.Triage.Verdict.{alerts}
use weedout.SupplyChain.Edits.{last}
use weedout.Tests.Data.{lodash, advisory}
use weedout.Types.{high, Verdict, actionable, suppressed, MatchDecision, ScanResult}

abbrev decided : Verdict → MatchDecision
decided v = record {
  dependency = lodash;
  vulnerability = advisory;
  verdict = v;
  severity = high;
  kev = false;
  fixed_version = some (text "4.17.21");
  actionable_reason = none;
  suppression_reason = none;
  epss_score = none;
  epss_percentile = none;
  ignore_overridden = false;
}

abbrev loud : ScanResult
loud = record {
  actionable = decided actionable ∷ [];
  suppressed = [];
  dependencies_scanned = 1;
  errors = [];
  unreached_by_depth = 0;
}

abbrev quiet : ScanResult
quiet = record {
  actionable = [];
  suppressed = decided suppressed ∷ [];
  dependencies_scanned = 1;
  errors = [];
  unreached_by_depth = 0;
}

abbrev clean : ScanResult
clean = record {
  actionable = [];
  suppressed = [];
  dependencies_scanned = 1;
  errors = [];
  unreached_by_depth = 0;
}

abbrev lodash_identity : Identity
lodash_identity = decision_identity (decided actionable)

abbrev first_row : CveMatch
first_row = new_match 1 2 10 (decided actionable)

loud-IsSound : IsSound loud
unfolding decision_at same_identity
loud-IsSound = ((refl, tt), refl)

quiet-IsSound : IsSound quiet
unfolding decision_at same_identity
quiet-IsSound = ((refl, tt), refl)

-- A finding is told when it comes, resolved when it goes, and told again when it comes back.
abbrev statuses : List CveMatch → List AlertStatus
statuses = map (λ row. row.status)

scan_all_test :
    (let (rows, told) = scan_all 1 2 ((10, loud) ∷ (20, loud) ∷ (30, clean) ∷ (40, loud) ∷ []) [] in
      (statuses rows ≡ opened ∷ []) × (map length told ≡ 1 ∷ 0 ∷ 0 ∷ 1 ∷ []))
unfolding scan_all reconcile_matches absorb absorb_all revisit_stored new_match revisit restate
    resolve_unseen
scan_all_test = (refl, refl)

reconcile_matches_test :
    (let out = reconcile_matches 1 2 20 (first_row ∷ []) clean in
      (statuses out.rows ≡ resolved ∷ []) × (out.resolved_count ≡ 1))
unfolding reconcile_matches absorb_all resolve_unseen
reconcile_matches_test = (refl, refl)

reconcile_matches-after_scan_example :
    (life_at lodash_identity (reconcile_matches 1 2 20 (first_row ∷ []) quiet).rows
      ≡ after_scan 20
          (verdict_at lodash_identity (all_of quiet))
          (life_at lodash_identity (first_row ∷ [])))
    × (among lodash_identity (reconcile_matches 1 2 20 (first_row ∷ []) quiet).new_actionable
        ≡ is_news
            (verdict_at lodash_identity (all_of quiet))
            (life_at lodash_identity (first_row ∷ [])))
reconcile_matches-after_scan_example =
    reconcile_matches-after_scan 1 2 20 (first_row ∷ []) quiet lodash_identity quiet-IsSound.0
      quiet-IsSound.1

abbrev first_finding : Finding
first_finding = view first_row

abbrev dismissed_row : CveMatch
dismissed_row = record first_row { status = dismissed; dismissed_at = some 15 }

-- The finding becomes suppressed and actionable again.
abbrev two_scans : List (ℕ × ScanResult)
two_scans = (20, quiet) ∷ (30, loud) ∷ []

two_scans-Matches : All (Matches verdict_is_decided lodash_identity) two_scans
unfolding decision_at same_identity
two_scans-Matches =
    ((quiet-IsSound, (suppressed, refl, refl)), ((loud-IsSound, (actionable, refl, refl)), tt))

dismissed_stays_example :
    (let (last, told) = scan_all 1 2 two_scans (dismissed_row ∷ []) in
      ((g : Finding) × (life_at lodash_identity last ≡ some g) × (g.status ≡ dismissed))
      × All (Silent lodash_identity) told)
unfolding row_at same_identity new_match
dismissed_stays_example =
    dismissed_stays 1 2 lodash_identity two_scans (dismissed_row ∷ []) (view dismissed_row)
      two_scans-Matches refl refl

reconcile_matches_again_example :
    (let first = reconcile_matches 1 2 20 (first_row ∷ []) quiet in
      let second = reconcile_matches 1 2 30 first.rows quiet in
      ((i : Identity) → life_at i second.rows ≡ life_at i first.rows)
      × (second.new_actionable ≡ []))
reconcile_matches_again_example =
    reconcile_matches_again 1 2 20 30 (first_row ∷ []) quiet quiet-IsSound

abbrev channels : Channels
channels = record {
  email_alerts_enabled = true;
  discord_webhook_url = some (text "https://discord.com/api/webhooks/1/a");
}

abbrev only_webhook : Delivery
only_webhook = record { email_ok = false; webhook_ok = true }

abbrev no_channel : Delivery
no_channel = record { email_ok = false; webhook_ok = false }

send_new_match_digest_test :
    (let digest =
        send_new_match_digest channels only_webhook 11 (lodash_identity ∷ []) (first_row ∷ []) in
      (digest.covered ≡ 1)
      × (map (λ row. row.notified_at) digest.rows ≡ some 11 ∷ [])
      × (map {B = AlertChannel × Option ℕ} (λ a. (a.channel, a.sent_at)) digest.alerts
          ≡ (email, none) ∷ (webhook, some 11) ∷ []))
unfolding send_new_match_digest deliver_email deliver_discord new_match same_identity
send_new_match_digest_test = (refl, refl, refl)

send_new_match_digest_once_example :
    (let first =
        send_new_match_digest channels only_webhook 11 (lodash_identity ∷ []) (first_row ∷ []) in
      send_new_match_digest channels no_channel 12 (lodash_identity ∷ []) first.rows
      ≡ record { rows = first.rows; alerts = []; covered = 0 })
send_new_match_digest_once_example =
    send_new_match_digest_once channels only_webhook no_channel 11 12 (lodash_identity ∷ [])
      (first_row ∷ []) refl

abbrev ticks : List Tick
ticks =
    record { now = 20; result = loud; delivery = only_webhook }
    ∷ record { now = 30; result = loud; delivery = only_webhook }
    ∷ []

-- The delivery of the first scan failed, that of the later ones would not.
scan_cycles_test :
    (let (rows, alerts) =
        scan_cycles 1 2 channels
          (record { now = 10; result = loud; delivery = no_channel } ∷ ticks)
          [] in
      (map (λ row. row.notified_at) rows ≡ none ∷ [])
      × (map (λ a. a.sent_at) alerts ≡ none ∷ none ∷ []))
unfolding scan_cycles scan_and_tell send_new_match_digest deliver_discord reconcile_matches absorb
    absorb_all revisit_stored new_match revisit restate resolve_unseen
scan_cycles_test = (refl, refl)

loud-Matches : (now : ℕ) → Matches verdict_is_actionable lodash_identity (now, loud)
unfolding decision_at same_identity
loud-Matches now = (loud-IsSound, (actionable, refl, refl))

scan_cycles_no_retry_example :
    (let (last, alerts) = scan_cycles 1 2 channels ticks (first_row ∷ []) in
      ((g : Finding) × (life_at lodash_identity last ≡ some g) × IsUntouched first_finding g)
      × All (λ a. same_identity lodash_identity a.match ≡ false) alerts)
unfolding row_at same_identity new_match
scan_cycles_no_retry_example =
    scan_cycles_no_retry 1 2 channels lodash_identity ticks (first_row ∷ []) first_finding
      (loud-Matches 20, (loud-Matches 30, tt)) refl refl refl

reconcile_matches-IsListedOnce_example : IsListedOnce first_row
unfolding reconcile_matches absorb absorb_all revisit_stored new_match resolve_unseen row_at
    same_identity
reconcile_matches-IsListedOnce_example =
    reconcile_matches-IsListedOnce 1 2 10 [] loud lodash_identity first_row loud-IsSound refl

-- A dismissed finding leaves its list after the days of the plan.
list_findings_test :
    (length (list_findings 365 (15 + 365 * 86400) dismissed_tab 25 (dismissed_row ∷ [])) ≡ 1)
    × (length (list_findings 365 (16 + 365 * 86400) dismissed_tab 25 (dismissed_row ∷ [])) ≡ 0)
unfolding list_findings
list_findings_test = (refl, refl)

-- A finding dismissed, suppressed by a scan, and reopened stands in no tab until the next scan.
reopened_test :
    (let rows = (reconcile_matches 1 2 20 (dismissed_row ∷ []) quiet).rows in
      map
        (λ row.
          map_option
            (λ r.
              map
                (λ tab. is_shown tab (view r))
                (open_tab ∷ filtered_tab ∷ dismissed_tab ∷ resolved_tab ∷ []))
            (update_status opened [] 25 row))
        rows
      ≡ some (false ∷ false ∷ false ∷ false ∷ []) ∷ [])
unfolding reconcile_matches absorb absorb_all revisit_stored revisit restate resolve_unseen
    update_status is_shown new_match
reopened_test = refl

-- A scan and a dismissal
dismissed_row-Reached : Reached (dismissed_row ∷ [])
unfolding reconcile_matches absorb absorb_all revisit_stored new_match resolve_unseen update_status
dismissed_row-Reached =
    then_step (then_step begin (scanned 1 2 10 [] loud refl))
      (user_set dismissed [] 15 [] [] first_row dismissed_row refl)

Reached-IsDated_example : All IsDated (dismissed_row ∷ [])
Reached-IsDated_example = Reached-IsDated dismissed_row-Reached
