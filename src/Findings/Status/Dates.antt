-- ===== src/Findings/Status/Dates.antt =====
-- The dates of the archive tabs of app/services/finding_service.py.
use mathlib.Core.Option.{none-ne-some, some-injective}
use weedout.Base.{
  ℕ, ◌≡◌, refl, sym, subst, Bool, true, false, Option, none, some, List, [], ◌∷◌, ◌++◌, arith,
  if◌then◌else◌, is_some, and_cases, keep, is_empty, All, All-append,
}
use weedout.Base.Maybe.{map_option}
use weedout.Base.Text.{Text}
use weedout.Findings.{
  AlertStatus, opened, filtered, dismissed, resolved, verdict_is_suppressed, CveMatch, Identity,
  same_identity, row_identity, decision_identity, new_match, revisit, revisit_stored, Merge,
  absorb_into, absorb, absorb_all, is_gone, resolve_unseen, reconcile_matches,
}
use weedout.Findings.Digest.{Channels, Delivery, is_sendable, mark_notified, send_new_match_digest}
use weedout.Findings.Digest.Laws.{is_settled, digest_rows}
use weedout.Findings.Life.Refinement.{all_decided}
use weedout.Findings.Life.Rows.{verdict_is_decided}
use weedout.Findings.Status.{
  update_status, Step, scanned, digested, user_set, Reached, begin, then_step,
}
use weedout.Types.{Verdict, MatchDecision, ScanResult}

-- A dismissed row says when it was dismissed, a resolved one when it was resolved, and a filtered one has
-- the verdict that filters it.
abbrev pub is_dated : CveMatch → Bool
is_dated row = elim row.status [
  | opened ↦ true
  | filtered ↦ verdict_is_suppressed row.assessment.verdict
  | dismissed ↦ is_some row.dismissed_at
  | resolved ↦ is_some row.resolved_at
]

abbrev pub IsDated : CveMatch → Type 0
IsDated row = is_dated row ≡ true

revisit-IsDated :
    (now : ℕ) (d : MatchDecision) (row : CveMatch)
    → verdict_is_decided d.verdict ≡ true
    → IsDated row
    → IsDated (revisit now d row).0
unfolding revisit
revisit-IsDated now d row k h =
    go d.verdict row.status (verdict_is_suppressed row.assessment.verdict) refl refl refl k
  where
    go :
        (v : Verdict) (s : AlertStatus) (b : Bool)
        → d.verdict ≡ v
        → row.status ≡ s
        → verdict_is_suppressed row.assessment.verdict ≡ b
        → verdict_is_decided v ≡ true
        → IsDated (revisit now d row).0
    go v s b a e c k = ground (arith, a, e, c, k, h)

abbrev AllDated : Option (List CveMatch × Bool) → Type 0
AllDated none = Unit
AllDated (some r) = All IsDated r.0

revisit_stored-IsDated :
    (now : ℕ) (d : MatchDecision) (rows : List CveMatch)
    → verdict_is_decided d.verdict ≡ true
    → All IsDated rows
    → AllDated (revisit_stored now d rows)
unfolding revisit_stored
revisit_stored-IsDated now d [] k h = tt
revisit_stored-IsDated now d (row ∷ rows) k (h, hs) =
    go (same_identity (decision_identity d) (row_identity row)) (revisit_stored now d rows)
      (revisit_stored-IsDated now d rows k hs)
  where
    go :
        (b : Bool) (o : Option (List CveMatch × Bool))
        → AllDated o
        → AllDated (
            if b
            then some ((revisit now d row).0 ∷ rows, (revisit now d row).1)
            else map_option (λ r. (row ∷ r.0, r.1)) o)
    go true o q = (revisit-IsDated now d row k h, hs)
    go false none q = tt
    go false (some r) q = (h, q)

resolve_unseen-IsDated :
    (now : ℕ) (seen : List Identity) (rows : List CveMatch)
    → All IsDated rows
    → All IsDated (resolve_unseen now seen rows).0
unfolding resolve_unseen
resolve_unseen-IsDated now seen [] h = tt
resolve_unseen-IsDated now seen (row ∷ rows) (h, hs) =
    (go (is_gone seen row), resolve_unseen-IsDated now seen rows hs)
  where
    go :
        (b : Bool)
        → IsDated (if b then record row { status = resolved; resolved_at = some now } else row)
    go true = refl
    go false = h

mark_notified-IsDated :
    (now : ℕ) (told : List Identity) (rows : List CveMatch)
    → All IsDated rows
    → All IsDated (mark_notified now told rows)
mark_notified-IsDated now told [] h = tt
mark_notified-IsDated now told (row ∷ rows) (h, hs) =
    (go (is_sendable told row), mark_notified-IsDated now told rows hs)
  where
    go : (b : Bool) → IsDated (if b then record row { notified_at = some now } else row)
    go true = h
    go false = h

digest-IsDated :
    (channels : Channels) (delivery : Delivery) (now : ℕ) (told : List Identity)
    (rows : List CveMatch)
    → All IsDated rows
    → All IsDated (send_new_match_digest channels delivery now told rows).rows
digest-IsDated channels delivery now told rows h =
    subst (All IsDated) (sym (digest_rows channels delivery now told rows))
      (go (is_empty (keep (is_sendable told) rows)) (is_settled channels delivery))
  where
    go :
        (a b : Bool)
        → All IsDated (if a then rows else if b then mark_notified now told rows else rows)
    go true b = h
    go false true = mark_notified-IsDated now told rows h
    go false false = h

module _ (target_id manifest_id now : ℕ) where
  new_match-IsDated :
      (d : MatchDecision)
      → verdict_is_decided d.verdict ≡ true
      → IsDated (new_match target_id manifest_id now d)
  unfolding new_match
  new_match-IsDated d k = go d.verdict refl k
    where
      go :
          (v : Verdict)
          → d.verdict ≡ v
          → verdict_is_decided v ≡ true
          → IsDated (new_match target_id manifest_id now d)
      go v e k = ground (arith, e, k)

  absorb-IsDated :
      (d : MatchDecision) (s : Merge)
      → verdict_is_decided d.verdict ≡ true
      → All IsDated s.stored
      → All IsDated s.added
      → (let out = absorb target_id manifest_id now d s in
          All IsDated out.stored × All IsDated out.added)
  unfolding absorb
  absorb-IsDated d s k h a =
      go (revisit_stored now d s.stored) (revisit_stored-IsDated now d s.stored k h)
    where
      go :
          (o : Option (List CveMatch × Bool))
          → AllDated o
          → (let out = absorb_into target_id manifest_id now d s o in
              All IsDated out.stored × All IsDated out.added)
      go none q = (h, All-append IsDated s.added _ a (new_match-IsDated d k, tt))
      go (some r) q = (q, a)

  absorb_all-IsDated :
      (ds : List MatchDecision) (s : Merge)
      → all_decided ds ≡ true
      → All IsDated s.stored
      → All IsDated s.added
      → (let out = absorb_all target_id manifest_id now ds s in
          All IsDated out.stored × All IsDated out.added)
  unfolding absorb_all
  absorb_all-IsDated [] s k h a = (h, a)
  absorb_all-IsDated (d ∷ ds) s k h a =
      let (kd, ks) = and_cases (verdict_is_decided d.verdict) (all_decided ds) k in
      let (h', a') = absorb-IsDated d s kd h a in
      absorb_all-IsDated ds (absorb target_id manifest_id now d s) ks h' a'

  reconcile_matches-IsDated :
      (rows : List CveMatch) (result : ScanResult)
      → all_decided (result.actionable ++ result.suppressed) ≡ true
      → All IsDated rows
      → All IsDated (reconcile_matches target_id manifest_id now rows result).rows
  unfolding reconcile_matches
  reconcile_matches-IsDated rows result k h =
      let (hs, ha) = absorb_all-IsDated (result.actionable ++ result.suppressed) _ k h tt in
      All-append IsDated _ _ (resolve_unseen-IsDated now _ _ hs) ha

update_status-IsDated :
    (status : AlertStatus) (note : Text) (now : ℕ) (row written : CveMatch)
    → update_status status note now row ≡ some written
    → IsDated written
unfolding update_status
update_status-IsDated opened note now row written e =
    subst IsDated (some-injective _ written e) refl
update_status-IsDated dismissed note now row written e =
    subst IsDated (some-injective _ written e) refl
update_status-IsDated filtered note now row written e = absurd (none-ne-some written e)
update_status-IsDated resolved note now row written e = absurd (none-ne-some written e)

replaced-IsDated :
    (before after : List CveMatch) (row written : CveMatch)
    → IsDated written
    → All IsDated (before ++ row ∷ after)
    → All IsDated (before ++ written ∷ after)
replaced-IsDated [] after row written w (h, hs) = (w, hs)
replaced-IsDated (b ∷ before) after row written w (h, hs) =
    (h, replaced-IsDated before after row written w hs)

Step-IsDated : {rows after : List CveMatch} → Step rows after → All IsDated rows → All IsDated after
Step-IsDated (scanned t m now rows result k) h = reconcile_matches-IsDated t m now rows result k h
Step-IsDated (digested channels delivery now news rows) h =
    digest-IsDated channels delivery now news rows h
Step-IsDated (user_set status note now before after row written e) h =
    replaced-IsDated before after row written (update_status-IsDated status note now row written e)
      h

-- However a manifest's findings come about, by scans, digests and people's choices: a dismissed finding has the
-- time of its dismissal, a resolved one that of its resolution, and a filtered one a verdict that
-- filters it.
pub Reached-IsDated : {rows : List CveMatch} → Reached rows → All IsDated rows
Reached-IsDated begin = tt
Reached-IsDated (then_step r s) = Step-IsDated s (Reached-IsDated r)
