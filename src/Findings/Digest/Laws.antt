-- ===== src/Findings/Digest/Laws.antt =====
-- What a digest of app/services/alert_service.py sends, and what it leaves for later.
use weedout.Base.{
  ℕ, ◌≡◌, refl, ap, ◌∙◌, inl, inr, Bool, true, false, not, ◌&&◌, ◌||◌, some, List, [], ◌∷◌, ◌++◌,
  map, arith, if◌then◌else◌, length, keep, is_empty, All, All-append, In,
}
use weedout.Findings.{CveMatch, Identity, row_identity}
use weedout.Findings.Digest.{
  AlertChannel, email, webhook, Alert, Channels, Delivery, is_sendable, alert_of, deliver_email,
  has_webhook, deliver_discord, mark_notified, Digest, send_new_match_digest,
}

-- Some channel got through, or the user has opted out.
abbrev pub is_settled : Channels → Delivery → Bool
is_settled channels delivery =
    not channels.email_alerts_enabled
    || delivery.email_ok
    || has_webhook channels && delivery.webhook_ok

marked_not_sendable :
    (now : ℕ) (told : List Identity) (row : CveMatch)
    → is_sendable told (if is_sendable told row then record row { notified_at = some now } else row)
      ≡ false
marked_not_sendable now told row = go (is_sendable told row) refl
  where
    go :
        (b : Bool)
        → is_sendable told row ≡ b
        → is_sendable told (if b then record row { notified_at = some now } else row) ≡ false
    go true e = ground arith
    go false e = e

mark_notified-keep :
    (now : ℕ) (told : List Identity) (rows : List CveMatch)
    → keep (is_sendable told) (mark_notified now told rows) ≡ []
mark_notified-keep now told [] = refl
mark_notified-keep now told (row ∷ rows) =
    rw (marked_not_sendable now told row) (mark_notified-keep now told rows)

is_empty_nil : {A : Type 0} (xs : List A) → is_empty xs ≡ true → xs ≡ []
is_empty_nil [] e = refl
is_empty_nil (x ∷ xs) e = cc

nothing_sendable :
    (channels : Channels) (delivery : Delivery) (now : ℕ) (told : List Identity)
    (rows : List CveMatch)
    → keep (is_sendable told) rows ≡ []
    → send_new_match_digest channels delivery now told rows
      ≡ record { rows = rows; alerts = []; covered = 0 }
unfolding send_new_match_digest
nothing_sendable channels delivery now told rows e = rw e refl

-- The rows are marked as told exactly where the digest is settled and there was something to send.
pub digest_rows :
    (channels : Channels) (delivery : Delivery) (now : ℕ) (told : List Identity)
    (rows : List CveMatch)
    → (send_new_match_digest channels delivery now told rows).rows ≡ (
        if is_empty (keep (is_sendable told) rows)
        then rows
        else if is_settled channels delivery
        then mark_notified now told rows
        else rows)
unfolding send_new_match_digest
digest_rows channels delivery now told rows =
    go (is_empty (keep (is_sendable told) rows)) channels.email_alerts_enabled
      (has_webhook channels) delivery.email_ok delivery.webhook_ok refl refl refl refl refl
  where
    go :
        (a b c d e : Bool)
        → is_empty (keep (is_sendable told) rows) ≡ a
        → channels.email_alerts_enabled ≡ b
        → has_webhook channels ≡ c
        → delivery.email_ok ≡ d
        → delivery.webhook_ok ≡ e
        → (send_new_match_digest channels delivery now told rows).rows ≡ (
            if is_empty (keep (is_sendable told) rows)
            then rows
            else if is_settled channels delivery
            then mark_notified now told rows
            else rows)
    go a b c d e p q r s t = ground (arith, p, q, r, s, t)

-- A digest is sent once: where the user has opted out or a channel got through, another digest of
-- the same findings changes no row, writes no alert and covers nothing, however it would fare.
pub send_new_match_digest_once :
    (channels : Channels) (delivery other : Delivery) (now later : ℕ) (told : List Identity)
    (rows : List CveMatch)
    → is_settled channels delivery ≡ true
    → (let first = send_new_match_digest channels delivery now told rows in
        send_new_match_digest channels other later told first.rows
        ≡ record { rows = first.rows; alerts = []; covered = 0 })
send_new_match_digest_once channels delivery other now later told rows h =
    nothing_sendable channels other later told _ (
      ap (keep (is_sendable told)) (digest_rows channels delivery now told rows)
      ∙ go (is_empty (keep (is_sendable told) rows)) refl)
  where
    go :
        (b : Bool)
        → is_empty (keep (is_sendable told) rows) ≡ b
        → keep (is_sendable told) (
            if b
            then rows
            else if is_settled channels delivery
            then mark_notified now told rows
            else rows)
          ≡ []
    go true e = is_empty_nil (keep (is_sendable told) rows) e
    go false e = rw h (mark_notified-keep now told rows)

-- The alert is about a row that the guards let through.
abbrev pub IsAlertable : List Identity → List CveMatch → Alert → Type 0
IsAlertable told rows a =
    (row : CveMatch) × In row rows × (row_identity row ≡ a.match) × (is_sendable told row ≡ true)

alert_of-IsAlertable :
    (channel : AlertChannel) (now : ℕ) (b : Bool) (told : List Identity) (rows : List CveMatch)
    → All (IsAlertable told rows) (map (alert_of channel now b) (keep (is_sendable told) rows))
alert_of-IsAlertable channel now b told rows = go rows (λ row m. m)
  where
    go :
        (xs : List CveMatch)
        → ((row : CveMatch) → In row xs → In row rows)
        → All (IsAlertable told rows) (map (alert_of channel now b) (keep (is_sendable told) xs))
    go [] sub = tt
    go (row ∷ xs) sub = pick (is_sendable told row) refl (go xs (λ r m. sub r (inr m)))
      where
        pick :
            (c : Bool)
            → is_sendable told row ≡ c
            → All
                (IsAlertable told rows)
                (map (alert_of channel now b) (keep (is_sendable told) xs))
            → All (IsAlertable told rows) (
                map
                  (alert_of channel now b)
                  (if c then row ∷ keep (is_sendable told) xs else keep (is_sendable told) xs))
        pick true e h = ((row, sub row (inl refl), refl, e), h)
        pick false e h = h

deliver_discord-IsAlertable :
    (channels : Channels) (delivery : Delivery) (now : ℕ) (told : List Identity)
    (rows : List CveMatch)
    → All
        (IsAlertable told rows)
        (deliver_discord now channels delivery (keep (is_sendable told) rows)).1
unfolding deliver_discord
deliver_discord-IsAlertable channels delivery now told rows = go (has_webhook channels)
  where
    go :
        (b : Bool)
        → All (IsAlertable told rows) (
            let r : Bool × List Alert =
              (if b
                then (
                  delivery.webhook_ok,
                  map (alert_of webhook now delivery.webhook_ok) (keep (is_sendable told) rows),
                )
                else (false, [])) in
            r.1)
    go true = alert_of-IsAlertable webhook now delivery.webhook_ok told rows
    go false = tt

-- Restraint: every alert that a digest writes is about a finding that the scan told, that is actionable and
-- open, and that was not told before.
pub send_new_match_digest-IsAlertable :
    (channels : Channels) (delivery : Delivery) (now : ℕ) (told : List Identity)
    (rows : List CveMatch)
    → All (IsAlertable told rows) (send_new_match_digest channels delivery now told rows).alerts
unfolding send_new_match_digest deliver_email deliver_discord
send_new_match_digest-IsAlertable channels delivery now told rows =
    go (is_empty (keep (is_sendable told) rows)) (not channels.email_alerts_enabled)
      (by_email.0 || by_webhook.0)
  where
    by_email : Bool × List Alert
    by_email = deliver_email now delivery (keep (is_sendable told) rows)

    by_webhook : Bool × List Alert
    by_webhook = deliver_discord now channels delivery (keep (is_sendable told) rows)

    everything : All (IsAlertable told rows) (by_email.1 ++ by_webhook.1)
    everything =
        All-append (IsAlertable told rows) by_email.1 by_webhook.1
          (alert_of-IsAlertable email now delivery.email_ok told rows)
          (deliver_discord-IsAlertable channels delivery now told rows)

    go :
        (a b c : Bool)
        → All (IsAlertable told rows) (
            let r : Digest =
              (if a
                then record { rows = rows; alerts = []; covered = 0 }
                else if b
                then record { rows = mark_notified now told rows; alerts = []; covered = 0 }
                else if c
                then record {
                  rows = mark_notified now told rows;
                  alerts = by_email.1 ++ by_webhook.1;
                  covered = length (keep (is_sendable told) rows);
                }
                else record { rows = rows; alerts = by_email.1 ++ by_webhook.1; covered = 0 }) in
            r.alerts)
    go true b c = tt
    go false true c = tt
    go false false true = everything
    go false false false = everything
