-- ===== src/CliAuth/Flow.antt =====
-- The poll of app/services/cli_auth_service.py, and what happens to its tables over time.
pub mod SingleUse
pub mod Approved
use weedout.Base.{
  ℕ, ◌+◌, Bool, true, false, not, ◌&&◌, ◌||◌, Option, none, some, List, [], ◌∷◌, ltb, leb,
  if◌then◌else◌, is_some, keep, Result, ok, err,
}
use weedout.Base.Text.{Text, text_eq}
use weedout.CliAuth.{
  CliAuthRequest, Tables, CliAuthError, AuthOutcome, pending_outcome, denied_outcome,
  expired_outcome, approved_outcome, start_request, approve, deny, write_first, answer,
}
use weedout.CliAuth.Tokens.{issue_token}

-- What a poll finds of a request that exists, in the code's order: denied, over, not approved, or approved by
-- an account
pub data Found : Type 0 where
  is_denied is_over is_waiting : Found
  is_approved : (user : ℕ) → Found

unfoldable pub poll_state : (now : ℕ) → CliAuthRequest → Found
poll_state now r =
    if is_some r.denied_at
    then is_denied
    else if is_some r.collected_at || leb r.expires_at now
    then is_over
    else if not (is_some r.approved_at)
    then is_waiting
    else (elim r.approved_by [ none ↦ is_waiting | some u ↦ is_approved u ])

abbrev pub has_device : Text → CliAuthRequest → Bool
has_device h r = text_eq r.device_code_hash h

abbrev pub first_request : (CliAuthRequest → Bool) → List CliAuthRequest → Option CliAuthRequest
first_request p [] = none
first_request p (r ∷ rs) = let later = first_request p rs in if p r then some r else later

-- Marking the request as collected
abbrev pub mark_collected : (now : ℕ) → CliAuthRequest → Option CliAuthRequest
mark_collected now r = some (record r { collected_at = some now })

abbrev pub written : Option (List CliAuthRequest) → List CliAuthRequest → List CliAuthRequest
written none rs = rs
written (some xs) rs = xs

-- `hash` is `hash_opaque_token`; `email_of` gives the accounts that exist.
module _ (hash : Text → Text) (email_of : ℕ → Option Text) where
  -- What a poll gives an account
  abbrev pub collect_for :
      (secret h : Text) → (now : ℕ) → CliAuthRequest → (user : ℕ) → Tables → AuthOutcome × Tables
  collect_for secret h now r user db = elim (email_of user) [
    | none ↦ (expired_outcome, db)
    | some address ↦
        let (token, tokens) = issue_token hash user r.device_label secret now db.tokens in
        (
          approved_outcome token address,
          record {
            requests =
                written (write_first (has_device h) (mark_collected now) db.requests) db.requests;
            tokens = tokens;
          },
        )
  ]

  -- `collect`
  unfoldable pub collect : (device_code secret : Text) → (now : ℕ) → Tables → AuthOutcome × Tables
  unfolding poll_state issue_token write_first text_eq
  collect device_code secret now db =
      let h = hash device_code in
      elim (first_request (has_device h) db.requests) [
        | none ↦ (expired_outcome, db)
        | some r ↦ elim (poll_state now r) [
          | is_denied ↦ (denied_outcome, db)
          | is_over ↦ (expired_outcome, db)
          | is_waiting ↦ (pending_outcome, db)
          | is_approved user ↦ collect_for secret h now r user db
        ]
      ]

-- `purge_expired_auth_requests`: those that expired more than a day ago
unfoldable pub purge_expired_auth_requests : (now : ℕ) → List CliAuthRequest → List CliAuthRequest
purge_expired_auth_requests now = keep (λ r. not (ltb (r.expires_at + 86400) now))

-- What happens to the tables
pub data AuthEvent : Type 0 where
  started :
      (candidates : List Text) (device_code device_label : Text) (ip_address : Option Text)
      (now : ℕ)
      → AuthEvent
  approved_by_user : (user : ℕ) (typed : Text) (now : ℕ) → AuthEvent
  denied_by_user : (typed : Text) (now : ℕ) → AuthEvent
  polled : (device_code secret : Text) (now : ℕ) → AuthEvent
  purged : (now : ℕ) → AuthEvent

abbrev pub is_issued : AuthOutcome → Bool
is_issued (approved_outcome token address) = true
is_issued _ = false

abbrev pub started_or : Tables → Result CliAuthError (Text × Tables) → Tables
started_or db (ok r) = r.1
started_or db (err e) = db

module _ (hash : Text → Text) (email_of : ℕ → Option Text) where
  -- The tables after an event, and whether it gave a token to the device code `device`
  unfoldable pub happen : AuthEvent → Tables → Tables
  unfolding start_request answer approve deny collect purge_expired_auth_requests
  happen (started candidates device_code device_label ip_address now) db =
      started_or db (start_request hash candidates device_code device_label ip_address now db)
  happen (approved_by_user user typed now) db = record db {
    requests = written (answer now (approve now user) typed db.requests) db.requests;
  }
  happen (denied_by_user typed now) db = record db {
    requests = written (answer now (deny now) typed db.requests) db.requests;
  }
  happen (polled device_code secret now) db = (collect hash email_of device_code secret now db).1
  happen (purged now) db = record db { requests = purge_expired_auth_requests now db.requests }

  -- Whether the event hands out a token for the hash `h` of a device code
  unfoldable pub issues : Text → AuthEvent → Tables → Bool
  unfolding collect text_eq
  issues h (polled device_code secret now) db =
      text_eq (hash device_code) h && is_issued (collect hash email_of device_code secret now db).0
  issues h _ db = false

  -- The number of tokens that a series of events hands out for it
  unfoldable pub issued_count : Text → List AuthEvent → Tables → ℕ
  unfolding issues happen
  issued_count h [] db = 0
  issued_count h (e ∷ es) db = (if issues h e db then 1 else 0) + issued_count h es (happen e db)
