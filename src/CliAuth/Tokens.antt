-- ===== src/CliAuth/Tokens.antt =====
-- The tokens of app/services/cli_auth_service.py.
pub mod Bounded
use weedout.Base.{
  ℕ, zero, suc, ◌+◌, ◌-◌, Bool, true, false, not, ◌&&◌, ◌||◌, Option, none, some, List, [], ◌∷◌,
  ◌++◌, ltb, ◌==◌, if◌then◌else◌, is_some, take, keep,
}
use weedout.Base.Maybe.{map_option}
use weedout.Base.Text.{Text, text, text_eq, starts_with, strip}
use weedout.CliAuth.{CliToken, token_lifetime, max_tokens_per_account, is_active}
use weedout.SupplyChain.Edits.{last}

abbrev pub is_owned : ℕ → CliToken → Bool
is_owned u t = t.user_id == u

-- What `list_tokens` lists
abbrev pub is_listed : ℕ → (now : ℕ) → CliToken → Bool
is_listed u now t = is_owned u t && is_active now t

abbrev pub list_tokens : ℕ → (now : ℕ) → List CliToken → List CliToken
list_tokens u now = keep (is_listed u now)

-- `for stale in existing[n:]: stale.revoked_at = utcnow()`, newest first
unfoldable pub revoke_beyond : ℕ → ℕ → (now : ℕ) → List CliToken → List CliToken
revoke_beyond n u now [] = []
revoke_beyond zero u now (t ∷ ts) =
    (if is_listed u now t then record t { revoked_at = some now } else t)
    ∷ revoke_beyond zero u now ts
revoke_beyond (suc n) u now (t ∷ ts) =
    t
    ∷ (let used = revoke_beyond n u now ts in
        let free = revoke_beyond (suc n) u now ts in if is_listed u now t then used else free)

abbrev pub cli_token_prefix : Text
cli_token_prefix = text "woa_"

module _ (hash : Text → Text) where
  -- The row of a new token
  abbrev pub new_token : ℕ → (device_label token : Text) → (now : ℕ) → CliToken
  new_token u device_label token now = record {
    user_id = u;
    token_hash = hash token;
    prefix = take 8 token;
    device_label = device_label;
    last_used_at = none;
    revoked_at = none;
    expires_at = now + token_lifetime;
  }

  -- `_issue_token`; `secret` is what `secrets.token_urlsafe` gives.
  unfoldable pub issue_token :
      ℕ → (device_label secret : Text) → (now : ℕ) → List CliToken → Text × List CliToken
  unfolding revoke_beyond
  issue_token u device_label secret now tokens =
      let token = cli_token_prefix ++ secret in
      (
        token,
        new_token u device_label token now
            ∷ revoke_beyond (max_tokens_per_account - 1) u now tokens,
      )

  -- `now - row.last_used_at > timedelta(minutes=1)`, or never used
  abbrev used_at : (now : ℕ) → CliToken → CliToken
  used_at now t = elim t.last_used_at [
    | none ↦ record t { last_used_at = some now }
    | some last ↦ if ltb (last + 60) now then record t { last_used_at = some now } else t
  ]

  abbrev authenticate_row :
      (cleaned : Text) → (now : ℕ) → List CliToken → Option (CliToken × List CliToken)
  authenticate_row cleaned now [] = none
  authenticate_row cleaned now (t ∷ ts) =
      let later = map_option (λ r. (r.0, t ∷ r.1)) (authenticate_row cleaned now ts) in
      if text_eq t.token_hash (hash cleaned)
      then (if is_active now t then some (used_at now t, used_at now t ∷ ts) else none)
      else later

  -- `authenticate_cli_token`: the row, and the table with its use
  unfoldable pub authenticate_cli_token :
      (token : Text) → (now : ℕ) → List CliToken → Option (CliToken × List CliToken)
  unfolding starts_with strip text_eq
  authenticate_cli_token token now tokens =
      let cleaned = strip token in
      if not (starts_with cli_token_prefix cleaned)
      then none
      else authenticate_row cleaned now tokens

-- `revoke_token`, for the row that has the identifier
unfoldable pub revoke_token : ℕ → (now : ℕ) → CliToken → CliToken × Bool
revoke_token u now t =
    if not (is_owned u t) || is_some t.revoked_at
    then (t, false)
    else (record t { revoked_at = some now }, true)
