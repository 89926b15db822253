-- ===== src/Otp/Accounts.antt =====
-- `verify_code` of app/services/twofactor_service.py: an account's last counter and recovery codes.
pub mod Laws
use weedout.Base.{◌>>=◌}
use Prim.Native.Char.{code}
use weedout.Base.{
  ℕ, ◌+◌, Bool, true, false, not, ◌&&◌, ◌||◌, Option, none, some, List, [], ◌∷◌, leb, ◌==◌,
  if◌then◌else◌, keep, is_empty, Result, ok,
}
use weedout.Base.Maybe.{map_option}
use weedout.Base.Text.{Text, text_eq, is_upper, upper}
use weedout.Otp.{OtpError, Platform, verify}

pub record BackupCode : Type 0 where
  pub code_hash : Text
  pub is_used : Bool

pub record Account : Type 0 where
  pub two_factor_enabled : Bool
  pub totp_secret : Option Text
  pub totp_last_counter : Option ℕ
  pub backup_codes : List BackupCode

-- `_CODE_ALPHABET`: no I, L, O, 0 and 1
in_alphabet : ℕ → Bool
unfolding is_upper
in_alphabet c = is_upper c && not (c == 73 || c == 76 || c == 79) || leb 50 c && leb c 57

unfoldable pub normalise_backup_code : Text → Text
unfolding upper in_alphabet
normalise_backup_code code = keep in_alphabet (upper code)

-- The first unused row with the hash, marked as used; none where there is none
unfoldable pub use_row : Text → List BackupCode → Option (List BackupCode)
unfolding text_eq
use_row h [] = none
use_row h (row ∷ rows) =
    let rest = map_option (λ rs. row ∷ rs) (use_row h rows) in
    if text_eq row.code_hash h && not row.is_used
    then some (record { code_hash = row.code_hash; is_used = true } ∷ rows)
    else rest

-- `counter <= user.totp_last_counter`
unfoldable pub is_replay : ℕ → Option ℕ → Bool
is_replay counter none = false
is_replay counter (some seen) = leb counter seen

-- `sha256` is the digest in hexadecimal.
module _ (platform : Platform) (sha256 : Text → Text) where
  -- `_consume_backup_code`
  unfoldable pub consume_backup_code : Account → Text → Bool × Account
  unfolding normalise_backup_code use_row
  consume_backup_code user code =
      let normalised = normalise_backup_code code in
      if is_empty normalised
      then (false, user)
      else (elim (use_row (sha256 (normalise_backup_code normalised)) user.backup_codes) [
        | none ↦ (false, user)
        | some rows ↦ (true, record user { backup_codes = rows })
      ])

  -- What follows the check of the counter
  unfoldable pub settle_code : Account → Text → Option ℕ → Bool × Account
  unfolding consume_backup_code is_replay
  settle_code user code none = consume_backup_code user code
  settle_code user code (some counter) =
      if is_replay counter user.totp_last_counter
      then (false, user)
      else (true, record user { totp_last_counter = some counter })

  -- `not user.totp_secret`
  abbrev pub secret_of : Account → Option Text
  secret_of user = elim user.totp_secret [
    | none ↦ none
    | some s ↦ if is_empty s then none else some s
  ]

  unfoldable pub verify_code : Account → Text → (now : ℕ) → Result OtpError (Bool × Account)
  unfolding verify settle_code
  verify_code user code now =
      if not user.two_factor_enabled then ok (false, user) else (elim (secret_of user) [
        | none ↦ ok (false, user)
        | some secret ↦
            verify platform secret code now >>= λ counter. ok (settle_code user code counter)
      ])

  -- A series of attempts, with the number of those that are let in
  unfoldable pub verify_codes : Account → List (Text × ℕ) → Result OtpError (ℕ × Account)
  unfolding verify_code
  verify_codes user [] = ok (0, user)
  verify_codes user ((code, now) ∷ attempts) = do
    first ← verify_code user code now
    rest ← verify_codes first.1 attempts
    ok ((if first.0 then 1 else 0) + rest.0, rest.1)
