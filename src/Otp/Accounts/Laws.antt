-- ===== src/Otp/Accounts/Laws.antt =====
-- No code is accepted twice by `verify_code` of app/services/twofactor_service.py.
use weedout.Base.{◌>>=◌}
use Prim.Native.Char.{code}
use weedout.Base.{
  ℕ, suc, ◌+◌, ◌≤◌, ◌≡◌, refl, Bool, true, false, not, ◌&&◌, Option, none, some, List, [], ◌∷◌,
  arith, if◌then◌else◌, is_empty, ok, Returns, Returns-bind, Returns-any,
}
use weedout.Base.Maybe.{map_option}
use weedout.Base.Text.{Text, text_eq}
use weedout.Matching.Scan.{count}
use weedout.Otp.{Platform, verify}
use weedout.Otp.Accounts.{
  BackupCode, Account, normalise_backup_code, use_row, is_replay, consume_backup_code, settle_code,
  secret_of, verify_code, verify_codes,
}

abbrev pub unused : List BackupCode → ℕ
unused [] = 0
unused (row ∷ rows) = (if row.is_used then 0 else 1) + unused rows

-- One more than the last counter, and 0 before the first
abbrev pub height : Option ℕ → ℕ
height none = 0
height (some c) = suc c

-- The attempts let in were each paid for: by a recovery code that is now used, or by a last counter
-- that has grown.
abbrev pub IsPaid : Account → ℕ → Account → Type 0
IsPaid before count after =
    count + unused after.backup_codes + height before.totp_last_counter
    ≤ unused before.backup_codes + height after.totp_last_counter

abbrev counted : Bool → ℕ
counted b = if b then 1 else 0

-- The rows have one unused code less, if there are any.
abbrev Marked : List BackupCode → Option (List BackupCode) → Type 0
Marked rows none = Unit
Marked rows (some rs) = unused rows ≡ suc (unused rs)

use_row-Marked : (h : Text) (rows : List BackupCode) → Marked rows (use_row h rows)
unfolding use_row
use_row-Marked h [] = tt
use_row-Marked h (row ∷ rows) =
    go (text_eq row.code_hash h) row.is_used refl (use_row h rows) (use_row-Marked h rows)
  where
    kept :
        (o : Option (List BackupCode))
        → Marked rows o
        → Marked (row ∷ rows) (map_option (λ rs. row ∷ rs) o)
    kept none m = tt
    kept (some rs) m = omega (arith, m)

    go :
        (equal used : Bool)
        → row.is_used ≡ used
        → (o : Option (List BackupCode)) → Marked rows o
        → Marked (row ∷ rows) (
            if equal && not used
            then some (record { code_hash = row.code_hash; is_used = true } ∷ rows)
            else map_option (λ rs. row ∷ rs) o)
    go true false e o m = rw e (omega arith)
    go true true e o m = kept o m
    go false used e o m = kept o m

is_replay-height : (c : ℕ) (o : Option ℕ) → is_replay c o ≡ false → height o ≤ c
unfolding is_replay
is_replay-height c none h = omega arith
is_replay-height c (some seen) h = ground arith

module _ (platform : Platform) (sha256 : Text → Text) where
  consume_backup_code-IsPaid :
      (user : Account) (code : Text)
      → (let (taken, after) = consume_backup_code platform sha256 user code in
          IsPaid user (counted taken) after)
  unfolding consume_backup_code
  consume_backup_code-IsPaid user code =
      go (is_empty (normalise_backup_code code)) (use_row hash user.backup_codes)
        (use_row-Marked hash user.backup_codes)
    where
      hash : Text
      hash = sha256 (normalise_backup_code (normalise_backup_code code))

      go :
          (b : Bool) (o : Option (List BackupCode))
          → Marked user.backup_codes o
          → (let r =
                (if b then (false, user) else (elim o as (λ _. Bool × Account) [
                  | none ↦ (false, user)
                  | some rows ↦ (true, record user { backup_codes = rows })
                ])) in
              IsPaid user (counted r.0) r.1)
      go true o m = omega arith
      go false none m = omega arith
      go false (some rows) m = omega (arith, m)

  settle_code-IsPaid :
      (user : Account) (code : Text) (o : Option ℕ)
      → (let (taken, after) = settle_code platform sha256 user code o in
          IsPaid user (counted taken) after)
  unfolding settle_code
  settle_code-IsPaid user code none = consume_backup_code-IsPaid user code
  settle_code-IsPaid user code (some c) =
      go (is_replay c user.totp_last_counter) (is_replay-height c user.totp_last_counter)
    where
      go :
          (b : Bool)
          → (b ≡ false → height user.totp_last_counter ≤ c)
          → (let r : Bool × Account =
                (if b then (false, user) else (true, record user { totp_last_counter = some c })) in
              IsPaid user (counted r.0) r.1)
      go true h = omega arith
      go false h = omega (arith, h refl)

  verify_code-IsPaid :
      (user : Account) (code : Text) (now : ℕ)
      → Returns (λ r. IsPaid user (counted r.0) r.1) (verify_code platform sha256 user code now)
  unfolding verify_code
  verify_code-IsPaid user code now = go user.two_factor_enabled (secret_of platform sha256 user)
    where
      Paid : Bool × Account → Type 0
      Paid r = IsPaid user (counted r.0) r.1

      go :
          (b : Bool) (s : Option Text)
          → Returns Paid (
              if not b then ok (false, user) else (elim s [
                | none ↦ ok (false, user)
                | some secret ↦ verify platform secret code now >>= λ counter.
                    ok (settle_code platform sha256 user code counter)
              ]))
      go false s = omega arith
      go true none = omega arith
      go true (some secret) =
          Returns-bind (λ u. Unit) Paid (verify platform secret code now) _ (Returns-any _)
            (λ counter u. settle_code-IsPaid user code counter)

  -- In a series of attempts, the number of those let in, together with the unused recovery codes
  -- left, is at most the number of unused recovery codes at first and the growth of the last counter:
  -- no counter and no recovery code lets anyone in twice.
  pub verify_codes-IsPaid :
      (user : Account) (attempts : List (Text × ℕ))
      → Returns (λ r. IsPaid user r.0 r.1) (verify_codes platform sha256 user attempts)
  unfolding verify_codes
  verify_codes-IsPaid user [] = omega arith
  verify_codes-IsPaid user ((code, now) ∷ attempts) =
      Returns-bind (λ r. IsPaid user (counted r.0) r.1) _
        (verify_code platform sha256 user code now) _ (verify_code-IsPaid user code now)
        (λ first p.
          Returns-bind (λ r. IsPaid first.1 r.0 r.1) _
            (verify_codes platform sha256 first.1 attempts) _ (verify_codes-IsPaid first.1 attempts)
            (λ rest q. omega (arith, p, q)))
