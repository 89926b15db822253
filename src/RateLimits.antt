-- ===== src/RateLimits.antt =====
-- app/services/rate_limit_service.py: the table of hits, as a list with the newest first. A time is a
-- count of microseconds, and `now` is what `utcnow` returns.
pub mod Windows
pub mod Guards
use Prim.Native.Nat.{min}
use weedout.Base.{
  ℕ, ◌+◌, ◌-◌, ◌*◌, ◌/◌, max, Bool, true, false, ◌&&◌, Option, none, some, List, [], ◌∷◌, ltb, leb,
  ◌==◌, if◌then◌else◌, length, keep,
}
use weedout.Base.Text.{Text, text_eq}
use weedout.Otp.{window}

-- `RateLimitHit`
pub record Hit : Type 0 where
  pub bucket : Text
  pub created_at : ℕ

pub record RateLimit : Type 0 where
  pub allowed : Bool
  pub limit : ℕ
  pub used : ℕ
  pub retry_after_seconds : ℕ

-- `RateLimit.remaining`
abbrev pub remaining : RateLimit → ℕ
remaining r = r.limit - r.used

abbrev pub second : ℕ
second = 1000000

-- `MAX_RETENTION`
abbrev pub max_retention : ℕ
max_retention = 24 * 3600 * second

abbrev pub counted : Bool → ℕ
counted b = if b then 1 else 0

-- `created_at >= now - window`, with the bucket's name
unfoldable pub counts : Text → (window now : ℕ) → Hit → Bool
unfolding text_eq
counts name window now hit = text_eq hit.bucket name && leb now (hit.created_at + window)

unfoldable pub used_in : Text → (window now : ℕ) → List Hit → ℕ
used_in name window now [] = 0
used_in name window now (hit ∷ hits) =
    counted (counts name window now hit) + used_in name window now hits

-- `min(created_at)` of the hits that count
unfoldable pub oldest_in : Text → (window now : ℕ) → List Hit → Option ℕ
oldest_in name window now [] = none
oldest_in name window now (hit ∷ hits) =
    let rest = oldest_in name window now hits in
    if counts name window now hit
    then (elim rest [ none ↦ some hit.created_at | some t ↦ some (min hit.created_at t) ])
    else rest

-- `later` is the time when the answer is made, after the queries at `now`.
unfoldable pub retry_after : Option ℕ → (window later : ℕ) → ℕ
retry_after none window later = window / second
retry_after (some oldest) window later = max 1 ((oldest + window - later) / second)

unfoldable pub check_rate_limit : List Hit → Text → (limit window now later : ℕ) → RateLimit
unfolding used_in oldest_in retry_after
check_rate_limit hits name limit window now later =
    let used = used_in name window now hits in
    if limit == 0
    then record { allowed = true; limit = limit; used = 0; retry_after_seconds = 0 }
    else if ltb used limit
    then record { allowed = true; limit = limit; used = used; retry_after_seconds = 0 }
    else record {
      allowed = false;
      limit = limit;
      used = used;
      retry_after_seconds = retry_after (oldest_in name window now hits) window later;
    }

-- `stored` is whether the insertion succeeded; a failure is only logged.
unfoldable pub record_attempt : (stored : Bool) → List Hit → Text → (now : ℕ) → List Hit
record_attempt stored hits name now =
    if stored then record { bucket = name; created_at = now } ∷ hits else hits

-- The rows kept, and the number of rows removed
unfoldable pub purge_expired_rate_limits : List Hit → (now : ℕ) → List Hit × ℕ
purge_expired_rate_limits hits now =
    let kept = keep (λ hit. leb now (hit.created_at + max_retention)) hits in
    (kept, length hits - length kept)

-- A caller that checks before it records, as the sign-in and sign-up routes do: the time of each
-- attempt, and whether its insertion succeeds.
unfoldable pub attempt : Text → (limit window : ℕ) → List Hit → ℕ × Bool → List Hit
unfolding check_rate_limit record_attempt
attempt name limit window hits (now, stored) =
    if (check_rate_limit hits name limit window now now).allowed
    then record_attempt stored hits name now
    else hits

unfoldable pub attempt_all : Text → (limit window : ℕ) → List Hit → List (ℕ × Bool) → List Hit
unfolding attempt
attempt_all name limit window hits [] = hits
attempt_all name limit window hits (next ∷ rest) =
    attempt_all name limit window (attempt name limit window hits next) rest
