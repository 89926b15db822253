-- ===== src/RateLimits/Guards.antt =====
-- The promises of `check_rate_limit` of app/services/rate_limit_service.py to its callers.
use weedout.Base.{
  ℕ, suc, ◌+◌, ◌-◌, ◌*◌, ◌/◌, ◌≤◌, ◌<◌, max, ◌≡◌, refl, sym, ◌∙◌, Bool, true, false, ◌||◌, Option,
  none, some, List, [], ◌∷◌, arith, ltb, ◌==◌, if◌then◌else◌,
}
use weedout.Base.Text.{Text}
use weedout.Otp.{window}
use weedout.RateLimits.{
  Hit, RateLimit, second, counted, counts, used_in, oldest_in, retry_after, check_rate_limit,
  record_attempt, attempt, attempt_all,
}
use weedout.RateLimits.Windows.{used_in-later, Frees, oldest_in-Frees}

check-allowed :
    (hits : List Hit) (name : Text) (limit window now later : ℕ)
    → (check_rate_limit hits name limit window now later).allowed
      ≡ (limit == 0 || ltb (used_in name window now hits) limit)
unfolding check_rate_limit
check-allowed hits name limit window now later =
    go (limit == 0) (ltb (used_in name window now hits) limit)
  where
    refusal : RateLimit
    refusal = record {
      allowed = false;
      limit = limit;
      used = used_in name window now hits;
      retry_after_seconds = retry_after (oldest_in name window now hits) window later;
    }

    go :
        (a b : Bool)
        → (if a
            then record { allowed = true; limit = limit; used = 0; retry_after_seconds = 0 }
            else if b
            then record {
              allowed = true;
              limit = limit;
              used = used_in name window now hits;
              retry_after_seconds = 0;
            }
            else refusal).allowed
          ≡ (a || b)
    go true b = refl
    go false true = refl
    go false false = refl

-- Times do not go back.
abbrev pub IsAscending : ℕ → List (ℕ × Bool) → Type 0
IsAscending start [] = Unit
IsAscending start (next ∷ rest) = (start ≤ next.0) × IsAscending next.0 rest

abbrev pub end_of : ℕ → List (ℕ × Bool) → ℕ
end_of start [] = start
end_of start (next ∷ rest) = end_of next.0 rest

record_attempt-used_in :
    (stored : Bool) (hits : List Hit) (name : Text) (window now : ℕ)
    → used_in name window now (record_attempt stored hits name now)
      ≤ suc (used_in name window now hits)
unfolding record_attempt used_in
record_attempt-used_in true hits name window now =
    go (counts name window now record { bucket = name; created_at = now })
  where
    go : (b : Bool) → counted b + used_in name window now hits ≤ suc (used_in name window now hits)
    go true = omega arith
    go false = omega arith
record_attempt-used_in false hits name window now = omega arith

attempt-used_in :
    (name : Text) (limit window : ℕ) (hits : List Hit) (now : ℕ) (stored : Bool)
    → 1 ≤ limit
    → used_in name window now hits ≤ limit
    → used_in name window now (attempt name limit window hits (now, stored)) ≤ limit
unfolding attempt
attempt-used_in name limit window hits now stored some_limit h =
    go (check_rate_limit hits name limit window now now).allowed
      (check-allowed hits name limit window now now)
  where
    go :
        (b : Bool)
        → b ≡ (limit == 0 || ltb (used_in name window now hits) limit)
        → used_in name window now (if b then record_attempt stored hits name now else hits) ≤ limit
    go true e = ground (arith, record_attempt-used_in stored hits name window now)
    go false e = h

-- Attempts, one after the other, that check before they record never bring the hits that count over
-- the limit, as of the last attempt.
pub attempts_within_limit :
    (name : Text) (limit window start : ℕ) (hits : List Hit) (attempts : List (ℕ × Bool))
    → 1 ≤ limit
    → IsAscending start attempts
    → used_in name window start hits ≤ limit
    → used_in name window (end_of start attempts) (attempt_all name limit window hits attempts)
      ≤ limit
unfolding attempt_all
attempts_within_limit name limit window start hits [] some_limit asc h = h
attempts_within_limit name limit window start hits ((now, stored) ∷ rest) some_limit (le, asc) h =
    attempts_within_limit name limit window now (attempt name limit window hits (now, stored)) rest
      some_limit asc
      (attempt-used_in name limit window hits now stored some_limit
        (omega (arith, h, used_in-later name window start now hits le)))

-- What a refusal says, and that the limit was reached
check-refused :
    (hits : List Hit) (name : Text) (limit window now later : ℕ)
    → (check_rate_limit hits name limit window now later).allowed ≡ false
    → ((check_rate_limit hits name limit window now later).retry_after_seconds
        ≡ retry_after (oldest_in name window now hits) window later)
      × (1 ≤ used_in name window now hits)
unfolding check_rate_limit
check-refused hits name limit window now later h =
    let full = sym (check-allowed hits name limit window now later) ∙ h in
    (go (limit == 0) (ltb (used_in name window now hits) limit) full, ground arith)
  where
    refusal : RateLimit
    refusal = record {
      allowed = false;
      limit = limit;
      used = used_in name window now hits;
      retry_after_seconds = retry_after (oldest_in name window now hits) window later;
    }

    go :
        (a b : Bool)
        → (a || b) ≡ false
        → (let r : RateLimit =
              (if a
                then record { allowed = true; limit = limit; used = 0; retry_after_seconds = 0 }
                else if b
                then record {
                  allowed = true;
                  limit = limit;
                  used = used_in name window now hits;
                  retry_after_seconds = 0;
                }
                else refusal) in
            r.retry_after_seconds ≡ retry_after (oldest_in name window now hits) window later)
    go true b e = cc
    go false true e = cc
    go false false e = refl

wait_over :
    (t window later : ℕ) → t + window < later + suc (max 1 ((t + window - later) / second)) * second
wait_over t window later = omega arith

-- A refusal names a wait of at least one second, and one second more than it is long enough for a
-- slot: without new hits, fewer of them count then. `now` and `later` are the two readings of the
-- clock.
pub refusal-frees :
    (hits : List Hit) (name : Text) (limit window now later : ℕ)
    → now ≤ later
    → (check_rate_limit hits name limit window now later).allowed ≡ false
    → (let wait = (check_rate_limit hits name limit window now later).retry_after_seconds in
        (1 ≤ wait)
        × (used_in name window (later + suc wait * second) hits < used_in name window now hits))
unfolding retry_after
refusal-frees hits name limit window now later le h =
    let (wait, some_used) = check-refused hits name limit window now later h in
    rw wait (go (oldest_in name window now hits) (oldest_in-Frees name window now hits) some_used)
  where
    absurd : used_in name window now hits ≡ 0 → 1 ≤ used_in name window now hits → ⊥
    absurd f k = omega arith

    go :
        (o : Option ℕ)
        → Frees name window now hits o
        → 1 ≤ used_in name window now hits
        → (1 ≤ retry_after o window later)
          × (used_in name window (later + suc (retry_after o window later) * second) hits
              < used_in name window now hits)
    go none f k = elim (absurd f k) [ ]
    go (some t) (n, rest) k = (
      omega arith,
      rest (later + suc (max 1 ((t + window - later) / second)) * second) (wait_over t window later)
          (omega arith),
    )
