-- ===== src/Tests/RateLimits.antt =====
-- Tests of the rate limiter (app/services/rate_limit_service.py).
use weedout.Base.{
  ℕ, suc, ◌+◌, ◌*◌, ◌≤◌, ◌<◌, ◌≡◌, refl, Bool, true, false, List, [], ◌∷◌, arith, length,
}
use weedout.Base.Text.{Text, text, text_eq}
use weedout.RateLimits.{Hit, second, counts, used_in, check_rate_limit, attempt_all}
use weedout.RateLimits.Guards.{end_of, attempts_within_limit, refusal-frees}

abbrev sign_in : Text
sign_in = text "login:account:1"

abbrev minute : ℕ
minute = 60 * second

abbrev hit_at : ℕ → Hit
hit_at t = record { bucket = sign_in; created_at = t }

abbrev two_hits : List Hit
two_hits = hit_at (50 * second + 600000) ∷ hit_at (30 * second + 600000) ∷ []

-- The oldest hit stays for another 10.6 seconds; the wait is 10, and after 10 it still counts.
refusal_test :
    (check_rate_limit two_hits sign_in 2 minute (80 * second) (80 * second)
      ≡ record { allowed = false; limit = 2; used = 2; retry_after_seconds = 10 })
    × (check_rate_limit two_hits sign_in 2 minute (90 * second) (90 * second)
        ≡ record { allowed = false; limit = 2; used = 2; retry_after_seconds = 1 })
    × ((check_rate_limit two_hits sign_in 2 minute (91 * second) (91 * second)).allowed ≡ true)
unfolding check_rate_limit counts
refusal_test = (refl, refl, refl)

refusal-frees_example :
    let wait =
      (check_rate_limit two_hits sign_in 2 minute
        (80 * second)
        (80 * second)).retry_after_seconds in
    (1 ≤ wait)
    × (used_in sign_in minute (80 * second + suc wait * second) two_hits
        < used_in sign_in minute (80 * second) two_hits)
unfolding check_rate_limit counts
refusal-frees_example =
    refusal-frees two_hits sign_in 2 minute (80 * second) (80 * second) (omega arith) refl

abbrev five_attempts : List (ℕ × Bool)
five_attempts =
    (81 * second, true)
    ∷ (82 * second, false)
    ∷ (95 * second, true)
    ∷ (96 * second, true)
    ∷ (200 * second, true)
    ∷ []

attempts_test : length (attempt_all sign_in 2 minute two_hits five_attempts) ≡ 4
unfolding attempt_all counts
attempts_test = refl

attempts_within_limit_example :
    used_in sign_in minute
      (end_of (80 * second) five_attempts)
      (attempt_all sign_in 2 minute two_hits five_attempts)
    ≤ 2
unfolding used_in counts text_eq
attempts_within_limit_example =
    attempts_within_limit sign_in 2 minute (80 * second) two_hits five_attempts (omega arith)
      (omega arith, (omega arith, (omega arith, (omega arith, (omega arith, tt))))) (omega arith)
