-- ===== src/RateLimits/Windows.antt =====
-- What counts against a limit, for app/services/rate_limit_service.py.
use Prim.Native.Nat.{min}
use weedout.Base.{
  ℕ, ◌+◌, ◌≤◌, ◌<◌, ◌≡◌, refl, ap, subst, ◌⊎◌, inl, inr, Bool, true, false, ◌&&◌, Option, none,
  some, List, [], ◌∷◌, arith, leb, if◌then◌else◌, Bool-cases, and_cases, keep,
}
use weedout.Base.Text.{Text, text_eq}
use weedout.Otp.{window}
use weedout.RateLimits.{
  Hit, max_retention, counted, counts, used_in, oldest_in, purge_expired_rate_limits,
}

one_hit-later :
    (name : Text) (window now later : ℕ) (hit : Hit)
    → now ≤ later
    → counted (counts name window later hit) ≤ counted (counts name window now hit)
unfolding counts
one_hit-later name window now later hit h = ground arith

-- The hits that still count grow fewer with time.
pub used_in-later :
    (name : Text) (window now later : ℕ) (hits : List Hit)
    → now ≤ later
    → used_in name window later hits ≤ used_in name window now hits
unfolding used_in
used_in-later name window now later [] h = omega arith
used_in-later name window now later (hit ∷ hits) h =
    omega
      (arith, one_hit-later name window now later hit h, used_in-later name window now later hits h)

expired-counts :
    (name : Text) (window now later : ℕ) (hit : Hit)
    → now ≤ later
    → window ≤ max_retention
    → leb now (hit.created_at + max_retention) ≡ false
    → counts name window later hit ≡ false
unfolding counts
expired-counts name window now later hit h w old = go (text_eq hit.bucket name)
  where
    go : (named : Bool) → (named && leb later (hit.created_at + window)) ≡ false
    go true = ground arith
    go false = refl

-- Purging changes no count of a window of up to 24 hours, at the time of the purge or later.
pub purge-used_in :
    (name : Text) (window now later : ℕ) (hits : List Hit)
    → now ≤ later
    → window ≤ max_retention
    → used_in name window later (purge_expired_rate_limits hits now).0
      ≡ used_in name window later hits
unfolding purge_expired_rate_limits used_in
purge-used_in name window now later [] h w = refl
purge-used_in name window now later (hit ∷ hits) h w =
    go (leb now (hit.created_at + max_retention)) (expired-counts name window now later hit h w)
      (purge-used_in name window now later hits h w)
  where
    rest : List Hit
    rest = keep (λ x. leb now (x.created_at + max_retention)) hits

    go :
        (kept : Bool)
        → (kept ≡ false → counts name window later hit ≡ false)
        → used_in name window later rest ≡ used_in name window later hits
        → used_in name window later (if kept then hit ∷ rest else rest)
          ≡ (counted (counts name window later hit) + used_in name window later hits)
    go true old e = rw e refl
    go false old e = rw (old refl) (omega (arith, e))

counts-in_time :
    (name : Text) (window now : ℕ) (hit : Hit)
    → counts name window now hit ≡ true
    → now ≤ hit.created_at + window
unfolding counts
counts-in_time name window now hit h = ground (arith, and_cases (text_eq hit.bucket name) _ h)

one_hit-expired :
    (name : Text) (window later : ℕ) (hit : Hit)
    → hit.created_at + window < later
    → counted (counts name window later hit) ≡ 0
unfolding counts
one_hit-expired name window later hit h = ground arith

-- A hit leaves the window once it is over for the oldest one.
abbrev pub Frees : Text → (window now : ℕ) → List Hit → Option ℕ → Type 0
Frees name window now hits none = used_in name window now hits ≡ 0
Frees name window now hits (some t) =
    (now ≤ t + window)
    × ((later : ℕ)
        → t + window < later
        → now ≤ later
        → used_in name window later hits < used_in name window now hits)

pub oldest_in-Frees :
    (name : Text) (window now : ℕ) (hits : List Hit)
    → Frees name window now hits (oldest_in name window now hits)
unfolding oldest_in used_in
oldest_in-Frees name window now [] = refl
oldest_in-Frees name window now (hit ∷ hits) =
    go (Bool-cases (counts name window now hit)) (oldest_in name window now hits)
      (oldest_in-Frees name window now hits)
  where
    min_in_time :
        (t : ℕ)
        → now ≤ hit.created_at + window
        → now ≤ t + window
        → now ≤ min hit.created_at t + window
    min_in_time t a b = omega arith

    later_used :
        (t later : ℕ)
        → (t + window < later
            → now ≤ later
            → used_in name window later hits < used_in name window now hits)
        → min hit.created_at t + window < later
        → now ≤ later
        → counted (counts name window later hit) + used_in name window later hits
          < 1 + used_in name window now hits
    later_used t later rest over le = elim (Bool-cases (leb later (t + window))) [
      | inl e ↦ omega (
        arith,
        one_hit-expired name window later hit (ground arith),
        used_in-later name window now later hits le,
      )
      | inr e ↦ ground (arith, rest (ground arith) le)
    ]

    go :
        ((counts name window now hit ≡ true) ⊎ (counts name window now hit ≡ false))
        → (o : Option ℕ) → Frees name window now hits o
        → Frees name window now (hit ∷ hits) (
            if counts name window now hit
            then (elim o [ none ↦ some hit.created_at | some t ↦ some (min hit.created_at t) ])
            else o)
    go (inl c) none f = rw c (
      counts-in_time name window now hit c,
      λ later over le. omega (
        arith,
        ap counted c,
        one_hit-expired name window later hit over,
        used_in-later name window now later hits le,
      ),
    )
    go (inl c) (some t) f = rw c (
        let (n, rest) = f in
        (
          min_in_time t (counts-in_time name window now hit c) n,
          λ later over le. omega (arith, ap counted c, later_used t later (rest later) over le),
        ))
    go (inr c) none f = rw c (omega (arith, ap counted c, f))
    go (inr c) (some t) f = rw c (
        let (n, rest) = f in
        (
          n,
          λ later over le. omega (
            arith,
            rest later over le,
            subst (λ b. counted (counts name window later hit) ≤ counted b) c
                (one_hit-later name window now later hit le),
          ),
        ))
