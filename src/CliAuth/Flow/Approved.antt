-- ===== src/CliAuth/Flow/Approved.antt =====
-- When a poll of app/services/cli_auth_service.py hands out a token.
use weedout.Base.{
  ℕ, ◌≡◌, refl, ◌⊎◌, inl, inr, Bool, true, false, Option, none, some, ◌++◌, arith, ltb, leb,
  is_some,
}
use weedout.Base.Text.{Text}
use weedout.CliAuth.{CliAuthRequest, Tables, approved_outcome, write_first}
use weedout.CliAuth.Flow.{
  Found, is_denied, is_over, is_waiting, is_approved, poll_state, has_device, first_request,
  mark_collected, written, collect, is_issued,
}
use weedout.CliAuth.Tokens.{cli_token_prefix, issue_token}

-- The request is approved by the account `u`, and neither denied, collected nor expired.
abbrev pub IsReady : (now : ℕ) → CliAuthRequest → (u : ℕ) → Type 0
IsReady now r u =
    (is_some r.approved_at ≡ true)
    × (r.approved_by ≡ some u)
    × (is_some r.denied_at ≡ false)
    × (is_some r.collected_at ≡ false)
    × (ltb now r.expires_at ≡ true)

poll_state-IsReady :
    (now : ℕ) (r : CliAuthRequest) (u : ℕ) → poll_state now r ≡ is_approved u → IsReady now r u
unfolding poll_state
poll_state-IsReady now r u e =
    go (is_some r.denied_at) (is_some r.collected_at) (leb r.expires_at now) (is_some r.approved_at)
      r.approved_by refl refl refl refl refl
  where
    go :
        (a b c d : Bool) (o : Option ℕ)
        → is_some r.denied_at ≡ a
        → is_some r.collected_at ≡ b
        → leb r.expires_at now ≡ c
        → is_some r.approved_at ≡ d
        → r.approved_by ≡ o
        → IsReady now r u
    go true b c d o p q s t w = ground (arith, p, e)
    go false true c d o p q s t w = ground (arith, p, q, e)
    go false false true d o p q s t w = ground (arith, p, q, s, e)
    go false false false false o p q s t w = ground (arith, p, q, s, t, e)
    go false false false true none p q s t w = ground (arith, p, q, s, t, w, e)
    go false false false true (some v) p q s t w = ground (arith, p, q, s, t, w, e)

module _ (hash : Text → Text) (email_of : ℕ → Option Text) where
  -- The poll hands out the token for a request that is ready.
  abbrev pub Collects : (device_code secret : Text) (now : ℕ) (db : Tables) → Type 0
  Collects device_code secret now db =
      (r : CliAuthRequest) × (u : ℕ) × (address : Text) × (first_request
          (has_device (hash device_code)) db.requests
        ≡ some r)
      × IsReady now r u
      × (email_of u ≡ some address)
      × (collect hash email_of device_code secret now db ≡ (
        approved_outcome (cli_token_prefix ++ secret) address,
        record {
          requests =
              written (write_first (has_device (hash device_code)) (mark_collected now) db.requests)
                db.requests;
          tokens = (issue_token hash u r.device_label secret now db.tokens).1;
        },
      ))

  abbrev pub Refuses : (device_code secret : Text) (now : ℕ) (db : Tables) → Type 0
  Refuses device_code secret now db =
      (is_issued (collect hash email_of device_code secret now db).0 ≡ false)
      × ((collect hash email_of device_code secret now db).1 ≡ db)

  -- A poll either gives no token and leaves the tables as they are, or the first request of its device code is
  -- approved by an account that exists, and neither denied, collected nor expired: it is then marked, and a
  -- token is issued for that account.
  pub collect_lem :
      (device_code secret : Text) (now : ℕ) (db : Tables)
      → Refuses device_code secret now db ⊎ Collects device_code secret now db
  unfolding collect issue_token
  collect_lem device_code secret now db =
      go (first_request (has_device (hash device_code)) db.requests) refl
    where
      account :
          (r : CliAuthRequest) (u : ℕ) (o : Option Text)
          → first_request (has_device (hash device_code)) db.requests ≡ some r
          → poll_state now r ≡ is_approved u
          → email_of u ≡ o
          → Refuses device_code secret now db ⊎ Collects device_code secret now db
      account r u none p q s = inl (ground (arith, p, q, s))
      account r u (some address) p q s =
          inr (r, u, address, p, poll_state-IsReady now r u q, s, ground (arith, p, q, s))

      state :
          (r : CliAuthRequest) (f : Found)
          → first_request (has_device (hash device_code)) db.requests ≡ some r
          → poll_state now r ≡ f
          → Refuses device_code secret now db ⊎ Collects device_code secret now db
      state r is_denied p q = inl (ground (arith, p, q))
      state r is_over p q = inl (ground (arith, p, q))
      state r is_waiting p q = inl (ground (arith, p, q))
      state r (is_approved u) p q = account r u (email_of u) p q refl

      go :
          (o : Option CliAuthRequest)
          → first_request (has_device (hash device_code)) db.requests ≡ o
          → Refuses device_code secret now db ⊎ Collects device_code secret now db
      go none p = inl (ground (arith, p))
      go (some r) p = state r (poll_state now r) p refl
