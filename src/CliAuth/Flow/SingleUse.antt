-- ===== src/CliAuth/Flow/SingleUse.antt =====
-- How many tokens a device code of app/services/cli_auth_service.py can collect.
use weedout.Base.{◌>>=◌}
use mathlib.Core.Option.{none-ne-some, some-injective}
use weedout.Base.{
  ℕ, ◌+◌, ◌≡◌, refl, sym, ap, subst, ◌⊎◌, inl, inr, Bool, true, false, not, ◌&&◌, Option, none,
  some, List, [], ◌∷◌, ◌++◌, arith, ltb, leb, if◌then◌else◌, is_some, keep, is_empty, how_many,
  how_many-append, Result, ok, err,
}
use weedout.Base.Text.{Text, text_eq, text_eq_refl, text_eq_iff}
use weedout.CliAuth.{
  CliAuthRequest, Tables, CliAuthError, is_pending, normalise_user_code, has_code, unused_code,
  new_request, start_request, approve, deny, write_first, of_result, on_pending, answer,
}
use weedout.CliAuth.Flow.{
  has_device, first_request, mark_collected, written, purge_expired_auth_requests, AuthEvent,
  started, approved_by_user, denied_by_user, polled, purged, is_issued, started_or, happen, issues,
  issued_count,
}
use weedout.CliAuth.Flow.Approved.{IsReady, Collects, Refuses, collect_lem}

-- The request has the hash `h` of a device code, and is neither denied nor collected.
unfoldable pub is_collectable : Text → CliAuthRequest → Bool
is_collectable h r = has_device h r && not (is_some r.collected_at) && not (is_some r.denied_at)

-- A write that makes no row pass the test
abbrev Lessens : (CliAuthRequest → Bool) → (CliAuthRequest → Option CliAuthRequest) → Type 0
Lessens q f = (r x : CliAuthRequest) → f r ≡ some x → q r ≡ false → q x ≡ false

write_first-Lessens :
    (p q : CliAuthRequest → Bool) (f : CliAuthRequest → Option CliAuthRequest)
    (rs : List CliAuthRequest)
    → Lessens q f
    → leb (how_many q (written (write_first p f rs) rs)) (how_many q rs) ≡ true
unfolding write_first
write_first-Lessens p q f [] h = refl
write_first-Lessens p q f (r ∷ rs) h =
    go (p r) (f r) (write_first p f rs) refl refl refl (write_first-Lessens p q f rs h)
  where
    go :
        (b : Bool) (o : Option CliAuthRequest) (l : Option (List CliAuthRequest))
        → p r ≡ b
        → f r ≡ o
        → write_first p f rs ≡ l
        → leb (how_many q (written (write_first p f rs) rs)) (how_many q rs) ≡ true
        → leb (how_many q (written (write_first p f (r ∷ rs)) (r ∷ rs))) (how_many q (r ∷ rs))
          ≡ true
    go true none l a b c ih = ground (arith, a, b, c, ih)
    go true (some x) l a b c ih = ground (arith, a, b, c, ih, h r x b)
    go false o none a b c ih = ground (arith, a, b, c, ih)
    go false o (some xs) a b c ih = ground (arith, a, b, c, ih)

on_pending-Lessens :
    (h : Text) (now : ℕ) (f : CliAuthRequest → Result CliAuthError CliAuthRequest)
    → Lessens (is_collectable h) (λ r. of_result (f r))
    → Lessens (is_collectable h) (on_pending now f)
on_pending-Lessens h now f l r x e = go (is_pending now r) refl
  where
    go : (b : Bool) → is_pending now r ≡ b → is_collectable h r ≡ false → is_collectable h x ≡ false
    go true p = l r x (ground (arith, p, e))
    go false p = ground (arith, p, e)

approve-Lessens :
    (h : Text) (now user : ℕ) → Lessens (is_collectable h) (λ r. of_result (approve now user r))
unfolding approve is_collectable
approve-Lessens h now user r x e q = go (is_pending now r) refl
  where
    go : (b : Bool) → is_pending now r ≡ b → is_collectable h x ≡ false
    go true p = ground (arith, p, e, q)
    go false p = ground (arith, p, e)

deny-Lessens : (h : Text) (now : ℕ) → Lessens (is_collectable h) (λ r. of_result (deny now r))
unfolding deny is_collectable
deny-Lessens h now r x e q = go (is_pending now r) refl
  where
    go : (b : Bool) → is_pending now r ≡ b → is_collectable h x ≡ false
    go true p = ground (arith, p, e, q)
    go false p = ground (arith, p, e)

mark_collected-Lessens : (h : Text) (now : ℕ) → Lessens (is_collectable h) (mark_collected now)
unfolding is_collectable
mark_collected-Lessens h now r x e q = ground (arith, e, q)

answer-Lessens :
    (h typed : Text) (now : ℕ) (f : CliAuthRequest → Result CliAuthError CliAuthRequest)
    (rs : List CliAuthRequest)
    → Lessens (is_collectable h) (λ r. of_result (f r))
    → leb
        (how_many (is_collectable h) (written (answer now f typed rs) rs))
        (how_many (is_collectable h) rs)
      ≡ true
unfolding answer
answer-Lessens h typed now f rs l = go (is_empty (normalise_user_code typed)) refl
  where
    go :
        (b : Bool)
        → is_empty (normalise_user_code typed) ≡ b
        → leb
            (how_many (is_collectable h) (written (answer now f typed rs) rs))
            (how_many (is_collectable h) rs)
          ≡ true
    go true e = ground (arith, e)
    go false e = ground (
      arith,
      e,
      write_first-Lessens (has_code (normalise_user_code typed)) (is_collectable h)
          (on_pending now f) rs (on_pending-Lessens h now f l),
    )

collected_not :
    (h : Text) (now : ℕ) (r : CliAuthRequest)
    → is_collectable h (record r { collected_at = some now }) ≡ false
unfolding is_collectable
collected_not h now r = ground arith

-- The first request of a device code is spent when it is collected.
collected_once :
    (h : Text) (now : ℕ) (r : CliAuthRequest) (rs : List CliAuthRequest)
    → first_request (has_device h) rs ≡ some r
    → is_collectable h r ≡ true
    → 1
        + how_many
            (is_collectable h)
            (written (write_first (has_device h) (mark_collected now) rs) rs)
      ≡ how_many (is_collectable h) rs
unfolding write_first
collected_once h now r [] e c = absurd (none-ne-some r e)
collected_once h now r (x ∷ rs) e c =
    go (has_device h x) (write_first (has_device h) (mark_collected now) rs) refl refl
      (λ a. collected_once h now r rs a c)
  where
    go :
        (b : Bool) (o : Option (List CliAuthRequest))
        → has_device h x ≡ b
        → write_first (has_device h) (mark_collected now) rs ≡ o
        → (first_request (has_device h) rs ≡ some r
            → 1
                + how_many
                    (is_collectable h)
                    (written (write_first (has_device h) (mark_collected now) rs) rs)
              ≡ how_many (is_collectable h) rs)
        → 1
            + how_many
                (is_collectable h)
                (written (write_first (has_device h) (mark_collected now) (x ∷ rs)) (x ∷ rs))
          ≡ how_many (is_collectable h) (x ∷ rs)
    go true o a b ih = ground (
      arith,
      a,
      b,
      subst (λ y. is_collectable h y ≡ true) (sym (some-injective x r (ground (arith, a, e)))) c,
      collected_not h now x,
    )
    go false none a b ih = ground (arith, a, b, ih (ground (arith, a, e)))
    go false (some xs) a b ih = ground (arith, a, b, ih (ground (arith, a, e)))

first_request_passes :
    (p : CliAuthRequest → Bool) (r : CliAuthRequest) (rs : List CliAuthRequest)
    → first_request p rs ≡ some r
    → p r ≡ true
first_request_passes p r [] e = absurd (none-ne-some r e)
first_request_passes p r (x ∷ rs) e = go (p x) refl (first_request_passes p r rs)
  where
    go : (b : Bool) → p x ≡ b → (first_request p rs ≡ some r → p r ≡ true) → p r ≡ true
    go true a ih = subst (λ y. p y ≡ true) (some-injective x r (ground (arith, a, e))) a
    go false a ih = ih (ground (arith, a, e))

ready_collectable :
    (h : Text) (now u : ℕ) (r : CliAuthRequest) (rs : List CliAuthRequest)
    → first_request (has_device h) rs ≡ some r
    → IsReady now r u
    → is_collectable h r ≡ true
unfolding is_collectable
ready_collectable h now u r rs e (i, j, k, l, m) =
    ground (arith, first_request_passes (has_device h) r rs e, k, l)

keep_lessens :
    (p q : CliAuthRequest → Bool) (rs : List CliAuthRequest)
    → leb (how_many q (keep p rs)) (how_many q rs) ≡ true
keep_lessens p q [] = refl
keep_lessens p q (r ∷ rs) = ground (arith, keep_lessens p q rs)

module _ (hash : Text → Text) (email_of : ℕ → Option Text) where
  -- The event starts a request for the hash `h` of a device code.
  unfoldable pub starts : Text → AuthEvent → Bool
  unfolding text_eq
  starts h (started candidates device_code device_label ip_address now) =
      text_eq (hash device_code) h
  starts h _ = false

  unfoldable pub started_count : Text → List AuthEvent → ℕ
  unfolding starts
  started_count h [] = 0
  started_count h (e ∷ es) = (if starts h e then 1 else 0) + started_count h es

  abbrev CountsOne : Text → AuthEvent → Tables → Type 0
  CountsOne h e db =
      leb
        ((if issues hash email_of h e db then 1 else 0)
          + how_many (is_collectable h) (happen hash email_of e db).requests)
        (how_many (is_collectable h) db.requests + (if starts h e then 1 else 0))
      ≡ true

  polled_counts :
      (h device_code secret : Text) (now : ℕ) (db : Tables)
      → CountsOne h (polled device_code secret now) db
  unfolding issues happen starts
  polled_counts h device_code secret now db =
      go (collect_lem hash email_of device_code secret now db)
    where
      go :
          Refuses hash email_of device_code secret now db
            ⊎ Collects hash email_of device_code secret now db
          → CountsOne h (polled device_code secret now) db
      go (inl (a, b)) = ground (arith, a, ap (λ t. how_many (is_collectable h) t.requests) b)
      go (inr (r, u, address, first, ready, owner, out)) = spent (text_eq (hash device_code) h) refl
        where
          spent :
              (b : Bool)
              → text_eq (hash device_code) h ≡ b
              → CountsOne h (polled device_code secret now) db
          spent true e =
              subst (λ k. CountsOne k (polled device_code secret now) db)
                ((text_eq_iff (hash device_code) h).0 e)
                (ground (
                  arith,
                  ap (λ t. is_issued t.0) out,
                  ap (λ t. how_many (is_collectable (hash device_code)) t.1.requests) out,
                  text_eq_refl (hash device_code),
                  collected_once (hash device_code) now r db.requests first
                      (ready_collectable (hash device_code) now u r db.requests first ready),
                ))
          spent false e = ground (
            arith,
            e,
            ap (λ t. how_many (is_collectable h) t.1.requests) out,
            write_first-Lessens (has_device (hash device_code)) (is_collectable h)
                (mark_collected now) db.requests (mark_collected-Lessens h now),
          )

  started_counts :
      (h : Text) (candidates : List Text) (device_code device_label : Text)
      (ip_address : Option Text) (now : ℕ) (db : Tables)
      → CountsOne h (started candidates device_code device_label ip_address now) db
  unfolding issues happen starts start_request is_collectable
  started_counts h candidates device_code device_label ip_address now db =
      go (unused_code 5 candidates db.requests)
    where
      row : Text → CliAuthRequest
      row user_code = new_request hash user_code device_code device_label ip_address now

      go :
          (o : Result CliAuthError Text)
          → leb
              (0
                + how_many
                    (is_collectable h)
                    (started_or db (do
                      user_code ← o
                      ok (
                        user_code,
                        record db { requests = db.requests ++ row user_code ∷ [] },
                      ))).requests)
              (how_many (is_collectable h) db.requests
                + (if text_eq (hash device_code) h then 1 else 0))
            ≡ true
      go (err e) = ground arith
      go (ok user_code) =
          ground (arith, how_many-append (is_collectable h) db.requests (row user_code ∷ []))

  event_counts : (h : Text) (e : AuthEvent) (db : Tables) → CountsOne h e db
  unfolding issues happen starts purge_expired_auth_requests
  event_counts h (started candidates device_code device_label ip_address now) db =
      started_counts h candidates device_code device_label ip_address now db
  event_counts h (approved_by_user user typed now) db = ground (
    arith,
    answer-Lessens h typed now (approve now user) db.requests (approve-Lessens h now user),
  )
  event_counts h (denied_by_user typed now) db =
      ground (arith, answer-Lessens h typed now (deny now) db.requests (deny-Lessens h now))
  event_counts h (polled device_code secret now) db = polled_counts h device_code secret now db
  event_counts h (purged now) db = ground (
    arith,
    keep_lessens (λ r. not (ltb (r.expires_at + 86400) now)) (is_collectable h) db.requests,
  )

  -- Whatever starts, approvals, refusals, polls and purges happen to the tables, and in whatever order, the
  -- tokens handed out for a device code, told by its hash, are at most as many as the requests that had it at
  -- the beginning and were neither denied nor collected, and the requests that were started with it.
  pub issued_count-started_count :
      (h : Text) (events : List AuthEvent) (db : Tables)
      → leb
          (issued_count hash email_of h events db)
          (how_many (is_collectable h) db.requests + started_count h events)
        ≡ true
  unfolding issued_count started_count
  issued_count-started_count h [] db = ground arith
  issued_count-started_count h (e ∷ es) db =
      ground
        (arith, event_counts h e db, issued_count-started_count h es (happen hash email_of e db))
