-- ===== src/CliAuth/Tokens/Bounded.antt =====
-- The accounts' tokens of app/services/cli_auth_service.py, after a new one is issued.
use weedout.Base.{
  ℕ, zero, suc, ◌+◌, ◌≡◌, refl, Bool, true, false, Option, none, some, List, [], ◌∷◌, ◌++◌, arith,
  ltb, ◌==◌, if◌then◌else◌, take, keep, All,
}
use weedout.Base.Maybe.{map_option}
use weedout.Base.Text.{Text, text_eq, text_eq_refl, starts_with, strip}
use weedout.CliAuth.{CliToken, token_lifetime, is_active}
use weedout.CliAuth.Tokens.{
  is_owned, is_listed, list_tokens, revoke_beyond, cli_token_prefix, new_token, issue_token,
  authenticate_cli_token, revoke_token, authenticate_row,
}

-- Beyond the first `n` that an account lists, a token is revoked.
revoke_beyond-keep :
    (n u now : ℕ) (tokens : List CliToken)
    → keep (is_listed u now) (revoke_beyond n u now tokens) ≡ take n (keep (is_listed u now) tokens)
unfolding revoke_beyond
revoke_beyond-keep zero u now [] = refl
revoke_beyond-keep (suc n) u now [] = refl
revoke_beyond-keep zero u now (t ∷ ts) =
    go (is_owned u t) (is_active now t) refl refl (revoke_beyond-keep zero u now ts)
  where
    go :
        (a b : Bool)
        → is_owned u t ≡ a
        → is_active now t ≡ b
        → keep (is_listed u now) (revoke_beyond zero u now ts) ≡ take 0 (keep (is_listed u now) ts)
        → keep (is_listed u now) (revoke_beyond zero u now (t ∷ ts))
          ≡ take 0 (keep (is_listed u now) (t ∷ ts))
    go true true p q ih = ground (arith, p, q, ih)
    go true false p q ih = ground (arith, p, q, ih)
    go false b p q ih = ground (arith, p, q, ih)
revoke_beyond-keep (suc n) u now (t ∷ ts) =
    go (is_listed u now t) refl (revoke_beyond-keep n u now ts)
      (revoke_beyond-keep (suc n) u now ts)
  where
    go :
        (a : Bool)
        → is_listed u now t ≡ a
        → keep (is_listed u now) (revoke_beyond n u now ts) ≡ take n (keep (is_listed u now) ts)
        → keep (is_listed u now) (revoke_beyond (suc n) u now ts)
          ≡ take (suc n) (keep (is_listed u now) ts)
        → keep (is_listed u now) (revoke_beyond (suc n) u now (t ∷ ts))
          ≡ take (suc n) (keep (is_listed u now) (t ∷ ts))
    go true p used free = ground (arith, p, used)
    go false p used free = ground (arith, p, free)

revoke_beyond_of_another :
    (n u v now : ℕ) (tokens : List CliToken)
    → (u == v) ≡ false
    → keep (is_listed v now) (revoke_beyond n u now tokens) ≡ keep (is_listed v now) tokens
unfolding revoke_beyond
revoke_beyond_of_another n u v now [] d = go n
  where
    go : (n : ℕ) → keep (is_listed v now) (revoke_beyond n u now []) ≡ []
    go zero = refl
    go (suc n) = refl
revoke_beyond_of_another zero u v now (t ∷ ts) d =
    ground (arith, revoke_beyond_of_another zero u v now ts d, d)
revoke_beyond_of_another (suc n) u v now (t ∷ ts) d = ground (
  arith,
  revoke_beyond_of_another n u v now ts d,
  revoke_beyond_of_another (suc n) u v now ts d,
  d,
)

-- Issuing a token for an account, of the tokens listed newest first, leaves it with the new token, whose hash
-- is the stored one, and with the nine newest of the tokens that it listed before, at that time. Every other
-- account lists what it listed.
pub issue_token-list_tokens :
    (hash : Text → Text) (user : ℕ) (device_label secret : Text) (now : ℕ) (tokens : List CliToken)
    → ((issued : CliToken) × (issued.token_hash
          ≡ hash (issue_token hash user device_label secret now tokens).0)
        × (list_tokens user now (issue_token hash user device_label secret now tokens).1
            ≡ issued ∷ take 9 (list_tokens user now tokens)))
      × ((other : ℕ)
          → (user == other) ≡ false
          → list_tokens other now (issue_token hash user device_label secret now tokens).1
            ≡ list_tokens other now tokens)
unfolding issue_token
issue_token-list_tokens hash user device_label secret now tokens = (
  (
    new_token hash user device_label (cli_token_prefix ++ secret) now,
    refl,
    ground (arith, revoke_beyond-keep 9 user now tokens),
  ),
  λ other d. ground (arith, revoke_beyond_of_another 9 user other now tokens d, d),
)

passed_over :
    (hash : Text → Text) (token : Text) (later : ℕ) (newer rest : List CliToken)
    → All (λ t. text_eq t.token_hash (hash token) ≡ false) newer
    → map_option (λ r. r.0.user_id) (authenticate_row hash token later (newer ++ rest))
      ≡ map_option (λ r. r.0.user_id) (authenticate_row hash token later rest)
passed_over hash token later [] rest a = refl
passed_over hash token later (t ∷ newer) rest (e, a) =
    go (authenticate_row hash token later (newer ++ rest)) refl
      (passed_over hash token later newer rest a)
  where
    go :
        (o : Option (CliToken × List CliToken))
        → authenticate_row hash token later (newer ++ rest) ≡ o
        → map_option (λ r. r.0.user_id) (authenticate_row hash token later (newer ++ rest))
          ≡ map_option (λ r. r.0.user_id) (authenticate_row hash token later rest)
        → map_option (λ r. r.0.user_id) (authenticate_row hash token later (t ∷ newer ++ rest))
          ≡ map_option (λ r. r.0.user_id) (authenticate_row hash token later rest)
    go none h ih = ground (arith, e, h, ih)
    go (some r) h ih = ground (arith, e, h, ih)

-- A write of the row that was issued last
abbrev pub on_first : (CliToken → CliToken) → List CliToken → List CliToken
on_first f [] = []
on_first f (t ∷ tokens) = f t ∷ tokens

-- What a table resolves a token to
abbrev pub owner_of : (Text → Text) → Text → ℕ → List CliToken → Option ℕ
owner_of hash token later tokens =
    map_option (λ r. r.0.user_id) (authenticate_cli_token hash token later tokens)

-- An issued token, which has no white space at its ends, resolves to the account that it was issued to until
-- it expires, 180 days later, and to nothing from then on, in a table where its row and the older ones
-- stand as issuing left them, and only tokens of other hashes were issued after it. Where the account has
-- revoked its row, it resolves to nothing at any time.
pub issue_token-authenticate_cli_token :
    (hash : Text → Text) (user : ℕ) (device_label secret : Text) (now revoked later : ℕ)
    (newer tokens : List CliToken)
    → strip (cli_token_prefix ++ secret) ≡ cli_token_prefix ++ secret
    → All (λ t. text_eq t.token_hash (hash (cli_token_prefix ++ secret)) ≡ false) newer
    → (owner_of hash
          (issue_token hash user device_label secret now tokens).0
          later
          (newer ++ (issue_token hash user device_label secret now tokens).1)
        ≡ (if ltb later (now + token_lifetime) then some user else none))
      × (owner_of hash (issue_token hash user device_label secret now tokens).0 later (
            newer
            ++ on_first
                (λ t. (revoke_token user revoked t).0)
                (issue_token hash user device_label secret now tokens).1)
          ≡ none)
unfolding issue_token authenticate_cli_token starts_with revoke_token
issue_token-authenticate_cli_token hash user device_label secret now revoked later newer tokens e
      a =
    let token = cli_token_prefix ++ secret in
    let row = new_token hash user device_label token now in
    let rest = revoke_beyond 9 user now tokens in
    let own = passed_over hash token later newer (row ∷ rest) a in
    let gone =
      passed_over hash token later newer
        (on_first (λ t. (revoke_token user revoked t).0) (row ∷ rest)) a in
    (
      ground (arith, e, text_eq_refl (hash token), own),
      ground (arith, e, text_eq_refl (hash token), gone),
    )
