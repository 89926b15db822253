-- ===== src/Tests/CliAuth.antt =====
-- A sign-in of app/services/cli_auth_service.py, from the start of its request to the collection of its token.
use weedout.Base.{
  ℕ, ◌+◌, ◌≡◌, refl, ◌⊎◌, true, false, Option, none, some, List, [], ◌∷◌, reverse, ltb, leb, ◌==◌,
  if◌then◌else◌, take, how_many,
}
use weedout.Base.Text.{Text, text, text_eq, strip}
use weedout.CliAuth.{CliToken, Tables, token_lifetime}
use weedout.CliAuth.Flow.{
  AuthEvent, started, approved_by_user, polled, purged, happen, issued_count,
}
use weedout.CliAuth.Flow.Approved.{Collects, Refuses, collect_lem}
use weedout.CliAuth.Flow.SingleUse.{is_collectable, started_count, issued_count-started_count}
use weedout.CliAuth.Tokens.{list_tokens, new_token, issue_token, revoke_token}
use weedout.CliAuth.Tokens.Bounded.{
  issue_token-list_tokens, on_first, owner_of, issue_token-authenticate_cli_token,
}

abbrev hash : Text → Text
hash = reverse

abbrev accounts : ℕ → Option Text
accounts user = if user == 7 then some (text "alice@example.org") else none

abbrev device : Text
device = text "b64-device"

abbrev empty : Tables
empty = record { requests = []; tokens = [] }

abbrev sign_in : List AuthEvent
sign_in =
    started (text "HXKR-Q4FP" ∷ []) device (text " laptop ") none 1000
    ∷ polled device (text "s1") 1003
    ∷ approved_by_user 7 (text "hxkr q4fp") 1060
    ∷ polled device (text "s2") 1063
    ∷ polled device (text "s3") 1066
    ∷ purged 90000
    ∷ []

abbrev half_way : Tables
half_way = happen hash accounts (approved_by_user 7 (text "hxkr q4fp") 1060) (
    happen hash accounts (started (text "HXKR-Q4FP" ∷ []) device (text " laptop ") none 1000) empty)

sign_in_count : issued_count hash accounts (hash device) sign_in empty ≡ 1
unfolding issued_count
sign_in_count = refl

issued_count-started_count_example :
    leb (issued_count hash accounts (hash device) sign_in empty) (
      how_many (is_collectable (hash device)) empty.requests
      + started_count hash accounts (hash device) sign_in)
    ≡ true
issued_count-started_count_example =
    issued_count-started_count hash accounts (hash device) sign_in empty

collect_lem_example :
    Refuses hash accounts device (text "s2") 1063 half_way
    ⊎ Collects hash accounts device (text "s2") 1063 half_way
collect_lem_example = collect_lem hash accounts device (text "s2") 1063 half_way

abbrev laptop : CliToken
laptop = new_token hash 7 (text "laptop") (text "woa_old") 500

issue_token-list_tokens_example :
    ((issued : CliToken) × (issued.token_hash
        ≡ hash (issue_token hash 7 (text "desktop") (text "s1") 1000 (laptop ∷ [])).0)
      × (list_tokens 7 1000 (issue_token hash 7 (text "desktop") (text "s1") 1000 (laptop ∷ [])).1
          ≡ issued ∷ take 9 (list_tokens 7 1000 (laptop ∷ []))))
    × ((other : ℕ)
        → (7 == other) ≡ false
        → list_tokens other 1000
            (issue_token hash 7 (text "desktop") (text "s1") 1000 (laptop ∷ [])).1
          ≡ list_tokens other 1000 (laptop ∷ []))
issue_token-list_tokens_example =
    issue_token-list_tokens hash 7 (text "desktop") (text "s1") 1000 (laptop ∷ [])

issue_token-authenticate_cli_token_example :
    (owner_of hash
        (issue_token hash 7 (text "desktop") (text "s1") 1000 (laptop ∷ [])).0
        2000
        (laptop ∷ (issue_token hash 7 (text "desktop") (text "s1") 1000 (laptop ∷ [])).1)
      ≡ (if ltb 2000 (1000 + token_lifetime) then some 7 else none))
    × (owner_of hash (issue_token hash 7 (text "desktop") (text "s1") 1000 (laptop ∷ [])).0 2000 (
          laptop
          ∷ on_first
              (λ t. (revoke_token 7 1500 t).0)
              (issue_token hash 7 (text "desktop") (text "s1") 1000 (laptop ∷ [])).1)
        ≡ none)
unfolding strip text_eq
issue_token-authenticate_cli_token_example =
    issue_token-authenticate_cli_token hash 7 (text "desktop") (text "s1") 1000 1500 2000
      (laptop ∷ []) (laptop ∷ []) refl (refl, tt)
