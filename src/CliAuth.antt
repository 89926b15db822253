-- ===== src/CliAuth.antt =====
-- app/services/cli_auth_service.py: how a machine gets a credential by a confirmation in a browser. Times are
-- seconds. What the program draws at random is an argument.
pub mod Codes
pub mod Flow
pub mod Tokens
use weedout.Base.{◌>>=◌}
use Prim.Native.Char.{code}
use weedout.Base.{
  ℕ, zero, suc, ◌+◌, ◌*◌, Bool, not, ◌&&◌, ◌||◌, Option, none, some, List, [], ◌∷◌, ◌++◌, ltb, ◌==◌,
  if◌then◌else◌, is_some, length, take, any, keep, is_empty, Result, ok, err,
}
use weedout.Base.Maybe.{map_option}
use weedout.Base.Text.{Text, text_eq, is_digit, is_upper, is_lower, upper, strip}
use weedout.Findings.Digest.{email}

pub record CliAuthRequest : Type 0 where
  pub user_code : Text
  pub device_code_hash : Text
  pub approved_by : Option ℕ
  pub approved_at : Option ℕ
  pub denied_at : Option ℕ
  pub collected_at : Option ℕ
  pub device_label : Text
  pub ip_address : Option Text
  pub expires_at : ℕ

pub record CliToken : Type 0 where
  pub user_id : ℕ
  pub token_hash : Text
  pub prefix : Text
  pub device_label : Text
  pub last_used_at : Option ℕ
  pub revoked_at : Option ℕ
  pub expires_at : ℕ

-- The two tables; the tokens are listed by their creation, the newest first.
pub record Tables : Type 0 where
  pub requests : List CliAuthRequest
  pub tokens : List CliToken

pub data CliAuthError : Type 0 where
  no_longer_waiting no_free_code : CliAuthError

-- `AuthOutcome`
pub data AuthOutcome : Type 0 where
  pending_outcome denied_outcome expired_outcome : AuthOutcome
  approved_outcome : (token email : Text) → AuthOutcome

-- In seconds: ten minutes, and 180 days
abbrev pub approval_window : ℕ
approval_window = 600

abbrev pub token_lifetime : ℕ
token_lifetime = 180 * 86400

abbrev pub max_tokens_per_account : ℕ
max_tokens_per_account = 10

-- `CliAuthRequest.is_pending`
unfoldable pub is_pending : (now : ℕ) → CliAuthRequest → Bool
is_pending now r =
    not (is_some r.approved_at)
    && not (is_some r.denied_at)
    && not (is_some r.collected_at)
    && ltb now r.expires_at

-- `CliToken.is_active`
abbrev pub is_active : (now : ℕ) → CliToken → Bool
is_active now t = not (is_some t.revoked_at) && ltb now t.expires_at

abbrev pub is_alnum : ℕ → Bool
is_alnum c = is_digit c || is_upper c || is_lower c

abbrev pub drop {ℓ} : {A : Type ℓ} → ℕ → List A → List A
drop zero xs = xs
drop (suc n) [] = []
drop (suc n) (x ∷ xs) = drop n xs

-- `f"{s[:4]}-{s[4:8]}"`
abbrev pub grouped : Text → Text
grouped s = take 4 s ++ 45 ∷ take 4 (drop 4 s)

-- `generate_user_code`, of the eight characters that are drawn
unfoldable pub generate_user_code : (body : Text) → Text
generate_user_code body = take 4 body ++ 45 ∷ drop 4 body

unfoldable pub normalise_user_code : Text → Text
unfolding upper is_digit is_upper is_lower
normalise_user_code raw =
    let cleaned = keep is_alnum (upper raw) in
    if length cleaned == 8 then grouped cleaned else cleaned

abbrev pub has_code : Text → CliAuthRequest → Bool
has_code code r = text_eq r.user_code code

-- `_unused_code`, of the candidates that `generate_user_code` gives, five at most
unfoldable pub unused_code : ℕ → List Text → List CliAuthRequest → Result CliAuthError Text
unfolding text_eq
unused_code zero candidates requests = err no_free_code
unused_code (suc attempts) [] requests = err no_free_code
unused_code (suc attempts) (c ∷ candidates) requests =
    let rest = unused_code attempts candidates requests in
    if any (has_code c) requests then rest else ok c

-- `(ip_address or "")[:64] or None`
abbrev filled_ip : Option Text → Option Text
filled_ip none = none
filled_ip (some s) = if is_empty s then none else some (take 64 s)

-- `hash_opaque_token`, a parameter
module _ (hash : Text → Text) where
  -- The row of a new request
  abbrev pub new_request :
      (user_code device_code device_label : Text) (ip_address : Option Text) (now : ℕ)
      → CliAuthRequest
  new_request user_code device_code device_label ip_address now = record {
    user_code = user_code;
    device_code_hash = hash device_code;
    approved_by = none;
    approved_at = none;
    denied_at = none;
    collected_at = none;
    device_label = take 120 (strip device_label);
    ip_address = filled_ip ip_address;
    expires_at = now + approval_window;
  }

  -- `start_request`: the code to show, and the tables
  unfoldable pub start_request :
      (candidates : List Text) (device_code device_label : Text) (ip_address : Option Text)
      (now : ℕ)
      → Tables
      → Result CliAuthError (Text × Tables)
  unfolding unused_code strip
  start_request candidates device_code device_label ip_address now db = do
    user_code ← unused_code 5 candidates db.requests
    ok (
      user_code,
      record db {
        requests =
            db.requests ++ new_request user_code device_code device_label ip_address now ∷ [];
      },
    )

-- `approve` and `deny`, on the row that they are given
unfoldable pub approve : (now user : ℕ) → CliAuthRequest → Result CliAuthError CliAuthRequest
unfolding is_pending
approve now user r =
    if not (is_pending now r)
    then err no_longer_waiting
    else ok (record r { approved_by = some user; approved_at = some now })

unfoldable pub deny : (now : ℕ) → CliAuthRequest → Result CliAuthError CliAuthRequest
unfolding is_pending
deny now r =
    if not (is_pending now r) then err no_longer_waiting else ok (record r { denied_at = some now })

-- The first row that passes a test, where it is written; nothing where the write is refused or no row passes
unfoldable pub write_first :
    (CliAuthRequest → Bool)
    → (CliAuthRequest → Option CliAuthRequest)
    → List CliAuthRequest
    → Option (List CliAuthRequest)
write_first p f [] = none
write_first p f (r ∷ rs) =
    let later = map_option (λ xs. r ∷ xs) (write_first p f rs) in
    let here = map_option (λ x. x ∷ rs) (f r) in if p r then here else later

abbrev pub of_result : Result CliAuthError CliAuthRequest → Option CliAuthRequest
of_result (ok r) = some r
of_result (err e) = none

-- `find_pending` and then `approve` or `deny`, as the routes call them: the rows, where a row is found pending
abbrev pub on_pending :
    (now : ℕ)
    → (CliAuthRequest → Result CliAuthError CliAuthRequest)
    → CliAuthRequest
    → Option CliAuthRequest
on_pending now f r = if is_pending now r then of_result (f r) else none

unfoldable pub answer :
    (now : ℕ)
    → (CliAuthRequest → Result CliAuthError CliAuthRequest)
    → Text
    → List CliAuthRequest
    → Option (List CliAuthRequest)
unfolding is_pending write_first normalise_user_code text_eq
answer now f typed requests =
    let code = normalise_user_code typed in
    if is_empty code then none else write_first (has_code code) (on_pending now f) requests
