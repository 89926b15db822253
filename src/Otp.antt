-- ===== src/Otp.antt =====
-- app/core/totp.py, and the use of codes in app/services/twofactor_service.py. A text's digits are
-- those of `str.isdigit`, which are more than the ASCII ones.
pub mod Codes
pub mod Window
pub mod Accounts
use weedout.Base.{◌>>=◌}
use Prim.Native.Char.{code}
use weedout.Base.{
  ℕ, zero, suc, ◌+◌, ◌-◌, ◌*◌, ◌/◌, ◌%◌, ◌^◌, Bool, not, ◌&&◌, ◌||◌, Option, none, some, List, [],
  ◌∷◌, ◌++◌, reverse, ltb, ◌==◌, if◌then◌else◌, length, replicate, take, all, keep, Result, ok, err,
}
use weedout.Base.Text.{Text, text_eq, upper, strip, show}
use weedout.Types.{key}

-- A secret that does not decode, a counter that does not fit 8 bytes, a digest that is too short,
-- and a comparison of texts that are not ASCII
pub data OtpError : Type 0 where
  bad_secret bad_counter bad_digest not_ascii : OtpError

-- What the code calls: `base64.b32decode`, HMAC with SHA-1, and `str.isdigit`
pub record Platform : Type 0 where
  pub b32decode : Text → Option (List ℕ)
  pub hmac_sha1 : (key message : List ℕ) → List ℕ
  pub isdigit : ℕ → Bool

-- A value that may be missing, as an exception
or_raise : {A : Type 0} → OtpError → Option A → Result OtpError A
or_raise e none = err e
or_raise e (some a) = ok a

-- `n` in bytes, the high one first
big_endian : (bytes : ℕ) → ℕ → List ℕ
big_endian zero n = []
big_endian (suc k) n = (n / 256 ^ k % 256) ∷ big_endian k n

-- `struct.pack(">Q", counter)`; `none` is the counter -1.
pack_counter : Option ℕ → Result OtpError (List ℕ)
unfolding big_endian
pack_counter none = err bad_counter
pack_counter (some n) = if ltb n (2 ^ 64) then ok (big_endian 8 n) else err bad_counter

skip_items : ℕ → List ℕ → List ℕ
skip_items zero bs = bs
skip_items (suc n) [] = []
skip_items (suc n) (b ∷ bs) = skip_items n bs

-- `struct.unpack(">I", …)`
unpack : List ℕ → Result OtpError ℕ
unpack (a ∷ b ∷ c ∷ d ∷ []) = ok (((a * 256 + b) * 256 + c) * 256 + d)
unpack _ = err bad_digest

-- `s.zfill(width)` for a text without a sign
unfoldable pub zfill : ℕ → Text → Text
zfill width s = replicate (width - length s) 48 ++ s

-- The number that a digest is cut down to
truncate : List ℕ → Result OtpError ℕ
unfolding skip_items unpack
truncate digest = elim (reverse digest) [
  | [] ↦ err bad_digest
  | b ∷ bs ↦ unpack (take 4 (skip_items (b % 16) digest)) >>= λ chunk. ok (chunk % 2 ^ 31 % 10 ^ 6)
]

module _ (platform : Platform) where
  -- `_decode_secret`
  decode_secret : Text → Result OtpError (List ℕ)
  unfolding strip upper or_raise
  decode_secret secret =
      let cleaned = upper (keep (λ c. not (c == 32 || c == 45)) (strip secret)) in
      let padding = replicate ((8 - length cleaned % 8) % 8) 61 in
      or_raise bad_secret (platform.b32decode (cleaned ++ padding))

  unfoldable pub code_at : Text → Option ℕ → Result OtpError Text
  unfolding decode_secret pack_counter truncate show zfill
  code_at secret counter = do
    key ← decode_secret secret
    message ← pack_counter counter
    number ← truncate (platform.hmac_sha1 key message)
    ok (zfill 6 (show number))

  -- `hmac.compare_digest` on texts
  unfoldable pub compare_digest : Text → Text → Result OtpError Bool
  unfolding text_eq
  compare_digest a b =
      if all (λ c. ltb c 128) a && all (λ c. ltb c 128) b then ok (text_eq a b) else err not_ascii

  -- The loop of `verify`, over the counters that it tries
  unfoldable pub match_counters :
      Text → Text → Option ℕ → List (Option ℕ) → Result OtpError (Option ℕ)
  unfolding code_at compare_digest
  match_counters secret cleaned matched [] = ok matched
  match_counters secret cleaned matched (c ∷ cs) = do
    code ← code_at secret c
    equal ← compare_digest code cleaned
    match_counters secret cleaned (if equal then c else matched) cs

  -- `range(-DRIFT_STEPS, DRIFT_STEPS + 1)` around a step
  abbrev pub window : ℕ → List (Option ℕ)
  window step = (if step == 0 then none else some (step - 1)) ∷ some step ∷ some (step + 1) ∷ []

  abbrev pub digits_of : Text → Text
  digits_of submitted = keep platform.isdigit submitted

  unfoldable pub verify : Text → Text → (now : ℕ) → Result OtpError (Option ℕ)
  unfolding match_counters
  verify secret submitted now =
      if not (length (digits_of submitted) == 6)
      then ok none
      else match_counters secret (digits_of submitted) none (window (now / 30))
