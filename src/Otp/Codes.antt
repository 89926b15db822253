-- ===== src/Otp/Codes.antt =====
-- The codes of app/core/totp.py have six digits.
use weedout.Base.{◌>>=◌}
use weedout.Base.{
  ℕ, zero, suc, ◌+◌, ◌-◌, ◌%◌, ◌^◌, ◌≤◌, ◌<◌, ◌≡◌, refl, ap, Bool, true, Option, List, [], ◌∷◌,
  ◌++◌, reverse, arith, and_cases, length, replicate, take, all, length-append, Result, ok, err,
  Returns, Returns-bind, Returns-any,
}
use weedout.Base.Text.{Text, is_digit, show, all-show, length-show}
use weedout.Otp.{
  OtpError, bad_digest, Platform, zfill, code_at, pack_counter, skip_items, unpack, truncate,
  decode_secret,
}

all-append :
    (p : ℕ → Bool) (xs ys : Text) → all p xs ≡ true → all p ys ≡ true → all p (xs ++ ys) ≡ true
all-append p [] ys h k = k
all-append p (x ∷ xs) ys h k =
    let (a, b) = and_cases (p x) (all p xs) h in rw (a, all-append p xs ys b k) refl

zeros_all : (n : ℕ) → all is_digit (replicate n 48) ≡ true
unfolding is_digit
zeros_all zero = refl
zeros_all (suc n) = zeros_all n

digit_code : (d : ℕ) → d < 10 → is_digit (d + 48) ≡ true
unfolding is_digit
digit_code d h = ground arith

length-replicate : (n c : ℕ) → length (replicate n c) ≡ n
length-replicate zero c = refl
length-replicate (suc n) c = ap suc (length-replicate n c)

length-zfill : (width : ℕ) (s : Text) → length s ≤ width → length (zfill width s) ≡ width
unfolding zfill
length-zfill width s h = omega (
  arith,
  length-append (replicate (width - length s) 48) s,
  length-replicate (width - length s) 48,
)

truncate-small : (digest : List ℕ) → Returns (λ n. n < 1000000) (truncate digest)
unfolding truncate
truncate-small digest = go (reverse digest)
  where
    go :
        (r : List ℕ)
        → Returns
            (λ n. n < 1000000)
            (elim r as (λ _. Result OtpError ℕ) [
              | [] ↦ err bad_digest
              | b ∷ bs ↦ unpack (take 4 (skip_items (b % 16) digest)) >>= λ chunk.
                  ok (chunk % 2 ^ 31 % 10 ^ 6)
            ])
    go [] = tt
    go (b ∷ bs) =
        Returns-bind (λ u. Unit) (λ n. n < 1000000) (unpack (take 4 (skip_items (b % 16) digest))) _
          (Returns-any _) (λ chunk u. omega arith)

-- A code has six characters, and each is a digit.
abbrev pub IsCode : Text → Type 0
IsCode s = (length s ≡ 6) × (all is_digit s ≡ true)

-- Whatever secret and counter are given, where `code_at` does not raise it returns six digits.
pub code_at-IsCode :
    (platform : Platform) (secret : Text) (counter : Option ℕ)
    → Returns IsCode (code_at platform secret counter)
unfolding code_at
code_at-IsCode platform secret counter =
    Returns-bind (λ u. Unit) IsCode (decode_secret platform secret) _ (Returns-any _)
      (λ key u.
        Returns-bind (λ u. Unit) IsCode (pack_counter counter) _ (Returns-any _)
          (λ message u.
            Returns-bind (λ n. n < 1000000) IsCode (truncate (platform.hmac_sha1 key message)) _
              (truncate-small (platform.hmac_sha1 key message))
              (λ n small. (length-zfill 6 (show n) (length-show 5 n small), zfilled n))))
  where
    zfilled : (n : ℕ) → all is_digit (zfill 6 (show n)) ≡ true
    zfilled n =
        all-append is_digit (replicate (6 - length (show n)) 48) (show n) (zeros_all _)
          (all-show is_digit digit_code n)
