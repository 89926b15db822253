-- ===== src/CliAuth/Codes.antt =====
-- What a person types for a code of app/services/cli_auth_service.py, and the code that is stored.
use weedout.Base.{
  ℕ, zero, suc, ◌+◌, ◌-◌, ◌≡◌, refl, ap, Bool, true, false, ◌||◌, [], ◌∷◌, ◌++◌, arith, leb, length,
  take, keep,
}
use weedout.Base.Text.{Text, is_digit, is_upper, is_lower, upper_char, upper}
use weedout.CliAuth.{is_alnum, drop, grouped, generate_user_code, normalise_user_code}

-- A capital letter or a digit
abbrev pub is_stored_char : ℕ → Bool
is_stored_char c = is_digit c || is_upper c

-- The letters and digits of a code, and what a person may type for them: other characters between them, and
-- a letter in lower case
pub data Spells : Text → Text → Type 0 where
  spelt_end : Spells [] []
  skipped :
      (c : ℕ) (body typed : Text) → is_alnum c ≡ false → Spells body typed → Spells body (c ∷ typed)
  as_it_is :
      (c : ℕ) (body typed : Text)
      → is_stored_char c ≡ true
      → Spells body typed
      → Spells (c ∷ body) (c ∷ typed)
  in_lower_case :
      (c : ℕ) (body typed : Text)
      → is_upper c ≡ true
      → Spells body typed
      → Spells (c ∷ body) ((c + 32) ∷ typed)

spelt : (body typed : Text) → Spells body typed → keep is_alnum (upper typed) ≡ body
unfolding is_digit is_upper is_lower upper upper_char
spelt _ _ spelt_end = refl
spelt _ _ (skipped c body typed e s) = ground (arith, spelt body typed s, e)
spelt _ _ (as_it_is c body typed e s) = ground (arith, spelt body typed s, e)
spelt _ _ (in_lower_case c body typed e s) = ground (arith, spelt body typed s, e)

take_all : (n : ℕ) (s : Text) → leb (length s) n ≡ true → take n s ≡ s
take_all zero [] h = refl
take_all zero (c ∷ s) h = ground arith
take_all (suc n) [] h = refl
take_all (suc n) (c ∷ s) h = ground (arith, take_all n s)

length-drop : (n : ℕ) (s : Text) → length (drop n s) ≡ length s - n
length-drop zero s = omega arith
length-drop (suc n) [] = omega arith
length-drop (suc n) (c ∷ s) = ground (arith, length-drop n s)

grouped_lem : (body : Text) → length body ≡ 8 → grouped body ≡ generate_user_code body
unfolding generate_user_code
grouped_lem body h =
    ap (λ t. take 4 body ++ 45 ∷ t)
      (take_all 4 (drop 4 body) (ground (arith, length-drop 4 body, h)))

-- A person may type a code in either case and with any other characters of ASCII between its letters and
-- digits, or with none: where these are eight, it is turned into the code that is generated from them, with
-- its hyphen.
pub normalise_user_code-generate_user_code :
    (body typed : Text)
    → Spells body typed
    → length body ≡ 8
    → normalise_user_code typed ≡ generate_user_code body
unfolding normalise_user_code
normalise_user_code-generate_user_code body typed s h =
    ground (arith, spelt body typed s, grouped_lem body h, h)
