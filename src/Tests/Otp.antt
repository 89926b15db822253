-- ===== src/Tests/Otp.antt =====
-- Tests of one-time passwords (app/core/totp.py), with a digest that is easy to follow: the last byte
-- of the message in every place.
use weedout.Base.{
  ℕ, ◌≡◌, refl, true, false, ◌&&◌, ◌||◌, none, some, List, [], ◌∷◌, arith, leb, replicate, ok, err,
  Returns,
}
use weedout.Base.Text.{Text, text}
use weedout.Otp.{bad_counter, not_ascii, Platform, code_at, verify}
use weedout.Otp.Accounts.{Account, verify_codes}
use weedout.Otp.Accounts.Laws.{IsPaid, verify_codes-IsPaid}
use weedout.Otp.Window.{verify-not_ascii}

abbrev last_byte : List ℕ → ℕ
last_byte [] = 0
last_byte (b ∷ []) = b
last_byte (b ∷ c ∷ bs) = last_byte (c ∷ bs)

-- Arabic-Indic digits are digits to `str.isdigit` too.
abbrev toy_platform : Platform
toy_platform = record {
  b32decode = λ s. some s;
  hmac_sha1 = λ k m. replicate 20 (last_byte m);
  isdigit = λ c. leb 48 c && leb c 57 || leb 1632 c && leb c 1641;
}

code_at_tests :
    (code_at toy_platform (text "AB") (some 1) ≡ ok (text "843009"))
    × (code_at toy_platform (text "AB") (some 0) ≡ ok (text "000000"))
    × (code_at toy_platform (text "AB") none ≡ err bad_counter)
unfolding code_at
code_at_tests = (refl, refl, refl)

-- A code of the step before, typed with a space
verify_test : verify toy_platform (text "AB") (text "843 009") 65 ≡ ok (some 1)
unfolding verify
verify_test = refl

abbrev arabic_digits : Text
arabic_digits = replicate 6 1633

verify-not_ascii_example : verify toy_platform (text "AB") arabic_digits 65 ≡ err not_ascii
unfolding code_at
verify-not_ascii_example =
    verify-not_ascii toy_platform (text "AB") arabic_digits 65 (text "843009") (omega arith) refl
      refl refl

abbrev account : Account
account = record {
  two_factor_enabled = true;
  totp_secret = some (text "AB");
  totp_last_counter = none;
  backup_codes = record { code_hash = text "ABCDE"; is_used = false } ∷ [];
}

abbrev attempts : List (Text × ℕ)
attempts = (text "843009", 65) ∷ (text "843009", 70) ∷ (text "abc-de", 70) ∷ (text "ABCDE", 71) ∷ []

-- The second use of the code and of the recovery code are refused.
verify_codes_test :
    verify_codes toy_platform (λ s. s) account attempts
    ≡ ok (
      2,
      record account {
        totp_last_counter = some 1;
        backup_codes = record { code_hash = text "ABCDE"; is_used = true } ∷ [];
      },
    )
unfolding verify_codes
verify_codes_test = refl

verify_codes-IsPaid_example :
    Returns (λ r. IsPaid account r.0 r.1) (verify_codes toy_platform (λ s. s) account attempts)
verify_codes-IsPaid_example = verify_codes-IsPaid toy_platform (λ s. s) account attempts
