-- ===== src/Otp/Window.antt =====
-- Which codes `verify` of app/core/totp.py accepts, and when.
use weedout.Base.{◌>>=◌}
use mathlib.Core.Option.{none-ne-some, some-injective}
use weedout.Base.{
  ℕ, ◌+◌, ◌-◌, ◌/◌, ◌≤◌, ◌≡◌, refl, sym, ap, ◌∙◌, subst, ◌⊎◌, inl, inr, Bool, true, false, not,
  ◌&&◌, Option, none, some, List, [], ◌∷◌, arith, ltb, ◌==◌, if◌then◌else◌, length, all, In, Result,
  ok, err, is_ok, Returns, Returns-bind, Returns-self, Returns-weaken, Returns-ok,
}
use weedout.Base.Text.{Text, text_eq, text_eq_iff}
use weedout.Otp.{
  OtpError, not_ascii, Platform, code_at, compare_digest, match_counters, window, digits_of, verify,
}

module _ (platform : Platform) (secret : Text) where
  -- The code of the counter is the one submitted.
  abbrev pub IsCodeOf : Text → Option ℕ → Type 0
  IsCodeOf cleaned c = code_at platform secret c ≡ ok cleaned

  compare_digest-equal :
      (a b : Text) → Returns (λ equal. equal ≡ true → a ≡ b) (compare_digest platform a b)
  unfolding compare_digest
  compare_digest-equal a b = go (all (λ c. ltb c 128) a && all (λ c. ltb c 128) b)
    where
      go :
          (ascii : Bool)
          → Returns
              (λ equal. equal ≡ true → a ≡ b)
              (if ascii then ok (text_eq a b) else err not_ascii)
      go true = (text_eq_iff a b).0
      go false = tt

  -- What is matched at the end was so at the start, or is a counter that was tried and has the code.
  abbrev Explained : Text → Option ℕ → List (Option ℕ) → Option ℕ → Type 0
  Explained cleaned matched cs o =
      (c : ℕ) → o ≡ some c → (matched ≡ some c) ⊎ In (some c) cs × IsCodeOf cleaned (some c)

  match_counters-Explained :
      (cleaned : Text) (matched : Option ℕ) (cs : List (Option ℕ))
      → Returns (Explained cleaned matched cs) (match_counters platform secret cleaned matched cs)
  unfolding match_counters
  match_counters-Explained cleaned matched [] = λ c e. inl e
  match_counters-Explained cleaned matched (c ∷ cs) =
      Returns-bind (λ s. code_at platform secret c ≡ ok s) _ (code_at platform secret c) _
        (Returns-self (code_at platform secret c))
        (λ s at.
          Returns-bind (λ equal. equal ≡ true → s ≡ cleaned) _ (compare_digest platform s cleaned) _
            (compare_digest-equal s cleaned)
            (λ equal sound.
              Returns-weaken (Explained cleaned (if equal then c else matched) cs)
                (Explained cleaned matched (c ∷ cs))
                (match_counters platform secret cleaned (if equal then c else matched) cs)
                (match_counters-Explained cleaned (if equal then c else matched) cs)
                (λ o explained d e. found equal (λ q. at ∙ ap ok (sound q)) d (explained d e))))
    where
      found :
          (equal : Bool)
          → (equal ≡ true → IsCodeOf cleaned c)
          → (d : ℕ)
          → ((if equal then c else matched) ≡ some d) ⊎ In (some d) cs × IsCodeOf cleaned (some d)
          → (matched ≡ some d) ⊎ In (some d) (c ∷ cs) × IsCodeOf cleaned (some d)
      found equal k d (inr (m, at)) = inr (inr m, at)
      found true k d (inl q) = inr (inl q, subst (IsCodeOf cleaned) q (k refl))
      found false k d (inl q) = inl q

  window-near : (step c : ℕ) → In (some c) (window platform step) → (step ≤ c + 1) × (c ≤ step + 1)
  window-near step c m = elim m [
    | inl e ↦ first (step == 0) refl e
    | inr m ↦ elim m [
      | inl e ↦ let h = some-injective step c e in (omega arith, omega arith)
      | inr m ↦ elim m [
        | inl e ↦ let h = some-injective (step + 1) c e in (omega arith, omega arith)
        | inr m ↦ elim m [ ]
      ]
    ]
  ]
    where
      first :
          (b : Bool)
          → (step == 0) ≡ b
          → (if b then none else some (step - 1)) ≡ some c
          → (step ≤ c + 1) × (c ≤ step + 1)
      first true h e = elim (none-ne-some c e) [ ]
      first false h e = let h = some-injective (step - 1) c e in (omega arith, omega arith)

  -- A counter that `verify` returns has the submitted digits as its code, and is at most one step
  -- away from the current one.
  pub verify_sound :
      (submitted : Text) (now c : ℕ)
      → verify platform secret submitted now ≡ ok (some c)
      → (code_at platform secret (some c) ≡ ok (digits_of platform submitted))
        × (now / 30 ≤ c + 1)
        × (c ≤ now / 30 + 1)
  unfolding verify
  verify_sound submitted now c h = go (length (digits_of platform submitted) == 6) h
    where
      go :
          (b : Bool)
          → (if not b
              then ok none
              else match_counters platform secret
                  (digits_of platform submitted)
                  none
                  (window platform (now / 30)))
            ≡ ok (some c)
          → (code_at platform secret (some c) ≡ ok (digits_of platform submitted))
            × (now / 30 ≤ c + 1)
            × (c ≤ now / 30 + 1)
      go false e =
          elim (none-ne-some c (sym (Returns-ok (λ o. o ≡ none) (ok none) (some c) refl e))) [ ]
      go true e =
          elim (Returns-ok
            (Explained (digits_of platform submitted) none (window platform (now / 30))) _ (some c)
            (match_counters-Explained (digits_of platform submitted) none
              (window platform (now / 30)))
            e c refl) [
              | inl q ↦ elim (none-ne-some c q) [ ]
              | inr (m, k) ↦ let near = window-near (now / 30) c m in (k, near.0, near.1)
            ]

  compare_digest-not_ascii :
      (a b : Text) → all (λ c. ltb c 128) b ≡ false → compare_digest platform a b ≡ err not_ascii
  unfolding compare_digest
  compare_digest-not_ascii a b h = go (all (λ c. ltb c 128) a) (all (λ c. ltb c 128) b) h
    where
      go :
          (p q : Bool)
          → q ≡ false
          → (if p && q then ok (text_eq a b) else err not_ascii) ≡ err not_ascii
      go true true h = cc
      go true false h = refl
      go false q h = refl

  match_counters-not_ascii :
      (cleaned first : Text) (matched c : Option ℕ) (cs : List (Option ℕ))
      → code_at platform secret c ≡ ok first
      → all (λ c. ltb c 128) cleaned ≡ false
      → match_counters platform secret cleaned matched (c ∷ cs) ≡ err not_ascii
  unfolding match_counters
  match_counters-not_ascii cleaned first matched c cs at odd =
      go (code_at platform secret c) (ap is_ok at)
    where
      compared :
          (r : Result OtpError Bool)
          → r ≡ err not_ascii
          → (r >>= λ equal.
              match_counters platform secret cleaned (if equal then c else matched) cs)
            ≡ err not_ascii
      compared (err e) h = cc
      compared (ok b) h = cc

      go :
          (r : Result OtpError Text)
          → is_ok r ≡ true
          → (r >>= λ s. compare_digest platform s cleaned >>= λ equal.
              match_counters platform secret cleaned (if equal then c else matched) cs)
            ≡ err not_ascii
      go (ok s) h =
          compared (compare_digest platform s cleaned) (compare_digest-not_ascii s cleaned odd)
      go (err e) h = cc

  -- Six digits that are not all ASCII make `verify` raise, once the code that they are compared with
  -- is there, although each of them is a digit to `str.isdigit`.
  pub verify-not_ascii :
      (submitted : Text) (now : ℕ) (first : Text)
      → 30 ≤ now
      → code_at platform secret (some (now / 30 - 1)) ≡ ok first
      → length (digits_of platform submitted) ≡ 6
      → all (λ c. ltb c 128) (digits_of platform submitted) ≡ false
      → verify platform secret submitted now ≡ err not_ascii
  unfolding verify
  verify-not_ascii submitted now first h at six odd =
      go (length (digits_of platform submitted) == 6) (now / 30 == 0) (ground arith) (ground arith)
    where
      go :
          (six zero_step : Bool)
          → six ≡ true
          → zero_step ≡ false
          → (if not six
              then ok none
              else match_counters platform secret (digits_of platform submitted) none (
                  (if zero_step then none else some (now / 30 - 1))
                  ∷ some (now / 30)
                  ∷ some (now / 30 + 1)
                  ∷ []))
            ≡ err not_ascii
      go false z h k = cc
      go true true h k = cc
      go true false h k =
          match_counters-not_ascii (digits_of platform submitted) first none (some (now / 30 - 1))
            (some (now / 30) ∷ some (now / 30 + 1) ∷ []) at odd
