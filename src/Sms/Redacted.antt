-- ===== src/Sms/Redacted.antt =====
-- What `redact_otp` of app/sms/__init__.py leaves of a message.
use alo_bot_dashboard.Prelude.{
  ℕ, zero, suc, ◌≤◌, ◌<◌, ◌≡◌, refl, inl, inr, true, false, [], ◌∷◌, ◌++◌, arith, leb, ◌&&◌, length,
  Bool-cases,
}
use alo_bot_dashboard.Unicode.{Text, Unicode, is_decimal}
use alo_bot_dashboard.Sms.Parse.{leading_digits, drop, mark, redact_from, redact_otp}

module _ (u : Unicode) where
  -- no four digits in a row
  abbrev pub IsRedacted : Text → Type 0
  IsRedacted [] = Unit
  IsRedacted (c ∷ cs) = (leading_digits u 4 (c ∷ cs) < 4) × IsRedacted cs

  not_digit : (c : ℕ) → u.is_digit c ≡ false → is_decimal u c ≡ false
  not_digit c h = elim (Bool-cases (is_decimal u c)) [
    | inl known ↦ cc (u.decimal-is_digit c known)
    | inr other ↦ other
  ]

  leading_le : (n : ℕ) (cs : Text) → leading_digits u n cs ≤ n
  unfolding leading_digits
  leading_le zero cs = omega arith
  leading_le (suc n) [] = omega arith
  leading_le (suc n) (c ∷ cs) = ground (arith, leading_le n cs)

  -- a smaller limit counts the same digits, up to it
  leading_mono : (n : ℕ) (cs : Text) → leading_digits u n cs ≤ leading_digits u (suc n) cs
  unfolding leading_digits
  leading_mono zero cs = omega arith
  leading_mono (suc n) [] = omega arith
  leading_mono (suc n) (c ∷ cs) = ground (arith, leading_mono n cs)

  -- the marks' characters are no digits
  leading-mark : (n : ℕ) (cs : Text) → leading_digits u n (mark ++ cs) ≡ 0
  unfolding leading_digits
  leading-mark zero cs = refl
  leading-mark (suc n) cs = let e = not_digit 91 (u.is_digit_ascii 91 (omega arith)) in rw e refl

  redact-marks :
      (f : ℕ) (c : ℕ) (cs : Text)
      → leb 4 (leading_digits u 8 (c ∷ cs)) ≡ true
      → redact_from u (suc f) (c ∷ cs)
        ≡ mark ++ redact_from u f (drop (leading_digits u 8 (c ∷ cs)) (c ∷ cs))
  unfolding redact_from
  redact-marks f c cs e = rw (e, redact_from) refl

  redact-copies :
      (f : ℕ) (c : ℕ) (cs : Text)
      → leb 4 (leading_digits u 8 (c ∷ cs)) ≡ false
      → redact_from u (suc f) (c ∷ cs) ≡ c ∷ redact_from u f cs
  unfolding redact_from
  redact-copies f c cs e = rw (e, redact_from) refl

  copied-leading :
      (n c : ℕ) (cs ds : Text)
      → ((m : ℕ) → leading_digits u m ds ≤ leading_digits u m cs)
      → leading_digits u n (c ∷ ds) ≤ leading_digits u n (c ∷ cs)
  unfolding leading_digits
  copied-leading zero c cs ds h = omega arith
  copied-leading (suc n) c cs ds h = ground (arith, h n)

  redact-leading :
      (f n : ℕ) (cs : Text) → leading_digits u n (redact_from u f cs) ≤ leading_digits u n cs
  unfolding redact_from
  redact-leading zero n cs = omega arith
  redact-leading (suc f) n [] = omega arith
  redact-leading (suc f) n (c ∷ cs) = elim (Bool-cases (leb 4 (leading_digits u 8 (c ∷ cs)))) [
    | inl run ↦ rw (redact-marks f c cs run) (
        omega
          (arith, leading-mark n (redact_from u f (drop (leading_digits u 8 (c ∷ cs)) (c ∷ cs)))))
    | inr short ↦
        rw (redact-copies f c cs short)
          (copied-leading n c cs (redact_from u f cs) (λ m. redact-leading f m cs))
  ]

  leading-other :
      (c : ℕ) (cs : Text)
      → c < 128
      → (leb 48 c && leb c 57) ≡ false
      → leading_digits u 4 (c ∷ cs) < 4
  unfolding leading_digits
  leading-other c cs small other =
      let e = not_digit c (rw (u.is_digit_ascii c small) other) in rw e (omega arith)

  mark-IsRedacted : (cs : Text) → IsRedacted cs → IsRedacted (mark ++ cs)
  mark-IsRedacted cs h = (
    leading-other 91 _ (omega arith) refl,
    (
      leading-other 79 _ (omega arith) refl,
      (
        leading-other 84 _ (omega arith) refl,
        (leading-other 80 _ (omega arith) refl, (leading-other 93 _ (omega arith) refl, h)),
      ),
    ),
  )

  drop-le : (n : ℕ) (cs : Text) → length (drop n cs) ≤ length cs
  drop-le zero cs = omega arith
  drop-le (suc n) [] = omega arith
  drop-le (suc n) (c ∷ cs) = omega (arith, drop-le n cs)

  drop-lt : (n : ℕ) (c : ℕ) (cs : Text) → 1 ≤ n → length (drop n (c ∷ cs)) ≤ length cs
  drop-lt zero c cs h = absurd (omega arith)
  drop-lt (suc n) c cs h = drop-le n cs

  redact-IsRedacted : (f : ℕ) (cs : Text) → length cs ≤ f → IsRedacted (redact_from u f cs)
  unfolding redact_from
  redact-IsRedacted zero [] h = tt
  redact-IsRedacted zero (c ∷ cs) h = absurd (omega arith)
  redact-IsRedacted (suc f) [] h = tt
  redact-IsRedacted (suc f) (c ∷ cs) h = elim (Bool-cases (leb 4 (leading_digits u 8 (c ∷ cs)))) [
    | inl run ↦ rw (redact-marks f c cs run) (
        mark-IsRedacted _ (
          redact-IsRedacted f (drop (leading_digits u 8 (c ∷ cs)) (c ∷ cs))
            (ground (arith, run, drop-lt (leading_digits u 8 (c ∷ cs)) c cs))))
    | inr short ↦ rw (redact-copies f c cs short) (
      ground (
        arith,
        short,
        copied-leading 4 c cs (redact_from u f cs) (λ m. redact-leading f m cs),
        leading_mono 4 (c ∷ cs),
        leading_mono 5 (c ∷ cs),
        leading_mono 6 (c ∷ cs),
        leading_mono 7 (c ∷ cs),
      ),
      redact-IsRedacted f cs (omega (arith, h)),
    )
  ]

  pub redact_otp-IsRedacted : (body : Text) → IsRedacted (redact_otp u body)
  unfolding redact_otp
  redact_otp-IsRedacted body = redact-IsRedacted (length body) body (omega arith)
