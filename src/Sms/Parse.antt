-- ===== src/Sms/Parse.antt =====
-- app/sms/__init__.py: `parse`, the one entry point, and the redaction of one-time passwords.
use alo_bot_dashboard.Prelude.{
  ℕ, zero, suc, true, false, Option, none, some, List, [], ◌∷◌, ◌++◌, leb, if◌then◌else◌, length,
  Result, done, ◌>>=◌,
}
use alo_bot_dashboard.Unicode.{Text, codes, Unicode, is_decimal}
use alo_bot_dashboard.Sms.{ParseResult, ValueError}
use alo_bot_dashboard.Sms.Normalize.{normalize}
use alo_bot_dashboard.Sms.Parsers.{
  parse_otp, parse_promo, parse_generic, parse_balance, parse_unknown,
}
use alo_bot_dashboard.Sms.Patterns.{DbPattern, RegexModule, apply_patterns}

-- the first parser that reads the text
unfoldable pub or_else :
    Result ValueError ParseResult → Option ParseResult → Result ValueError ParseResult
or_else next (some r) = done r
or_else next none = next

-- the loop over `ORDER`, and `parse_unknown` behind it
unfoldable pub parse_built_in : Unicode → Text → Result ValueError ParseResult
unfolding parse_otp parse_promo parse_generic parse_balance parse_unknown or_else
parse_built_in u text =
    or_else
      (or_else
        (parse_generic u text >>= or_else (parse_balance u text >>= or_else (done parse_unknown)))
        (parse_promo u text))
      (parse_otp u text)

unfoldable pub parse : Unicode → RegexModule → List DbPattern → Text → Result ValueError ParseResult
unfolding parse_built_in normalize
parse u m patterns body = do
  r ← parse_built_in u (normalize body)
  apply_patterns u m (normalize body) r patterns

-- how many digits stand at the start, up to a limit
unfoldable pub leading_digits : Unicode → ℕ → Text → ℕ
leading_digits u zero cs = 0
leading_digits u (suc n) [] = 0
leading_digits u (suc n) (c ∷ cs) = if is_decimal u c then suc (leading_digits u n cs) else 0

abbrev pub drop : ℕ → Text → Text
drop zero cs = cs
drop (suc n) [] = []
drop (suc n) (c ∷ cs) = drop n cs

-- `[OTP]`
abbrev pub mark : Text
mark = codes "[OTP]"

-- `_OTP_DIGITS.sub("[OTP]", body)`: from the left, each run of four to eight digits, as long as it
-- can be; the fuel is the length
unfoldable pub redact_from : Unicode → ℕ → Text → Text
redact_from u zero cs = cs
redact_from u (suc f) [] = []
redact_from u (suc f) (c ∷ cs) =
    let n = leading_digits u 8 (c ∷ cs) in
    elim (leb 4 n) [
      | true ↦ mark ++ redact_from u f (drop n (c ∷ cs))
      | false ↦ c ∷ redact_from u f cs
    ]

unfoldable pub redact_otp : Unicode → Text → Text
unfolding redact_from
redact_otp u body = redact_from u (length body) body
