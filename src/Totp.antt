-- ===== src/Totp.antt =====
-- The one-time codes of core/security.py. `mac` gives the HMAC-SHA1 digest of a counter, as bytes.
use Prim.Native.Char.{code}
use alo_bot_dashboard.Prelude.{
  ℕ, zero, suc, ◌+◌, ◌-◌, ◌*◌, ◌/◌, ◌%◌, ◌^◌, Bool, true, false, not, ◌&&◌, String, Option, none,
  some, List, [], ◌∷◌, ◌==◌, if◌then◌else◌, ltb, leb, str_eq, str_eq_iff, strip, print, str_append,
  ◌≡◌, ◌≤◌, subst, All, arith, Bool-cases, inl, inr,
}
use alo_bot_dashboard.Model.{second}

abbrev pub totp_step_seconds : ℕ
totp_step_seconds = 30

-- `mac[-1]`, of a digest that is not empty
last_byte : List ℕ → ℕ
last_byte [] = 0
last_byte (b ∷ []) = b
last_byte (b ∷ c ∷ bs) = last_byte (c ∷ bs)

-- `mac[offset:]`
drop : ℕ → List ℕ → List ℕ
drop zero bs = bs
drop (suc n) [] = []
drop (suc n) (b ∷ bs) = drop n bs

-- `struct.unpack(">I", ...)` of the first four bytes
big_endian : List ℕ → ℕ
big_endian (a ∷ b ∷ c ∷ d ∷ bs) = ((a * 256 + b) * 256 + c) * 256 + d
big_endian _ = 0

-- `str(n).zfill(6)` of a number below a million
zfill_six : ℕ → String
unfolding print
zfill_six n =
    let text = print n in
    if ltb n 10
    then str_append "00000" text
    else if ltb n 100
    then str_append "0000" text
    else if ltb n 1000
    then str_append "000" text
    else if ltb n 10000
    then str_append "00" text
    else if ltb n 100000
    then str_append "0" text
    else text

-- `totp_code` with six digits, by its counter `at // step`; `& 0x0F` and `& 0x7FFFFFFF` keep the
-- low 4 and 31 bits
unfoldable pub totp_code : (ℕ → List ℕ) → ℕ → String
unfolding last_byte drop big_endian zfill_six
totp_code mac counter =
    let digest = mac counter in
    zfill_six (big_endian (drop (last_byte digest % 16) digest) % 2 ^ 31 % 10 ^ 6)

-- `code.replace(" ", "")`
unfoldable pub no_spaces : String → String
no_spaces String.[] = String.[]
no_spaces (String.◌∷◌ c s) = if code c == 32 then no_spaces s else String.◌∷◌ c (no_spaces s)

is_ascii : String → Bool
is_ascii String.[] = true
is_ascii (String.◌∷◌ c s) = ltb (code c) 128 && is_ascii s

-- a step, no step, or the TypeError of `compare_digest` on a text that is not ASCII
pub data TotpCheck : Type 0 where
  raised refused : TotpCheck
  matched : ℕ → TotpCheck

-- `step < 0` is left out of the steps that are tried
unfoldable pub steps_near : ℕ → List ℕ
steps_near zero = 0 ∷ 1 ∷ []
steps_near (suc n) = n ∷ (n + 1) ∷ (n + 2) ∷ []

unfoldable pub is_spent : Option ℕ → ℕ → Bool
is_spent none step = false
is_spent (some last) step = leb step last

-- the loop over the steps, on a code that is stripped
unfoldable pub try_steps : (ℕ → List ℕ) → String → Option ℕ → List ℕ → TotpCheck
unfolding is_spent is_ascii
try_steps mac text last_step [] = TotpCheck.refused
try_steps mac text last_step (step ∷ steps) =
    let rest = try_steps mac text last_step steps in
    if is_spent last_step step
    then rest
    else if not (is_ascii text)
    then TotpCheck.raised
    else if str_eq (totp_code mac step) text
    then TotpCheck.matched step
    else rest

unfoldable pub totp_verify : (ℕ → List ℕ) → String → ℕ → Option ℕ → TotpCheck
unfolding no_spaces strip steps_near
totp_verify mac text at last_step =
    try_steps mac (no_spaces (strip text)) last_step (steps_near (at / totp_step_seconds))

-- `int(now.timestamp())`, from 1970 on
unfoldable pub unix_time : ℕ → ℕ
unix_time now = (now - 62135596800 * second) / second

-- a step that matched was tried and not spent, and its code is the text
try_steps-matched :
    (P : ℕ → Type 0) (mac : ℕ → List ℕ) (text : String) (last_step : Option ℕ) (steps : List ℕ)
    (step : ℕ)
    → All P steps
    → try_steps mac text last_step steps ≡ TotpCheck.matched step
    → P step × (is_spent last_step step ≡ false) × (str_eq (totp_code mac step) text ≡ true)
unfolding try_steps
try_steps-matched P mac text last_step [] step all h = absurd (cc)
try_steps-matched P mac text last_step (s ∷ steps) step all h =
    elim (Bool-cases (is_spent last_step s)) [
      | inl spent ↦ try_steps-matched P mac text last_step steps step all.1 (rw spent at h)
      | inr fresh ↦ elim (Bool-cases (is_ascii text)) [
        | inr odd ↦ absurd (cc (rw (fresh, odd) at h))
        | inl plain ↦ elim (Bool-cases (str_eq (totp_code mac s) text)) [
          | inr other ↦
              try_steps-matched P mac text last_step steps step all.1
                (rw (fresh, plain, other) at h)
          | inl same ↦
              let e : s ≡ step = cc (rw (fresh, plain, same) at h) in
              subst
                (λ n. P n × (is_spent last_step n ≡ false) × (str_eq (totp_code mac n) text ≡ true))
                e (all.0, fresh, same)
        ]
      ]
    ]

-- at most one step from the present one
abbrev pub IsNear : ℕ → ℕ → Type 0
IsNear present step = (present ≤ step + 1) × (step ≤ present + 1)

steps_near-IsNear : (present : ℕ) → All (IsNear present) (steps_near present)
unfolding steps_near
steps_near-IsNear zero = ((omega arith, omega arith), ((omega arith, omega arith), tt))
steps_near-IsNear (suc n) =
    ((omega arith, omega arith), ((omega arith, omega arith), ((omega arith, omega arith), tt)))

-- what an accepted code is: the code of a step near the moment, after the last one that was used
pub record IsCodeOf (mac : ℕ → List ℕ) (text : String) (at : ℕ) (last_step : Option ℕ) (step : ℕ)
    : Type 0 where
  pub near : IsNear (at / totp_step_seconds) step
  pub fresh : is_spent last_step step ≡ false
  pub right : totp_code mac step ≡ no_spaces (strip text)

-- A code that is accepted is the code of a step near the moment, after the last one that was used.
pub totp_verify-IsCodeOf :
    (mac : ℕ → List ℕ) (text : String) (at : ℕ) (last_step : Option ℕ) (step : ℕ)
    → totp_verify mac text at last_step ≡ TotpCheck.matched step
    → IsCodeOf mac text at last_step step
unfolding totp_verify
totp_verify-IsCodeOf mac text at last_step step h =
    let (near, fresh, same) =
      try_steps-matched (IsNear (at / totp_step_seconds)) mac (no_spaces (strip text)) last_step
        (steps_near (at / totp_step_seconds)) step (steps_near-IsNear (at / totp_step_seconds)) h in
    record {
      near = near;
      fresh = fresh;
      right = (str_eq_iff (totp_code mac step) (no_spaces (strip text))).0 same;
    }
