-- ===== src/Sms/Expressions.antt =====
-- The regular expressions of app/sms/parsers.py.
use alo_bot_dashboard.Prelude.{ℕ, Bool, ◌||◌, none, [], ◌∷◌, ◌++◌, ◌==◌, is_space}
use alo_bot_dashboard.Unicode.{Unicode, is_decimal}
use alo_bot_dashboard.Regex.{Regex}
use alo_bot_dashboard.Sms.Words.{
  char, in_order, any_of, persian, literal, word, word_ci, optional, spaces, digit, times, sign,
  colon, grouped, number, unit, transfer,
}

-- the words: rmz, pvya, ykbar, yk, bar, dvm, 'bvr, ayntrnty, kd, tayyd, f'al, sazy, vrvd,
-- amnyty
unfoldable pub otp_re : Regex
unfolding in_order spaces any_of word word_ci
otp_re = any_of (
    in_order (
      word 0x314532
      ∷ spaces
      ∷ any_of (
          word 0x7E48CC27
          ∷ word 0xCCA9282731
          ∷ in_order (word 0xCCA9 ∷ spaces ∷ word 0x282731 ∷ [])
          ∷ word 0x2F4845
          ∷ word 0x39284831
          ∷ word 0x27CC462A31462ACC
          ∷ [])
      ∷ [])
    ∷ in_order (
        word 0xA92F
        ∷ spaces
        ∷ any_of (
            word 0x2A27CCCC2F
            ∷ word 0x2A23CCCC2F
            ∷ in_order (word 0x41392744 ∷ spaces ∷ word 0x332732CC ∷ [])
            ∷ word 0x4831482F
            ∷ word 0x274546CC2ACC
            ∷ [])
        ∷ [])
    ∷ in_order (Regex.boundary ∷ word_ci "otp" ∷ Regex.boundary ∷ [])
    ∷ in_order (word_ci "verification" ∷ spaces ∷ word_ci "code" ∷ [])
    ∷ in_order (word_ci "one" ∷ Regex.one_of (λ c. c == 45 || c == 32) ∷ word_ci "time" ∷ [])
    ∷ [])

-- the words: jshnvarh, qr'h, kshy, bashgah, mshtryan, lghv, lghv11, tblygh, pyshnhad, vyzhh,
-- kd, tkhfyf
unfoldable pub promo_re : Regex
unfolding in_order spaces any_of word literal persian
promo_re = any_of (
    word 0x2C344648273147
    ∷ in_order (word 0x42313947 ∷ spaces ∷ word 0xA934CC ∷ [])
    ∷ in_order (word 0x282734AF2747 ∷ spaces ∷ word 0x45342A31CC2746 ∷ [])
    ∷ in_order (word 0x443A48 ∷ spaces ∷ literal (1777 ∷ 1777 ∷ []) ∷ [])
    ∷ in_order (word 0x443A48 ∷ spaces ∷ literal (49 ∷ 49 ∷ []) ∷ [])
    ∷ literal (persian 0x443A48 ++ 49 ∷ 49 ∷ [])
    ∷ word 0x2A2844CC3A
    ∷ in_order (word 0x7ECC344647272F ∷ spaces ∷ word 0x48CC9847 ∷ [])
    ∷ in_order (word 0xA92F ∷ spaces ∷ word 0x2A2E41CC41 ∷ [])
    ∷ [])

-- the words: varyz, dryaft, afzaysh, mvjvdy, bh
unfoldable pub credit_re : Regex
unfolding in_order spaces any_of word word_ci transfer
credit_re = any_of (
    word 0x482731CC32
    ∷ word 0x2F31CC27412A
    ∷ in_order (word 0x27413227CC34 ∷ spaces ∷ word 0x45482C482FCC ∷ [])
    ∷ in_order (transfer ∷ spaces ∷ word 0x2847 ∷ [])
    ∷ word_ci "credit"
    ∷ word_ci "deposit"
    ∷ [])

-- the words: brdasht, khryd, prdakht, karmzd, ksr, az
unfoldable pub debit_re : Regex
unfolding in_order spaces any_of word word_ci transfer
debit_re = any_of (
    word 0x28312F27342A
    ∷ word 0x2E31CC2F
    ∷ word 0x7E312F272E2A
    ∷ word 0xA9273145322F
    ∷ word 0xA93331
    ∷ in_order (transfer ∷ spaces ∷ word 0x2732 ∷ [])
    ∷ word_ci "debit"
    ∷ word_ci "withdraw"
    ∷ word_ci "purchase"
    ∷ [])

-- `\d{1,2}:\d{2}(?::\d{2})?`
clock : Unicode → Regex
unfolding in_order times digit char optional
clock u = in_order (
    times 1 2 (digit u)
    ∷ char 58
    ∷ times 2 2 (digit u)
    ∷ optional (in_order (char 58 ∷ times 2 2 (digit u) ∷ []))
    ∷ [])

unfoldable pub date_time_re : Unicode → Regex
unfolding in_order times digit char optional any_of clock
date_time_re u = any_of (
    in_order (
      times 2 4 (digit u)
      ∷ char 47
      ∷ times 1 2 (digit u)
      ∷ char 47
      ∷ times 1 2 (digit u)
      ∷ optional (
          in_order
            (Regex.repeated 1 none (Regex.one_of (λ c. c == 45 || is_space c)) ∷ clock u ∷ []))
      ∷ [])
    ∷ in_order (Regex.boundary ∷ clock u ∷ Regex.boundary ∷ [])
    ∷ [])

-- the words: mblgh
unfoldable pub amount_after_label_re : Unicode → Regex
unfolding in_order word colon number unit
amount_after_label_re u = in_order (word 0x4528443A ∷ colon ∷ Regex.group 1 (number u) ∷ unit ∷ [])

-- the words: varyz, brdasht, khryd, prdakht, dryaft, karmzd, bh, az, hsab, kart
unfoldable pub amount_after_direction_re : Unicode → Regex
unfolding in_order any_of word transfer optional spaces colon number unit
amount_after_direction_re u = in_order (
    any_of (
      word 0x482731CC32
      ∷ word 0x28312F27342A
      ∷ word 0x2E31CC2F
      ∷ word 0x7E312F272E2A
      ∷ word 0x2F31CC27412A
      ∷ word 0xA9273145322F
      ∷ in_order (
          transfer
          ∷ optional (in_order (spaces ∷ any_of (word 0x2847 ∷ word 0x2732 ∷ []) ∷ []))
          ∷ optional (
              in_order (
                spaces
                ∷ any_of (word 0x2D332728 ∷ word 0xA927312A ∷ [])
                ∷ spaces
                ∷ Regex.repeated 1 none (Regex.one_of (λ c. is_decimal u c || c == 42))
                ∷ []))
          ∷ [])
      ∷ [])
    ∷ colon
    ∷ Regex.group 1 (number u)
    ∷ unit
    ∷ [])

-- `[\d/:]`
in_date : Unicode → ℕ → Bool
in_date u c = is_decimal u c || c == 47 || c == 58

unfoldable pub signed_amount_re : Unicode → Regex
unfolding in_order any_of sign grouped digit in_date unit
signed_amount_re u = in_order (
    Regex.not_after (in_date u)
    ∷ Regex.group 1 (
        any_of (
          in_order (sign ∷ grouped u ∷ [])
          ∷ in_order (sign ∷ Regex.repeated 4 none (digit u) ∷ [])
          ∷ []))
    ∷ Regex.not_before (in_date u)
    ∷ unit
    ∷ [])

-- the words: mandh, mvjvdy, hsab, kart, f'ly, shma
unfoldable pub balance_re : Unicode → Regex
unfolding in_order any_of word spaces colon number unit
balance_re u = in_order (
    any_of (word 0x4527462F47 ∷ word 0x45482C482FCC ∷ [])
    ∷ Regex.repeated 0 none (
        in_order (
          spaces
          ∷ any_of (word 0x2D332728 ∷ word 0xA927312A ∷ word 0x413944CC ∷ word 0x344527 ∷ [])
          ∷ []))
    ∷ colon
    ∷ Regex.group 1 (number u)
    ∷ unit
    ∷ [])

-- the words: hsab, kart, sprdh, shmarh
unfoldable pub account_re : Unicode → Regex
unfolding in_order any_of word spaces optional colon times
account_re u = in_order (
    any_of (word 0x2D332728 ∷ word 0xA927312A ∷ word 0x337E312F47 ∷ [])
    ∷ spaces
    ∷ optional (in_order (word 0x3445273147 ∷ spaces ∷ []))
    ∷ optional (Regex.one_of (λ c. c == 58 || c == 65306))
    ∷ spaces
    ∷ Regex.group 1 (
        times 4 26 (
          Regex.one_of
            (λ c. is_decimal u c || c == 42 || c == 120 || c == 88 || c == 215 || c == 45)))
    ∷ [])

-- the words: pygyry, arja', shnash, traknsh, varyz, prdakht, rsyd
unfoldable pub reference_re : Unicode → Regex
unfolding in_order any_of word spaces colon times digit
reference_re u = in_order (
    any_of (
      word 0x7ECCAFCC31CC
      ∷ word 0x27312C2739
      ∷ in_order (
          word 0x3446273347
          ∷ spaces
          ∷ any_of (word 0x2A3127A94634 ∷ word 0x482731CC32 ∷ word 0x7E312F272E2A ∷ [])
          ∷ [])
      ∷ word 0x3133CC2F
      ∷ [])
    ∷ colon
    ∷ Regex.group 1 (times 4 20 (digit u))
    ∷ [])
