-- ===== src/Examples/Reading.antt =====
-- app/sms on messages of tests/sms_corpus, with the digits and word characters of ASCII and of the
-- Arabic block.
use alo_bot_dashboard.Prelude.{
  ◌⊎◌, ℕ, ◌≡◌, ◌≤◌, refl, inr, true, false, Option, none, some, [], ◌∷◌, length, arith, Result,
  done, refused, ◌>>=◌, Ensures, find_where,
}
use alo_bot_dashboard.Model.{Direction}
use alo_bot_dashboard.Unicode.{Text, codes}
use alo_bot_dashboard.FaNumber.{fa_number}
use alo_bot_dashboard.FaNumber.Read.{parse_amount-fa_number}
use alo_bot_dashboard.Sms.{Classification, ParseResult, ValueError, parse_result}
use alo_bot_dashboard.Sms.Normalize.{parse_amount, int_of}
use alo_bot_dashboard.Regex.{matches, find, sub, group_of}
use alo_bot_dashboard.Sms.Expressions.{
  otp_re, promo_re, date_time_re, amount_after_label_re, amount_after_direction_re, credit_re,
  debit_re, balance_re, account_re, reference_re,
}
use alo_bot_dashboard.Sms.Patterns.{
  AmountUnit, DbPattern, RegexModule, Searched, apply_patterns, has_amount, is_noise,
}
use alo_bot_dashboard.Sms.Parsers.{account_from}
use alo_bot_dashboard.Sms.Parse.{parse}
use alo_bot_dashboard.Sms.Additive.{IsTried, IsNamedBy, apply_patterns_additive}
use alo_bot_dashboard.Examples.Ascii.{ascii, no_regex, deposit, purchase, in_toman, password}

-- what the corpus expects of a message
record Told : Type 0 where
  classification : Classification
  direction : Direction
  amount_irr : Option ℕ
  balance_irr : Option ℕ
  account_hint : Option Text
  reference : Option Text

told : Result ValueError ParseResult → Option Told
told (refused e) = none
told (done r) = some record {
  classification = r.classification;
  direction = r.direction;
  amount_irr = r.amount_irr;
  balance_irr = r.balance_irr;
  account_hint = r.account_hint;
  reference = r.reference;
}

deposit-told :
    told (parse ascii no_regex [] deposit)
    ≡ some record {
      classification = Classification.bank_transaction;
      direction = Direction.credit;
      amount_irr = some 1250000;
      balance_irr = some 8354098;
      account_hint = some (codes "5299");
      reference = some (codes "123456");
    }
unfolding parse deposit told ◌>>=◌ matches find sub group_of find_where parse_amount int_of
    apply_patterns otp_re promo_re date_time_re amount_after_label_re amount_after_direction_re
    credit_re debit_re balance_re account_re reference_re account_from
deposit-told = refl

purchase-told :
    told (parse ascii no_regex [] purchase)
    ≡ some record {
      classification = Classification.bank_transaction;
      direction = Direction.debit;
      amount_irr = some 300000;
      balance_irr = some 11700000;
      account_hint = some (codes "1234");
      reference = none;
    }
unfolding parse purchase told ◌>>=◌ matches find sub group_of find_where parse_amount int_of
    apply_patterns otp_re promo_re date_time_re amount_after_label_re amount_after_direction_re
    credit_re debit_re balance_re account_re reference_re account_from
purchase-told = refl

in_toman-told :
    told (parse ascii no_regex [] in_toman)
    ≡ some record {
      classification = Classification.bank_transaction;
      direction = Direction.credit;
      amount_irr = some 2000000;
      balance_irr = some 3000000;
      account_hint = some (codes "3344");
      reference = none;
    }
unfolding parse in_toman told ◌>>=◌ matches find sub group_of find_where parse_amount int_of
    apply_patterns otp_re promo_re date_time_re amount_after_label_re amount_after_direction_re
    credit_re debit_re balance_re account_re reference_re account_from
in_toman-told = refl

password-told :
    told (parse ascii no_regex [] password)
    ≡ some record {
      classification = Classification.otp;
      direction = Direction.unknown;
      amount_irr = none;
      balance_irr = none;
      account_hint = none;
      reference = none;
    }
unfolding parse password told ◌>>=◌ matches otp_re apply_patterns
password-told = refl

-- a module of expressions of which each finds the whole text
abbrev whole_regex : RegexModule
whole_regex = record { compiles = λ e. true; search = λ e t. Searched.hit false none t }

abbrev melli : DbPattern
melli = record {
  id = "melli";
  bank_name = "Melli";
  enabled = true;
  priority = 100;
  detect_re = ".+";
  amount_re = ".+";
  amount_unit = AmountUnit.irr;
  direction = Direction.credit;
  balance_re = none;
  account_re = none;
  reference_re = none;
}

abbrev in_full : ParseResult
in_full = record (parse_result Classification.bank_transaction "generic-fa" "0.1-provisional" 90) {
  amount_irr = some 300000;
}

in_full-has_amount : has_amount in_full ≡ true
unfolding has_amount
in_full-has_amount = refl

apply_patterns_additive_example :
    Ensures
      (λ r'.
        (r' ≡ in_full)
        ⊎ ((is_noise in_full.classification ≡ false) × IsNamedBy (IsTried (melli ∷ [])) in_full r'))
      (apply_patterns ascii whole_regex (codes "500") in_full (melli ∷ []))
apply_patterns_additive_example =
    apply_patterns_additive ascii whole_regex (codes "500") in_full (melli ∷ [])
      (inr in_full-has_amount)

printed_short : length (codes (fa_number 8354098)) ≤ 4300
unfolding fa_number
printed_short = omega arith

parse_amount-fa_number_example :
    parse_amount ascii (codes (fa_number 8354098)) ≡ done (some 8354098)
parse_amount-fa_number_example = parse_amount-fa_number ascii 8354098 printed_short
