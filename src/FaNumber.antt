-- ===== src/FaNumber.antt =====
-- `fa_digits` and `fa_number` of web/format.py for whole numbers: Persian digits in groups of three.
pub mod Printed
pub mod Read
use alo_bot_dashboard.Prelude.{
  ℕ, zero, suc, ◌+◌, ◌/◌, ◌%◌, ◌==◌, ltb, if◌then◌else◌, String, str_append,
}
use alo_bot_dashboard.Messages.{
  fa_zero, fa_one, fa_two, fa_three, fa_four, fa_five, fa_six, fa_seven, fa_eight, fa_nine,
  thousands,
}

fa_digit : ℕ → String
fa_digit d =
    if d == 0
    then fa_zero
    else if d == 1
    then fa_one
    else if d == 2
    then fa_two
    else if d == 3
    then fa_three
    else if d == 4
    then fa_four
    else if d == 5
    then fa_five
    else if d == 6
    then fa_six
    else if d == 7
    then fa_seven
    else if d == 8
    then fa_eight
    else fa_nine

-- three digits, with their zeros
padded : ℕ → String
unfolding fa_digit
padded n = str_append (fa_digit (n / 100)) (str_append (fa_digit (n / 10 % 10)) (fa_digit (n % 10)))

-- the leading group, without zeros in front
leading : ℕ → String
unfolding fa_digit padded
leading n =
    if ltb n 10
    then fa_digit n
    else if ltb n 100
    then str_append (fa_digit (n / 10)) (fa_digit (n % 10))
    else padded n

unfoldable pub grouped : ℕ → ℕ → String
unfolding leading padded
grouped zero n = ""
grouped (suc f) n =
    let rest = grouped f (n / 1000) in
    if ltb n 1000 then leading n else str_append rest (str_append thousands (padded (n % 1000)))

-- `n + 1` rounds are more than `n` has groups
unfoldable pub fa_number : ℕ → String
unfolding grouped
fa_number n = grouped (n + 1) n
