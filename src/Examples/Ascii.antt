-- ===== src/Examples/Ascii.antt =====
-- The digits and word characters of ASCII and of the Arabic block, no third-party expressions, and
-- messages of tests/sms_corpus, for the tests.
use alo_bot_dashboard.Prelude.{
  ℕ, ◌-◌, ◌+◌, ◌<◌, ◌≡◌, refl, Bool, true, false, ◌&&◌, ◌||◌, Option, none, some, ◌++◌, arith, leb,
  ◌==◌, if◌then◌else◌, is_some,
}
use alo_bot_dashboard.Unicode.{Text, codes, Unicode}
use alo_bot_dashboard.Sms.Words.{persian}
use alo_bot_dashboard.Sms.Patterns.{RegexModule, Searched}

abbrev pub ascii_decimal : ℕ → Option ℕ
ascii_decimal c = if leb 48 c && leb c 57 then some (c - 48) else none

abbrev pub ascii_is_digit : ℕ → Bool
ascii_is_digit c = leb 48 c && leb c 57

pub ascii_decimal_ascii : (d : ℕ) → d < 10 → ascii_decimal (48 + d) ≡ some d
ascii_decimal_ascii d h = ground (arith, h)

pub ascii_decimal_below : (c d : ℕ) → ascii_decimal c ≡ some d → d < 10
ascii_decimal_below c d e = ground (arith, e)

pub ascii_decimal-is_digit : (c : ℕ) → is_some (ascii_decimal c) ≡ true → ascii_is_digit c ≡ true
ascii_decimal-is_digit c e = ground (arith, e)

abbrev pub ascii : Unicode
ascii = record {
  decimal = ascii_decimal;
  is_digit = ascii_is_digit;
  is_word = λ c.
      (leb 48 c && leb c 57)
      || (leb 65 c && leb c 90)
      || (leb 97 c && leb c 122)
      || c == 95
      || leb 1568 c;
  decimal_ascii = ascii_decimal_ascii;
  decimal_below = ascii_decimal_below;
  decimal-is_digit = ascii_decimal-is_digit;
  is_digit_ascii = λ c h. refl;
}

abbrev pub no_regex : RegexModule
no_regex = record { compiles = λ e. false; search = λ e t. Searched.failed }

unfoldable pub deposit : Text
unfolding persian
deposit =
    persian 0x482731CC32
    ++ (codes " "
        ++ (persian 0x2847
            ++ (codes " "
                ++ (persian 0x2D332728
                    ++ (codes " 47045299\n"
                        ++ (persian 0x4528443A
                            ++ (codes ": 1,250,000 "
                                ++ (persian 0x31CC2744
                                    ++ (codes "\n"
                                        ++ (persian 0x4527462F47
                                            ++ (codes ": 8,354,098\n"
                                                ++ (persian 0x3445273147
                                                    ++ (codes " "
                                                        ++ (persian 0x7ECCAFCC31CC
                                                            ++ (codes
                                                            ": 123456\n1405/06/28-14:02")))))))))))))))

unfoldable pub purchase : Text
unfolding persian
purchase =
    persian 0x28312F27342A
    ++ (codes " "
        ++ (persian 0x2732
            ++ (codes " "
                ++ (persian 0xA927312A
                    ++ (codes " 6104****1234\n"
                        ++ (persian 0x4528443A
                            ++ (codes ": 300,000 "
                                ++ (persian 0x31CC2744
                                    ++ (codes "\n"
                                        ++ (persian 0x4527462F47
                                            ++ (codes ": 11,700,000 "
                                                ++ (persian 0x31CC2744
                                                    ++ (codes "\n"
                                                        ++ (persian 0x2E31CC2F
                                                            ++ (codes " "
                                                            ++ (persian
                                                            0x27CC462A31462ACC))))))))))))))))

unfoldable pub in_toman : Text
unfolding persian
in_toman =
    persian 0x2D332728
    ++ (codes " 0111223344\n"
        ++ (persian 0x482731CC32
            ++ (codes " 200,000 "
                ++ (persian 0x2A48452746
                    ++ (codes "\n"
                        ++ (persian 0x4527462F47
                            ++ (codes " 300,000 " ++ (persian 0x2A48452746))))))))

unfoldable pub password : Text
unfolding persian
password =
    persian 0x314532
    ++ (codes " "
        ++ (persian 0x7E48CC27
            ++ (codes ": 482913\n"
                ++ (persian 0x4528443A ++ (codes ": 1,250,000 " ++ (persian 0x31CC2744))))))
