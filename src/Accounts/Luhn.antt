-- ===== src/Accounts/Luhn.antt =====
-- What the check digit of services/accounts.py catches.
use alo_bot_dashboard.Prelude.{
  ℕ, suc, ◌+◌, ◌%◌, ◌<◌, ◌≡◌, ◌≢◌, refl, ap, Bool, true, false, not, List, [], ◌∷◌, ◌++◌, arith,
  length,
}
use alo_bot_dashboard.Accounts.{weight, luhn_sum, luhn_ok}

weight_bound : (odd : Bool) (d : ℕ) → d < 10 → weight odd d < 10
unfolding weight
weight_bound true d h = ground (arith, h)
weight_bound false d h = h

-- a digit's weight tells the digit
weight_apart : (odd : Bool) (d e : ℕ) → d < 10 → e < 10 → d ≢ e → weight odd d ≢ weight odd e
unfolding weight
weight_apart true d e h h' apart = λ same. apart (ground (arith, same, h, h'))
weight_apart false d e h h' apart = apart

-- changing one digit changes its own term only
sum_changed :
    (before after : List ℕ) (d e : ℕ)
    → (rest : ℕ) × (odd : Bool) × ((luhn_sum (before ++ d ∷ after)).0 ≡ rest + weight odd d)
      × ((luhn_sum (before ++ e ∷ after)).0 ≡ rest + weight odd e)
      × ((luhn_sum (before ++ d ∷ after)).1 ≡ (luhn_sum (before ++ e ∷ after)).1)
unfolding luhn_sum
sum_changed [] after d e = ((luhn_sum after).0, (luhn_sum after).1, refl, refl, refl)
sum_changed (b ∷ before) after d e =
    let (rest, odd, h, h', same) = sum_changed before after d e in
    (
      rest + weight (luhn_sum (before ++ d ∷ after)).1 b,
      odd,
      omega (arith, h),
      rw (← same) (omega (arith, h')),
      ap not same,
    )

weights-mod : (rest a b : ℕ) → a < 10 → b < 10 → a ≢ b → (rest + a) % 10 ≡ 0 → (rest + b) % 10 ≢ 0
weights-mod rest a b h h' apart zero = λ same. apart (omega (arith, zero, same, h, h'))

length-changed :
    (before after : List ℕ) (d e : ℕ) → length (before ++ d ∷ after) ≡ length (before ++ e ∷ after)
length-changed [] after d e = refl
length-changed (b ∷ before) after d e = ap suc (length-changed before after d e)

-- A card number in which one digit is mistyped is refused: where `luhn_ok` accepts a text of digits, it
-- accepts no text that has another digit at one place, wherever that place is.
pub luhn-catches :
    (before after : List ℕ) (d e : ℕ)
    → d < 10
    → e < 10
    → d ≢ e
    → luhn_ok (before ++ d ∷ after) ≡ true
    → luhn_ok (before ++ e ∷ after) ≡ false
unfolding luhn_ok
luhn-catches before after d e h h' apart ok =
    let (rest, odd, one, two, same) = sum_changed before after d e in
    ground (
      arith,
      ok,
      one,
      two,
      length-changed before after d e,
      weights-mod rest (weight odd d) (weight odd e) (weight_bound odd d h) (weight_bound odd e h')
          (weight_apart odd d e h h' apart),
    )
