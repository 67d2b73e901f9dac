-- ===== src/Integers.antt =====
-- Signed integers, and `int` of a text: `pos n` is n, and `negsuc n` is -(n + 1).
use alo_bot_dashboard.Prelude.{
  ℕ, zero, suc, ◌+◌, ◌*◌, Bool, true, false, ◌&&◌, Option, none, some, [], ◌∷◌, ◌==◌, leb,
  if◌then◌else◌,
}
use alo_bot_dashboard.Unicode.{Text, Unicode}

pub data ℤ : Type 0 where
  pos : ℕ → ℤ
  negsuc : ℕ → ℤ

abbrev pub lebℤ : ℤ → ℤ → Bool
lebℤ (pos a) (pos b) = leb a b
lebℤ (pos a) (negsuc b) = false
lebℤ (negsuc a) (pos b) = true
lebℤ (negsuc a) (negsuc b) = leb b a

abbrev pub eqℤ : ℤ → ℤ → Bool
eqℤ (pos a) (pos b) = a == b
eqℤ (negsuc a) (negsuc b) = a == b
eqℤ _ _ = false

negated : ℕ → ℤ
negated zero = pos 0
negated (suc n) = negsuc n

-- decimal digits, with single underscores between them; `after` tells that a digit stands before
digits_value : Unicode → ℕ → Bool → Text → Option ℕ
digits_value u acc after [] = if after then some acc else none
digits_value u acc after (c ∷ cs) = elim (u.decimal c) [
  | some d ↦ digits_value u (acc * 10 + d) true cs
  | none ↦ if c == 95 && after then digits_value u acc false cs else none
]

signed : (ℕ → ℤ) → Option ℕ → Option ℤ
signed f none = none
signed f (some n) = some (f n)

-- `int(text)` of a stripped text that is not too long; `none` is the ValueError
unfoldable pub int_text : Unicode → Text → Option ℤ
unfolding digits_value signed negated
int_text u [] = none
int_text u (c ∷ cs) =
    if c == 45
    then signed negated (digits_value u 0 false cs)
    else if c == 43
    then signed pos (digits_value u 0 false cs)
    else signed pos (digits_value u 0 false (c ∷ cs))
