-- ===== src/Banks/Tried.antt =====
-- What the expressions of an operator's pattern have passed.
use alo_bot_dashboard.Prelude.{
  ℕ, ◌≡◌, refl, inl, inr, Bool, false, String, Option, none, some, List, if◌then◌else◌, Bool-cases,
  Result, done, refused, Ensures, Ensures-done, Ensures-bind,
}
use alo_bot_dashboard.Model.{Direction}
use alo_bot_dashboard.Audit.{Actor}
use alo_bot_dashboard.Unicode.{Text, Unicode}
use alo_bot_dashboard.Integers.{ℤ}
use alo_bot_dashboard.Sms.Patterns.{AmountUnit, PatternRefused, RegexModule, check_pattern}
use alo_bot_dashboard.Banks.{BankSmsPattern, BankError}
use alo_bot_dashboard.Banks.Forms.{expression_ok, optional_ok}
use alo_bot_dashboard.Banks.Forms.{PatternForm, validate_pattern_fields, clean, has_id, overwrite}

refused-none :
    (o : Option PatternRefused) (key : String)
    → Ensures {E = BankError} {A = Unit {0}}
        (λ _. o ≡ none)
        (elim o as (λ _. Result BankError (Unit {0})) [
          | none ↦ done tt
          | some e ↦ refused (BankError.bad_expression key e)
        ])
refused-none none key = Ensures-done _ refl
refused-none (some e) key = record { at = λ a h. absurd (cc) }

module _ (m : RegexModule) (slow : String → Text → Bool) (bait : List Text) where
  abbrev pub Accepted : String → Type 0
  Accepted e = check_pattern m slow bait e ≡ none

  abbrev pub AcceptedIfGiven : Option String → Type 0
  AcceptedIfGiven none = Unit
  AcceptedIfGiven (some e) = Accepted e

  pub record IsTried (p : BankSmsPattern) : Type 0 where
    pub detect : Accepted p.detect_re
    pub amount : Accepted p.amount_re
    pub balance : AcceptedIfGiven p.balance_re
    pub account : AcceptedIfGiven p.account_re
    pub reference : AcceptedIfGiven p.reference_re

  pub overwrite-IsTried :
      (actor : Actor) (row : BankSmsPattern)
      → IsTried row
      → (p : BankSmsPattern) → IsTried p
      → IsTried (if has_id row.id p then overwrite actor row p else p)
  unfolding overwrite
  overwrite-IsTried actor row tried p h = elim (Bool-cases (has_id row.id p)) [
    | inl hit ↦ rw hit record {
      detect = tried.detect;
      amount = tried.amount;
      balance = tried.balance;
      account = tried.account;
      reference = tried.reference;
    }
    | inr miss ↦ rw miss h
  ]

  pub switched-IsTried :
      (i : String) (b : Bool) (email : String) (p : BankSmsPattern)
      → IsTried p
      → IsTried (if has_id i p then record p { enabled = b; updated_by = some email } else p)
  switched-IsTried i b email p h = elim (Bool-cases (has_id i p)) [
    | inl hit ↦ rw hit record {
      detect = h.detect;
      amount = h.amount;
      balance = h.balance;
      account = h.account;
      reference = h.reference;
    }
    | inr miss ↦ rw miss h
  ]

  module _ (u : Unicode) (upper lower : String → String) where
    expression-Accepted :
        (key e : String) → Ensures (λ _. Accepted e) (expression_ok u upper lower m slow bait key e)
    unfolding expression_ok
    expression-Accepted key e = refused-none (check_pattern m slow bait e) key

    given-Accepted :
        (key : String) (e : Option String)
        → Ensures {E = BankError} {A = Unit {0}}
            (λ _. AcceptedIfGiven e)
            (elim e as (λ _. Result BankError (Unit {0})) [
              | none ↦ done tt
              | some s ↦ expression_ok u upper lower m slow bait key s
            ])
    given-Accepted key none = Ensures-done _ tt
    given-Accepted key (some s) = expression-Accepted key s

    optional-Accepted :
        (key : String) (e : Option String)
        → Ensures (λ _. AcceptedIfGiven (clean e)) (optional_ok u upper lower m slow bait key e)
    unfolding optional_ok
    optional-Accepted key e = given-Accepted key (clean e)

    pub validate-IsTried :
        (f : PatternForm)
        → Ensures
            (λ p. IsTried p × (p.enabled ≡ false))
            (validate_pattern_fields u upper lower m slow bait f)
    unfolding validate_pattern_fields
    validate-IsTried f = Ensures-bind _ _ λ (a : Unit {0}) k. Ensures-bind _ _ λ (b : Unit {0}) k.
        Ensures-bind _ _ λ (c : Unit {0}) detect. Ensures-bind _ _ λ (d : Unit {0}) amount.
          Ensures-bind _ _ λ (e : Unit {0}) balance. Ensures-bind _ _ λ (g : Unit {0}) account.
            Ensures-bind _ _ λ (h : Unit {0}) reference. Ensures-bind _ _ λ (unit : AmountUnit) k.
              Ensures-bind _ _ λ (way : Direction) k. Ensures-bind _ _ λ (number : ℤ) k.
                Ensures-bind _ _ λ (priority : ℕ) k. Ensures-bind _ _ λ (i : Unit {0}) k.
                  Ensures-done _ (
                    record {
                      detect = (expression-Accepted "detect_re" _).at c detect;
                      amount = (expression-Accepted "amount_re" _).at d amount;
                      balance = (optional-Accepted "balance_re" f.balance_re).at e balance;
                      account = (optional-Accepted "account_re" f.account_re).at g account;
                      reference = (optional-Accepted "reference_re" f.reference_re).at h reference;
                    },
                    refl,
                  )
