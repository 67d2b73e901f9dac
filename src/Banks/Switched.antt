-- ===== src/Banks/Switched.antt =====
-- Who switches a pattern on: the form never does.
use alo_bot_dashboard.Prelude.{
  ◌≡◌, refl, inl, inr, Bool, true, false, ◌&&◌, String, List, str_eq, str_eq_iff, any_where,
  any-update_at, find_where, arith, done, ◌>>=◌, Ensures, Ensures-done,
}
use alo_bot_dashboard.Audit.{Actor}
use alo_bot_dashboard.Unicode.{Text, Unicode}
use alo_bot_dashboard.Sms.Patterns.{RegexModule}
use alo_bot_dashboard.Banks.{BankSmsPattern, Vocabulary, log}
use alo_bot_dashboard.Banks.Forms.{
  PatternForm, validate_pattern_fields, has_id, overwrite, save_pattern,
}
use alo_bot_dashboard.Banks.Tried.{validate-IsTried}
use alo_bot_dashboard.Banks.Ready.{found, Ensures-save}

-- whether the pattern is switched on, as `load_patterns` reads it
abbrev pub is_on : String → Vocabulary → Bool
is_on i v = any_where (λ p. str_eq p.id i && p.enabled) v.patterns

same_switch :
    (actor : Actor) (row p : BankSmsPattern) (i : String)
    → has_id row.id p ≡ true
    → (str_eq (overwrite actor row p).id i && (overwrite actor row p).enabled)
      ≡ (str_eq p.id i && p.enabled)
unfolding has_id overwrite
same_switch actor row p i hit =
    let same : p.id ≡ row.id = (str_eq_iff p.id row.id).0 hit in rw same refl

saved_switch :
    (actor : Actor) (row : BankSmsPattern) (v : Vocabulary)
    → row.enabled ≡ false
    → Ensures
        (λ (v' : Vocabulary). (i : String) → is_on i v' ≡ is_on i v)
        (save_pattern actor (done row) v)
unfolding save_pattern ◌>>=◌ log any_where
saved_switch actor row v off = elim (found (find_where (has_id row.id) v.patterns)) [
  | inl new ↦ rw new (Ensures-done _ (λ i. ground (arith, off)))
  | inr (p, known) ↦ rw known (
      Ensures-done _
        (λ i. any-update_at _ _ _ v.patterns (λ p' hit. same_switch actor row p' i hit)))
]

-- Saving a form switches no pattern on and none off, be it new or an edit of one that is there: a pattern is
-- on after the form is saved exactly if it was on before.
pub save_pattern-keeps_switches :
    (m : RegexModule) (slow : String → Text → Bool) (bait : List Text) (u : Unicode)
    (upper lower : String → String) (actor : Actor) (f : PatternForm) (v : Vocabulary)
    → Ensures
        (λ (v' : Vocabulary). (i : String) → is_on i v' ≡ is_on i v)
        (save_pattern actor (validate_pattern_fields u upper lower m slow bait f) v)
save_pattern-keeps_switches m slow bait u upper lower actor f v =
    Ensures-save (validate_pattern_fields u upper lower m slow bait f) actor v (λ row k.
      saved_switch actor row v ((validate-IsTried m slow bait u upper lower f).at row k).1)
