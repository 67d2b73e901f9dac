-- ===== src/Sms/Additive.antt =====
-- The operators' patterns add to what the built-in parsers read.
use alo_bot_dashboard.Prelude.{
  All, All-mono, All-sort_by, All-keep, Option, none, false, ◌≡◌, refl, ◌⊎◌, inl, inr, true, some,
  List, [], ◌∷◌, is_none, Bool-cases, keep, sort_by, Ensures, Ensures-done,
}
use alo_bot_dashboard.Unicode.{Text, Unicode}
use alo_bot_dashboard.Sms.{ParseResult}
use alo_bot_dashboard.Sms.Patterns.{
  DbPattern, RegexModule, search, name_bank, has_amount, try_patterns, is_noise, apply_patterns,
}

-- a result with the bank of a pattern, and the pattern's id in the evidence
abbrev pub with_bank : DbPattern → ParseResult → ParseResult
with_bank p r = record r {
  bank_name = some p.bank_name;
  evidence = record r.evidence { bank_from_pattern = some p.id };
}

abbrev pub IsIn : DbPattern → List DbPattern → Type 0
IsIn p [] = ⊥
IsIn p (q ∷ qs) = (p ≡ q) ⊎ IsIn p qs

-- a result to which a pattern of a kind has added its bank where no bank was read
abbrev pub IsNamedBy : (DbPattern → Type 0) → ParseResult → ParseResult → Type 0
IsNamedBy Q r r' = (r.bank_name ≡ none) × (p : DbPattern) × Q p × (r' ≡ with_bank p r)

is_none-none : {A : Type 0} (o : Option A) → is_none o ≡ true → o ≡ none
is_none-none none h = refl
is_none-none (some a) h = cc

name_bank-cases :
    (Q : DbPattern → Type 0) (p : DbPattern) (r : ParseResult)
    → Q p
    → (name_bank p r ≡ r) ⊎ IsNamedBy Q r (name_bank p r)
unfolding name_bank
name_bank-cases Q p r q = elim (Bool-cases (is_none r.bank_name)) [
  | inl unnamed ↦ inr (is_none-none r.bank_name unnamed, p, q, rw unnamed refl)
  | inr named ↦ inl (rw named refl)
]

try-cases :
    (u : Unicode) (m : RegexModule) (text : Text) (Q : DbPattern → Type 0) (r : ParseResult)
    (ps : List DbPattern)
    → has_amount r ≡ true
    → All Q ps
    → Ensures (λ r'. (r' ≡ r) ⊎ IsNamedBy Q r r') (try_patterns u m text r ps)
unfolding try_patterns
try-cases u m text Q r [] full all = Ensures-done r (inl refl)
try-cases u m text Q r (p ∷ ps) full all =
    elim (Bool-cases (is_none (search m (some p.detect_re) text))) [
      | inl other ↦ rw other (try-cases u m text Q r ps full all.1)
      | inr mine ↦ rw mine (rw full (Ensures-done _ (name_bank-cases Q p r all.0)))
    ]

All-IsIn : (ps : List DbPattern) → All (λ p. IsIn p ps) ps
All-IsIn [] = tt
All-IsIn (p ∷ ps) =
    (inl refl, All-mono (λ q. IsIn q ps) (λ q. IsIn q (p ∷ ps)) ps (λ q k. inr k) (All-IsIn ps))

-- an enabled pattern of a list
abbrev pub IsTried : List DbPattern → DbPattern → Type 0
IsTried ps p = IsIn p ps × (p.enabled ≡ true)

-- The operators' patterns are additive: a one-time password or an advertisement they leave exactly as it
-- is, and a transaction whose amount the built-in parsers read they either leave exactly as it is or,
-- where no bank was read, give the bank of one enabled pattern of the list and that pattern's id as its
-- evidence, and nothing else.
pub apply_patterns_additive :
    (u : Unicode) (m : RegexModule) (text : Text) (r : ParseResult) (ps : List DbPattern)
    → (is_noise r.classification ≡ true) ⊎ (has_amount r ≡ true)
    → Ensures
        (λ r'. (r' ≡ r) ⊎ ((is_noise r.classification ≡ false) × IsNamedBy (IsTried ps) r r'))
        (apply_patterns u m text r ps)
unfolding apply_patterns
apply_patterns_additive u m text r ps (inl noise) = rw noise (Ensures-done r (inl refl))
apply_patterns_additive u m text r ps (inr full) = elim (Bool-cases (is_noise r.classification)) [
  | inl noise ↦ rw noise (Ensures-done r (inl refl))
  | inr plain ↦ rw plain record {
    at = λ r' k.
        elim ((try-cases u m text (IsTried ps) r
            (sort_by (λ p. p.priority) (keep (λ p. p.enabled) ps)) full
            (All-sort_by (IsTried ps) (λ p. p.priority) (keep (λ p. p.enabled) ps)
              (All-keep (λ p. IsIn p ps) (λ p. p.enabled) ps (All-IsIn ps)))).at
          r' k) [ inl same ↦ inl same | inr named ↦ inr (refl, named) ];
  }
]
