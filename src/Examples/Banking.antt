-- ===== src/Examples/Banking.antt =====
-- services/banks.py: a prefix, and a pattern that is saved, switched on and saved again, with a module of
-- expressions that takes every one.
use alo_bot_dashboard.Prelude.{
  ◌≡◌, refl, Bool, true, false, none, some, String, [], arith, done, refused, ◌>>=◌, Ensures,
  find_where, count_where,
}
use alo_bot_dashboard.Audit.{Actor}
use alo_bot_dashboard.Unicode.{Text}
use alo_bot_dashboard.Sms.Patterns.{RegexModule, Searched, check_pattern}
use alo_bot_dashboard.Banks.{Vocabulary, VocabularyResult, upsert_prefix}
use alo_bot_dashboard.Banks.Forms.{
  PatternForm, validate_pattern_fields, save_pattern, set_pattern_enabled,
}
use alo_bot_dashboard.Banks.Ready.{IsReady, Edit, Edits, Edits-IsReady}
use alo_bot_dashboard.Banks.Switched.{is_on, save_pattern-keeps_switches}
use alo_bot_dashboard.Examples.Ascii.{ascii}

abbrev actor_sara : Actor
actor_sara = record { id = 1; email = "sara@shop.example"; role = "ADMIN" }

abbrev any_regex : RegexModule
any_regex = record { compiles = λ e. true; search = λ e t. Searched.missed }

abbrev never_slow : String → Text → Bool
never_slow e t = false

abbrev same : String → String
same s = s

abbrev form : PatternForm
form = record {
  id = some "melli";
  bank_name = some "Melli";
  detect_re = some "Melli";
  amount_re = some "[0-9]+";
  amount_unit = some "IRR";
  direction = some "CREDIT";
  balance_re = none;
  account_re = none;
  reference_re = none;
  priority = some "100";
  notes = none;
}

abbrev no_vocabulary : Vocabulary
no_vocabulary = record { prefixes = []; patterns = []; audit = [] }

abbrev or_none : VocabularyResult → Vocabulary
or_none (done v) = v
or_none (refused e) = no_vocabulary

abbrev save : Vocabulary → VocabularyResult
save v =
    save_pattern actor_sara (validate_pattern_fields ascii same same any_regex never_slow [] form) v

abbrev with_prefix : Vocabulary
with_prefix = or_none (upsert_prefix actor_sara "603799" "Melli" no_vocabulary)

abbrev with_pattern : Vocabulary
with_pattern = or_none (save with_prefix)

abbrev with_switch : Vocabulary
with_switch = or_none (set_pattern_enabled actor_sara "melli" true with_pattern)

prefixed : upsert_prefix actor_sara "603799" "Melli" no_vocabulary ≡ done with_prefix
unfolding upsert_prefix ◌>>=◌
prefixed = refl

saved : save with_prefix ≡ done with_pattern
unfolding upsert_prefix ◌>>=◌ save_pattern validate_pattern_fields check_pattern
saved = refl

switched : set_pattern_enabled actor_sara "melli" true with_pattern ≡ done with_switch
unfolding upsert_prefix ◌>>=◌ save_pattern validate_pattern_fields check_pattern set_pattern_enabled
    find_where
switched = refl

none-IsReady : IsReady any_regex never_slow [] no_vocabulary
unfolding count_where
none-IsReady = record {
  prefixes = λ s. omega arith;
  shaped = tt;
  ids = λ s. omega arith;
  tried = tt;
}

Edits-IsReady_example : IsReady any_regex never_slow [] with_switch
Edits-IsReady_example =
    Edits-IsReady any_regex never_slow []
      (Edits.next
        (Edits.next
          (Edits.next Edits.here
            (Edit.prefixed actor_sara "603799" "Melli" no_vocabulary with_prefix prefixed))
          (Edit.saved ascii same same actor_sara form with_prefix with_pattern saved))
        (Edit.switched actor_sara "melli" true with_pattern with_switch switched))
      none-IsReady

save_pattern-keeps_switches_example :
    Ensures
      (λ (v' : Vocabulary). (i : String) → is_on i v' ≡ is_on i with_switch)
      (save with_switch)
save_pattern-keeps_switches_example =
    save_pattern-keeps_switches any_regex never_slow [] ascii same same actor_sara form with_switch
