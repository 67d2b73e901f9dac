-- ===== src/Banks/Ready.antt =====
-- The order of the bank vocabulary under the operators' edits.
use alo_bot_dashboard.Prelude.{
  ◌≤◌, ◌≡◌, refl, subst, inl, inr, ◌⊎◌, Bool, true, not, String, Option, none, some, List, arith,
  str_eq_iff, All, All-update, All-keep, All-mono, count_where, count-update, count-update_at,
  and_true, strip, require-true, find_where, unique_cons, none_of_find, count-keep, update_where,
  Result, done, refused, ◌>>=◌, Ensures, Ensures-done, Ensures-bind,
}
use alo_bot_dashboard.Audit.{Actor}
use alo_bot_dashboard.Unicode.{Text, Unicode}
use alo_bot_dashboard.Sms.Patterns.{RegexModule}
use alo_bot_dashboard.Banks.{
  BankCardPrefix, BankSmsPattern, Vocabulary, BankError, is_prefix, clean_prefix, has_prefix,
  upsert_prefix, delete_prefix, log,
}
use alo_bot_dashboard.Banks.Forms.{
  PatternForm, validate_pattern_fields, has_id, overwrite, save_pattern, set_pattern_enabled,
  delete_pattern,
}
use alo_bot_dashboard.Banks.Tried.{IsTried, overwrite-IsTried, switched-IsTried, validate-IsTried}

pub found : {A : Type 0} (o : Option A) → (o ≡ none) ⊎ ((a : A) × (o ≡ some a))
found none = inl refl
found (some a) = inr (a, refl)

has_id-overwrite :
    (actor : Actor) (row p : BankSmsPattern) (s : String)
    → has_id row.id p ≡ true
    → has_id s (overwrite actor row p) ≡ has_id s p
unfolding has_id overwrite
has_id-overwrite actor row p s hit =
    let same : p.id ≡ row.id = (str_eq_iff p.id row.id).0 hit in rw same refl

overwrite_ids :
    (actor : Actor) (row : BankSmsPattern) (s : String) (ps : List BankSmsPattern)
    → count_where (has_id s) (update_where (has_id row.id) (overwrite actor row) ps)
      ≡ count_where (has_id s) ps
overwrite_ids actor row s ps =
    count-update_at _ _ _ ps (λ p hit. has_id-overwrite actor row p s hit)

abbrev named : Actor → String → BankCardPrefix → BankCardPrefix
named actor bank r = record r { bank_name = strip bank; updated_by = some actor.email }

pub Ensures-save :
    {P : Vocabulary → Type 0} (row : Result BankError BankSmsPattern) (actor : Actor)
    (v : Vocabulary)
    → ((p : BankSmsPattern) → row ≡ done p → Ensures P (save_pattern actor (done p) v))
    → Ensures P (save_pattern actor row v)
unfolding save_pattern ◌>>=◌
Ensures-save (done p) actor v h = h p refl
Ensures-save (refused e) actor v h = record { at = λ a k. absurd (cc) }

module _ (m : RegexModule) (slow : String → Text → Bool) (bait : List Text) where
  pub record IsReady (v : Vocabulary) : Type 0 where
    pub prefixes : (s : String) → count_where (has_prefix s) v.prefixes ≤ 1
    pub shaped : All (λ r. is_prefix r.prefix ≡ true) v.prefixes
    pub ids : (s : String) → count_where (has_id s) v.patterns ≤ 1
    pub tried : All (IsTried m slow bait) v.patterns

  -- a form's row over the rows that are there
  saved-IsReady :
      (actor : Actor) (row : BankSmsPattern) (v : Vocabulary)
      → IsTried m slow bait row
      → IsReady v
      → Ensures IsReady (save_pattern actor (done row) v)
  unfolding save_pattern ◌>>=◌ log
  saved-IsReady actor row v tried h = elim (found (find_where (has_id row.id) v.patterns)) [
    | inl new ↦ rw new (
        Ensures-done _ record {
          prefixes = h.prefixes;
          shaped = h.shaped;
          ids = λ s. unique_cons (has_id s) _ v.patterns (h.ids s) (λ hit.
              subst (λ i. count_where (has_id i) v.patterns ≡ 0) ((str_eq_iff row.id s).0 hit)
                (none_of_find (has_id row.id) v.patterns new));
          tried = (
            record {
              detect = tried.detect;
              amount = tried.amount;
              balance = tried.balance;
              account = tried.account;
              reference = tried.reference;
            },
            h.tried,
          );
        })
    | inr (p, known) ↦ rw known (
        Ensures-done _ record {
          prefixes = h.prefixes;
          shaped = h.shaped;
          ids = λ s. rw (overwrite_ids actor row s v.patterns) (h.ids s);
          tried =
              All-update (IsTried m slow bait) (IsTried m slow bait) (has_id row.id)
                (overwrite actor row) v.patterns (overwrite-IsTried m slow bait actor row tried)
                h.tried;
        })
  ]

  save-IsReady :
      (u : Unicode) (upper lower : String → String) (actor : Actor) (f : PatternForm)
      (v : Vocabulary)
      → IsReady v
      → Ensures IsReady (save_pattern actor (validate_pattern_fields u upper lower m slow bait f) v)
  save-IsReady u upper lower actor f v h =
      Ensures-save (validate_pattern_fields u upper lower m slow bait f) actor v (λ row k.
        saved-IsReady actor row v ((validate-IsTried m slow bait u upper lower f).at row k).0 h)

  enable-IsReady :
      (actor : Actor) (i : String) (b : Bool) (v : Vocabulary)
      → IsReady v
      → Ensures IsReady (set_pattern_enabled actor i b v)
  unfolding set_pattern_enabled log has_id
  enable-IsReady actor i b v h = Ensures-bind _ _ λ (row : BankSmsPattern) k.
      Ensures-done _ record {
        prefixes = h.prefixes;
        shaped = h.shaped;
        ids = λ s.
            rw
              (count-update (has_id s) (has_id i)
                (λ p. record p { enabled = b; updated_by = some actor.email }) v.patterns
                (λ p. refl))
              (h.ids s);
        tried =
            All-update (IsTried m slow bait) (IsTried m slow bait) (has_id i) _ v.patterns
              (switched-IsTried m slow bait i b actor.email) h.tried;
      }

  delete-IsReady :
      (actor : Actor) (i : String) (v : Vocabulary)
      → IsReady v
      → Ensures IsReady (delete_pattern actor i v)
  unfolding delete_pattern log
  delete-IsReady actor i v h = Ensures-bind _ _ λ (row : BankSmsPattern) k. Ensures-done _ record {
    prefixes = h.prefixes;
    shaped = h.shaped;
    ids = λ s. omega (arith, count-keep (has_id s) (λ p. not (has_id i p)) v.patterns, h.ids s);
    tried =
        All-mono _ _ _ (λ p k'. k'.0)
          (All-keep (IsTried m slow bait) (λ p. not (has_id i p)) v.patterns h.tried);
  }

  upsert-IsReady :
      (actor : Actor) (raw bank : String) (v : Vocabulary)
      → IsReady v
      → Ensures IsReady (upsert_prefix actor raw bank v)
  unfolding upsert_prefix log
  upsert-IsReady actor raw bank v h = Ensures-bind _ _ λ (a : Unit {0}) shape.
      Ensures-bind _ _ λ (b : Unit {0}) fits.
        let digits = (and_true _ _ (require-true _ _ _ shape)).0 in
        elim (found (find_where (has_prefix (clean_prefix raw)) v.prefixes)) [
          | inl new ↦ rw new (
              Ensures-done _ record {
                prefixes = λ s. unique_cons (has_prefix s) _ v.prefixes (h.prefixes s) (λ hit.
                    subst (λ i. count_where (has_prefix i) v.prefixes ≡ 0)
                      ((str_eq_iff (clean_prefix raw) s).0 hit)
                      (none_of_find (has_prefix (clean_prefix raw)) v.prefixes new));
                shaped = (digits, h.shaped);
                ids = h.ids;
                tried = h.tried;
              })
          | inr (r, known) ↦ rw known (
              Ensures-done _ record {
                prefixes = λ s.
                    rw
                      (count-update (has_prefix s) (has_prefix (clean_prefix raw))
                        (named actor bank) v.prefixes (λ r'. refl))
                      (h.prefixes s);
                shaped =
                    All-update (λ r'. is_prefix r'.prefix ≡ true) (λ r'. is_prefix r'.prefix ≡ true)
                      (has_prefix (clean_prefix raw)) (named actor bank) v.prefixes
                      (λ r' k. ground (arith, k)) h.shaped;
                ids = h.ids;
                tried = h.tried;
              })
        ]

  drop-IsReady :
      (actor : Actor) (i : String) (v : Vocabulary)
      → IsReady v
      → Ensures IsReady (delete_prefix actor i v)
  unfolding delete_prefix log
  drop-IsReady actor i v h = Ensures-bind _ _ λ (row : BankCardPrefix) k. Ensures-done _ record {
    prefixes = λ s.
        omega
          (arith, count-keep (has_prefix s) (λ p. not (has_prefix i p)) v.prefixes, h.prefixes s);
    shaped =
        All-mono _ _ _ (λ p k'. k'.0)
          (All-keep (λ p. is_prefix p.prefix ≡ true) (λ p. not (has_prefix i p)) v.prefixes
            h.shaped);
    ids = h.ids;
    tried = h.tried;
  }

  -- one committed edit
  pub data Edit : Vocabulary → Vocabulary → Type 0 where
    saved :
        (u : Unicode) (upper lower : String → String) (actor : Actor) (f : PatternForm)
        (v v' : Vocabulary)
        → save_pattern actor (validate_pattern_fields u upper lower m slow bait f) v ≡ done v'
        → Edit v v'
    switched :
        (actor : Actor) (i : String) (b : Bool) (v v' : Vocabulary)
        → set_pattern_enabled actor i b v ≡ done v'
        → Edit v v'
    deleted :
        (actor : Actor) (i : String) (v v' : Vocabulary)
        → delete_pattern actor i v ≡ done v'
        → Edit v v'
    prefixed :
        (actor : Actor) (raw bank : String) (v v' : Vocabulary)
        → upsert_prefix actor raw bank v ≡ done v'
        → Edit v v'
    dropped :
        (actor : Actor) (i : String) (v v' : Vocabulary)
        → delete_prefix actor i v ≡ done v'
        → Edit v v'

  pub data Edits (start : Vocabulary) : Vocabulary → Type 0 where
    here : Edits start start
    next : {v v' : Vocabulary} → Edits start v → Edit v v' → Edits start v'

  Edit-IsReady : {v v' : Vocabulary} → Edit v v' → IsReady v → IsReady v'
  Edit-IsReady (Edit.saved u upper lower actor f v v' e) h =
      (save-IsReady u upper lower actor f v h).at v' e
  Edit-IsReady (Edit.switched actor i b v v' e) h = (enable-IsReady actor i b v h).at v' e
  Edit-IsReady (Edit.deleted actor i v v' e) h = (delete-IsReady actor i v h).at v' e
  Edit-IsReady (Edit.prefixed actor raw bank v v' e) h = (upsert-IsReady actor raw bank v h).at v' e
  Edit-IsReady (Edit.dropped actor i v v' e) h = (drop-IsReady actor i v h).at v' e

  -- After any sequence of edits of the vocabulary, from one that is ready, it is ready: no two card prefixes
  -- and no two patterns share their key, every prefix has four to eight ASCII digits, and every expression
  -- of every pattern has passed `check_pattern`.
  pub Edits-IsReady : {v v' : Vocabulary} → Edits v v' → IsReady v → IsReady v'
  Edits-IsReady Edits.here h = h
  Edits-IsReady (Edits.next r e) h = Edit-IsReady e (Edits-IsReady r h)
