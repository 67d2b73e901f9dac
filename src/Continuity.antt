-- ===== src/Continuity.antt =====
-- services/continuity.py: the mode in which orders are delivered on trust. The row of the settings
-- table is missing, empty, or holds the mode; a number of minutes that is not positive is refused as
-- zero is.
use alo_bot_dashboard.Prelude.{
  ℕ, ◌+◌, ◌*◌, ◌≤◌, ◌≡◌, refl, inl, inr, Bool, false, not, ◌||◌, String, Option, none, some, List,
  ◌∷◌, arith, if◌then◌else◌, ltb, leb, is_some, strip, is_blank, Bool-cases, Ensures, Ensures-bind,
  Ensures-done, Result, done, require, ◌>>◌,
}
use alo_bot_dashboard.Model.{minute, hour}
use alo_bot_dashboard.Audit.{Json, Fields, AuditRow, Actor, audit_row}

abbrev pub min_duration : ℕ
min_duration = 5 * minute

abbrev pub max_duration : ℕ
max_duration = 6 * hour

pub data ContinuityError : Type 0 where
  bad_duration reason_needed : ContinuityError

pub record Mode : Type 0 where
  pub until : ℕ
  pub by : String
  pub reason : String
  pub since : ℕ

pub record Switch : Type 0 where
  pub row : Option (Option Mode)
  pub updated_by : Option String
  pub audit : List AuditRow

-- `state`
unfoldable pub state : ℕ → Switch → Option Mode
state now s = elim s.row [
  | none ↦ none
  | some value ↦ elim value [ none ↦ none | some m ↦ if leb m.until now then none else some m ]
]

unfoldable pub is_active : ℕ → Switch → Bool
unfolding state
is_active now s = is_some (state now s)

-- the JSON of the row; `moment` is `isoformat`
module _ (moment : ℕ → String) where
  mode_json : Mode → Json
  mode_json m = Json.obj (
      Fields.field "until" (Json.text (moment m.until)) (
        Fields.field "by" (Json.text m.by) (
          Fields.field "reason" (Json.text m.reason)
            (Fields.field "since" (Json.text (moment m.since)) Fields.end))))

  row_json : Option (Option Mode) → Option Json
  unfolding mode_json
  row_json none = none
  row_json (some none) = some (Json.obj Fields.end)
  row_json (some (some m)) = some (mode_json m)

  unfoldable pub activate : Actor → ℕ → String → ℕ → Switch → Result ContinuityError Switch
  unfolding row_json audit_row strip
  activate actor minutes reason now s = do
    require (not (ltb (minutes * minute) min_duration || ltb max_duration (minutes * minute)))
        bad_duration
    require (not (is_blank (strip reason))) reason_needed
    done (record {
      row = some (
          some (record {
            until = now + minutes * minute;
            by = actor.email;
            reason = strip reason;
            since = now;
          }));
      updated_by = some actor.email;
      audit =
          audit_row actor "continuity.activate" "setting" "pay/continuity_mode" (row_json s.row) (
            row_json (
              some (
                some (record {
                  until = now + minutes * minute;
                  by = actor.email;
                  reason = strip reason;
                  since = now;
                }))))
          ∷ s.audit;
    })

  unfoldable pub deactivate : Actor → Switch → Switch
  unfolding row_json audit_row
  deactivate actor s = record {
    row = elim s.row [ none ↦ none | some value ↦ some none ];
    updated_by = elim s.row [ none ↦ s.updated_by | some value ↦ some actor.email ];
    audit =
        audit_row actor "continuity.deactivate" "setting" "pay/continuity_mode" (row_json s.row)
          none
        ∷ s.audit;
  }

  -- the mode that an activation leaves
  IsOn : ℕ → Switch → Type 0
  IsOn until s = (m : Mode) × (s.row ≡ some (some m)) × (m.until ≡ until)

  activate-IsOn :
      (actor : Actor) (minutes now : ℕ) (reason : String) (s : Switch)
      → Ensures
          (λ s'. IsOn (now + minutes * minute) s' × (minutes * minute ≤ max_duration))
          (activate actor minutes reason now s)
  unfolding activate IsOn
  activate-IsOn actor minutes now reason s =
      elim (Bool-cases
        (ltb (minutes * minute) min_duration || ltb max_duration (minutes * minute))) [
          | inl bad ↦ rw bad (Ensures-bind _ _ λ (u : Unit {0}) e. absurd (cc))
          | inr fine ↦ Ensures-bind _ _ λ (u : Unit {0}) e.
              Ensures-bind _ _
                λ (v : Unit {0}) e'. Ensures-done _ ((_, refl, refl), ground (arith, fine))
        ]

  active-IsOn : (until t : ℕ) (s : Switch) → IsOn until s → is_active t s ≡ ltb t until
  unfolding IsOn is_active
  active-IsOn until t s (m, row, e) = rw row (ground (arith, e))

  off :
      (until t : ℕ) (actor : Actor) (s : Switch)
      → IsOn until s
      → is_active t (deactivate actor s) ≡ false
  unfolding IsOn is_active deactivate
  off until t actor s (m, row, e) = rw row refl

  -- The mode that is switched on at `now` is on at a moment exactly until its minutes are over, which
  -- is at most six hours later, with nothing else needed to end it; switched off, it is never on.
  pub activate-expires :
      (actor actor' : Actor) (minutes now t : ℕ) (reason : String) (s s' : Switch)
      → activate actor minutes reason now s ≡ done s'
      → (is_active t s' ≡ ltb t (now + minutes * minute))
        × (now + minutes * minute ≤ now + max_duration)
        × (is_active t (deactivate actor' s') ≡ false)
  unfolding deactivate
  activate-expires actor actor' minutes now t reason s s' e =
      let (on, short) = (activate-IsOn actor minutes now reason s).at s' e in
      (
        active-IsOn (now + minutes * minute) t s' on,
        omega (arith, short),
        off (now + minutes * minute) t actor' s' on,
      )
