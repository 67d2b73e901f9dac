-- ===== src/Pace.antt =====
-- services/pace.py: the pause that the outbox and the broadcast sweep share after a 429. The
-- module's global is the state.
use alo_bot_dashboard.Prelude.{
  ℕ, ◌+◌, ◌*◌, ◌≡◌, Bool, ◌||◌, Option, none, some, arith, ltb, max, is_some, if◌then◌else◌,
}
use alo_bot_dashboard.Model.{second}

abbrev pub Pause : Type 0
Pause = Option ℕ

-- at least one second, and never earlier than a pause that is already noted
unfoldable pub note_rate_limit : ℕ → ℕ → Pause → Pause
note_rate_limit retry_after now pause =
    let until = now + max 1 retry_after * second in
    elim pause [ none ↦ some until | some p ↦ if ltb p until then some until else some p ]

unfoldable pub paused_until : ℕ → Pause → Option ℕ
paused_until now none = none
paused_until now (some p) = if ltb now p then some p else none

unfoldable pub is_paused : ℕ → Pause → Bool
unfolding paused_until
is_paused now pause = is_some (paused_until now pause)

abbrev pub reset : Pause
reset = none

-- After a 429 that was seen at `now`, both senders are paused at a moment exactly when its
-- `retry_after`, of a second at least, is not over or an earlier pause still holds: no pause is
-- ever cut short.
pub note_rate_limit-holds :
    (retry_after now t : ℕ) (pause : Pause)
    → is_paused t (note_rate_limit retry_after now pause)
      ≡ (ltb t (now + max 1 retry_after * second) || is_paused t pause)
unfolding note_rate_limit is_paused
note_rate_limit-holds retry_after now t none = ground arith
note_rate_limit-holds retry_after now t (some p) = ground arith
