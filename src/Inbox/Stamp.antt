-- ===== src/Inbox/Stamp.antt =====
-- `parse_timestamp` and `dedupe_key` of services/ingest.py, and its answer.
use alo_bot_dashboard.Prelude.{
  ℕ, ◌+◌, ◌*◌, ◌/◌, Bool, not, ◌&&◌, String, Option, none, some, [], ◌∷◌, ◌++◌, ◌==◌, leb,
  if◌then◌else◌, length, print, is_space, Result, done, refused,
}
use alo_bot_dashboard.Model.{second}
use alo_bot_dashboard.Unicode.{Text, codes}
use alo_bot_dashboard.Sms.{Classification, ValueError}
use alo_bot_dashboard.Sms.Normalize.{normalize, int_of, all_of, is_empty}
use alo_bot_dashboard.Inbox.{Outside}

-- the seconds from the first instant of `datetime` to the epoch
abbrev pub epoch_seconds : ℕ
epoch_seconds = 62135596800

lstrip : Text → Text
unfolding is_space
lstrip [] = []
lstrip (c ∷ cs) = if is_space c then lstrip cs else c ∷ cs

rstrip : Text → Text
unfolding is_space
rstrip [] = []
rstrip (c ∷ cs) = let rest = rstrip cs in if is_empty rest && is_space c then [] else c ∷ rest

-- `text.replace("Z", "+00:00")`
zulu : Text → Text
zulu [] = []
zulu (c ∷ cs) = let rest = zulu cs in if c == 90 then codes "+00:00" ++ rest else c ∷ rest

-- milliseconds by their thirteen digits, else seconds
seconds_of : Text → ℕ → ℕ
seconds_of text value = if leb 13 (length text) then value / 1000 else value

-- the instant of a plausible number of seconds
instant_of : ℕ → Option ℕ
instant_of value =
    if leb 1000000000 value && leb value 4102444800
    then some ((epoch_seconds + value) * second)
    else none

-- `raw` is the text of what came
unfoldable pub parse_timestamp : Outside → Option Text → Result ValueError (Option ℕ)
unfolding lstrip rstrip zulu seconds_of instant_of is_empty all_of int_of
parse_timestamp o none = done none
parse_timestamp o (some raw) =
    let text = rstrip (lstrip raw) in
    if not (is_empty text) && all_of (o.unicode.is_digit) text
    then elim (int_of o.unicode text) [
      | done value ↦ done (instant_of (seconds_of text value))
      | refused e ↦ refused e
    ]
    else done (o.from_iso (zulu text))

unfoldable pub body_hash : Outside → Text → String
unfolding normalize
body_hash o body = o.sha256 (normalize body)

unfoldable pub dedupe_key : Outside → ℕ → Text → ℕ → Text → String
unfolding body_hash print
dedupe_key o device_id sender sms_timestamp body = o.sha256 (
    codes (print device_id)
    ++ (124 ∷ sender
        ++ (124 ∷ codes (print (o.millis sms_timestamp)) ++ (124 ∷ codes (body_hash o body)))))

pub record IngestOutcome : Type 0 where
  pub event_id : ℕ
  pub duplicate : Bool
  pub classification : Classification
  pub actionable : Bool
  pub transaction_id : Option ℕ
