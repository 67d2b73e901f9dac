-- ===== src/Examples/Announcing.antt =====
-- services/broadcast.py on an audience of two customers.
use alo_bot_dashboard.Prelude.{
  if◌then◌else◌, ℕ, ◌+◌, ◌*◌, ◌≡◌, refl, Bool, true, false, Option, none, some, List, [], ◌∷◌,
  String, arith, ◌==◌, count_where, find_where, any_where, strip, Result, done, refused, ◌>>=◌,
}
use alo_bot_dashboard.Model.{hour}
use alo_bot_dashboard.Audit.{Actor}
use alo_bot_dashboard.Telegram.{SendResult}
use alo_bot_dashboard.Broadcast.{
  RecipientStatus, Recipient, Campaigns, Audience, BroadcastError, create, create_new, check_button,
  drain, is_pending,
}
use alo_bot_dashboard.Broadcast.Once.{create_once, drain-keeps_final}
use alo_bot_dashboard.Broadcast.Finished.{AreSound, Course, Courses, Courses-AreSound}

abbrev now : ℕ
now = 10 * hour

abbrev empty : Campaigns
empty = record {
  broadcasts = [];
  next_broadcast_id = 1;
  recipients = [];
  next_recipient_id = 1;
  audit = [];
}

abbrev sara : Actor
sara = record { id = 3; email = "sara@example.com"; role = "ADMIN" }

abbrev members : Option (Audience → List ℕ)
members = some (λ who. 77 ∷ 78 ∷ [])

abbrev web_link : Option String → Bool
web_link url = true

abbrev submitted : Result BroadcastError (Campaigns × ℕ)
submitted =
    create web_link members sara "batch-1" (some Audience.everyone) "hello" none none now empty

abbrev announced : Campaigns
announced = elim submitted [ done (c, i) ↦ c | refused e ↦ empty ]

submits : submitted ≡ done (announced, 1)
unfolding create create_new ◌>>=◌ find_where strip check_button any_where
submits = refl

create_once_example :
    create web_link members sara "batch-1"
      (some Audience.buyers)
      "other"
      none
      none
      (now + hour)
      announced
    ≡ done (announced, 1)
create_once_example =
    create_once web_link members members sara sara "batch-1" (some Audience.everyone)
      (some Audience.buyers) "hello" "other" none none none none now (now + hour) empty announced 1
      submits

-- the second customer has blocked the bot
abbrev api : Recipient → SendResult
api r =
    if r.chat_id == 78
    then record { ok = false; error_code = some 403; description = "blocked"; retry_after = none }
    else record { ok = true; error_code = none; description = ""; retry_after = none }

abbrev error_text : SendResult → String
error_text r = r.description

abbrev unlocked : ℕ → Bool
unlocked i = false

abbrev swept : Campaigns
swept = (drain error_text now (some api) unlocked 20 none announced).campaigns

Courses-AreSound_example : AreSound swept
Courses-AreSound_example =
    Courses-AreSound
      (Courses.next
        (Courses.next Courses.here (
          Course.created web_link members sara "batch-1" (some Audience.everyone) "hello" none none
            now 1 empty announced submits))
        (Course.drained error_text now (some api) unlocked 20 none announced))
      refl

-- a customer who has heard it, beside one who has not
abbrev heard : Recipient
heard = record {
  id = 1;
  broadcast_id = 1;
  chat_id = 77;
  status = RecipientStatus.sent;
  error = none;
  sent_at = some now;
}

abbrev half : Campaigns
half = record announced {
  recipients =
      heard
      ∷ record heard { id = 2; chat_id = 78; status = RecipientStatus.pending; sent_at = none }
      ∷ [];
}

drain-keeps_final_example :
    find_where
      (λ x. x.id == 1)
      (drain error_text now (some api) unlocked 20 none half).campaigns.recipients
    ≡ some heard
unfolding count_where find_where is_pending
drain-keeps_final_example =
    drain-keeps_final error_text now 1 20 (some api) unlocked none half heard (ground arith) refl
      refl
