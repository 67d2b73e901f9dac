-- ===== src/Examples/Receiving.antt =====
-- services/ingest.py and services/transactions.py on the deposit of tests/sms_corpus/generic.txt, with a
-- hash that keeps the text.
use alo_bot_dashboard.Prelude.{
  ◌≢◌, any_where, All, ℕ, ◌+◌, ◌*◌, ◌≡◌, refl, true, false, none, some, [], arith, Result, done,
  refused, ◌>>=◌, Ensures, find_where, count_where,
}
use alo_bot_dashboard.Model.{second}
use alo_bot_dashboard.Audit.{Actor}
use alo_bot_dashboard.Unicode.{codes, to_string}
use alo_bot_dashboard.Regex.{matches, find, sub, group_of}
use alo_bot_dashboard.Sms.{Classification}
use alo_bot_dashboard.Sms.Normalize.{parse_amount, int_of}
use alo_bot_dashboard.Sms.Expressions.{
  otp_re, promo_re, date_time_re, amount_after_label_re, amount_after_direction_re, credit_re,
  debit_re, balance_re, account_re, reference_re,
}
use alo_bot_dashboard.Sms.Parsers.{account_from}
use alo_bot_dashboard.Sms.Patterns.{apply_patterns}
use alo_bot_dashboard.Sms.Parse.{parse}
use alo_bot_dashboard.Inbox.{find_event, Inbox, Outside, IngestError}
use alo_bot_dashboard.Inbox.Stamp.{IngestOutcome, epoch_seconds, parse_timestamp, dedupe_key}
use alo_bot_dashboard.Inbox.Receive.{Delivery, Seen, stamp_of, ingest}
use alo_bot_dashboard.Inbox.Once.{Refines, Kept, ingest-Refines}
use alo_bot_dashboard.Inbox.Redacted.{IsSafe, ingest_redacts}
use alo_bot_dashboard.Inbox.Named.{IsLinked}
use alo_bot_dashboard.Inbox.Unraced.{ingest_links}
use alo_bot_dashboard.Inbox.Filed.{IsFiled}
use alo_bot_dashboard.Transactions.Filing.{Write, Filing, Filing-IsFiled}
use alo_bot_dashboard.Transactions.Resent.{resent, IsKnown, ingest_again}
use alo_bot_dashboard.Examples.Ascii.{ascii, no_regex, deposit, password}

abbrev actor_sara : Actor
actor_sara = record { id = 1; email = "sara@shop.example"; role = "ADMIN" }

abbrev pub outside : Outside
outside = record {
  unicode = ascii;
  regex = no_regex;
  sha256 = to_string;
  millis = λ t. t;
  from_iso = λ t. none;
}

abbrev pub no_messages : Inbox
no_messages = record {
  registry = record {
    accounts = [];
    next_account_id = 1;
    identifiers = [];
    next_identifier_id = 1;
    cards = [];
    next_card_id = 1;
    audit = [];
  };
  relays = record {
    devices = [];
    next_device_id = 1;
    credentials = [];
    next_credential_id = 1;
    audit = [];
  };
  patterns = [];
  events = [];
  next_event_id = 1;
  transactions = [];
  next_transaction_id = 1;
  audit = [];
}

abbrev posted : Delivery
posted = record {
  device_id = 3;
  sender = codes "Bank";
  message = deposit;
  timestamp_raw = some (codes "1700000000");
  checksum = none;
  now = 5;
  received_at = 6;
  request_id = none;
}

-- 2023-11-14 22:13:20 UTC
abbrev posted_at : ℕ
posted_at = (epoch_seconds + 1700000000) * second

posted_parsed : parse_timestamp outside posted.timestamp_raw ≡ done (some posted_at)
unfolding parse_timestamp int_of
posted_parsed = refl

posted_stamped : stamp_of outside posted ≡ done (posted_at, [])
unfolding stamp_of parse_timestamp int_of ◌>>=◌
posted_stamped = refl

abbrev no_answer : Inbox × IngestOutcome
no_answer = (
  no_messages,
  record {
    event_id = 0;
    duplicate = false;
    classification = Classification.unknown;
    actionable = false;
    transaction_id = none;
  },
)

or_answer : Result IngestError (Inbox × IngestOutcome) → Inbox × IngestOutcome
or_answer (done x) = x
or_answer (refused e) = no_answer

-- lookups of one state
abbrev pub seen : Inbox → Seen
seen s = record { inbox = s; registry = s.registry }

abbrev first_post : Result IngestError (Inbox × IngestOutcome)
first_post = ingest outside posted (seen no_messages) no_messages

abbrev received : Inbox
received = (or_answer first_post).0

first_posted : first_post ≡ done (or_answer first_post)
unfolding ingest ◌>>=◌ parse deposit matches find sub group_of find_where parse_amount int_of
    apply_patterns otp_re promo_re date_time_re amount_after_label_re amount_after_direction_re
    credit_re debit_re balance_re account_re reference_re account_from parse_timestamp or_answer
    any_where
first_posted = refl

-- one event, one transaction, and the account and the identifier that the message made
abbrev rows : Inbox → ℕ × ℕ × ℕ × ℕ
rows s = (
  count_where (λ e. true) s.events,
  count_where (λ t. true) s.transactions,
  count_where (λ a. true) s.registry.accounts,
  count_where (λ i. true) s.registry.identifiers,
)

received_rows : rows received ≡ (1, 1, 1, 1)
unfolding ingest ◌>>=◌ parse deposit matches find sub group_of find_where parse_amount int_of
    apply_patterns otp_re promo_re date_time_re amount_after_label_re amount_after_direction_re
    credit_re debit_re balance_re account_re reference_re account_from parse_timestamp or_answer
    any_where count_where
received_rows = refl

none-Kept : Kept no_messages received
unfolding find_event find_where
none-Kept key e h = absurd (cc)

-- two requests with one message, of which the other one is through between the lookup and the flush
ingest-Refines_example :
    Ensures
      (Refines (dedupe_key outside 3 (codes "Bank") posted_at deposit) received)
      (ingest outside posted (seen no_messages) received)
ingest-Refines_example =
    ingest-Refines outside posted (seen no_messages) received (posted_at, []) posted_stamped
      none-Kept

-- a message with a one-time password
abbrev secret : Delivery
secret = record posted { message = password }

-- the second of two messages
abbrev second_post : Result IngestError (Inbox × IngestOutcome)
second_post = ingest outside secret (seen received) received

second_posted : second_post ≡ done (or_answer second_post)
unfolding ingest ◌>>=◌ parse password matches find sub group_of find_where parse_amount int_of
    apply_patterns otp_re promo_re date_time_re amount_after_label_re amount_after_direction_re
    credit_re debit_re balance_re account_re reference_re account_from parse_timestamp or_answer
    any_where deposit
second_posted = refl

self-Kept : Kept no_messages no_messages
self-Kept key e h = h

-- the first message again, after the second
ingest_again_example :
    let later = (or_answer second_post).0 in
    IsKnown
      (dedupe_key outside 3 (codes "Bank") posted_at deposit)
      (or_answer first_post).1.event_id
      later
      later
      (ingest outside (resent 90 91 none posted) (seen later) later)
ingest_again_example =
    ingest_again outside posted 90 91 none posted_at (seen no_messages) no_messages
      (or_answer first_post) (seen (or_answer second_post).0) (or_answer second_post).0
      posted_parsed self-Kept first_posted
      (Filing.next Filing.here (
        Write.arrived outside secret (seen received) received (or_answer second_post)
          second_posted))

ingest_redacts_example :
    Ensures
      (λ (x : Inbox × IngestOutcome). All (λ e. IsSafe ascii e) x.0.events)
      (ingest outside secret (seen no_messages) no_messages)
ingest_redacts_example = ingest_redacts outside secret (seen no_messages) no_messages tt

none-IsLinked : IsLinked no_messages.registry
unfolding count_where
none-IsLinked = record {
  unique = record { named = λ k v. omega arith; numbered = λ n. omega arith };
  owned = tt;
}

-- another message of the same unknown account, whose lookup ran before the first one was through
abbrev raced_post : Result IngestError (Inbox × IngestOutcome)
raced_post = ingest outside (record posted { sender = codes "Bank2" }) (seen no_messages) received

raced_clash : raced_post ≡ refused IngestError.integrity_error
unfolding ingest ◌>>=◌ parse deposit matches find sub group_of find_where parse_amount int_of
    apply_patterns otp_re promo_re date_time_re amount_after_label_re amount_after_direction_re
    credit_re debit_re balance_re account_re reference_re account_from parse_timestamp or_answer
    any_where
raced_clash = refl

abbrev again : Delivery
again = record posted { sender = codes "Bank2" }

ingest_links_example :
    Ensures
      (λ (x : Inbox × IngestOutcome). IsLinked x.0.registry)
      (ingest outside again (seen no_messages) no_messages)
    × (ingest outside again (seen no_messages) no_messages ≢ refused IngestError.integrity_error)
ingest_links_example = ingest_links outside again (seen no_messages) no_messages none-IsLinked

none-IsFiled : IsFiled no_messages
unfolding count_where
none-IsFiled = record {
  keys = λ k. omega arith;
  ids = λ i. omega arith;
  below = tt;
  one = λ i. omega arith;
  money = tt;
}

Filing-IsFiled_example : IsFiled received
Filing-IsFiled_example =
    Filing-IsFiled
      (Filing.next Filing.here (
        Write.arrived outside posted (seen no_messages) no_messages (or_answer first_post)
          first_posted))
      none-IsFiled
