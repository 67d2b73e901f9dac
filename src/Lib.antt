-- ===== src/Lib.antt =====
-- AloBot Dashboard: the settlement of card payments, as the kernel can check it.
--
-- A customer of the bot says "paid", which is mirrored as a payment claim; a relay phone forwards
-- the bank's SMS (app/services/ingest.py), which is read (app/sms) and becomes a transaction of an
-- account. The matcher (app/services/matcher.py) decides which
-- claim may be verified against which credit without a person, the settle sweep
-- (app/services/settle.py) writes what it decided, and operators decide the rest
-- (app/services/review.py). Every message to a customer is a row of the outbox first
-- (app/services/outbox.py), whose sweep sends it under a pause shared with the broadcasts
-- (app/services/pace.py). Every action of an operator adds a row to the audit log in its own
-- transaction (app/services/audit.py).
--
-- Files:
--   Model      the enumerations of app/models/claims.py and app/models/ingest.py, and durations
--   Matcher    app/services/matcher.py: `_window`, `_eligible`, `evaluate`; children for what
--              `eligible` accepts, what the two dicts hold, the verdicts, and the keys of what
--              `evaluate` returns
--   Audit      app/services/audit.py and app/models/audit_log.py
--   Telegram   `SendResult` of app/services/telegram.py
--   Pace       app/services/pace.py
--   Outbox     app/services/outbox.py and app/models/bot_notification.py: `enqueue`, `_backoff`,
--              `flush`; children for one row's change, for delivery, for retries and counters (Leases),
--              for leases between several sweeps (Claims), and for the end of retries
--   Messages   the texts of app/services/settle.py and REVIEW_TEMPLATES of app/services/review.py
--   FaNumber   `fa_number` of app/web/format.py, for non-negative integers; children for its text
--              and for how app/sms reads it
--   Books      app/models/claims.py: the tables as one state, the partial unique indexes, and the
--              conditional UPDATE; the child Invariant is the money rule
--   Settle     app/services/settle.py: `_load`, `_auto_verify`, `_record_suggestion`, `settle`; children
--              for the money rule, and for what a sweep settles (Decided, Sound)
--   Review     app/services/review.py: `_lock`, `_transition` and the eight actions
--   Desk       the actions as one type, and their interleaving with the writes of the sweep
--   Staff      app/models/operator.py: the operators and their sessions as one state
--   Operators  app/services/operators.py: `create`, `set_role`, `set_active`; the child is the rule
--              of the last administrator
--   Totp       the one-time codes of app/core/security.py
--   Auth       app/services/auth.py up to `authenticate`; children for the lockout and for what a
--              login has checked
--   Sessions   the rest of app/services/auth.py: sessions, the password and the enrolment of codes;
--              children for what ends a session
--   Broadcast  app/services/broadcast.py and app/models/broadcast.py: `create` and `drain`; children
--              for what happens once and for the end of a broadcast
--   Continuity app/services/continuity.py: the mode in which orders are delivered on trust
--   Mirror     app/services/claims.py and app/alobot/money.py: `mirror_claims`; children for one
--              claim for a payment, and for a second run
--   RateLimit  app/core/ratelimit.py
--   Accounts   app/services/accounts.py and three tables of app/models/ingest.py; children for the
--              check digit and for the unique constraints. The digits of a text are read by a parameter
--   Devices    app/services/devices.py and the credentials of app/services/ingest.py; children for
--              `authenticate` (Admission), for the one working key of a device and for which keys open the door
--   Unicode    what is asked of the Unicode database, and texts as lists of code points
--   Integers   the `int` of a text
--   Regex      the expressions that app/sms uses of Python's module `re`, by backtracking
--   Sms        app/sms/types.py; children for the other files of app/sms: Normalize, Words,
--              Expressions and Parsers (parsers.py), Patterns, Parse (__init__.py); and for what a result may
--              hold and what redaction leaves
--   Banks      app/services/banks.py: the prefixes of cards, and in Forms the operators' patterns;
--              children for what an expression has passed, for the order of both tables, and for the switch
--   Inbox      app/services/ingest.py and its tables in app/models/ingest.py; children for the account
--              of a message (Resolve), its time and key (Stamp), its row (Candidate), for `ingest` (Receive), for
--              the log that it keeps, for what is stored of passwords (Redacted), for the accounts that
--              messages make (Named, Unraced), and for the order of the tables
--   Transactions app/services/transactions.py: the three corrections; children for the order of the
--              inbox under each of them and under all, interleaved with messages (Filing), and for a message
--              that is sent again (Resent)
--   Door       app/api/ingest.py and `client_ip` of app/web/guards.py: the public door, whose
--              handler is Handle; the other child is what a request must have passed
--   Examples   tests, and each theorem at a concrete input
--   Prelude    shared names, lists, tables as lists of rows, dicts and text
--
-- Modelling. The state is passed explicitly. A committed transaction of the database is one
-- function from books to books, an exception that rolls back is a refusal without books, and a
-- failed flush on a unique index is `none`. The row lock and the isolation of PostgreSQL are what
-- makes a transaction one step; between transactions anything may happen, which `Desk.Reach.Step`
-- says. A table is a list of rows, newest first, and `rowcount` counts the rows that an UPDATE
-- reaches. A moment is a number of microseconds, a `timedelta` too, amounts are whole rials, and
-- ids are natural numbers (chats with customers have positive ids). The columns created_at and
-- updated_at are left out, as are the columns of accounts and transactions that settling does not
-- read.
--
-- Parameters. The answer of Telegram to a request and the text that is kept of an error are
-- arguments of `flush`, and so is the set of rows that another sweep has locked. The clock of the
-- database, by which a new message is due, is an argument too. So are `hash_password`,
-- `verify_password`, `hash_token`, the SHA-256 of a device's token, the HMAC of a counter,
-- `str.lower`, `str.upper`, and what is drawn at random. The Unicode database is a record of three
-- functions with the laws on decimal digits that the code relies on. The third-party module `regex`,
-- which runs the operators' expressions, is a record of two functions. SHA-256, the milliseconds of an
-- instant and `datetime.fromisoformat` are fields of `Outside`. The door reads JSON by a parameter, and
-- whether the pool of connections is used up is a field of its request.
--
-- Loops are structural recursion on the list they run over. Where a loop eats a text in pieces, its fuel
-- is the length of that text: each round of `redact_from`, of `Regex.sub` and of an unbounded repetition
-- eats a character at least, and an empty round ends a repetition.
--
-- A message's key and its account are looked up in one state (`Inbox.Receive.Seen`) and its rows are
-- written to another, since a request may overtake another one between the two; a failed flush is then
-- the unique key of the events, which is caught, or the unique index of the identifiers, which is not
-- (`integrity_error`). `lookup` is the same for a run of the parser. A column that is too short for a
-- value refuses the whole transaction; of two refusals in one flush the model gives one. An INSERT that is
-- rolled back uses up an id of its sequence in PostgreSQL; the model gives that id to the next row.
--
-- `Outbox.flush` is the whole run of one sweep that nothing interrupts. The code commits the lease and
-- then each answer by itself, and `Outbox.Claims.Move` has these commits as single steps, between which
-- those of other sweeps and of `enqueue` may stand.
--
-- Texts are taken to hold no NUL character, which the database refuses, and no lone surrogate, which
-- no encoding takes.
--
-- Not modelled: the web pages, the database session, logging with its event table, configuration, the
-- settings page, the runner of the sweeps and its alerts, the sums and receipts of the dashboard, the
-- Jalali calendar, and the statements on the bot's own database. Read-only queries are left out where no
-- write depends on them. The text that is sent is compared nowhere by the theorems.
pub mod Prelude
pub mod Model
pub mod Matcher
pub mod Audit
pub mod Telegram
pub mod Pace
pub mod Outbox
pub mod Messages
pub mod FaNumber
pub mod Books
pub mod Settle
pub mod Review
pub mod Desk
pub mod Staff
pub mod Operators
pub mod Totp
pub mod Auth
pub mod Sessions
pub mod Broadcast
pub mod Continuity
pub mod Mirror
pub mod RateLimit
pub mod Accounts
pub mod Devices
pub mod Unicode
pub mod Integers
pub mod Regex
pub mod Sms
pub mod Banks
pub mod Inbox
pub mod Transactions
pub mod Door
pub mod Examples
