-- ===== src/Examples/Mirroring.antt =====
-- services/claims.py, services/continuity.py and core/ratelimit.py on small inputs.
use alo_bot_dashboard.Prelude.{
  ℕ, ◌+◌, ◌≡◌, refl, true, false, none, some, List, [], ◌∷◌, String, arith, min, length, keep,
  count_where, update_where, any_where, str_eq, Result, done, refused, ◌>>=◌, strip,
}
use alo_bot_dashboard.Model.{hour}
use alo_bot_dashboard.Audit.{Actor}
use alo_bot_dashboard.Continuity.{Switch, activate}
use alo_bot_dashboard.Mirror.{
  Payment, Card, MoneyError, Mirrored, toman_to_rial, is_read, mirror_rows, mirror_claims,
}
use alo_bot_dashboard.Mirror.Synced.{AreDistinct}
use alo_bot_dashboard.Mirror.Twice.{mirror_twice}
use alo_bot_dashboard.Mirror.Known.{AreKnown}
use alo_bot_dashboard.RateLimit.{no_buckets, Request, let_through, window-limit}

abbrev payment : Payment
payment = record {
  id = 501;
  telegram_id = 77;
  purpose = none;
  amount = 5000000;
  ibsng_username = some "u1";
  receipt_file_id = none;
  status = "pending";
  created_at = hour;
  resolved_at = none;
  invoice_number = none;
}

abbrev payments : List Payment
payments = payment ∷ record payment { id = 502; status = "approved" } ∷ []

abbrev cards : List Card
cards = record { card_number = "6037991234567890"; account_id = 7 } ∷ []

abbrev code : ℕ → String
code n = "AB"

abbrev first_run : Result MoneyError (Mirrored × ℕ)
first_run = mirror_claims code cards (some "6037991234567890") false payments 1 []

abbrev after : Mirrored
after = elim first_run [
  | done (m, n) ↦ m
  | refused e ↦ record { claims = []; next_claim_id = 1; created = 0; updated = 0 }
]

runs : first_run ≡ done (after, 0)
unfolding mirror_claims ◌>>=◌ is_read any_where mirror_rows toman_to_rial update_where count_where
runs = refl

payments-AreDistinct : AreDistinct payments
payments-AreDistinct = ((refl, tt), (tt, tt))

mirror_twice_example :
    mirror_claims code cards none true payments after.next_claim_id after.claims
    ≡ done (record after { created = 0; updated = 0 }, 0)
mirror_twice_example =
    mirror_twice code cards (some "6037991234567890") none false true payments 1 0 [] after
      payments-AreDistinct runs

nothing-AreKnown : AreKnown [] [] 1
unfolding count_where
nothing-AreKnown = record {
  one_per_payment = λ p. omega arith;
  unique_ids = λ i. omega arith;
  backed = tt;
  drawn = λ i late. refl;
  unsettled = λ i late. refl;
}

abbrev sara : Actor
sara = record { id = 3; email = "sara@example.com"; role = "ADMIN" }

abbrev off : Switch
off = record { row = none; updated_by = none; audit = [] }

abbrev moment : ℕ → String
moment n = ""

abbrev switched : Switch
switched = elim (activate moment sara 30 "the relay is down" hour off) [
  | done s ↦ s
  | refused e ↦ off
]

switches : activate moment sara 30 "the relay is down" hour off ≡ done switched
unfolding activate ◌>>=◌ strip
switches = refl

-- two requests of one address around one of another, with a limit of one
abbrev requests : List Request
requests = record { key = "b"; at = 101 } ∷ record { key = "a"; at = 102 } ∷ []

window-limit_example :
    let_through 1 60 "a" (record { key = "a"; at = 100 } ∷ requests) no_buckets
    ≡ min (1 + length (keep (λ r. str_eq "a" r.key) requests)) 1
window-limit_example =
    window-limit 1 60 "a" 100 requests no_buckets (omega arith) (omega arith, (omega arith, tt))
