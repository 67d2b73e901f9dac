-- ===== src/Mirror/Twice.antt =====
-- The mirror of services/claims.py is idempotent.
use alo_bot_dashboard.Prelude.{
  ℕ, ◌+◌, ◌≡◌, refl, ap, ◌∙◌, inl, inr, Bool, true, false, ◌&&◌, ◌||◌, String, Option, List, [],
  ◌∷◌, arith, any_where, count_where, keep, All, any-update, count-update, count-update_drop,
  count_zero, update-none, Bool-cases, Option-cases, done, Ensures, Ensures-bind, Ensures-done,
  ◌>>=◌,
}
use alo_bot_dashboard.Books.{PaymentClaim}
use alo_bot_dashboard.Mirror.{
  Payment, Card, account_for_card, lacks_account, with_account, is_pending, for_payment, is_read,
  Mirrored, Terms, new_claim, differs, follow, open_claim, mirror_row, mirror_rows, resolve,
  mirror_claims,
}
use alo_bot_dashboard.Mirror.Synced.{IsQuiet, AreDistinct, rows-IsQuiet}

-- a quiet row does nothing
quiet_row :
    (code : ℕ → String) (terms : Terms) (p : Payment) (m : Mirrored)
    → is_read m.claims p ≡ true
    → IsQuiet m.claims p
    → mirror_row code terms p m ≡ done m
unfolding mirror_row
quiet_row code terms p m read quiet =
    rw
      (
        quiet.known read,
        quiet.alike read,
        update-none (differs p) (follow p) m.claims (quiet.alike read),
      )
      (let z : m.updated + 0 ≡ m.updated = omega arith in rw z refl)

quiet_rows :
    (code : ℕ → String) (terms : Terms) (ps : List Payment) (m : Mirrored)
    → All (IsQuiet m.claims) ps
    → mirror_rows code terms (keep (is_read m.claims) ps) m ≡ done m
unfolding mirror_rows ◌>>=◌
quiet_rows code terms [] m quiet = refl
quiet_rows code terms (p ∷ ps) m quiet = elim (Bool-cases (is_read m.claims p)) [
  | inr out ↦ rw out (quiet_rows code terms ps m quiet.1)
  | inl read ↦
      rw read (rw (quiet_row code terms p m read quiet.0) (quiet_rows code terms ps m quiet.1))
]

-- nobody lacks an account that could be resolved
abbrev AllResolved : List Card → List PaymentClaim → Type 0
AllResolved cards cs = count_where (lacks_account cards) cs ≡ 0

resolve-AllResolved :
    (cards : List Card) (cs : List PaymentClaim) → AllResolved cards (resolve cards cs)
unfolding lacks_account with_account
resolve-AllResolved cards cs =
    count-update_drop (lacks_account cards) (lacks_account cards) (with_account cards) cs (λ c.
      elim (Option-cases (account_for_card cards c.target_card_number)) [
        | inl missing ↦ rw missing (ground arith)
        | inr (account, found) ↦ rw found refl
      ])
    ∙ count_zero _ cs λ c. ground arith

new-resolved :
    (cards : List Card) (code : ℕ → String) (terms : Terms) (p : Payment) (rial id : ℕ)
    → terms.account_id ≡ account_for_card cards terms.card_number
    → lacks_account cards (new_claim code terms p rial id) ≡ false
unfolding lacks_account new_claim
new-resolved cards code terms p rial id account =
    elim (Option-cases (account_for_card cards terms.card_number)) [
      | inl missing ↦ rw missing (ground arith)
      | inr (a, found) ↦ rw (account, found) refl
    ]

row-AllResolved :
    (cards : List Card) (code : ℕ → String) (terms : Terms) (p : Payment) (m : Mirrored)
    → terms.account_id ≡ account_for_card cards terms.card_number
    → AllResolved cards m.claims
    → Ensures (λ (m' : Mirrored). AllResolved cards m'.claims) (mirror_row code terms p m)
unfolding mirror_row open_claim follow lacks_account new_claim count_where
row-AllResolved cards code terms p m account h =
    elim (Bool-cases (any_where (for_payment p.id) m.claims)) [
      | inl known ↦ rw known (
          Ensures-done _
            (count-update (lacks_account cards) (differs p) (follow p) m.claims (λ c. refl) ∙ h))
      | inr new ↦ rw new (elim (Bool-cases (is_pending p.status)) [
        | inl pending ↦ rw pending (
            Ensures-bind _ _ λ (rial : ℕ) e.
              Ensures-done _
                (ground (arith, h, new-resolved cards code terms p rial m.next_claim_id account)))
        | inr over ↦ rw over (Ensures-done _ h)
      ])
    ]

rows-AllResolved :
    (cards : List Card) (code : ℕ → String) (terms : Terms) (ps : List Payment) (m : Mirrored)
    → terms.account_id ≡ account_for_card cards terms.card_number
    → AllResolved cards m.claims
    → Ensures (λ (m' : Mirrored). AllResolved cards m'.claims) (mirror_rows code terms ps m)
unfolding mirror_rows
rows-AllResolved cards code terms [] m account h = Ensures-done _ h
rows-AllResolved cards code terms (p ∷ ps) m account h = Ensures-bind _ _ λ (m' : Mirrored) e.
    rows-AllResolved cards code terms ps m' account
      ((row-AllResolved cards code terms p m account h).at m' e)

-- resolving accounts changes nothing that the read looks at
read-resolve :
    (cards : List Card) (cs : List PaymentClaim) (p : Payment)
    → is_read (resolve cards cs) p ≡ is_read cs p
unfolding is_read with_account
read-resolve cards cs p =
    ap (λ followed. is_pending p.status || followed)
      (any-update (λ c. for_payment p.id c && is_pending c.alobot_status) (lacks_account cards)
        (with_account cards) cs (λ c. refl))

-- before the loop, a payment that is not read is quiet
unread-IsQuiet :
    (cards : List Card) (cs : List PaymentClaim) (ps : List Payment)
    → All (λ p. is_read cs p ≡ false → IsQuiet (resolve cards cs) p) ps
unread-IsQuiet cards cs [] = tt
unread-IsQuiet cards cs (p ∷ ps) = (
  (λ out. record {
    known = λ r. absurd (cc (r, read-resolve cards cs p, out));
    alike = λ r. absurd (cc (r, read-resolve cards cs p, out));
  }),
  unread-IsQuiet cards cs ps,
)

record IsDone (cards : List Card) (payments : List Payment) (m : Mirrored) : Type 0 where
  quiet : All (IsQuiet m.claims) payments
  resolved : AllResolved cards m.claims

mirror-IsDone :
    (code : ℕ → String) (cards : List Card) (card_number : Option String) (on : Bool)
    (payments : List Payment) (next : ℕ) (claims : List PaymentClaim)
    → AreDistinct payments
    → Ensures
        (λ (r : Mirrored × ℕ). IsDone cards payments r.0)
        (mirror_claims code cards card_number on payments next claims)
unfolding mirror_claims
mirror-IsDone code cards card_number on payments next claims distinct =
    Ensures-bind _ _ λ (m : Mirrored) e. Ensures-done _ record {
      quiet =
          (rows-IsQuiet code _ (is_read claims) payments _ distinct
              (unread-IsQuiet cards claims payments)).at
            m e;
      resolved =
          (rows-AllResolved cards code _ (keep (is_read claims) payments) _ refl
              (resolve-AllResolved cards claims)).at
            m e;
    }

-- The mirror is idempotent: run again on the same payments and cards, whatever card the payments go
-- to by then and whether or not the continuity mode is on, it creates, updates and resolves nothing.
pub mirror_twice :
    (code : ℕ → String) (cards : List Card) (card_number card_number' : Option String)
    (on on' : Bool) (payments : List Payment) (next n : ℕ) (claims : List PaymentClaim)
    (m : Mirrored)
    → AreDistinct payments
    → mirror_claims code cards card_number on payments next claims ≡ done (m, n)
    → mirror_claims code cards card_number' on' payments m.next_claim_id m.claims
      ≡ done (record m { created = 0; updated = 0 }, 0)
unfolding mirror_claims ◌>>=◌
mirror_twice code cards card_number card_number' on on' payments next n claims m distinct e =
    let d = (mirror-IsDone code cards card_number on payments next claims distinct).at (m, n) e in
    rw (update-none (lacks_account cards) (with_account cards) m.claims d.resolved, d.resolved)
      (rw (quiet_rows code _ payments (record m { created = 0; updated = 0 }) d.quiet) refl)
