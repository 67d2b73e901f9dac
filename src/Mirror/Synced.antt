-- ===== src/Mirror/Synced.antt =====
-- A second run of the mirror of services/claims.py on the same payments finds nothing to do.
use alo_bot_dashboard.Prelude.{
  ℕ, ◌≡◌, refl, ◌∙◌, inl, inr, Bool, true, false, not, ◌&&◌, String, List, [], ◌∷◌, arith, ◌==◌,
  ==_iff, str_eq, str_eq_iff, any_where, count_where, update_where, keep, All, All-mono, any-update,
  any-update_at, any_mono, any_where-false, count-update_at, count-update_drop, count_mono,
  count_zero, Bool-cases, and_true, done, Ensures, Ensures-bind, Ensures-done,
}
use alo_bot_dashboard.Books.{PaymentClaim}
use alo_bot_dashboard.Mirror.{
  Payment, is_pending, for_payment, is_read, Mirrored, Terms, new_claim, differs, follow,
  open_claim, mirror_row, mirror_rows,
}

abbrev follows_pending : Payment → PaymentClaim → Bool
follows_pending p c = for_payment p.id c && is_pending c.alobot_status

-- what the loop looks at for a payment: whether it is known, differs, and is followed as unresolved
record Same (p : Payment) (cs cs' : List PaymentClaim) : Type 0 where
  known : any_where (for_payment p.id) cs' ≡ any_where (for_payment p.id) cs
  different : count_where (differs p) cs' ≡ count_where (differs p) cs
  followed : any_where (follows_pending p) cs' ≡ any_where (follows_pending p) cs

-- if the payment is read, it has a claim, and no claim of it differs
pub record IsQuiet (cs : List PaymentClaim) (p : Payment) : Type 0 where
  pub known : is_read cs p ≡ true → any_where (for_payment p.id) cs ≡ true
  pub alike : is_read cs p ≡ true → count_where (differs p) cs ≡ 0

Same-IsQuiet :
    (p : Payment) (cs cs' : List PaymentClaim) → Same p cs cs' → IsQuiet cs p → IsQuiet cs' p
unfolding is_read
Same-IsQuiet p cs cs' s q = record {
  known = λ r. s.known ∙ q.known (rw s.followed at r);
  alike = λ r. s.different ∙ q.alike (rw s.followed at r);
}

update-Same :
    (p q : Payment) (cs : List PaymentClaim)
    → (q.id == p.id) ≡ false
    → Same q cs (update_where (differs p) (follow p) cs)
unfolding differs follow
update-Same p q cs apart = record {
  known = any-update (for_payment q.id) (differs p) (follow p) cs (λ c. refl);
  different = count-update_at (differs q) (differs p) (follow p) cs (λ c hit.
      ground (arith, hit, apart, ==_iff c.alobot_payment_id p.id, ==_iff c.alobot_payment_id q.id));
  followed = any-update_at (follows_pending q) (differs p) (follow p) cs (λ c hit.
      ground (arith, hit, apart, ==_iff c.alobot_payment_id p.id, ==_iff c.alobot_payment_id q.id));
}

new-Same :
    (code : ℕ → String) (terms : Terms) (p q : Payment) (rial id : ℕ) (cs : List PaymentClaim)
    → (q.id == p.id) ≡ false
    → Same q cs (new_claim code terms p rial id ∷ cs)
unfolding any_where count_where differs new_claim
new-Same code terms p q rial id cs apart = record {
  known = ground (arith, apart, ==_iff p.id q.id, ==_iff q.id p.id);
  different = ground (arith, apart, ==_iff p.id q.id, ==_iff q.id p.id);
  followed = ground (arith, apart, ==_iff p.id q.id, ==_iff q.id p.id);
}

-- one row leaves the other payments as they are
row-Same :
    (code : ℕ → String) (terms : Terms) (p q : Payment) (m : Mirrored)
    → (q.id == p.id) ≡ false
    → Ensures (λ (m' : Mirrored). Same q m.claims m'.claims) (mirror_row code terms p m)
unfolding mirror_row open_claim
row-Same code terms p q m apart = elim (Bool-cases (any_where (for_payment p.id) m.claims)) [
  | inl known ↦ rw known (Ensures-done _ (update-Same p q m.claims apart))
  | inr new ↦ rw new (elim (Bool-cases (is_pending p.status)) [
    | inl pending ↦ rw pending (
        Ensures-bind _ _ λ (rial : ℕ) e.
          Ensures-done _ (new-Same code terms p q rial m.next_claim_id m.claims apart))
    | inr over ↦
        rw over (Ensures-done _ (record { known = refl; different = refl; followed = refl }))
  ])
]

followed-IsQuiet :
    (p : Payment) (cs : List PaymentClaim)
    → count_where (differs p) (update_where (differs p) (follow p) cs) ≡ 0
unfolding differs follow
followed-IsQuiet p cs =
    count-update_drop (differs p) (differs p) (follow p) cs
      (λ c. ground (arith, (str_eq_iff p.status p.status).1 refl))
    ∙ count_zero _ cs λ c. ground arith

unknown-alike :
    (p : Payment) (cs : List PaymentClaim)
    → any_where (for_payment p.id) cs ≡ false
    → count_where (differs p) cs ≡ 0
unfolding differs
unknown-alike p cs new = omega (
  arith,
  any_where-false (for_payment p.id) cs new,
  count_mono (differs p) (for_payment p.id) cs
      λ c h. (and_true (for_payment p.id c) (not (str_eq c.alobot_status p.status)) h).0,
)

opened-IsQuiet :
    (code : ℕ → String) (terms : Terms) (p : Payment) (rial id : ℕ) (cs : List PaymentClaim)
    → any_where (for_payment p.id) cs ≡ false
    → IsQuiet (new_claim code terms p rial id ∷ cs) p
unfolding any_where count_where differs new_claim
opened-IsQuiet code terms p rial id cs new = record {
  known = λ r. ground arith;
  alike = λ r. ground (arith, unknown-alike p cs new, (str_eq_iff p.status p.status).1 refl);
}

unread-IsQuiet :
    (p : Payment) (cs : List PaymentClaim)
    → any_where (for_payment p.id) cs ≡ false
    → is_pending p.status ≡ false
    → is_read cs p ≡ false
unfolding is_read
unread-IsQuiet p cs new over = ground (
  arith,
  over,
  any_mono (follows_pending p) (for_payment p.id) cs
      (λ c h. (and_true (for_payment p.id c) (is_pending c.alobot_status) h).0) new,
)

-- and the payment itself quiet
row-IsQuiet :
    (code : ℕ → String) (terms : Terms) (p : Payment) (m : Mirrored)
    → Ensures (λ (m' : Mirrored). IsQuiet m'.claims p) (mirror_row code terms p m)
unfolding mirror_row open_claim
row-IsQuiet code terms p m = elim (Bool-cases (any_where (for_payment p.id) m.claims)) [
  | inl known ↦ rw known (
      Ensures-done _ (record {
        known =
            λ r. any-update (for_payment p.id) (differs p) (follow p) m.claims (λ c. refl) ∙ known;
        alike = λ r. followed-IsQuiet p m.claims;
      }))
  | inr new ↦ rw new (elim (Bool-cases (is_pending p.status)) [
    | inl pending ↦ rw pending (
        Ensures-bind _ _ λ (rial : ℕ) e.
          Ensures-done _ (opened-IsQuiet code terms p rial m.next_claim_id m.claims new))
    | inr over ↦ rw over (
        Ensures-done _ (record {
          known = λ r. absurd (cc (r, unread-IsQuiet p m.claims new over));
          alike = λ r. absurd (cc (r, unread-IsQuiet p m.claims new over));
        }))
  ])
]

-- payments have distinct ids
abbrev pub AreDistinct : List Payment → Type 0
AreDistinct [] = Unit {0}
AreDistinct (p ∷ ps) = All (λ q. (q.id == p.id) ≡ false) ps × AreDistinct ps

-- the loop leaves a payment that is none of its rows as it is
rows-keep :
    (code : ℕ → String) (terms : Terms) (q : Payment) (r : Payment → Bool) (ps : List Payment)
    (m : Mirrored)
    → All (λ p. (q.id == p.id) ≡ false) ps
    → IsQuiet m.claims q
    → Ensures (λ (m' : Mirrored). IsQuiet m'.claims q) (mirror_rows code terms (keep r ps) m)
unfolding mirror_rows
rows-keep code terms q r [] m apart quiet = Ensures-done _ quiet
rows-keep code terms q r (p ∷ ps) m apart quiet = elim (Bool-cases (r p)) [
  | inr out ↦ rw out (rows-keep code terms q r ps m apart.1 quiet)
  | inl read ↦ rw read (
      Ensures-bind _ _ λ (m' : Mirrored) e.
        rows-keep code terms q r ps m' apart.1
          (Same-IsQuiet q m.claims m'.claims ((row-Same code terms p q m apart.0).at m' e) quiet))
]

flip :
    (p : Payment) (ps : List Payment)
    → All (λ q. (q.id == p.id) ≡ false) ps
    → All (λ q. (p.id == q.id) ≡ false) ps
flip p ps all = All-mono _ _ ps (λ q h. ground (arith, h, ==_iff p.id q.id, ==_iff q.id p.id)) all

-- one row leaves the unread ones after it quiet
still-IsQuiet :
    (code : ℕ → String) (terms : Terms) (p : Payment) (r : Payment → Bool) (ps : List Payment)
    (m m1 : Mirrored)
    → mirror_row code terms p m ≡ done m1
    → All (λ q. (q.id == p.id) ≡ false) ps
    → All (λ q. r q ≡ false → IsQuiet m.claims q) ps
    → All (λ q. r q ≡ false → IsQuiet m1.claims q) ps
still-IsQuiet code terms p r [] m m1 e apart quiet = tt
still-IsQuiet code terms p r (q ∷ ps) m m1 e apart quiet = (
  (λ out.
      Same-IsQuiet q m.claims m1.claims ((row-Same code terms p q m apart.0).at m1 e)
        (quiet.0 out)),
  still-IsQuiet code terms p r ps m m1 e apart.1 quiet.1,
)

pub rows-IsQuiet :
    (code : ℕ → String) (terms : Terms) (r : Payment → Bool) (ps : List Payment) (m : Mirrored)
    → AreDistinct ps
    → All (λ p. r p ≡ false → IsQuiet m.claims p) ps
    → Ensures (λ (m' : Mirrored). All (IsQuiet m'.claims) ps) (mirror_rows code terms (keep r ps) m)
unfolding mirror_rows
rows-IsQuiet code terms r [] m distinct quiet = Ensures-done _ tt
rows-IsQuiet code terms r (p ∷ ps) m distinct quiet = record {
  at = λ m' e. elim (Bool-cases (r p)) [
    | inr out ↦
        let e' = rw out at e in
        (
          (rows-keep code terms p r ps m (flip p ps distinct.0) (quiet.0 out)).at m' e',
          (rows-IsQuiet code terms r ps m distinct.1 quiet.1).at m' e',
        )
    | inl read ↦
        ((Ensures-bind {P = λ (x : Mirrored). All (IsQuiet x.claims) (p ∷ ps)}
            (mirror_row code terms p m) (λ m1. mirror_rows code terms (keep r ps) m1)
            (λ (m1 : Mirrored) e1. record {
              at = λ m2 e2. (
                (rows-keep code terms p r ps m1 (flip p ps distinct.0)
                      ((row-IsQuiet code terms p m).at m1 e1)).at
                    m2 e2,
                (rows-IsQuiet code terms r ps m1 distinct.1
                      (still-IsQuiet code terms p r ps m m1 e1 distinct.0 quiet.1)).at
                    m2 e2,
              );
            })).at
          m' (rw read at e))
  ];
}
