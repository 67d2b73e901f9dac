-- ===== src/RateLimit.antt =====
-- core/ratelimit.py: the fixed window of requests for each key. The clock is given in whole units.
use alo_bot_dashboard.Prelude.{
  ℕ, ◌+◌, ◌≤◌, ◌<◌, ◌≡◌, refl, sym, subst, inl, inr, Bool, false, ◌&&◌, String, List, [], ◌∷◌,
  arith, if◌then◌else◌, leb, min, str_eq, str_eq_iff, All, Bool-cases, length, keep,
}

pub record Bucket : Type 0 where
  pub started : ℕ
  pub count : ℕ

-- the `defaultdict`
abbrev pub Buckets : Type 0
Buckets = String → Bucket

-- an empty one, also after `reset`
abbrev pub no_buckets : Buckets
no_buckets key = record { started = 0; count = 0 }

-- the bucket after a request at `now`
unfoldable pub counted : ℕ → ℕ → Bucket → Bucket
counted window now b =
    if leb (b.started + window) now
    then record { started = now; count = 1 }
    else record { started = b.started; count = b.count + 1 }

-- `hit`
unfoldable pub hit : ℕ → ℕ → String → ℕ → Buckets → Buckets × Bool
unfolding counted
hit limit window key now buckets =
    let b = counted window now (buckets key) in
    ((λ k. if str_eq k key then b else buckets k), leb b.count limit)

-- a request: its key and its moment
pub record Request : Type 0 where
  pub key : String
  pub at : ℕ

-- how many requests with a key are let through, of requests one after the other
unfoldable pub let_through : ℕ → ℕ → String → List Request → Buckets → ℕ
unfolding hit
let_through limit window key [] buckets = 0
let_through limit window key (r ∷ rs) buckets =
    let (buckets', ok) = hit limit window r.key r.at buckets in
    (if ok && str_eq key r.key then 1 else 0) + let_through limit window key rs buckets'

-- the requests with the key
abbrev with_key : String → List Request → List Request
with_key key rs = keep (λ r. str_eq key r.key) rs

module _ (limit window : ℕ) (key : String) where
  -- a request with another key leaves the bucket alone
  hit-other :
      (other : String) (now : ℕ) (buckets : Buckets)
      → str_eq key other ≡ false
      → (hit limit window other now buckets).0 key ≡ buckets key
  unfolding hit
  hit-other other now buckets apart = rw apart refl

  -- one with the key, before the window is over, is counted
  hit-mine :
      (now : ℕ) (buckets : Buckets)
      → now < (buckets key).started + window
      → (hit limit window key now buckets).0 key
        ≡ record { started = (buckets key).started; count = (buckets key).count + 1 }
  unfolding hit counted
  hit-mine now buckets early = rw ((str_eq_iff key key).1 refl) (ground (arith, early))

  -- and let through where the limit is not reached
  hit-allowed :
      (now : ℕ) (buckets : Buckets)
      → now < (buckets key).started + window
      → (hit limit window key now buckets).1 ≡ leb ((buckets key).count + 1) limit
  unfolding hit counted
  hit-allowed now buckets early = ground (arith, early)

  -- in a window that is open, the requests that are still let through
  let_through-open :
      (rs : List Request) (buckets : Buckets)
      → All (λ r. r.at < (buckets key).started + window) rs
      → let_through limit window key rs buckets + min (buckets key).count limit
        ≡ min ((buckets key).count + length (with_key key rs)) limit
  unfolding let_through
  let_through-open [] buckets all = omega arith
  let_through-open (r ∷ rs) buckets all = elim (Bool-cases (str_eq key r.key)) [
    | inl mine ↦
        let same : key ≡ r.key = (str_eq_iff key r.key).0 mine in
        let b' = (hit limit window key r.at buckets).0 in
        let here = hit-mine r.at buckets all.0 in
        let rest =
          let_through-open rs b'
            (subst (λ (b : Bucket). All (λ x. x.at < b.started + window) rs) (sym here) all.1) in
        rw (← same) (
          ground (
            arith,
            mine,
            hit-allowed r.at buckets all.0,
            rw here at rest,
            (str_eq_iff key key).1 refl,
          ))
    | inr other ↦
        let b' = (hit limit window r.key r.at buckets).0 in
        let here = hit-other r.key r.at buckets other in
        let rest =
          let_through-open rs b'
            (subst (λ (b : Bucket). All (λ x. x.at < b.started + window) rs) (sym here) all.1) in
        rw other (ground (arith, rw here at rest))
  ]

  -- one with the key, after the window, opens the next
  hit-new :
      (now : ℕ) (buckets : Buckets)
      → (buckets key).started + window ≤ now
      → ((hit limit window key now buckets).0 key ≡ record { started = now; count = 1 })
        × ((hit limit window key now buckets).1 ≡ leb 1 limit)
  unfolding hit counted
  hit-new now buckets over =
      (rw ((str_eq_iff key key).1 refl) (ground (arith, over)), ground (arith, over))

  -- Of the requests that come with one key while its window is open, exactly the first ones up to
  -- the limit are let through, however many come with other keys in between.
  pub window-limit :
      (first : ℕ) (rs : List Request) (buckets : Buckets)
      → (buckets key).started + window ≤ first
      → All (λ r. r.at < first + window) rs
      → let_through limit window key (record { key = key; at = first } ∷ rs) buckets
        ≡ min (1 + length (with_key key rs)) limit
  unfolding let_through
  window-limit first rs buckets over all =
      let b' = (hit limit window key first buckets).0 in
      let (here, ok) = hit-new first buckets over in
      let rest =
        let_through-open rs b'
          (subst (λ (b : Bucket). All (λ x. x.at < b.started + window) rs) (sym here) all) in
      ground (arith, ok, rw here at rest, (str_eq_iff key key).1 refl)
