-- ===== src/Prelude/Rows.antt =====
-- A database table as a list of rows, whose order carries no meaning: counting, finding and
-- updating the rows that meet a condition.
use Prim.Native.Nat.{ℕ, zero, suc, ◌+◌, ◌≤◌}
use mathlib.Core.Path.{◌≡◌, refl}
use mathlib.Core.Bool.{Bool, true, false, not, ◌&&◌}
use mathlib.Core.Option.{Option, none, some}
use mathlib.Core.List.{List, [], ◌∷◌}
use native.Mathlib.Omega.{arith}
use alo_bot_dashboard.Prelude.Tests.{if◌then◌else◌, ◌==◌, and_true}
use alo_bot_dashboard.Prelude.Lists.{All, insert_by, sort_by, take, keep}

module _ {ℓ} {A : Type ℓ} where
  -- `SELECT count(*) ... WHERE p`, and the `rowcount` of an UPDATE
  unfoldable pub count_where : (A → Bool) → List A → ℕ
  count_where p [] = 0
  count_where p (x ∷ xs) = (if p x then 1 else 0) + count_where p xs

  -- `SELECT ... WHERE p` that takes one row
  unfoldable pub find_where : (A → Bool) → List A → Option A
  find_where p [] = none
  find_where p (x ∷ xs) = if p x then some x else find_where p xs

  -- `EXISTS (SELECT 1 ... WHERE p)`
  unfoldable pub any_where : (A → Bool) → List A → Bool
  any_where p [] = false
  any_where p (x ∷ xs) = if p x then true else any_where p xs

  -- `UPDATE ... SET f WHERE p`
  unfoldable pub update_where : (A → Bool) → (A → A) → List A → List A
  update_where p f [] = []
  update_where p f (x ∷ xs) = (if p x then f x else x) ∷ update_where p f xs

  pub find_where_holds :
      (p : A → Bool) (xs : List A) (a : A) → find_where p xs ≡ some a → p a ≡ true
  unfolding find_where
  find_where_holds p [] a h = cc
  find_where_holds p (x ∷ xs) a h = ground (arith, find_where_holds p xs a)

  pub All-find_where :
      (P : A → Type 0) (p : A → Bool) (xs : List A) (a : A)
      → All P xs
      → find_where p xs ≡ some a
      → P a
  unfolding find_where
  All-find_where P p [] a all h = cc
  All-find_where P p (x ∷ xs) a all h = ground (arith, All-find_where P p xs a all.1)

  pub All-mono : (P Q : A → Type 0) (xs : List A) → ((x : A) → P x → Q x) → All P xs → All Q xs
  All-mono P Q [] f h = tt
  All-mono P Q (x ∷ xs) f h = (f x h.0, All-mono P Q xs f h.1)

  pub All-update :
      (P Q : A → Type 0) (p : A → Bool) (f : A → A) (xs : List A)
      → ((x : A) → P x → Q (if p x then f x else x))
      → All P xs
      → All Q (update_where p f xs)
  unfolding update_where
  All-update P Q p f [] k h = tt
  All-update P Q p f (x ∷ xs) k h = (k x h.0, All-update P Q p f xs k h.1)

  -- an update that leaves a test alone leaves its count alone
  pub count-update :
      (q p : A → Bool) (f : A → A) (xs : List A)
      → ((x : A) → q (f x) ≡ q x)
      → count_where q (update_where p f xs) ≡ count_where q xs
  unfolding count_where update_where
  count-update q p f [] k = refl
  count-update q p f (x ∷ xs) k = ground (arith, k x, count-update q p f xs k)

  -- ... and it is enough that it does so on the rows that it reaches
  pub count-update_at :
      (q p : A → Bool) (f : A → A) (xs : List A)
      → ((x : A) → p x ≡ true → q (f x) ≡ q x)
      → count_where q (update_where p f xs) ≡ count_where q xs
  unfolding count_where update_where
  count-update_at q p f [] k = refl
  count-update_at q p f (x ∷ xs) k = ground (arith, k x, count-update_at q p f xs k)

  -- an update that makes the test fail removes exactly the rows that it reaches
  pub count-update_drop :
      (q p : A → Bool) (f : A → A) (xs : List A)
      → ((x : A) → q (f x) ≡ false)
      → count_where q (update_where p f xs) ≡ count_where (λ x. q x && not (p x)) xs
  unfolding count_where update_where
  count-update_drop q p f [] k = refl
  count-update_drop q p f (x ∷ xs) k = ground (arith, k x, count-update_drop q p f xs k)

  pub count_mono :
      (p q : A → Bool) (xs : List A)
      → ((x : A) → p x ≡ true → q x ≡ true)
      → count_where p xs ≤ count_where q xs
  unfolding count_where
  count_mono p q [] k = omega arith
  count_mono p q (x ∷ xs) k = ground (arith, k x, count_mono p q xs k)

  pub count_zero : (p : A → Bool) (xs : List A) → ((x : A) → p x ≡ false) → count_where p xs ≡ 0
  unfolding count_where
  count_zero p [] k = refl
  count_zero p (x ∷ xs) k = ground (arith, k x, count_zero p xs k)

  -- where at most one row meets `q`, and one meets `q` and `p`, every row with `q` has `p`
  pub All-of_count :
      (q p : A → Bool) (xs : List A)
      → count_where q xs ≤ count_where (λ x. q x && p x) xs
      → All (λ x. q x ≡ true → p x ≡ true) xs
  unfolding count_where
  All-of_count q p [] h = tt
  All-of_count q p (x ∷ xs) h = (
    ground (arith, count_mono (λ y. q y && p y) q xs λ y k. (and_true (q y) (p y) k).0),
    All-of_count q p xs
        (ground (arith, count_mono (λ y. q y && p y) q xs λ y k. (and_true (q y) (p y) k).0)),
  )

  pub All-both : (P Q : A → Type 0) (xs : List A) → All P xs → All Q xs → All (λ x. P x × Q x) xs
  All-both P Q [] g h = tt
  All-both P Q (x ∷ xs) g h = ((g.0, h.0), All-both P Q xs g.1 h.1)

  pub count-pos_of_find :
      (p : A → Bool) (xs : List A) (a : A) → find_where p xs ≡ some a → 1 ≤ count_where p xs
  unfolding count_where find_where
  count-pos_of_find p [] a h = cc
  count-pos_of_find p (x ∷ xs) a h = ground (arith, count-pos_of_find p xs a)

  pub any_where-false : (p : A → Bool) (xs : List A) → any_where p xs ≡ false → count_where p xs ≡ 0
  unfolding count_where any_where
  any_where-false p [] h = refl
  any_where-false p (x ∷ xs) h = ground (arith, any_where-false p xs)

  pub any_where-true : (p : A → Bool) (xs : List A) → any_where p xs ≡ true → 1 ≤ count_where p xs
  unfolding count_where any_where
  any_where-true p [] h = cc
  any_where-true p (x ∷ xs) h = ground (arith, any_where-true p xs)

  -- `EXISTS` and `SELECT` agree
  pub any_where-find :
      (p : A → Bool) (xs : List A)
      → any_where p xs ≡ elim (find_where p xs) [ none ↦ false | some a ↦ true ]
  unfolding any_where find_where
  any_where-find p [] = refl
  any_where-find p (x ∷ xs) = ground (arith, any_where-find p xs)

  pub find-none_of_count :
      (p : A → Bool) (xs : List A) → count_where p xs ≡ 0 → find_where p xs ≡ none
  unfolding count_where find_where
  find-none_of_count p [] h = refl
  find-none_of_count p (x ∷ xs) h = ground (arith, find-none_of_count p xs)

module _ {ℓ} {A : Type ℓ} (key : A → ℕ) where
  -- the stable sort keeps the first row with a given key
  find-insert_by :
      (j : ℕ) (x : A) (xs : List A)
      → find_where (λ y. key y == j) (insert_by key x xs)
        ≡ (if key x == j then some x else find_where (λ y. key y == j) xs)
  unfolding find_where
  find-insert_by j x [] = refl
  find-insert_by j x (y ∷ ys) = ground (arith, find-insert_by j x ys)

  pub find-sort_by :
      (j : ℕ) (xs : List A)
      → find_where (λ y. key y == j) (sort_by key xs) ≡ find_where (λ y. key y == j) xs
  unfolding find_where
  find-sort_by j [] = refl
  find-sort_by j (x ∷ xs) = ground (arith, find-insert_by j x (sort_by key xs), find-sort_by j xs)

  count-insert_by :
      (p : A → Bool) (x : A) (xs : List A)
      → count_where p (insert_by key x xs) ≡ (if p x then 1 else 0) + count_where p xs
  unfolding count_where
  count-insert_by p x [] = refl
  count-insert_by p x (y ∷ ys) = ground (arith, count-insert_by p x ys)

  pub count-sort_by :
      (p : A → Bool) (xs : List A) → count_where p (sort_by key xs) ≡ count_where p xs
  unfolding count_where
  count-sort_by p [] = refl
  count-sort_by p (x ∷ xs) =
      ground (arith, count-insert_by p x (sort_by key xs), count-sort_by p xs)

module _ {ℓ} {A : Type ℓ} where
  -- an update that leaves a test alone leaves its answer alone
  pub any-update :
      (q p : A → Bool) (f : A → A) (xs : List A)
      → ((x : A) → q (f x) ≡ q x)
      → any_where q (update_where p f xs) ≡ any_where q xs
  unfolding any_where update_where
  any-update q p f [] k = refl
  any-update q p f (x ∷ xs) k = ground (arith, k x, any-update q p f xs k)

  -- an update that reaches no row with the test leaves the row that is found alone
  pub find-update_other :
      (q p : A → Bool) (f : A → A) (xs : List A)
      → ((x : A) → q (f x) ≡ q x)
      → ((x : A) → q x ≡ true → p x ≡ false)
      → find_where q (update_where p f xs) ≡ find_where q xs
  unfolding find_where update_where
  find-update_other q p f [] k o = refl
  find-update_other q p f (x ∷ xs) k o = ground (arith, k x, o x, find-update_other q p f xs k o)

  -- an update of the rows with the test changes the row that is found
  pub find-update_self :
      (q p : A → Bool) (f : A → A) (xs : List A) (a : A)
      → ((x : A) → q (f x) ≡ q x)
      → find_where q xs ≡ some a
      → find_where q (update_where p f xs) ≡ some (if p a then f a else a)
  unfolding find_where update_where
  find-update_self q p f [] a k h = cc
  find-update_self q p f (x ∷ xs) a k h = ground (arith, k x, find-update_self q p f xs a k)

  pub any-take :
      (p : A → Bool) (n : ℕ) (xs : List A)
      → any_where p xs ≡ false
      → any_where p (take n xs) ≡ false
  unfolding any_where
  any-take p zero xs h = refl
  any-take p (suc n) [] h = refl
  any-take p (suc n) (x ∷ xs) h = ground (arith, any-take p n xs)

  any-insert_by :
      (key : A → ℕ) (p : A → Bool) (x : A) (xs : List A)
      → any_where p (insert_by key x xs) ≡ (if p x then true else any_where p xs)
  unfolding any_where
  any-insert_by key p x [] = refl
  any-insert_by key p x (y ∷ ys) = ground (arith, any-insert_by key p x ys)

  pub any-sort_by :
      (key : A → ℕ) (p : A → Bool) (xs : List A) → any_where p (sort_by key xs) ≡ any_where p xs
  unfolding any_where
  any-sort_by key p [] = refl
  any-sort_by key p (x ∷ xs) =
      ground (arith, any-insert_by key p x (sort_by key xs), any-sort_by key p xs)

  none_kept :
      (q p : A → Bool) (xs : List A) → count_where q xs ≡ 0 → any_where q (keep p xs) ≡ false
  unfolding any_where count_where
  none_kept q p [] h = refl
  none_kept q p (x ∷ xs) h = ground (arith, none_kept q p xs)

  -- what a unique key finds is the only row that a further filter could keep
  pub any-keep_unique :
      (q p : A → Bool) (xs : List A) (a : A)
      → count_where q xs ≤ 1
      → find_where q xs ≡ some a
      → p a ≡ false
      → any_where q (keep p xs) ≡ false
  unfolding any_where count_where find_where
  any-keep_unique q p [] a u h n = cc
  any-keep_unique q p (x ∷ xs) a u h n = ground (arith, any-keep_unique q p xs a, none_kept q p xs)

module _ {ℓ} {A : Type ℓ} where
  -- a unique key and a second test: the row that is found decides the count
  pub count_of_unique :
      (q p : A → Bool) (xs : List A) (a : A)
      → count_where q xs ≤ 1
      → find_where q xs ≡ some a
      → count_where (λ x. q x && p x) xs ≡ (if p a then 1 else 0)
  unfolding count_where find_where
  count_of_unique q p [] a u h = cc
  count_of_unique q p (x ∷ xs) a u h = ground (
    arith,
    count_of_unique q p xs a,
    count_mono (λ y. q y && p y) q xs λ y k. (and_true (q y) (p y) k).0,
  )

  pub any-true_of_count :
      (p : A → Bool) (xs : List A) → 1 ≤ count_where p xs → any_where p xs ≡ true
  unfolding count_where any_where
  any-true_of_count p [] h = absurd (omega arith)
  any-true_of_count p (x ∷ xs) h = ground (arith, any-true_of_count p xs)

  pub any-false_of_count :
      (p : A → Bool) (xs : List A) → count_where p xs ≡ 0 → any_where p xs ≡ false
  unfolding count_where any_where
  any-false_of_count p [] h = refl
  any-false_of_count p (x ∷ xs) h = ground (arith, any-false_of_count p xs)

  -- where no row meets the second test, and each row that meets the first does
  pub count-zero_of_All :
      (p : A → Bool) (xs : List A) → All (λ x. p x ≡ false) xs → count_where p xs ≡ 0
  unfolding count_where
  count-zero_of_All p [] h = refl
  count-zero_of_All p (x ∷ xs) h = ground (arith, count-zero_of_All p xs h.1)

  pub count_split :
      (p q : A → Bool) (xs : List A)
      → count_where p xs ≡ count_where (λ x. p x && q x) xs + count_where (λ x. p x && not (q x)) xs
  unfolding count_where
  count_split p q [] = refl
  count_split p q (x ∷ xs) = ground (arith, count_split p q xs)

  -- the rows that an update reaches satisfy what it establishes
  pub count-update_made :
      (q p : A → Bool) (f : A → A) (xs : List A)
      → ((x : A) → p x ≡ true → q (f x) ≡ true)
      → count_where p xs ≤ count_where q (update_where p f xs)
  unfolding count_where update_where
  count-update_made q p f [] k = omega arith
  count-update_made q p f (x ∷ xs) k = ground (arith, k x, count-update_made q p f xs k)

  -- an update that makes no row fail the test removes none from its count
  pub count-update_grow :
      (q p : A → Bool) (f : A → A) (xs : List A)
      → ((x : A) → p x ≡ true → q x ≡ true → q (f x) ≡ true)
      → count_where q xs ≤ count_where q (update_where p f xs)
  unfolding count_where update_where
  count-update_grow q p f [] k = omega arith
  count-update_grow q p f (x ∷ xs) k = ground (arith, k x, count-update_grow q p f xs k)

  -- an update that makes no row meet the test adds none to its count
  pub count-update_shrink :
      (q p : A → Bool) (f : A → A) (xs : List A)
      → ((x : A) → q (f x) ≡ true → q x ≡ true)
      → count_where q (update_where p f xs) ≤ count_where q xs
  unfolding count_where update_where
  count-update_shrink q p f [] k = omega arith
  count-update_shrink q p f (x ∷ xs) k = ground (arith, k x, count-update_shrink q p f xs k)

  pub find_where-head :
      (p : A → Bool) (x : A) (xs : List A) → p x ≡ true → find_where p (x ∷ xs) ≡ some x
  unfolding find_where
  find_where-head p x xs h = rw h refl

  -- an update that reaches no row does nothing
  pub update-none :
      (p : A → Bool) (f : A → A) (xs : List A) → count_where p xs ≡ 0 → update_where p f xs ≡ xs
  unfolding count_where update_where
  update-none p f [] h = refl
  update-none p f (x ∷ xs) h = ground (arith, update-none p f xs)

  pub any_mono :
      (p q : A → Bool) (xs : List A)
      → ((x : A) → p x ≡ true → q x ≡ true)
      → any_where q xs ≡ false
      → any_where p xs ≡ false
  unfolding any_where
  any_mono p q [] k h = refl
  any_mono p q (x ∷ xs) k h = ground (arith, k x, any_mono p q xs k)

  -- an update that leaves a test alone on the rows that it reaches leaves its answer alone
  pub any-update_at :
      (q p : A → Bool) (f : A → A) (xs : List A)
      → ((x : A) → p x ≡ true → q (f x) ≡ q x)
      → any_where q (update_where p f xs) ≡ any_where q xs
  unfolding any_where update_where
  any-update_at q p f [] k = refl
  any-update_at q p f (x ∷ xs) k = ground (arith, k x, any-update_at q p f xs k)

  pub none_of_find : (p : A → Bool) (xs : List A) → find_where p xs ≡ none → count_where p xs ≡ 0
  unfolding find_where count_where
  none_of_find p [] h = refl
  none_of_find p (x ∷ xs) h = ground (arith, none_of_find p xs)

  -- a row joins where no row meets the test
  pub unique_cons :
      (p : A → Bool) (a : A) (xs : List A)
      → count_where p xs ≤ 1
      → (p a ≡ true → count_where p xs ≡ 0)
      → count_where p (a ∷ xs) ≤ 1
  unfolding count_where
  unique_cons p a xs h fresh = ground (arith, h, fresh)

  pub count-keep : (q p : A → Bool) (xs : List A) → count_where q (keep p xs) ≤ count_where q xs
  unfolding count_where
  count-keep q p [] = omega arith
  count-keep q p (x ∷ xs) = ground (arith, count-keep q p xs)
