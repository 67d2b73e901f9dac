-- ===== src/Regex.antt =====
-- The regular expressions of app/sms, as Python's `re` runs them: backtracking, greedy, leftmost. An
-- expression has at most the constructs that the sources use.
use alo_bot_dashboard.Prelude.{
  ℕ, zero, suc, ◌-◌, Bool, true, false, not, ◌&&◌, ◌||◌, Option, none, some, List, [], ◌∷◌, ◌++◌,
  ◌==◌, if◌then◌else◌, length, take, find_where, is_some,
}
use alo_bot_dashboard.Unicode.{Text, Unicode}

pub data Regex : Type 0 where
  empty : Regex
  one_of : (ℕ → Bool) → Regex
  both : Regex → Regex → Regex
  either : Regex → Regex → Regex
  -- from so many to at most so many times, greedily
  repeated : ℕ → Option ℕ → Regex → Regex
  group : ℕ → Regex → Regex
  boundary : Regex
  -- `(?<![...])` and `(?![...])`
  not_after : (ℕ → Bool) → Regex
  not_before : (ℕ → Bool) → Regex

-- where a run stands: the character before, the text that is left, and the groups so far
pub record Cursor : Type 0 where
  pub before : Option ℕ
  pub rest : Text
  pub groups : List (ℕ × Text)

abbrev Continuation : Type 0
Continuation = Cursor → Option Cursor

-- what was read between two places
read : Cursor → Cursor → Text
read start c = take (length start.rest - length c.rest) start.rest

test : (ℕ → Bool) → Option ℕ → Bool
test p none = false
test p (some c) = p c

head : Text → Option ℕ
head [] = none
head (c ∷ cs) = some c

step_over : (ℕ → Bool) → Option ℕ → Text → List (ℕ × Text) → Option Cursor
step_over p before [] groups = none
step_over p before (c ∷ cs) groups =
    if p c then some (record { before = some c; rest = cs; groups = groups }) else none

-- the rounds of a repetition: another one if it can be, else the rest of the expression
rounds : ℕ → (Continuation → Continuation) → ℕ → Continuation → Continuation
rounds zero body least k c = if least == 0 then k c else none
rounds (suc n) body least k c =
    elim (body
      (λ c'. if length c'.rest == length c.rest then none else rounds n body (least - 1) k c') c) [
        | some found ↦ some found
        | none ↦ if least == 0 then k c else none
      ]

-- `none` bounds the rounds by the text that is left
most_rounds : Option ℕ → Text → ℕ
most_rounds (some n) cs = n
most_rounds none cs = length cs

module _ (u : Unicode) where
  run : Regex → Continuation → Continuation
  unfolding step_over rounds most_rounds test head read
  run Regex.empty k c = k c
  run (Regex.one_of p) k c = elim (step_over p c.before c.rest c.groups) [
    | none ↦ none
    | some c' ↦ k c'
  ]
  run (Regex.both r s) k c = run r (run s k) c
  run (Regex.either r s) k c = elim (run r k c) [ some found ↦ some found | none ↦ run s k c ]
  run (Regex.repeated least most r) k c = rounds (most_rounds most c.rest) (run r) least k c
  run (Regex.group n r) k c = run r (λ c'. k (record c' { groups = (n, read c c') ∷ c'.groups })) c
  run Regex.boundary k c =
      let left = test (u.is_word) c.before in
      let right = test (u.is_word) (head c.rest) in
      if (left && not right) || (not left && right) then k c else none
  run (Regex.not_after p) k c = if test p c.before then none else k c
  run (Regex.not_before p) k c = if test p (head c.rest) then none else k c

  -- a match at one place, and where it ends
  pub match_at : Regex → Option ℕ → Text → Option Cursor
  unfolding run
  match_at r before cs = run r some (record { before = before; rest = cs; groups = [] })

  -- `re.search`: the whole match and its groups
  search_from : Regex → Option ℕ → Text → Option (Text × List (ℕ × Text))
  unfolding match_at
  search_from r before [] = elim (match_at r before []) [
    | none ↦ none
    | some c ↦ some ([], c.groups)
  ]
  search_from r before (x ∷ xs) =
      let later = search_from r (some x) xs in
      elim (match_at r before (x ∷ xs)) [
        | some c ↦ some (take (length (x ∷ xs) - length c.rest) (x ∷ xs), c.groups)
        | none ↦ later
      ]

  unfoldable pub find : Regex → Text → Option (Text × List (ℕ × Text))
  unfolding search_from
  find r cs = search_from r none cs

  -- `r.search(text)` as a test
  unfoldable pub matches : Regex → Text → Bool
  unfolding find
  matches r cs = is_some (find r cs)

  -- `r.sub(with, text)`, of an expression that matches no empty text; the fuel is the length
  sub_from : ℕ → Regex → Text → Option ℕ → Text → Text
  unfolding match_at
  sub_from zero r by before cs = cs
  sub_from (suc n) r by before [] = []
  sub_from (suc n) r by before (x ∷ xs) = elim (match_at r before (x ∷ xs)) [
    | some c ↦ elim (length c.rest == length (x ∷ xs)) [
      | true ↦ x ∷ sub_from n r by (some x) xs
      | false ↦ by ++ sub_from n r by c.before c.rest
    ]
    | none ↦ x ∷ sub_from n r by (some x) xs
  ]

  unfoldable pub sub : Regex → Text → Text → Text
  unfolding sub_from
  sub r by cs = sub_from (length cs) r by none cs

-- `m.group(n)`
unfoldable pub group_of : ℕ → List (ℕ × Text) → Option Text
group_of n gs = elim (find_where (λ (g : ℕ × Text). g.0 == n) gs) [
  | none ↦ none
  | some g ↦ some (g.1)
]
