-- ===== src/Telegram.antt =====
-- services/telegram.py: what one `sendMessage` came to. The request itself is the caller's
-- parameter; `permanent` decides whether the message can ever be delivered.
use Prim.Native.Char.{code}
use alo_bot_dashboard.Prelude.{
  ℕ, ◌+◌, Bool, true, false, ◌&&◌, ◌||◌, String, Option, List, [], ◌∷◌, ◌==◌, leb, if◌then◌else◌,
  is_num,
}

pub record SendResult : Type 0 where
  pub ok : Bool
  pub error_code : Option ℕ
  pub description : String
  pub retry_after : Option ℕ

-- `str.lower` in code points: the ASCII letters, and the two other characters (the Kelvin sign and
-- the dotted I) whose lower case holds an ASCII letter; the rest cannot take part in a match below
lower : String → List ℕ
lower String.[] = []
lower (String.◌∷◌ ch s) =
    let c = code ch in
    let rest = lower s in
    if leb 65 c && leb c 90
    then (c + 32) ∷ rest
    else if c == 8490
    then 107 ∷ rest
    else if c == 304
    then 105 ∷ 775 ∷ rest
    else c ∷ rest

codes : String → List ℕ
codes String.[] = []
codes (String.◌∷◌ ch s) = code ch ∷ codes s

is_prefix : List ℕ → List ℕ → Bool
is_prefix [] s = true
is_prefix (c ∷ p) [] = false
is_prefix (c ∷ p) (d ∷ s) = c == d && is_prefix p s

-- `p in s`
is_within : List ℕ → List ℕ → Bool
unfolding is_prefix
is_within p [] = is_prefix p []
is_within p (c ∷ s) = is_prefix p (c ∷ s) || is_within p s

abbrev permanent_descriptions : List String
permanent_descriptions =
    "blocked by the user" ∷ "user is deactivated" ∷ "chat not found"
    ∷ "bot can't initiate conversation" ∷ "bot was kicked" ∷ []

any_within : List String → List ℕ → Bool
unfolding is_within codes
any_within [] s = false
any_within (p ∷ ps) s = is_within (codes p) s || any_within ps s

unfoldable pub permanent : SendResult → Bool
unfolding any_within lower
permanent r =
    if is_num r.error_code 403
    then true
    else is_num r.error_code 400 && any_within permanent_descriptions (lower r.description)
