-- ===== src/FaNumber/Printed.antt =====
-- The text of `fa_number`, as the list of its digits.
use alo_bot_dashboard.Prelude.{
  ℕ, zero, suc, ◌+◌, ◌*◌, ◌-◌, ◌/◌, ◌%◌, ◌<◌, ◌≡◌, refl, ap, ◌∙◌, subst, inl, inr, Bool, true,
  false, ◌&&◌, ◌||◌, String, List, [], ◌∷◌, ◌++◌, arith, ◌==◌, leb, ltb, if◌then◌else◌, str_append,
  Bool-cases,
}
use Prim.Native.Char.{code}
use Prim.Native.String.append
use alo_bot_dashboard.Unicode.{Text, codes}
use alo_bot_dashboard.Messages.{thousands}
use alo_bot_dashboard.FaNumber.{fa_digit, padded, leading, grouped}

codes-append : (s t : String) → codes (str_append s t) ≡ codes s ++ codes t
codes-append String.[] t = ap codes (λ i. append.nil t i)
codes-append (String.◌∷◌ c s) t =
    ap codes (λ i. append.cons c s t i) ∙ ap (λ cs. code c ∷ cs) (codes-append s t)

-- the digits behind the separators, each as its value
abbrev pub values : Text → List ℕ
values [] = []
values (c ∷ cs) = if c == 1644 then values cs else (c - 1776) ∷ values cs

-- the number of a list of digits
abbrev pub number : ℕ → List ℕ → ℕ
number acc [] = acc
number acc (d ∷ ds) = number (acc * 10 + d) ds

abbrev is_printed : ℕ → Bool
is_printed c = (leb 1776 c && leb c 1785) || c == 1644

abbrev pub IsPrinted : Text → Type 0
IsPrinted [] = Unit
IsPrinted (c ∷ cs) = (is_printed c ≡ true) × IsPrinted cs

append-IsPrinted : (cs ds : Text) → IsPrinted cs → IsPrinted ds → IsPrinted (cs ++ ds)
append-IsPrinted [] ds h k = k
append-IsPrinted (c ∷ cs) ds h k = (h.0, append-IsPrinted cs ds h.1 k)

values-append : (cs ds : Text) → values (cs ++ ds) ≡ values cs ++ values ds
values-append [] ds = refl
values-append (c ∷ cs) ds = ground (arith, values-append cs ds)

number-append : (acc : ℕ) (xs ys : List ℕ) → number acc (xs ++ ys) ≡ number (number acc xs) ys
number-append acc [] ys = refl
number-append acc (x ∷ xs) ys = number-append (acc * 10 + x) xs ys

fa_digit-codes : (d : ℕ) → d < 10 → codes (fa_digit d) ≡ (1776 + d) ∷ []
unfolding fa_digit
fa_digit-codes zero h = refl
fa_digit-codes (suc zero) h = refl
fa_digit-codes (suc (suc zero)) h = refl
fa_digit-codes (suc (suc (suc zero))) h = refl
fa_digit-codes (suc (suc (suc (suc zero)))) h = refl
fa_digit-codes (suc (suc (suc (suc (suc zero))))) h = refl
fa_digit-codes (suc (suc (suc (suc (suc (suc zero)))))) h = refl
fa_digit-codes (suc (suc (suc (suc (suc (suc (suc zero))))))) h = refl
fa_digit-codes (suc (suc (suc (suc (suc (suc (suc (suc zero)))))))) h = refl
fa_digit-codes (suc (suc (suc (suc (suc (suc (suc (suc (suc zero))))))))) h = refl
fa_digit-codes (suc (suc (suc (suc (suc (suc (suc (suc (suc (suc d)))))))))) h =
    absurd (omega arith)

padded-codes :
    (n : ℕ)
    → n < 1000
    → codes (padded n) ≡ (1776 + n / 100) ∷ (1776 + n / 10 % 10) ∷ (1776 + n % 10) ∷ []
unfolding padded
padded-codes n h =
    rw (codes-append (fa_digit (n / 100)) (str_append (fa_digit (n / 10 % 10)) (fa_digit (n % 10))))
      (rw (codes-append (fa_digit (n / 10 % 10)) (fa_digit (n % 10))) (
        rw (fa_digit-codes (n / 100) (omega (arith, h))) (
          rw (fa_digit-codes (n / 10 % 10) (omega arith))
            (rw (fa_digit-codes (n % 10) (omega arith)) refl))))

abbrev pub is_nonempty : List ℕ → Bool
is_nonempty [] = false
is_nonempty (d ∷ ds) = true

nonempty-append : (xs ys : List ℕ) → is_nonempty ys ≡ true → is_nonempty (xs ++ ys) ≡ true
nonempty-append [] ys h = h
nonempty-append (x ∷ xs) ys h = refl

-- what the text of a number reads as, behind the digits before it
pub record Reads (cs : Text) (n : ℕ) : Type 0 where
  pub printed : IsPrinted cs
  pub value : number 0 (values cs) ≡ n
  pub full : is_nonempty (values cs) ≡ true

digit-printed : (d : ℕ) → d < 10 → is_printed (1776 + d) ≡ true
digit-printed d h = ground (arith, h)

digit-values : (d : ℕ) (cs : Text) → values ((1776 + d) ∷ cs) ≡ d ∷ values cs
digit-values d cs =
    let other : ((1776 + d) == 1644) ≡ false = ground arith in
    let same : 1776 + d - 1776 ≡ d = omega arith in rw other (rw same refl)

three_digits :
    (a b c : ℕ)
    → a < 10
    → b < 10
    → c < 10
    → (IsPrinted ((1776 + a) ∷ (1776 + b) ∷ (1776 + c) ∷ []))
      × (values ((1776 + a) ∷ (1776 + b) ∷ (1776 + c) ∷ []) ≡ a ∷ b ∷ c ∷ [])
three_digits a b c h h' h'' = (
  (digit-printed a h, (digit-printed b h', (digit-printed c h'', tt))),
  rw (digit-values a ((1776 + b) ∷ (1776 + c) ∷ []))
      (rw (digit-values b ((1776 + c) ∷ [])) (rw (digit-values c []) refl)),
)

leading-Reads : (n : ℕ) → n < 1000 → Reads (codes (leading n)) n
unfolding leading
leading-Reads n h = elim (Bool-cases (ltb n 10)) [
  | inl one ↦ rw one (
      rw (fa_digit-codes n (ground (arith, one))) record {
        printed = (digit-printed n (ground (arith, one)), tt);
        value = rw (digit-values n []) (omega arith);
        full = rw (digit-values n []) refl;
      })
  | inr more ↦ rw more (elim (Bool-cases (ltb n 100)) [
    | inl two ↦ rw two (
        rw (codes-append (fa_digit (n / 10)) (fa_digit (n % 10))) (
          rw (fa_digit-codes (n / 10) (ground (arith, two))) (
            rw (fa_digit-codes (n % 10) (omega arith)) record {
              printed = (
                digit-printed (n / 10) (ground (arith, two)),
                (digit-printed (n % 10) (omega arith), tt),
              );
              value =
                  rw (digit-values (n / 10) ((1776 + n % 10) ∷ []))
                    (rw (digit-values (n % 10) []) (omega arith));
              full = rw (digit-values (n / 10) ((1776 + n % 10) ∷ [])) refl;
            })))
    | inr three ↦ rw three (
        rw (padded-codes n h) (
          let (p, v) =
            three_digits (n / 100) (n / 10 % 10) (n % 10) (omega (arith, h)) (omega arith)
              (omega arith) in
          record { printed = p; value = rw v (omega (arith, h)); full = rw v refl }))
  ])
]

-- the last group, behind a separator
group-Reads :
    (s : String) (n m : ℕ)
    → m < 1000
    → Reads (codes s) n
    → Reads (codes (str_append s (str_append thousands (padded m)))) (n * 1000 + m)
group-Reads s n m h r = rw (codes-append s (str_append thousands (padded m))) (
    rw (codes-append thousands (padded m)) (
      rw (padded-codes m h) (
        let (p, v) =
          three_digits (m / 100) (m / 10 % 10) (m % 10) (omega (arith, h)) (omega arith)
            (omega arith) in
        record {
          printed = append-IsPrinted (codes s) _ r.printed (refl, p);
          value =
              rw
                (values-append (codes s)
                  (1644 ∷ (1776 + m / 100) ∷ (1776 + m / 10 % 10) ∷ (1776 + m % 10) ∷ []))
                (rw v (
                  rw (number-append 0 (values (codes s)) (m / 100 ∷ m / 10 % 10 ∷ m % 10 ∷ []))
                    (rw r.value (omega (arith, h)))));
          full =
              rw
                (values-append (codes s)
                  (1644 ∷ (1776 + m / 100) ∷ (1776 + m / 10 % 10) ∷ (1776 + m % 10) ∷ []))
                (rw v (nonempty-append (values (codes s)) _ refl));
        })))

pub grouped-Reads : (f n : ℕ) → n < f → Reads (codes (grouped f n)) n
unfolding grouped
grouped-Reads zero n h = absurd (omega arith)
grouped-Reads (suc f) n h = elim (Bool-cases (ltb n 1000)) [
  | inl small ↦ rw small (leading-Reads n (ground (arith, small)))
  | inr large ↦ rw large (
      let all : n / 1000 * 1000 + n % 1000 ≡ n = omega arith in
      subst
        (Reads
          (codes (str_append (grouped f (n / 1000)) (str_append thousands (padded (n % 1000))))))
        all
        (group-Reads (grouped f (n / 1000)) (n / 1000) (n % 1000) (omega arith)
          (grouped-Reads f (n / 1000) (ground (arith, large)))))
]
