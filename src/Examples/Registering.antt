-- ===== src/Examples/Registering.antt =====
-- services/accounts.py on an empty registry: an account, an identifier of it, and a card.
use alo_bot_dashboard.Prelude.{
  ℕ, ◌≡◌, refl, Bool, true, false, String, some, List, [], ◌∷◌, arith, str_eq, count_where,
  if◌then◌else◌, any_where, done, refused, ◌>>=◌,
}
use alo_bot_dashboard.Audit.{Actor}
use alo_bot_dashboard.Accounts.{
  IdentifierKind, Registry, RegistryResult, luhn_ok, create_account, add_card,
}
use alo_bot_dashboard.Accounts.Luhn.{luhn-catches}
use alo_bot_dashboard.Accounts.Unique.{IsUnique, Registered, Registrations, Registrations-IsUnique}

abbrev actor_sara : Actor
actor_sara = record { id = 1; email = "sara@shop.example"; role = "ADMIN" }

abbrev empty : Registry
empty = record {
  accounts = [];
  next_account_id = 1;
  identifiers = [];
  next_identifier_id = 1;
  cards = [];
  next_card_id = 1;
  audit = [];
}

abbrev card_number : List ℕ
card_number = 4 ∷ 2 ∷ 4 ∷ 2 ∷ 4 ∷ 2 ∷ 4 ∷ 2 ∷ 4 ∷ 2 ∷ 4 ∷ 2 ∷ 4 ∷ 2 ∷ 4 ∷ 2 ∷ []

abbrev digits : String → List ℕ
digits raw = if str_eq raw "4242 4242 4242 4242" then card_number else []

abbrev spell : List ℕ → String
spell number = "4242424242424242"

abbrev clean : String → String
clean t = t

abbrev four : String → Bool
four t = str_eq t "4242"

abbrev opening : RegistryResult
opening =
    create_account clean four actor_sara "Mellat" "Shop" "" (some IdentifierKind.card_last4) "4242"
      empty

abbrev or_empty : RegistryResult → Registry
or_empty (done r) = r
or_empty (refused e) = empty

abbrev opened_registry : Registry
opened_registry = or_empty opening

opens : opening ≡ done opened_registry
unfolding create_account ◌>>=◌ any_where
opens = refl

abbrev carded_registry : Registry
carded_registry =
    or_empty (add_card digits spell actor_sara 1 "4242 4242 4242 4242" "Sara" opened_registry)

cards_once :
    add_card digits spell actor_sara 1 "4242 4242 4242 4242" "Sara" opened_registry
    ≡ done carded_registry
unfolding create_account add_card ◌>>=◌ any_where
cards_once = refl

empty-IsUnique : IsUnique empty
unfolding count_where
empty-IsUnique = record { named = λ k v. omega arith; numbered = λ n. omega arith }

Registrations-IsUnique_example : IsUnique carded_registry
Registrations-IsUnique_example =
    Registrations-IsUnique
      (Registrations.and_then
        (Registrations.and_then Registrations.none_yet (
          Registered.opened clean four actor_sara "Mellat" "Shop" ""
            (some IdentifierKind.card_last4) "4242" empty opened_registry opens))
        (Registered.carded digits spell actor_sara 1 "4242 4242 4242 4242" "Sara" opened_registry
          carded_registry cards_once))
      empty-IsUnique

number_ok : luhn_ok card_number ≡ true
unfolding luhn_ok
number_ok = refl

luhn-catches_example :
    luhn_ok (4 ∷ 2 ∷ 4 ∷ 7 ∷ 4 ∷ 2 ∷ 4 ∷ 2 ∷ 4 ∷ 2 ∷ 4 ∷ 2 ∷ 4 ∷ 2 ∷ 4 ∷ 2 ∷ []) ≡ false
luhn-catches_example =
    luhn-catches (4 ∷ 2 ∷ 4 ∷ []) (4 ∷ 2 ∷ 4 ∷ 2 ∷ 4 ∷ 2 ∷ 4 ∷ 2 ∷ 4 ∷ 2 ∷ 4 ∷ 2 ∷ []) 2 7
      (omega arith) (omega arith) (λ same. omega (arith, same)) number_ok
