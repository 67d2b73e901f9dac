-- ===== src/Inbox/Resolve.antt =====
-- `resolve_account` and `infer_owner_by_balance_chain` of services/ingest.py.
use alo_bot_dashboard.Prelude.{
  ℕ, ◌+◌, Bool, true, false, not, ◌&&◌, ◌||◌, String, Option, none, some, List, [], ◌∷◌, ◌++◌, ◌==◌,
  ltb, if◌then◌else◌, str_eq, keep, map, sort_by, find_where, is_blank, any_where, Result, done,
  require, ◌>>◌,
}
use alo_bot_dashboard.Model.{AccountStatus, Direction}
use alo_bot_dashboard.Unicode.{codes, to_string, ends_with}
use alo_bot_dashboard.Sms.Words.{persian}
use alo_bot_dashboard.Accounts.{
  FinancialAccount, Identifier, IdentifierKind, Registry, has_identifier,
}
use alo_bot_dashboard.Inbox.{TransactionCandidate, IngestError}

-- `kind in ("CARD", "ACCOUNT", "IBAN")`
unfoldable pub is_whole : IdentifierKind → Bool
is_whole IdentifierKind.card = true
is_whole IdentifierKind.account = true
is_whole IdentifierKind.iban = true
is_whole _ = false

-- an identifier that the hint may mean
unfoldable pub is_meant : String → Identifier → Bool
unfolding is_whole ends_with
is_meant hint i = ends_with (codes i.value) (codes hint) && (str_eq i.value hint || is_whole i.kind)

unfoldable pub owner_of : Registry → Identifier → Option FinancialAccount
owner_of r i = find_where (λ a. a.id == i.account_id) r.accounts

-- the accounts of the joined rows
unfoldable pub join_owner : Option FinancialAccount → List FinancialAccount → List FinancialAccount
join_owner none rest = rest
join_owner (some a) rest = a ∷ rest

unfoldable pub owners : Registry → List Identifier → List FinancialAccount
unfolding owner_of join_owner
owners r [] = []
owners r (i ∷ is) = join_owner (owner_of r i) (owners r is)

unfoldable pub candidates : String → Registry → List FinancialAccount
unfolding owners is_meant
candidates hint r = owners r (keep (is_meant hint) r.identifiers)

-- `(a.status == "DECLINED", a.status != "ACTIVE")`
unfoldable pub rank : FinancialAccount → ℕ
rank a = elim a.status [
  | AccountStatus.active ↦ 0
  | AccountStatus.pending ↦ 1
  | AccountStatus.muted ↦ 1
  | AccountStatus.declined ↦ 3
]

-- the sort by rank and id
unfoldable pub in_order : List FinancialAccount → List FinancialAccount
unfolding rank
in_order found = sort_by rank (sort_by (λ a. a.id) found)

-- "unspecified"
unspecified : String
unfolding to_string persian
unspecified = to_string (persian 0x462745342E35)

-- "unknown ****" and the hint
unknown_name : String → String
unfolding to_string persian
unknown_name hint = to_string (persian 0x46273446272E2A47 ++ codes " ****" ++ codes hint)

-- "automatic"
automatic : String
unfolding to_string persian
automatic = to_string (persian 0x2E482FA92731)

-- "made by itself from a bank's SMS with an identifier that is not registered"
made_by_itself : String
unfolding to_string persian
made_by_itself = to_string (
    persian 0x2847
    ++ ((8204 ∷ [])
        ++ (persian 0x3548312A
            ++ (codes " "
                ++ (persian 0x2E482FA92731
                    ++ (codes " "
                        ++ (persian 0x2732
                            ++ (codes " "
                                ++ (persian 0xCCA9
                                    ++ (codes " "
                                        ++ (persian 0x7ECC2745A9
                                            ++ (codes " "
                                                ++ (persian 0x282746A9CC
                                                    ++ (codes " "
                                                        ++ (persian 0x2827
                                                            ++ (codes " "
                                                            ++ (persian 0x344627334754
                                                            ++ (codes " "
                                                            ++ (persian 0x2B282A
                                                            ++ ((8204 ∷ [])
                                                            ++ (persian 0x46342F47
                                                            ++ (codes " "
                                                            ++ (persian 0x33272E2A47
                                                            ++ (codes " "
                                                            ++ (persian 0x342F
                                                            ++ (codes "."))))))))))))))))))))))))))

-- the row of an account that nobody has registered
unfoldable pub unknown_account : String → Option String → ℕ → FinancialAccount
unfolding unspecified unknown_name made_by_itself
unknown_account hint bank_name id = record {
  id = id;
  bank_name = elim bank_name [
    | none ↦ unspecified
    | some b ↦ if is_blank b then unspecified else b
  ];
  display_name = unknown_name hint;
  owner_label = none;
  status = AccountStatus.pending;
  device_id = none;
  inferred_from_account_id = none;
  notes = some made_by_itself;
}

-- the kind of the last digits of a card or an account
unfoldable pub guessed_kind : Bool → IdentifierKind
guessed_kind is_card = if is_card then IdentifierKind.card_last4 else IdentifierKind.account_last4

unfoldable pub unknown_identifier : String → Bool → ℕ → ℕ → Identifier
unfolding automatic guessed_kind
unknown_identifier hint is_card account_id id = record {
  id = id;
  account_id = account_id;
  kind = guessed_kind is_card;
  value = hint;
  label = some automatic;
}

-- the account that is found or made, and whether it was made
pub record Resolved : Type 0 where
  pub registry : Registry
  pub account : Option FinancialAccount
  pub created : Bool

-- the rows of an account that nobody has registered: the identifier's INSERT fails where its kind and
-- value are there by now
unfoldable pub register_unknown :
    String → Bool → Option String → Registry → Result IngestError Resolved
unfolding unknown_account unknown_identifier guessed_kind has_identifier
register_unknown hint is_card bank_name r = do
  require (not (any_where (has_identifier (guessed_kind is_card) hint) r.identifiers))
      IngestError.integrity_error
  done (record {
    registry = record r {
      accounts = unknown_account hint bank_name r.next_account_id ∷ r.accounts;
      next_account_id = r.next_account_id + 1;
      identifiers =
          unknown_identifier hint is_card r.next_account_id r.next_identifier_id ∷ r.identifiers;
      next_identifier_id = r.next_identifier_id + 1;
    };
    account = some (unknown_account hint bank_name r.next_account_id);
    created = true;
  })

unfoldable pub found_account : Registry → Option FinancialAccount → Resolved
found_account r a = record { registry = r; account = a; created = false }

-- `candidates[0]`, or a new account where there is none
unfoldable pub first_or_new :
    String → Bool → Option String → Registry → List FinancialAccount → Result IngestError Resolved
unfolding register_unknown found_account
first_or_new hint is_card bank_name r [] = register_unknown hint is_card bank_name r
first_or_new hint is_card bank_name r (a ∷ rest) = done (found_account r (some a))

-- `resolve_account`: the accounts are looked up in the registry `seen`; when a new one is written, to
-- the registry `r`, another request may have written one
unfoldable pub resolve_account :
    Option String → Bool → Option String → Registry → Registry → Result IngestError Resolved
unfolding candidates in_order first_or_new found_account
resolve_account none is_card bank_name seen r = done (found_account r none)
resolve_account (some hint) is_card bank_name seen r =
    if is_blank hint
    then done (found_account r none)
    else first_or_new hint is_card bank_name r (in_order (candidates hint seen))

-- `ORDER BY bank_timestamp DESC, id DESC LIMIT 1`
later :
    TransactionCandidate × ℕ × ℕ
    → Option (TransactionCandidate × ℕ × ℕ)
    → Option (TransactionCandidate × ℕ × ℕ)
later x none = some x
later x (some y) =
    if ltb (y.1) (x.1) || ((y.1) == (x.1) && ltb (y.0).id (x.0).id) then some x else some y

-- a row of the account with a balance, older than an instant: with its instant and its balance
chain_row : ℕ → ℕ → TransactionCandidate → Option (TransactionCandidate × ℕ × ℕ)
chain_row account_id before t = elim t.balance_irr [
  | none ↦ none
  | some balance ↦ elim t.bank_timestamp [
    | none ↦ none
    | some at ↦
        if (elim t.account_id [ none ↦ false | some a ↦ a == account_id ]) && ltb at before
        then some (t, at, balance)
        else none
  ]
]

last_row : ℕ → ℕ → List TransactionCandidate → Option (TransactionCandidate × ℕ × ℕ)
unfolding chain_row later
last_row account_id before [] = none
last_row account_id before (t ∷ ts) =
    let rest = last_row account_id before ts in
    elim (chain_row account_id before t) [ none ↦ rest | some x ↦ later x rest ]

-- the balance that the account's last message named
unfoldable pub last_balance : ℕ → ℕ → List TransactionCandidate → Option ℕ
unfolding last_row
last_balance account_id before ts = elim (last_row account_id before ts) [
  | none ↦ none
  | some x ↦ some (x.2)
]

-- whether a movement leads from one balance to another
unfoldable pub continues : Direction → ℕ → ℕ → Option ℕ → Bool
continues way amount balance none = false
continues Direction.credit amount balance (some last) = last + amount == balance
continues _ amount balance (some last) = last == balance + amount

is_active : AccountStatus → Bool
is_active AccountStatus.active = true
is_active _ = false

unfoldable pub chain_matches :
    ℕ → Direction → ℕ → ℕ → ℕ → List TransactionCandidate → List FinancialAccount → List ℕ
unfolding last_balance continues is_active
chain_matches exclude way amount balance before ts accounts =
    map (λ a. a.id)
      (keep
        (λ a.
          is_active a.status
          && not (a.id == exclude)
          && continues way amount balance (last_balance a.id before ts))
        accounts)

-- the only one
unfoldable pub only : List ℕ → Option ℕ
only (i ∷ []) = some i
only _ = none

unfoldable pub infer_owner_by_balance_chain :
    ℕ → Direction → ℕ → ℕ → ℕ → List TransactionCandidate → List FinancialAccount → Option ℕ
unfolding chain_matches only
infer_owner_by_balance_chain exclude way amount balance before ts accounts =
    only (chain_matches exclude way amount balance before ts accounts)
