-- ===== src/App/Listing/Own.antt =====
-- internal/app/accounting/list_accounts.go: which accounts the list shows.
use moneo_backend.Common.{
  ℕ, ◌≡◌, refl, ap, ◌∙◌, Bool, true, false, not, ◌&&◌, ◌||◌, Text, text_eq, trim_space, Option,
  none, some, List, [], ◌∷◌, all, ok, arith, Bool-cases, inl, inr, >>=-eq-ok as result->>=-eq-ok,
}
use moneo_backend.Domain.Errors.{Outcome, database_failure}
use moneo_backend.Domain.Money.{parse_currency}
use moneo_backend.Domain.Account.{Account, parse_account_type, new_account-eq-ok}
use moneo_backend.Infra.Table.{Table}
use moneo_backend.Infra.Database.{AccountRow, Env, World, >>=-elim, lift-eq-ok, execute-eq-ok}
use moneo_backend.Infra.AccountRepository.{scan_account, params_of}
use moneo_backend.Infra.AccountRepository.Listing.{
  is_listed, created_later, insert_row, select_accounts, scan_accounts, list_by_user_id,
}
use moneo_backend.App.Accounts.{is_archived}
use moneo_backend.App.Listing.{
  AccountsSort, ListAccountsInput, has_type, has_currency, filter_accounts, is_before,
  insert_account_by, sort_accounts, list_by_user,
}

-- The account is the user's, and is not archived unless archived ones are asked for.
abbrev is_shown : Text → Bool → Account → Bool
is_shown user_id include_archived a =
    text_eq a.user_id user_id && (include_archived || not (is_archived a))

-- The account is one that the input asks for.
unfoldable pub is_asked : ListAccountsInput → Account → Bool
is_asked input a =
    is_shown input.user_id input.include_archived a
    && (has_type input.account_type a && has_currency input.currency a)

abbrev row_listed : Text → Bool → Text × AccountRow → Bool
row_listed user_id include_archived p = is_listed user_id include_archived p.1

all-insert_row :
    (p : Text × AccountRow → Bool) (r : Text × AccountRow) (rows : Table AccountRow)
    → all p (insert_row r rows) ≡ (p r && all p rows)
unfolding insert_row
all-insert_row p r [] = refl
all-insert_row p r (q ∷ rows) = elim (Bool-cases (created_later q r)) [
  | inl later ↦ rw (later, all-insert_row p r rows) (ground arith)
  | inr here ↦ rw here
]

all-select_accounts :
    (user_id : Text) (include_archived : Bool) (rows : Table AccountRow)
    → all (row_listed user_id include_archived) (select_accounts user_id include_archived rows)
      ≡ true
unfolding select_accounts
all-select_accounts u i [] = refl
all-select_accounts u i ((id, row) ∷ rows) = elim (Bool-cases (is_listed u i row)) [
  | inl listed ↦ rw (
    listed,
    all-insert_row (row_listed u i) (id, row) (select_accounts u i rows),
    listed,
    all-select_accounts u i rows,
  )
  | inr not_listed ↦ rw (not_listed, all-select_accounts u i rows)
]

not_archived :
    (owner : Text) (archived_at : Option ℕ) (user_id : Text) (include_archived : Bool)
    → (text_eq owner user_id
          && (include_archived || elim archived_at [ none ↦ true | some at ↦ false ])
        ≡ true)
    → (text_eq owner user_id
          && (include_archived || not (elim archived_at [ none ↦ false | some at ↦ true ]))
        ≡ true)
not_archived owner none u i h = h
not_archived owner (some at) u i h = h

scan-is_shown :
    (user_id : Text) (include_archived : Bool) (id : Text) (row : AccountRow) (a : Account)
    → scan_account id row ≡ ok a
    → is_listed user_id include_archived row ≡ true
    → is_shown user_id include_archived a ≡ true
unfolding scan_account params_of is_listed is_archived
scan-is_shown u i id row a h l =
    let (y, _, h₁) = result->>=-eq-ok (parse_account_type (trim_space row.type_column)) _ h in
    let (c, _, h₂) = result->>=-eq-ok (parse_currency (trim_space row.currency)) _ h₁ in
    let e = new_account-eq-ok (params_of id row y c) h₂ in
    rw (ap (λ (x : Account). x.user_id) e, ap (λ (x : Account). x.archived_at) e)
      (not_archived row.user_id row.archived_at u i l)

scan_accounts-shown :
    (user_id : Text) (include_archived : Bool) (rows : Table AccountRow) (accounts : List Account)
    → scan_accounts rows ≡ ok accounts
    → all (row_listed user_id include_archived) rows ≡ true
    → all (is_shown user_id include_archived) accounts ≡ true
unfolding scan_accounts
scan_accounts-shown u i [] accounts h l = rw (← ok-of h) refl
  where
    ok-of : {x y : List Account} → ◌≡◌ {A = Outcome (List Account)} (ok x) (ok y) → x ≡ y
    ok-of q = ground arith
scan_accounts-shown u i ((id, row) ∷ rows) accounts h l =
    let (a, s, h₁) = result->>=-eq-ok (scan_account id row) _ h in
    let (more, t, h₂) = result->>=-eq-ok (scan_accounts rows) _ h₁ in
    let first = scan-is_shown u i id row a s in
    let rest = scan_accounts-shown u i rows more t in ground (arith, first, rest)

all-filter_accounts :
    (input : ListAccountsInput) (accounts : List Account)
    → all (is_shown input.user_id input.include_archived) accounts ≡ true
    → all (is_asked input) (filter_accounts input accounts) ≡ true
unfolding filter_accounts is_asked
all-filter_accounts input [] h = refl
all-filter_accounts input (a ∷ accounts) h = ground (arith, all-filter_accounts input accounts)

module _ (to_lower : Text → Text) where
  all-insert :
      (p : Account → Bool) (sort : AccountsSort) (a : Account) (accounts : List Account)
      → all p (insert_account_by to_lower sort a accounts) ≡ (p a && all p accounts)
  unfolding insert_account_by
  all-insert p sort a [] = refl
  all-insert p sort a (b ∷ accounts) = elim (Bool-cases (is_before to_lower sort b a)) [
    | inl later ↦ rw (later, all-insert p sort a accounts) (ground arith)
    | inr here ↦ rw here
  ]

  all-sort_accounts :
      (p : Account → Bool) (sort : AccountsSort) (accounts : List Account)
      → all p (sort_accounts to_lower sort accounts) ≡ all p accounts
  unfolding sort_accounts
  all-sort_accounts p sort [] = refl
  all-sort_accounts p sort (a ∷ accounts) =
      all-insert p sort a (sort_accounts to_lower sort accounts)
      ∙ ap (λ b. p a && b) (all-sort_accounts p sort accounts)

  -- A list of accounts that succeeds changes no table, and shows only accounts of the user that the
  -- input asks for: archived ones, another type or another currency only if it does.
  pub list_by_user-is_asked :
      (env : Env) (input : ListAccountsInput) (w w' : World) (accounts : List Account)
      → list_by_user to_lower env input w ≡ (ok accounts, w')
      → (all (is_asked input) accounts ≡ true) × (w'.db ≡ w.db)
  unfolding list_by_user list_by_user_id
  list_by_user-is_asked env input w w' accounts h = >>=-elim _ _ _ h λ found w₁ h₁ g₁.
      >>=-elim _ _ _ h₁ λ rows w₂ h₂ g₂.
        let (s, e) = lift-eq-ok (scan_accounts rows) w₂ g₂ in
        let q =
          execute-eq-ok env database_failure
            (λ db. ok (select_accounts input.user_id input.include_archived db.accounts, db)) w
            h₂ in
        let read : select_accounts input.user_id input.include_archived w.db.accounts ≡ rows =
          ground arith in
        let same : w₂.db ≡ w.db = ground arith in
        let listed : all (row_listed input.user_id input.include_archived) rows ≡ true =
          rw (← read) (all-select_accounts input.user_id input.include_archived w.db.accounts) in
        let shown = scan_accounts-shown input.user_id input.include_archived rows found s listed in
        let answer : sort_accounts to_lower input.sort (filter_accounts input found) ≡ accounts =
          ground arith in
        let last : w'.db ≡ w₁.db = ground arith in
        (
          rw (← answer, all-sort_accounts (is_asked input) input.sort (filter_accounts input found))
              (all-filter_accounts input found shown),
          last ∙ ap (λ (x : World). x.db) e ∙ same,
        )
