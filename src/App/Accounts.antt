-- ===== src/App/Accounts.antt =====
-- internal/app/accounting: the services that create, read, update, archive and restore accounts, in
-- create_account.go, get_account.go, update_account.go, archive_account.go and restore_account.go.
-- They write without a database transaction, each by one statement.
pub mod Clean
pub mod Keep
use moneo_backend.Common.{
  ℕ, Bool, true, false, Text, trim_space, Option, none, some, ok, err, if◌then◌else◌, is_negative,
}
use moneo_backend.Domain.Errors.{
  Error, account_not_found, duplicate_active_account_name, account_name_already_exists,
  negative_initial_balance,
}
use moneo_backend.Domain.Money.{Money}
use moneo_backend.Domain.Account.{Account, AccountType, new_account}
use moneo_backend.Infra.Database.{
  Env, World, Action, pure, raise, lift, ◌>>=◌, ◌>>◌, raise_if, map_error, clock_now, generate_id,
}
use moneo_backend.Infra.AccountRepository.{
  create, find_by_id, update_by_id, archive_by_id, restore_by_id,
}

-- `CreateAccountInput`
pub record CreateAccountInput : Type 0 where
  pub user_id : Text
  pub name : Text
  pub account_type : AccountType
  pub initial_balance : Money
  pub include_in_net_worth : Bool
  pub include_in_daily_budget : Bool

-- the parameters that `Create` passes to `NewAccount`: both balances are the initial one
unfoldable pub created_account : CreateAccountInput → ℕ → Text → Account
created_account input now id = record {
  id = id;
  user_id = input.user_id;
  name = input.name;
  account_type = input.account_type;
  balance = input.initial_balance;
  initial_balance = input.initial_balance;
  include_in_net_worth = input.include_in_net_worth;
  include_in_daily_budget = input.include_in_daily_budget;
  archived_at = none;
  created_at = now;
  updated_at = now;
}

-- the name that is taken is reported to the caller by another error
unfoldable pub name_taken : Error → Error
name_taken duplicate_active_account_name = account_name_already_exists
name_taken e = e

-- `UpdateAccountInput`
pub record UpdateAccountInput : Type 0 where
  pub user_id : Text
  pub account_id : Text
  pub name : Option Text
  pub account_type : Option AccountType
  pub include_in_net_worth : Option Bool
  pub include_in_daily_budget : Option Bool

-- `x := account.X(); if input.X != nil { x = *input.X }`
unfoldable pub given_or {ℓ} : {A : Type ℓ} → Option A → A → A
given_or none old = old
given_or (some new) old = new

unfoldable pub given_name : Option Text → Text → Text
given_name none old = old
given_name (some new) old = trim_space new

-- the parameters that `Update` passes to `NewAccount`
unfoldable pub updated_account : UpdateAccountInput → Account → ℕ → Account
updated_account input account at = record account {
  name = given_name input.name account.name;
  account_type = given_or input.account_type account.account_type;
  include_in_net_worth = given_or input.include_in_net_worth account.include_in_net_worth;
  include_in_daily_budget = given_or input.include_in_daily_budget account.include_in_daily_budget;
  updated_at = at;
}

unfoldable pub is_archived : Account → Bool
is_archived account = elim account.archived_at [ none ↦ false | some at ↦ true ]

-- the parameters of `buildArchivedAccount` and of `buildRestoredAccount`
unfoldable pub archived_account : Account → ℕ → Account
archived_account account at = record account { archived_at = some at; updated_at = at }

unfoldable pub restored_account : Account → ℕ → Account
restored_account account at = record account { archived_at = none; updated_at = at }

-- `if err := m; err != nil { return handler(err) }; return rest`
unfoldable pub handling :
    {A : Type 0} → Action (Unit {0}) → (Error → Action A) → Action A → Action A
handling m handler rest w = let (r, w') = m w in elim r [ ok u ↦ rest w' | err e ↦ handler e w' ]

-- what `Archive` makes of the second lookup, after the row was not found for archiving
unfoldable pub archived_meanwhile : Action Account → Action Account
archived_meanwhile found w =
    let (r, w') = found w in
    elim r [
      | ok current ↦ if is_archived current then (ok current, w') else (err account_not_found, w')
      | err e ↦ (err account_not_found, w')
    ]

module _ (env : Env) where
  -- `CreateAccountService.Create`
  unfoldable pub create_account : CreateAccountInput → Action Account
  create_account input = do
    raise_if (is_negative input.initial_balance.minor_units) negative_initial_balance
    now ← clock_now env
    id ← generate_id env
    account ← lift (new_account (created_account input now id))
    map_error name_taken (create env account)
    pure account

  -- `GetAccountService.GetByID`
  unfoldable pub get_account : Text → Text → Action Account
  get_account user_id id = find_by_id env user_id id

  -- `UpdateAccountService.Update`
  unfoldable pub update_account : UpdateAccountInput → Action Account
  update_account input = do
    account ← find_by_id env input.user_id input.account_id
    at ← clock_now env
    updated ← lift (new_account (updated_account input account at))
    map_error name_taken (update_by_id env updated account.updated_at)
    pure updated

  unfoldable pub archive_failed : Text → Text → Error → Action Account
  archive_failed user_id id account_not_found = archived_meanwhile (find_by_id env user_id id)
  archive_failed user_id id e = raise e

  unfoldable pub archive_active : Text → Text → Account → Action Account
  archive_active user_id id account = do
    at ← clock_now env
    handling (archive_by_id env user_id id at) (archive_failed user_id id)
        (lift (new_account (archived_account account at)))

  -- `ArchiveAccountService.Archive`
  unfoldable pub archive_account : Text → Text → Action Account
  archive_account user_id id = do
    account ← find_by_id env user_id id
    if is_archived account then pure account else archive_active user_id id account

  unfoldable pub restore_archived : Text → Text → Account → Action Account
  restore_archived user_id id account = do
    at ← clock_now env
    map_error name_taken (restore_by_id env user_id id at)
    lift (new_account (restored_account account at))

  -- `RestoreAccountService.Restore`
  unfoldable pub restore_account : Text → Text → Action Account
  restore_account user_id id = do
    account ← find_by_id env user_id id
    if is_archived account then restore_archived user_id id account else pure account
