-- ===== src/Tests/Listings.antt =====
-- The lists of accounts on the small database.
use mathlib.Core.List.{Perm}
use mathlib.Core.List.Perm
use moneo_backend.Common.{
  ◌≡◌, arith, refl, true, false, Text, codes, text_eq, text_ltb, trim_space, is_empty, none, some,
  [], ◌∷◌, all, ok,
}
use moneo_backend.Domain.Money.{
  rub, currency_of, currency_text, is_supported_currency, same_currency, parse_currency,
}
use moneo_backend.Domain.Account.{
  Account, cash, savings, new_account, parse_account_type, account_type_of, account_type_text,
  is_supported_account_type,
}
use moneo_backend.Infra.Database.{World, execute}
use moneo_backend.Infra.Database
use moneo_backend.Infra.AccountRepository
use moneo_backend.Infra.AccountRepository.{scan_account}
use moneo_backend.Infra.AccountRepository.Listing.{
  is_listed, created_later, insert_row, select_accounts, scan_accounts, list_by_user_id,
}
use moneo_backend.App.Listing.{
  ListAccountsInput, balance_desc, has_type, has_currency, filter_accounts, key_before, is_before,
  insert_account_by, sort_accounts, list_by_user,
}
use moneo_backend.App.Listing.Order.{IsSorted, shifted_balance, sort_accounts_lem}
use moneo_backend.App.Listing.Unique.{sort_accounts_unique}
use moneo_backend.App.Listing.Own.{is_asked, list_by_user-is_asked}
use moneo_backend.Tests.Data.{user, db, env, world}

abbrev same_letters : Text → Text
same_letters s = s

abbrev cash_of_user : Account
cash_of_user = record {
  id = codes "a1";
  user_id = user;
  name = codes "Cash";
  account_type = cash;
  balance = record { minor_units = 900; currency = rub };
  initial_balance = record { minor_units = 1000; currency = rub };
  include_in_net_worth = true;
  include_in_daily_budget = true;
  archived_at = none;
  created_at = 1;
  updated_at = 7;
}

abbrev savings_of_user : Account
savings_of_user = record cash_of_user {
  id = codes "a2";
  name = codes "Savings";
  account_type = savings;
  balance = record { minor_units = 100; currency = rub };
  initial_balance = record { minor_units = 0; currency = rub };
}

abbrev by_balance : ListAccountsInput
by_balance = record {
  user_id = user;
  include_archived = false;
  account_type = none;
  currency = some rub;
  sort = balance_desc;
}

-- the larger balance comes first
listing :
    list_by_user same_letters env by_balance world
    ≡ (ok (cash_of_user ∷ savings_of_user ∷ []), record world { calls = 1 })
unfolding list_by_user list_by_user_id select_accounts scan_accounts is_listed created_later
    insert_row filter_accounts has_type has_currency sort_accounts insert_account_by is_before
    key_before Database.◌>>=◌ execute scan_account AccountRepository.params_of parse_account_type
    account_type_of account_type_text is_supported_account_type parse_currency currency_of
    currency_text is_supported_currency same_currency new_account trim_space is_empty text_eq
    text_ltb
listing = refl

list_by_user-is_asked_example :
    (all (is_asked by_balance) (cash_of_user ∷ savings_of_user ∷ []) ≡ true) × (db ≡ db)
list_by_user-is_asked_example =
    list_by_user-is_asked same_letters env by_balance world (record world { calls = 1 })
      (cash_of_user ∷ savings_of_user ∷ []) listing

sort_accounts_lem_example :
    Perm
      (sort_accounts same_letters balance_desc (savings_of_user ∷ cash_of_user ∷ []))
      (savings_of_user ∷ cash_of_user ∷ [])
    × IsSorted same_letters balance_desc
        (sort_accounts same_letters balance_desc (savings_of_user ∷ cash_of_user ∷ []))
sort_accounts_lem_example =
    sort_accounts_lem same_letters balance_desc (savings_of_user ∷ cash_of_user ∷ [])

sort_accounts_unique_example :
    cash_of_user ∷ savings_of_user ∷ []
    ≡ sort_accounts same_letters balance_desc (savings_of_user ∷ cash_of_user ∷ [])
unfolding text_eq
sort_accounts_unique_example =
    sort_accounts_unique same_letters balance_desc (savings_of_user ∷ cash_of_user ∷ [])
      (cash_of_user ∷ savings_of_user ∷ []) ((refl, tt), (tt, tt))
      (Perm.swap savings_of_user cash_of_user [])
      (((omega arith, λ e. absurd (larger e)), tt), (tt, tt))
  where
    larger : shifted_balance cash_of_user ≡ shifted_balance savings_of_user → ⊥
    larger e = omega (arith, e)
