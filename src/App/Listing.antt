-- ===== src/App/Listing.antt =====
-- internal/app/accounting/list_accounts.go and get_accounts_summary.go: the accounts of a user in
-- the order that the caller asks for, and the sums over them. `strings.ToLower` is a parameter.
pub mod Order
pub mod Unique
pub mod Totals
pub mod Own
use moneo_backend.Common.{
  ℕ, suc, ◌+◌, ◌%◌, Bool, true, false, not, ◌&&◌, ◌||◌, Text, codes, text_eq, text_ltb, Option,
  none, some, List, [], ◌∷◌, ◌++◌, ok, if◌then◌else◌, ltb, ◌==◌, add64, sub64, int64_mod,
}
use moneo_backend.Domain.Money.{Currency, Money, same_currency}
use moneo_backend.Domain.Account.{
  Account, AccountType, account_type_text, cash, debit_card, savings, deposit, credit_card, debt,
}
use moneo_backend.Infra.Database.{Env, Action, pure, ◌>>=◌}
use moneo_backend.Infra.AccountRepository.Listing.{list_by_user_id}

-- `AccountsSort`; every other value sorts as `AccountsSortCreatedAtDesc`
pub data AccountsSort : Type 0 where
  created_at_desc name_asc balance_desc : AccountsSort

-- `ListAccountsInput`
pub record ListAccountsInput : Type 0 where
  pub user_id : Text
  pub include_archived : Bool
  pub account_type : Option AccountType
  pub currency : Option Currency
  pub sort : AccountsSort

unfoldable pub has_type : Option AccountType → Account → Bool
has_type none account = true
has_type (some t) account = text_eq (account_type_text account.account_type) (account_type_text t)

unfoldable pub has_currency : Option Currency → Account → Bool
has_currency none account = true
has_currency (some c) account = same_currency account.balance.currency c

-- the loop that filters
unfoldable pub filter_accounts : ListAccountsInput → List Account → List Account
filter_accounts input [] = []
filter_accounts input (account ∷ accounts) =
    let rest = filter_accounts input accounts in
    if has_type input.account_type account && has_currency input.currency account
    then account ∷ rest
    else rest

-- `a < b` of two `int64`
abbrev pub int64_ltb : ℕ → ℕ → Bool
int64_ltb a b =
    ltb ((a + 0x8000_0000_0000_0000) % int64_mod) ((b + 0x8000_0000_0000_0000) % int64_mod)

module _ (to_lower : Text → Text) where
  -- whether the key of the sort puts `l` before `r`
  unfoldable pub key_before : AccountsSort → Account → Account → Bool
  key_before name_asc l r = text_ltb (to_lower l.name) (to_lower r.name)
  key_before balance_desc l r = int64_ltb r.balance.minor_units l.balance.minor_units
  key_before created_at_desc l r = ltb r.created_at l.created_at

  -- whether the comparison of `slices.SortFunc` is negative
  unfoldable pub is_before : AccountsSort → Account → Account → Bool
  is_before sort l r = key_before sort l r || (not (key_before sort r l) && text_ltb l.id r.id)

  unfoldable pub insert_account_by : AccountsSort → Account → List Account → List Account
  insert_account_by sort a [] = a ∷ []
  insert_account_by sort a (b ∷ accounts) =
      if is_before sort b a then b ∷ insert_account_by sort a accounts else a ∷ b ∷ accounts

  -- `slices.SortFunc`, as an insertion sort
  unfoldable pub sort_accounts : AccountsSort → List Account → List Account
  sort_accounts sort [] = []
  sort_accounts sort (a ∷ accounts) = insert_account_by sort a (sort_accounts sort accounts)

  -- `ListAccountsService.ListByUser`
  unfoldable pub list_by_user : Env → ListAccountsInput → Action (List Account)
  list_by_user env input = do
    accounts ← list_by_user_id env input.user_id input.include_archived
    pure (sort_accounts input.sort (filter_accounts input accounts))

-- `AccountSummaryAccount`
pub record AccountSummaryAccount : Type 0 where
  pub id : Text
  pub name : Text
  pub account_type : AccountType
  pub balance : Money
  pub include_in_net_worth : Bool
  pub include_in_daily_budget : Bool

unfoldable pub summary_account : Account → AccountSummaryAccount
summary_account account = record {
  id = account.id;
  name = account.name;
  account_type = account.account_type;
  balance = account.balance;
  include_in_net_worth = account.include_in_net_worth;
  include_in_daily_budget = account.include_in_daily_budget;
}

-- `AccountSummary`
pub record AccountSummary : Type 0 where
  pub currency : Currency
  pub net_worth : Money
  pub cash_balance : Money
  pub available_for_daily_budget : Money
  pub credit_liabilities : Money
  pub accounts : List AccountSummaryAccount

-- `isCashBalanceAccountType`
unfoldable pub is_cash_balance : AccountType → Bool
is_cash_balance cash = true
is_cash_balance debit_card = true
is_cash_balance savings = true
is_cash_balance deposit = true
is_cash_balance _ = false

-- `isLiabilityAccountType`
unfoldable pub is_liability : AccountType → Bool
is_liability credit_card = true
is_liability debt = true
is_liability _ = false

-- the accounts that the loop of the summary does not skip
unfoldable pub counts_in : Currency → Account → Bool
counts_in c account =
    elim account.archived_at [ none ↦ true | some at ↦ false ]
    && same_currency account.balance.currency c

-- The variables of the loop.
pub record Sums : Type 0 where
  pub net_worth_base : ℕ
  pub cash_balance : ℕ
  pub available_for_daily_budget : ℕ
  pub credit_liabilities : ℕ
  pub accounts : List AccountSummaryAccount

abbrev pub add_if : Bool → ℕ → ℕ → ℕ
add_if b n sum = if b then add64 sum n else sum

unfoldable pub add_account : Account → Sums → Sums
add_account account s =
    let n = account.balance.minor_units in
    record {
      net_worth_base = add_if account.include_in_net_worth n s.net_worth_base;
      available_for_daily_budget =
          add_if account.include_in_daily_budget n s.available_for_daily_budget;
      cash_balance = add_if (is_cash_balance account.account_type) n s.cash_balance;
      credit_liabilities = add_if (is_liability account.account_type) n s.credit_liabilities;
      accounts = s.accounts ++ summary_account account ∷ [];
    }

-- the loop of `GetByUserAndCurrency`
unfoldable pub sum_accounts : Currency → List Account → Sums → Sums
sum_accounts c [] s = s
sum_accounts c (account ∷ accounts) s =
    sum_accounts c accounts (if counts_in c account then add_account account s else s)

unfoldable pub summary_of : Currency → Sums → AccountSummary
summary_of c s = record {
  currency = c;
  net_worth = record { minor_units = sub64 s.net_worth_base s.credit_liabilities; currency = c };
  cash_balance = record { minor_units = s.cash_balance; currency = c };
  available_for_daily_budget = record { minor_units = s.available_for_daily_budget; currency = c };
  credit_liabilities = record { minor_units = s.credit_liabilities; currency = c };
  accounts = s.accounts;
}

abbrev pub no_sums : Sums
no_sums = record {
  net_worth_base = 0;
  cash_balance = 0;
  available_for_daily_budget = 0;
  credit_liabilities = 0;
  accounts = [];
}

-- `GetAccountsSummaryService.GetByUserAndCurrency`
unfoldable pub get_summary : Env → Text → Currency → Action AccountSummary
get_summary env user_id c = do
  accounts ← list_by_user_id env user_id false
  pure (summary_of c (sum_accounts c accounts no_sums))
