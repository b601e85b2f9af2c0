-- ===== src/Domain/Account.antt =====
-- internal/domain/accounting/account.go: the account and its constructor.
use moneo_backend.Common.{
  ℕ, Bool, true, false, not, Text, codes, text_eq, trim_space, is_empty, Option, if◌then◌else◌, ok,
  err, fail_if, ◌>>◌, ◌≡◌, arith,
}
use moneo_backend.Domain.Errors.{
  Outcome, invalid_account_name, invalid_account_type, account_currency_mismatch,
}
use moneo_backend.Domain.Money.{Money, same_currency}

-- `AccountType`, a string type
pub data AccountType : Type 0 where
  cash debit_card savings brokerage credit_card deposit debt : AccountType
  -- `AccountTypeOther`, the constant "other"
  other_account : AccountType
  -- every text that is not one of the constants
  unknown : Text → AccountType

-- `Account`, and `NewAccountParams`, which has the same fields
pub record Account : Type 0 where
  pub id : Text
  pub user_id : Text
  pub name : Text
  pub account_type : AccountType
  pub balance : Money
  pub initial_balance : Money
  pub include_in_net_worth : Bool
  pub include_in_daily_budget : Bool
  pub archived_at : Option ℕ
  pub created_at : ℕ
  pub updated_at : ℕ

-- `AccountType.IsSupported`
unfoldable pub is_supported_account_type : AccountType → Bool
is_supported_account_type (unknown s) = false
is_supported_account_type _ = true

-- `AccountType(value)`
unfoldable pub account_type_of : Text → AccountType
account_type_of s =
    if text_eq s (codes "cash")
    then cash
    else if text_eq s (codes "debit_card")
    then debit_card
    else if text_eq s (codes "savings")
    then savings
    else if text_eq s (codes "brokerage")
    then brokerage
    else if text_eq s (codes "credit_card")
    then credit_card
    else if text_eq s (codes "deposit")
    then deposit
    else if text_eq s (codes "debt")
    then debt
    else if text_eq s (codes "other")
    then other_account
    else unknown s

-- `string(t)`
unfoldable pub account_type_text : AccountType → Text
account_type_text cash = codes "cash"
account_type_text debit_card = codes "debit_card"
account_type_text savings = codes "savings"
account_type_text brokerage = codes "brokerage"
account_type_text credit_card = codes "credit_card"
account_type_text deposit = codes "deposit"
account_type_text debt = codes "debt"
account_type_text other_account = codes "other"
account_type_text (unknown s) = s

-- `ParseAccountType`
unfoldable pub parse_account_type : Text → Outcome AccountType
parse_account_type value =
    let t = account_type_of value in
    if is_supported_account_type t then ok t else err invalid_account_type

-- `NewAccount`
unfoldable pub new_account : Account → Outcome Account
new_account p = do
  fail_if (is_empty (trim_space p.name)) invalid_account_name
  fail_if (not (is_supported_account_type p.account_type)) invalid_account_type
  fail_if (not (same_currency p.balance.currency p.initial_balance.currency))
      account_currency_mismatch
  ok (record p { name = trim_space p.name })

-- A successful call trims the name and keeps the rest.
pub new_account-eq-ok :
    (p : Account) {a : Account} → new_account p ≡ ok a → a ≡ record p { name = trim_space p.name }
unfolding new_account
new_account-eq-ok p h = ground arith
