-- ===== src/App/Listing/Totals.antt =====
-- internal/app/accounting/get_accounts_summary.go: what the sums of the summary are.
use moneo_backend.Common.{ℕ, ◌+◌, Bool, ◌&&◌, List, [], ◌∷◌, if◌then◌else◌}
use moneo_backend.Domain.Money.{Currency}
use moneo_backend.Domain.Account.{Account}
use moneo_backend.App.Effect.Moves.{◌≈◌}
use moneo_backend.App.Listing.{Sums, counts_in, is_cash_balance, is_liability}

-- The sum of the balances of the accounts that pass a test.
unfoldable pub sum_where : (Account → Bool) → List Account → ℕ
sum_where p [] = 0
sum_where p (a ∷ accounts) = (if p a then a.balance.minor_units else 0) + sum_where p accounts

-- the test of the loop, and another one
abbrev counted : Currency → (Account → Bool) → Account → Bool
counted c p a = counts_in c a && p a

-- How the sums of the loop grow.
record Grows (c : Currency) (accounts : List Account) (s t : Sums) : Type 0 where
  net_worth :
      t.net_worth_base
      ≈ s.net_worth_base + sum_where (counted c (λ a. a.include_in_net_worth)) accounts
  cash :
      t.cash_balance
      ≈ s.cash_balance + sum_where (counted c (λ a. is_cash_balance a.account_type)) accounts
  budget :
      t.available_for_daily_budget
      ≈ s.available_for_daily_budget
        + sum_where (counted c (λ a. a.include_in_daily_budget)) accounts
  liabilities :
      t.credit_liabilities
      ≈ s.credit_liabilities + sum_where (counted c (λ a. is_liability a.account_type)) accounts
