-- ===== src/App/Queries.antt =====
-- internal/app/accounting/transactions.go: `ListTransactionsService`.
pub mod Pages
pub mod Own
use moneo_backend.Common.{
  ℕ, Bool, Text, trim_space, is_empty, Option, none, some, List, if◌then◌else◌,
}
use moneo_backend.Domain.Transaction.{Transaction}
use moneo_backend.Infra.Database.{Env, Action}
use moneo_backend.Infra.TransactionRepository.Listing.{
  TransactionsSort, effective_at_desc, other_sort, ListTransactionsQuery, list_by_user_id,
  count_by_user_id,
}

-- `normalizeSearchValue`
unfoldable pub normalize_search_value : Option Text → Option Text
normalize_search_value none = none
normalize_search_value (some value) =
    let trimmed = trim_space value in if is_empty trimmed then none else some trimmed

-- `if sortMode == "" { sortMode = TransactionsSortEffectiveAtDesc }`
unfoldable pub sort_or_default : TransactionsSort → TransactionsSort
sort_or_default (other_sort s) = if is_empty s then effective_at_desc else other_sort s
sort_or_default sort = sort

module _ (to_lower lower : Text → Text) (like : Text → Text → Bool) (env : Env) where
  -- `ListByUser`
  unfoldable pub list_transactions_by_user : ListTransactionsQuery → Action (List Transaction)
  list_transactions_by_user input = list_by_user_id to_lower lower like env (record input {
    search = normalize_search_value input.search;
    sort = sort_or_default input.sort;
  })

  -- `CountByUser`
  unfoldable pub count_transactions_by_user : ListTransactionsQuery → Action ℕ
  count_transactions_by_user input =
      count_by_user_id to_lower lower like env
        (record input { search = normalize_search_value input.search })
