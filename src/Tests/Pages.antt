-- ===== src/Tests/Pages.antt =====
-- The list and the count of transactions on the small database.
use moneo_backend.Common.{
  List, ◌≡◌, refl, Bool, false, true, all, Text, codes, text_eq, text_ltb, trim_space, is_empty,
  none, some, [], ◌∷◌, ok, is_negative,
}
use moneo_backend.Domain.Money.{currency_of, currency_text, is_supported_currency, parse_currency}
use moneo_backend.Domain.Transaction.{
  Transaction, new_transaction, is_blank, is_supported_type, is_supported_status, is_transfer,
  has_subcategory_without_category, has_id, same_id, validate_type_invariants, normalize_comment,
  parse_transaction_type, parse_transaction_status, type_of, status_of, type_text, status_text,
}
use moneo_backend.Infra.Table.{select_rows}
use moneo_backend.Infra.Database.{World, execute}
use moneo_backend.Infra.Database
use moneo_backend.Infra.TransactionRepository.{row_of, params_of, scan_transaction}
use moneo_backend.Infra.TransactionRepository.Listing.{
  ListTransactionsQuery, amount_desc, is_text, if_set, is_from, is_to, effective_at,
  comment_or_empty, then_by, by_asc, by_desc, by_nulls_last, comes_before, insert_ordered, order_by,
  is_positive, window, scan_transactions, comment_matches, is_selected, list_by_user_id,
}
use moneo_backend.App.Queries.{
  normalize_search_value, sort_or_default, list_transactions_by_user, count_transactions_by_user,
}
use moneo_backend.App.Queries.Pages.{
  without_window, list_transactions_by_user-IsPage, IsPage, count_transactions_by_user-length,
}
use moneo_backend.App.Queries.Own.{is_of, list_transactions_by_user-is_of}
use moneo_backend.Tests.Data.{user, lunch, saved, db, env, world}

abbrev same_letters : Text → Text
same_letters s = s

abbrev never_like : Text → Text → Bool
never_like s pattern = false

-- the second transaction by its amount, of those of the first account
abbrev second_by_amount : ListTransactionsQuery
second_by_amount = record {
  user_id = user;
  transaction_type = none;
  status = none;
  account_id = some (codes "a1");
  category_id = none;
  subcategory_id = none;
  effective_from = none;
  effective_to = some 60;
  occurred_from = none;
  occurred_to = none;
  planned_from = none;
  planned_to = none;
  search = some (codes " ");
  limit = 1;
  offset = 1;
  sort = amount_desc;
}

all_by_amount :
    list_transactions_by_user same_letters same_letters never_like env
      (without_window second_by_amount)
      world
    ≡ (ok (lunch ∷ saved ∷ []), record world { calls = 1 })
unfolding list_transactions_by_user list_by_user_id normalize_search_value sort_or_default
    select_rows is_selected is_text if_set is_from is_to effective_at comment_or_empty
    comment_matches then_by by_asc by_desc by_nulls_last comes_before insert_ordered order_by
    is_positive window scan_transactions scan_transaction row_of params_of Database.◌>>=◌ execute
    new_transaction is_blank is_supported_type is_supported_status is_transfer
    has_subcategory_without_category has_id same_id validate_type_invariants normalize_comment
    parse_transaction_type parse_transaction_status type_of status_of type_text status_text
    currency_of currency_text is_supported_currency parse_currency text_eq text_ltb trim_space
    is_empty is_negative
all_by_amount = refl

list_transactions_by_user-IsPage_example :
    (page : List Transaction) × (list_transactions_by_user same_letters same_letters never_like env
        second_by_amount world
      ≡ (ok page, record world { calls = 1 }))
    × IsPage 1 1 (lunch ∷ saved ∷ []) page
list_transactions_by_user-IsPage_example =
    list_transactions_by_user-IsPage same_letters same_letters never_like env second_by_amount world
      (record world { calls = 1 }) (lunch ∷ saved ∷ []) all_by_amount

count_transactions_by_user-length_example :
    count_transactions_by_user same_letters same_letters never_like env second_by_amount world
    ≡ (ok 2, record world { calls = 1 })
count_transactions_by_user-length_example =
    count_transactions_by_user-length same_letters same_letters never_like env second_by_amount
      world (record world { calls = 1 }) (lunch ∷ saved ∷ []) all_by_amount

list_transactions_by_user-is_of_example : (db ≡ db) × (all (is_of user) (lunch ∷ saved ∷ []) ≡ true)
list_transactions_by_user-is_of_example =
    list_transactions_by_user-is_of same_letters same_letters never_like env
      (without_window second_by_amount) world (record world { calls = 1 }) (lunch ∷ saved ∷ [])
      all_by_amount
