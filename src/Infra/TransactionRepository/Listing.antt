-- ===== src/Infra/TransactionRepository/Listing.antt =====
-- internal/infra/postgres/transaction_repository.go: `ListByUserID` and `CountByUserID`. The
-- functions `lower` and `LIKE` of PostgreSQL are parameters, and so is `strings.ToLower`. A null
-- column equals nothing and is before or after no time.
use moneo_backend.Common.{
  ℕ, suc, Bool, true, false, not, ◌&&◌, ◌||◌, Text, text_eq, text_ltb, trim_space, is_empty, Option,
  none, some, List, [], ◌∷◌, ◌++◌, ok, err, if◌then◌else◌, ltb, leb, ◌==◌, length, take, drop,
  is_negative,
}
use moneo_backend.Common
use moneo_backend.Domain.Errors.{Outcome, database_failure}
use moneo_backend.Domain.Transaction.{
  Transaction, TransactionType, TransactionStatus, type_text, status_text,
}
use moneo_backend.Infra.Table.{Table, select_rows}
use moneo_backend.Infra.Database.{TransactionRow, Env, Action, lift, ◌>>=◌, execute}
use moneo_backend.Infra.TransactionRepository.{scan_transaction}

-- `TransactionsSort` is a string type
pub data TransactionsSort : Type 0 where
  effective_at_desc effective_at_asc created_at_desc created_at_asc : TransactionsSort
  amount_desc amount_asc : TransactionsSort
  other_sort : Text → TransactionsSort

-- The limit and the offset are int64.
pub record ListTransactionsQuery : Type 0 where
  pub user_id : Text
  pub transaction_type : Option TransactionType
  pub status : Option TransactionStatus
  pub account_id : Option Text
  pub category_id : Option Text
  pub subcategory_id : Option Text
  pub effective_from : Option ℕ
  pub effective_to : Option ℕ
  pub occurred_from : Option ℕ
  pub occurred_to : Option ℕ
  pub planned_from : Option ℕ
  pub planned_to : Option ℕ
  pub search : Option Text
  pub limit : ℕ
  pub offset : ℕ
  pub sort : TransactionsSort

-- a column that is a given text
unfoldable pub is_text : Text → Option Text → Bool
is_text s none = false
is_text s (some c) = text_eq c s

-- a condition that is added only if the input sets it
unfoldable pub if_set : {A : Type 0} → Option A → (A → Bool) → Bool
if_set none p = true
if_set (some a) p = p a

-- `column >= $n` and `column <= $n`
unfoldable pub is_from : Option ℕ → ℕ → Bool
is_from none t = false
is_from (some c) t = leb t c

unfoldable pub is_to : Option ℕ → ℕ → Bool
is_to none t = false
is_to (some c) t = leb c t

-- `COALESCE(occurred_at, planned_at)`
unfoldable pub effective_at : TransactionRow → Option ℕ
effective_at row = elim row.occurred_at [ none ↦ row.planned_at | some t ↦ some t ]

-- `COALESCE(comment, '')`
unfoldable pub comment_or_empty : Option Text → Text
comment_or_empty none = []
comment_or_empty (some s) = s

-- the first of two keys decides, or the rest
unfoldable pub then_by : Bool → Bool → Bool → Bool
then_by before after rest = before || (not after && rest)

-- an ascending key, and one with NULLS LAST
unfoldable pub by_asc : ℕ → ℕ → Bool → Bool
by_asc a b rest = then_by (ltb a b) (ltb b a) rest

unfoldable pub by_desc : ℕ → ℕ → Bool → Bool
by_desc a b rest = then_by (ltb b a) (ltb a b) rest

unfoldable pub by_nulls_last : (ℕ → ℕ → Bool → Bool) → Option ℕ → Option ℕ → Bool → Bool
by_nulls_last by (some a) (some b) rest = by a b rest
by_nulls_last by (some a) none rest = true
by_nulls_last by none (some b) rest = false
by_nulls_last by none none rest = rest

-- `listSortExpression`, and `id` after it: the first row comes before the second one. The amounts
-- of the table are not negative.
unfoldable pub comes_before :
    TransactionsSort → Text × TransactionRow → Text × TransactionRow → Bool
comes_before effective_at_asc (i, r) (j, s) =
    by_nulls_last by_asc (effective_at r) (effective_at s)
      (by_asc r.created_at s.created_at (text_ltb i j))
comes_before created_at_desc (i, r) (j, s) = by_desc r.created_at s.created_at (text_ltb i j)
comes_before created_at_asc (i, r) (j, s) = by_asc r.created_at s.created_at (text_ltb i j)
comes_before amount_desc (i, r) (j, s) =
    by_desc r.amount_minor s.amount_minor (by_desc r.created_at s.created_at (text_ltb i j))
comes_before amount_asc (i, r) (j, s) =
    by_asc r.amount_minor s.amount_minor (by_desc r.created_at s.created_at (text_ltb i j))
comes_before effective_at_desc (i, r) (j, s) =
    by_nulls_last by_desc (effective_at r) (effective_at s)
      (by_desc r.created_at s.created_at (text_ltb i j))
comes_before (other_sort _) (i, r) (j, s) =
    by_nulls_last by_desc (effective_at r) (effective_at s)
      (by_desc r.created_at s.created_at (text_ltb i j))

unfoldable pub insert_ordered :
    TransactionsSort → Text × TransactionRow → Table TransactionRow → Table TransactionRow
insert_ordered sort p [] = p ∷ []
insert_ordered sort p (q ∷ rows) =
    let later = insert_ordered sort p rows in
    if comes_before sort q p then q ∷ later else p ∷ q ∷ rows

-- the ORDER BY clause
unfoldable pub order_by : TransactionsSort → Table TransactionRow → Table TransactionRow
order_by sort [] = []
order_by sort (p ∷ rows) = insert_ordered sort p (order_by sort rows)

unfoldable pub is_positive : ℕ → Bool
is_positive n = not (n == 0) && not (is_negative n)

-- `OFFSET` and `LIMIT`, if they are positive
unfoldable pub window : {A : Type 0} → ℕ → ℕ → List A → List A
window limit offset xs =
    let rest = if is_positive offset then drop offset xs else xs in
    if is_positive limit then take limit rest else rest

-- the loop over the rows
unfoldable pub scan_transactions : Table TransactionRow → Outcome (List Transaction)
scan_transactions [] = ok []
scan_transactions ((id, row) ∷ rows) =
    Common.◌>>=◌ (scan_transaction id row)
      λ t. Common.◌>>=◌ (scan_transactions rows) λ ts. ok (t ∷ ts)

module _ (to_lower lower : Text → Text) (like : Text → Text → Bool) where
  -- `AND lower(COALESCE(comment, '')) LIKE '%…%'`, unless the text is blank
  unfoldable pub comment_matches : Option Text → Text → Bool
  comment_matches comment search =
      let s = trim_space search in
      if is_empty s
      then true
      else like (lower (comment_or_empty comment)) (0x25 ∷ (to_lower s ++ 0x25 ∷ []))

  -- `WHERE user_id = $1` and `appendTransactionListFilters`
  unfoldable pub is_selected : ListTransactionsQuery → TransactionRow → Bool
  is_selected input row =
      text_eq row.user_id input.user_id
      && if_set input.transaction_type (λ t. text_eq row.type_column (type_text t))
      && if_set input.status (λ s. text_eq row.status_column (status_text s))
      && if_set input.account_id (λ a. is_text a row.account_from_id || is_text a row.account_to_id)
      && if_set input.category_id (λ c. is_text c row.category_id)
      && if_set input.subcategory_id (λ c. is_text c row.subcategory_id)
      && if_set input.effective_from (is_from (effective_at row))
      && if_set input.effective_to (is_to (effective_at row))
      && if_set input.occurred_from (is_from row.occurred_at)
      && if_set input.occurred_to (is_to row.occurred_at)
      && if_set input.planned_from (is_from row.planned_at)
      && if_set input.planned_to (is_to row.planned_at)
      && if_set input.search (comment_matches row.comment)

  -- `TransactionRepository.ListByUserID`
  unfoldable pub list_by_user_id : Env → ListTransactionsQuery → Action (List Transaction)
  list_by_user_id env input = do
    rows ← execute env database_failure λ db. ok (
      window input.limit input.offset
          (order_by input.sort (select_rows (is_selected input) db.transactions)),
      db,
    )
    lift (scan_transactions rows)

  -- `TransactionRepository.CountByUserID`
  unfoldable pub count_by_user_id : Env → ListTransactionsQuery → Action ℕ
  count_by_user_id env input =
      execute env database_failure
        (λ db. ok (length (select_rows (is_selected input) db.transactions), db))
