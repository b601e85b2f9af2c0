-- ===== src/App/Bulk.antt =====
-- internal/app/accounting/transactions_bulk.go: many transactions created or changed in one
-- database transaction. An error names the item it is about by `BulkItemError`.
pub mod Keep
pub mod Answers
pub mod Failures
pub mod Transitions
use moneo_backend.Common.{
  ℕ, zero, suc, ◌+◌, Bool, true, false, Text, codes, Option, none, some, List, [], ◌∷◌, length,
  if◌then◌else◌, ltb, ok, err,
}
use moneo_backend.Domain.Errors.{
  Error, Outcome, no_items, too_many_items, bulk_item, amount_must_be_non_negative,
  account_from_required, account_from_must_be_empty, account_to_required, account_to_must_be_empty,
  category_required, category_must_be_empty, subcategory_must_be_empty,
  transfer_accounts_must_differ, invalid_transaction_type, invalid_transaction_status,
  transaction_not_found, concurrent_transaction_update, cancelled_transaction_patch_conflict,
  posted_transaction_patch_conflict, transaction_already_posted, transaction_already_cancelled,
}
use moneo_backend.Domain.Transaction.{Transaction, TransactionStatus, planned, posted, cancelled}
use moneo_backend.Infra.Database.{Env, Action, pure, raise, lift, ◌>>=◌, ◌>>◌, map_error, within_tx}
use moneo_backend.App.Transactions.{
  CreateTransactionInput, PatchTransactionInput, create_in_tx, patch_in_tx, post_in_tx,
  cancel_in_tx, get_by_id,
}

-- `transactionsBulkMaxItems`
abbrev pub max_items : ℕ
max_items = 100

-- `inferCreateField`
unfoldable pub infer_create_field : Error → Text
infer_create_field amount_must_be_non_negative = codes "amount"
infer_create_field account_from_required = codes "accountFromId"
infer_create_field account_from_must_be_empty = codes "accountFromId"
infer_create_field account_to_required = codes "accountToId"
infer_create_field account_to_must_be_empty = codes "accountToId"
infer_create_field category_required = codes "categoryId"
infer_create_field category_must_be_empty = codes "categoryId"
infer_create_field subcategory_must_be_empty = codes "subcategoryId"
infer_create_field transfer_accounts_must_differ = codes "accountToId"
infer_create_field invalid_transaction_type = codes "type"
infer_create_field invalid_transaction_status = codes "status"
infer_create_field e = codes "item"

-- the field of a patch that a posted transaction does not let change
unfoldable pub posted_conflict_field : PatchTransactionInput → Text
posted_conflict_field p =
    if p.amount_set
    then codes "amount"
    else if p.currency_set
    then codes "currency"
    else if p.type_set
    then codes "type"
    else if p.account_from_id_set
    then codes "accountFromId"
    else if p.account_to_id_set
    then codes "accountToId"
    else if p.planned_at_set
    then codes "plannedAt"
    else if p.status_set
    then codes "status"
    else codes "item"

-- `inferPatchField`
unfoldable pub infer_patch_field : PatchTransactionInput → Error → Text
infer_patch_field p transaction_not_found = codes "id"
infer_patch_field p concurrent_transaction_update = codes "id"
infer_patch_field p cancelled_transaction_patch_conflict = codes "status"
infer_patch_field p posted_transaction_patch_conflict = posted_conflict_field p
infer_patch_field p amount_must_be_non_negative = codes "amount"
infer_patch_field p account_from_required = codes "accountFromId"
infer_patch_field p account_from_must_be_empty = codes "accountFromId"
infer_patch_field p account_to_required = codes "accountToId"
infer_patch_field p account_to_must_be_empty = codes "accountToId"
infer_patch_field p category_required = codes "categoryId"
infer_patch_field p category_must_be_empty = codes "categoryId"
infer_patch_field p subcategory_must_be_empty = codes "subcategoryId"
infer_patch_field p transfer_accounts_must_differ = codes "accountToId"
infer_patch_field p transaction_already_posted = codes "status"
infer_patch_field p transaction_already_cancelled = codes "status"
infer_patch_field p e = codes "item"

-- `validateBulkPatchStatusTransition`
unfoldable pub validate_transition : TransactionStatus → TransactionStatus → Outcome (Unit {0})
validate_transition planned planned = ok tt
validate_transition planned posted = ok tt
validate_transition planned cancelled = ok tt
validate_transition planned (TransactionStatus.other s) = err posted_transaction_patch_conflict
validate_transition posted cancelled = ok tt
validate_transition posted planned = err posted_transaction_patch_conflict
validate_transition posted posted = err posted_transaction_patch_conflict
validate_transition posted (TransactionStatus.other s) = err posted_transaction_patch_conflict
validate_transition cancelled target = err transaction_already_cancelled
validate_transition (TransactionStatus.other s) target = err posted_transaction_patch_conflict

-- the patch of `patchWithoutStatus`
unfoldable pub without_status : PatchTransactionInput → PatchTransactionInput
without_status p = record p { status_set = false; new_status = none }

-- `if len(input.Items) == 0 {…}; if len(input.Items) > transactionsBulkMaxItems {…}`
unfoldable pub within_limits : ℕ → Action (Unit {0})
within_limits zero = raise (bulk_item 0 (codes "items") no_items)
within_limits (suc n) =
    if ltb max_items (suc n) then raise (bulk_item 0 (codes "items") too_many_items) else pure tt

-- the loops `for idx, item := range input.Items` of `CreateBulk` and of `PatchBulk`, which append
-- what is done with an item to the answer
unfoldable pub each_item :
    {Item : Type 0} → (ℕ → Item → Action Transaction) → ℕ → List Item → Action (List Transaction)
each_item body idx [] = pure []
each_item body idx (item ∷ items) = do
  t ← body idx item
  rest ← each_item body (suc idx) items
  pure (t ∷ rest)

module _ (env : Env) where
  unfoldable pub create_item : ℕ → CreateTransactionInput → Action Transaction
  create_item idx item =
      map_error (λ e. bulk_item idx (infer_create_field e) e) (create_in_tx env item)

  -- `CreateBulk`
  unfoldable pub create_bulk : List CreateTransactionInput → Action (List Transaction)
  create_bulk items = do within_limits (length items); within_tx env (each_item create_item 0 items)

  -- the `switch` on the target status
  unfoldable pub change_status :
      PatchTransactionInput → Transaction → TransactionStatus → Action Transaction
  change_status item patched posted = post_in_tx env item.user_id item.transaction_id
  change_status item patched cancelled = cancel_in_tx env item.user_id item.transaction_id
  change_status item patched planned = pure patched
  change_status item patched (TransactionStatus.other s) = pure patched

  unfoldable pub set_status :
      PatchTransactionInput
      → Transaction
      → Transaction
      → Option TransactionStatus
      → Action Transaction
  set_status item current patched none = raise posted_transaction_patch_conflict
  set_status item current patched (some target) = do
    lift (validate_transition current.status target)
    change_status item patched target

  -- what the loop does with an item whose status is in the request
  unfoldable pub patch_status :
      PatchTransactionInput → Transaction → Transaction → Action Transaction
  patch_status item current patched =
      if item.status_set then set_status item current patched item.new_status else pure patched

  unfoldable pub patch_item : ℕ → PatchTransactionInput → Action Transaction
  patch_item idx item = do
    current ←
        map_error (bulk_item idx (codes "id")) (get_by_id env item.user_id item.transaction_id)
    patched ←
        map_error (λ e. bulk_item idx (infer_patch_field item e) e)
          (patch_in_tx env (without_status item))
    map_error (bulk_item idx (codes "status")) (patch_status item current patched)

  -- `PatchBulk`
  unfoldable pub patch_bulk : List PatchTransactionInput → Action (List Transaction)
  patch_bulk items = do within_limits (length items); within_tx env (each_item patch_item 0 items)
