-- ===== src/Tests/Batches.antt =====
-- The bulk services on the small database.
use moneo_backend.Common.{
  ◌≡◌, ◌≤◌, ◌↔◌, ◌⊎◌, length, refl, true, false, codes, none, some, [], ◌∷◌, ok, err, trim_space,
  is_empty, text_eq, text_ltb, is_negative, add64, sub64, neg64,
}
use moneo_backend.Domain.Errors.{bulk_item, no_items, account_to_required, transaction_not_found}
use moneo_backend.App.Bulk.Failures.{IsReported, create_bulk-IsReported}
use moneo_backend.Domain.Money.{
  currency_of, currency_text, is_supported_currency, same_currency, parse_currency,
}
use moneo_backend.Domain.Account.{
  is_supported_account_type, account_type_of, account_type_text, parse_account_type, new_account,
}
use moneo_backend.Domain.Transaction.{
  Transaction, planned, posted, cancelled, is_supported_type, is_supported_status, type_of,
  status_of, type_text, status_text, parse_transaction_type, parse_transaction_status, is_blank,
  has_id, same_id, has_subcategory_without_category, normalize_comment, is_transfer,
  validate_type_invariants, new_transaction, post, cancel,
}
use moneo_backend.Infra.Table.{lookup, insert, erase}
use moneo_backend.Infra.Database.{
  Database, World, ◌>>◌, clock_now, generate_id, execute, control, within_tx, run_tx, finish_tx,
  close_tx, Env, done, failure,
}
use moneo_backend.Infra.Database
use moneo_backend.Infra.TransactionRepository.{
  row_of, params_of, scan_transaction, passes_checks, insert_transaction, select_transaction,
  rewrite, update_transaction, delete_transaction, create, scan_found, find_by_id,
  report_missed_update, update_by_id, report_missed_delete, delete_by_id,
}
use moneo_backend.Infra.AccountRepository
use moneo_backend.Infra.AccountRepository.{scan_account, select_account, update_account}
use moneo_backend.App.Effect.{
  delta_of, credit, debit, credit_to, debit_from, move_between, deltas_for,
  transaction_account_deltas, negate_deltas, ids_of, sort_ids, adjusted, adjust_account,
  adjust_unless_zero, adjust_each, apply_transaction_balance_effect,
}
use moneo_backend.App.Transactions.{
  CreateTransactionInput, PatchTransactionInput, is_posted, is_cancelled, default_status,
  occurred_or_now, posted_time, or_keep, created_params, patches_posted_field, set_or_keep,
  required, patched_params, post_dated, map_transaction_status_error, status_or_planned,
  duplicate_params, apply_and_create, post_in_tx, cancel_in_tx, patch_in_tx, delete_in_tx,
  create_in_tx, duplicate_in_tx, get_by_id,
}
use moneo_backend.App.Bulk.{
  create_bulk, patch_bulk, infer_create_field, within_limits, each_item, create_item, patch_item,
  patch_status, set_status, change_status, validate_transition, without_status, max_items,
}
use moneo_backend.App.Bulk.Answers.{HaveAskedStatus, patch_bulk-HaveAskedStatus}
use moneo_backend.App.Bulk.Transitions.{validate_transition_iff}
use moneo_backend.Domain.Transaction.Lifecycle.{Step}
use moneo_backend.Tests.Runs.{refund, refund_input, nothing_set, patched_transfer}
use moneo_backend.Tests.Data.{db, cash_account, savings_account, lunch, saved, env, world}

abbrev new_refund : Transaction
new_refund = record refund {
  occurred_at = some 101;
  posted_at = some 101;
  created_at = 101;
  updated_at = 101;
}

abbrev after_create : World
after_create = record {
  db = record db {
    transactions =
        (codes "t1", row_of lunch)
        ∷ (codes "t2", row_of saved)
        ∷ (codes "t3", row_of new_refund)
        ∷ [];
    accounts =
        (codes "a1", cash_account)
        ∷ (codes "a2", record savings_account { balance_minor = 150; updated_at = 101 })
        ∷ [];
  };
  in_tx = false;
  calls = 7;
}

-- a new comment and the status that undoes the transfer
abbrev cancelling : PatchTransactionInput
cancelling = record nothing_set { status_set = true; new_status = some cancelled }

abbrev cancelled_transfer : Transaction
cancelled_transfer = record patched_transfer {
  status = cancelled;
  cancelled_at = some 105;
  updated_at = 105;
}

abbrev after_cancel : World
after_cancel = record {
  db = record db {
    transactions = (codes "t1", row_of lunch) ∷ (codes "t2", row_of cancelled_transfer) ∷ [];
    accounts =
        (codes "a1", record cash_account { balance_minor = 1000; updated_at = 105 })
        ∷ (codes "a2", record savings_account { balance_minor = 0; updated_at = 105 })
        ∷ [];
  };
  in_tx = false;
  calls = 13;
}

-- One refund is created; the comment of the transfer is changed and it is cancelled.
bulk_runs :
    (create_bulk env (refund_input ∷ []) world ≡ (ok (new_refund ∷ []), after_create))
    × (patch_bulk env (cancelling ∷ []) world ≡ (ok (cancelled_transfer ∷ []), after_cancel))
unfolding create_bulk patch_bulk infer_create_field within_limits each_item create_item patch_item
    patch_status set_status change_status validate_transition without_status get_by_id within_tx
    run_tx finish_tx close_tx control post_in_tx cancel_in_tx delete_in_tx patch_in_tx
    duplicate_in_tx create_in_tx Database.◌>>=◌ ◌>>◌ clock_now generate_id execute trim_space
    is_empty text_eq text_ltb is_negative add64 sub64 neg64 currency_of currency_text
    is_supported_currency same_currency parse_currency is_supported_account_type account_type_of
    account_type_text parse_account_type new_account is_supported_type is_supported_status type_of
    status_of type_text status_text parse_transaction_type parse_transaction_status is_blank has_id
    same_id has_subcategory_without_category normalize_comment is_transfer validate_type_invariants
    new_transaction post cancel lookup insert erase row_of params_of scan_transaction passes_checks
    insert_transaction select_transaction rewrite update_transaction delete_transaction create
    scan_found find_by_id report_missed_update update_by_id report_missed_delete delete_by_id
    AccountRepository.params_of scan_account AccountRepository.passes_checks select_account
    AccountRepository.rewrite update_account AccountRepository.scan_found
    AccountRepository.find_by_id AccountRepository.report_missed_update
    AccountRepository.update_by_id delta_of credit debit credit_to debit_from move_between
    deltas_for transaction_account_deltas negate_deltas ids_of sort_ids adjusted adjust_account
    adjust_unless_zero adjust_each apply_transaction_balance_effect is_posted is_cancelled
    default_status occurred_or_now posted_time or_keep created_params patches_posted_field
    set_or_keep required patched_params post_dated map_transaction_status_error status_or_planned
    duplicate_params apply_and_create
bulk_runs = (refl, refl)

patch_bulk-HaveAskedStatus_example :
    HaveAskedStatus (cancelling ∷ []) (cancelled_transfer ∷ [])
    × (1 ≤ length (cancelling ∷ []))
    × (length (cancelling ∷ []) ≤ max_items)
patch_bulk-HaveAskedStatus_example =
    patch_bulk-HaveAskedStatus env (cancelling ∷ []) (cancelled_transfer ∷ []) world after_cancel
      bulk_runs.1

validate_transition_iff_example : (validate_transition posted cancelled ≡ ok tt) ↔ (
    ((posted ≡ planned) × (cancelled ≡ planned))
    ⊎ ((u : Transaction) × Step saved u × (u.status ≡ cancelled)))
validate_transition_iff_example = validate_transition_iff saved cancelled

-- the second refund has no account to go to
abbrev nowhere : CreateTransactionInput
nowhere = record refund_input { account_to_id = none }

-- no item, and an item that is not there
failed_runs :
    ((patch_bulk env [] world).0 ≡ err (bulk_item 0 (codes "items") no_items))
    × ((patch_bulk env (record nothing_set { transaction_id = codes "t9" } ∷ []) world).0
        ≡ err (bulk_item 0 (codes "id") transaction_not_found))
    × ((create_bulk env (refund_input ∷ nowhere ∷ []) world).0
        ≡ err (bulk_item 1 (codes "accountToId") account_to_required))
unfolding create_bulk patch_bulk infer_create_field within_limits each_item create_item patch_item
    patch_status set_status change_status validate_transition without_status get_by_id within_tx
    run_tx finish_tx close_tx control post_in_tx cancel_in_tx delete_in_tx patch_in_tx
    duplicate_in_tx create_in_tx Database.◌>>=◌ ◌>>◌ clock_now generate_id execute trim_space
    is_empty text_eq text_ltb is_negative add64 sub64 neg64 currency_of currency_text
    is_supported_currency same_currency parse_currency is_supported_account_type account_type_of
    account_type_text parse_account_type new_account is_supported_type is_supported_status type_of
    status_of type_text status_text parse_transaction_type parse_transaction_status is_blank has_id
    same_id has_subcategory_without_category normalize_comment is_transfer validate_type_invariants
    new_transaction post cancel lookup insert erase row_of params_of scan_transaction passes_checks
    insert_transaction select_transaction rewrite update_transaction delete_transaction create
    scan_found find_by_id report_missed_update update_by_id report_missed_delete delete_by_id
    AccountRepository.params_of scan_account AccountRepository.passes_checks select_account
    AccountRepository.rewrite update_account AccountRepository.scan_found
    AccountRepository.find_by_id AccountRepository.report_missed_update
    AccountRepository.update_by_id delta_of credit debit credit_to debit_from move_between
    deltas_for transaction_account_deltas negate_deltas ids_of sort_ids adjusted adjust_account
    adjust_unless_zero adjust_each apply_transaction_balance_effect is_posted is_cancelled
    default_status occurred_or_now posted_time or_keep created_params patches_posted_field
    set_or_keep required patched_params post_dated map_transaction_status_error status_or_planned
    duplicate_params apply_and_create
failed_runs = (refl, refl, refl)

create_bulk-IsReported_example :
    IsReported env
      (refund_input ∷ nowhere ∷ [])
      db
      (bulk_item 1 (codes "accountToId") account_to_required)
create_bulk-IsReported_example =
    create_bulk-IsReported env (refund_input ∷ nowhere ∷ []) world
      (bulk_item 1 (codes "accountToId") account_to_required) refl failed_runs.2
