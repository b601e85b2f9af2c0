-- ===== src/Tests/Runs.antt =====
-- The services on the small database.
use moneo_backend.Common.{
  ◌≡◌, refl, true, false, codes, none, some, [], ◌∷◌, ok, err, trim_space, is_empty, text_eq,
  text_ltb, is_negative, add64, sub64, neg64, if◌then◌else◌, ◌==◌,
}
use moneo_backend.Domain.Errors.{database_failure}
use moneo_backend.Domain.Money.{
  rub, currency_of, currency_text, is_supported_currency, same_currency, parse_currency,
}
use moneo_backend.Domain.Account.{
  is_supported_account_type, account_type_of, account_type_text, parse_account_type, new_account,
}
use moneo_backend.Domain.Transaction.{
  Transaction, income, posted, cancelled, is_supported_type, is_supported_status, type_of,
  status_of, type_text, status_text, parse_transaction_type, parse_transaction_status, is_blank,
  has_id, same_id, has_subcategory_without_category, normalize_comment, is_transfer,
  validate_type_invariants, new_transaction, post, cancel,
}
use moneo_backend.Infra.Table.{lookup, insert, erase}
use moneo_backend.Infra.Database.{
  Database, World, ◌>>◌, clock_now, generate_id, execute, control, within_tx, run_tx, finish_tx,
  close_tx, Env, done, failure,
}
use moneo_backend.Infra.Database
use moneo_backend.Infra.TransactionRepository.{
  row_of, params_of, scan_transaction, passes_checks, insert_transaction, select_transaction,
  rewrite, update_transaction, delete_transaction, create, scan_found, find_by_id,
  report_missed_update, update_by_id, report_missed_delete, delete_by_id,
}
use moneo_backend.Infra.AccountRepository
use moneo_backend.Infra.AccountRepository.{scan_account, select_account, update_account}
use moneo_backend.App.Effect.{
  delta_of, credit, debit, credit_to, debit_from, move_between, deltas_for,
  transaction_account_deltas, negate_deltas, ids_of, sort_ids, adjusted, adjust_account,
  adjust_unless_zero, adjust_each, apply_transaction_balance_effect,
}
use moneo_backend.App.Transactions.{
  CreateTransactionInput, PatchTransactionInput, DuplicateTransactionInput, is_posted, is_cancelled,
  default_status, occurred_or_now, posted_time, or_keep, created_params, patches_posted_field,
  set_or_keep, required, patched_params, post_dated, map_transaction_status_error,
  status_or_planned, duplicate_params, apply_and_create, post_in_tx, cancel_in_tx, patch_in_tx,
  delete_in_tx, create_in_tx, duplicate_in_tx, minus_one, post_by_id,
}
use moneo_backend.App.Services.Atomic.{serve, posts}
use moneo_backend.Tests.Data.{user, cash_account, savings_account, lunch, saved, db, env, world}

abbrev pub posted_lunch : Transaction
posted_lunch = record lunch {
  status = posted;
  occurred_at = some 100;
  posted_at = some 100;
  updated_at = 100;
}

abbrev pub after_post : World
after_post = record {
  db = record db {
    transactions = (codes "t1", row_of posted_lunch) ∷ (codes "t2", row_of saved) ∷ [];
    accounts =
        (codes "a1", record cash_account { balance_minor = 600; updated_at = 100 })
        ∷ (codes "a2", savings_account)
        ∷ [];
  };
  in_tx = false;
  calls = 5;
}

abbrev pub cancelled_transfer : Transaction
cancelled_transfer = record saved { status = cancelled; cancelled_at = some 100; updated_at = 100 }

abbrev pub after_cancel : World
after_cancel = record {
  db = record db {
    transactions = (codes "t1", row_of lunch) ∷ (codes "t2", row_of cancelled_transfer) ∷ [];
    accounts =
        (codes "a1", record cash_account { balance_minor = 1000; updated_at = 100 })
        ∷ (codes "a2", record savings_account { balance_minor = 0; updated_at = 100 })
        ∷ [];
  };
  in_tx = false;
  calls = 7;
}

abbrev pub after_delete : World
after_delete = record world {
  db = record db { transactions = (codes "t2", row_of saved) ∷ [] };
  calls = 2;
}

abbrev pub nothing_set : PatchTransactionInput
nothing_set = record {
  user_id = user;
  transaction_id = codes "t2";
  type_set = false;
  new_type = none;
  status_set = false;
  new_status = none;
  amount_set = false;
  new_amount = none;
  currency_set = false;
  account_from_id_set = false;
  account_from_id = none;
  account_to_id_set = false;
  account_to_id = none;
  category_id_set = false;
  category_id = none;
  subcategory_id_set = false;
  subcategory_id = none;
  income_source_set = false;
  income_source_id = none;
  comment_set = true;
  comment = some (codes " rent ");
  occurred_at_set = false;
  occurred_at = none;
  planned_at_set = false;
  planned_at = none;
}

abbrev pub patched_transfer : Transaction
patched_transfer = record saved { comment = some (codes "rent"); updated_at = 101 }

abbrev pub after_patch : World
after_patch = record world {
  db = record db {
    transactions = (codes "t1", row_of lunch) ∷ (codes "t2", row_of patched_transfer) ∷ [];
  };
  calls = 3;
}

abbrev pub copy_input : DuplicateTransactionInput
copy_input = record {
  user_id = user;
  transaction_id = codes "t1";
  status = some posted;
  occurred_at = some 60;
  planned_at = none;
  comment = none;
}

abbrev pub copied_lunch : Transaction
copied_lunch = record lunch {
  id = codes "t3";
  status = posted;
  occurred_at = some 60;
  planned_at = some 50;
  posted_at = some 60;
  created_at = 99;
  updated_at = 99;
}

abbrev pub after_copy : World
after_copy = record {
  db = record db {
    transactions =
        (codes "t1", row_of lunch)
        ∷ (codes "t2", row_of saved)
        ∷ (codes "t3", row_of copied_lunch)
        ∷ [];
    accounts =
        (codes "a1", record cash_account { balance_minor = 600; updated_at = 99 })
        ∷ (codes "a2", savings_account)
        ∷ [];
  };
  in_tx = false;
  calls = 5;
}

abbrev pub refund_input : CreateTransactionInput
refund_input = record {
  user_id = user;
  transaction_type = income;
  status = posted;
  amount = record { minor_units = 50; currency = rub };
  account_from_id = none;
  account_to_id = some (codes "a2");
  category_id = none;
  subcategory_id = none;
  income_source_id = none;
  comment = some (codes "  ");
  occurred_at = none;
  planned_at = none;
}

abbrev pub refund : Transaction
refund = record {
  id = codes "t3";
  user_id = user;
  transaction_type = income;
  status = posted;
  amount = record { minor_units = 50; currency = rub };
  account_from_id = none;
  account_to_id = some (codes "a2");
  category_id = none;
  subcategory_id = none;
  income_source_id = none;
  comment = none;
  occurred_at = some 100;
  planned_at = none;
  posted_at = some 100;
  cancelled_at = none;
  created_at = 100;
  updated_at = 100;
}

abbrev pub after_create : World
after_create = record {
  db = record db {
    transactions =
        (codes "t1", row_of lunch) ∷ (codes "t2", row_of saved) ∷ (codes "t3", row_of refund) ∷ [];
    accounts =
        (codes "a1", cash_account)
        ∷ (codes "a2", record savings_account { balance_minor = 150; updated_at = 100 })
        ∷ [];
  };
  in_tx = false;
  calls = 5;
}

abbrev pub after_reversal : World
after_reversal = record world { db = record db { accounts = after_cancel.db.accounts }; calls = 4 }

-- the database fails at the fourth call
abbrev pub failing : Env
failing = record env { reply = λ n. if n == 3 then failure else done }

-- Posting the lunch takes 3.00 from the cash account; cancelling the transfer moves 1.00 back; the
-- planned lunch may be deleted; the comment of the posted transfer may be patched; a posted copy of
-- the lunch takes 3.00 again; a refund of 0.50 enters the savings; a reversed transfer moves back;
-- a failure when the lunch is posted leaves no trace.
pub runs :
    (post_in_tx env user (codes "t1") world ≡ (ok posted_lunch, after_post))
    × (cancel_in_tx env user (codes "t2") world ≡ (ok cancelled_transfer, after_cancel))
    × (delete_in_tx env user (codes "t1") world ≡ (ok lunch, after_delete))
    × (patch_in_tx env nothing_set world ≡ (ok patched_transfer, after_patch))
    × (duplicate_in_tx env copy_input 99 world ≡ (ok copied_lunch, after_copy))
    × (create_in_tx env refund_input world ≡ (ok refund, after_create))
    × (apply_transaction_balance_effect env user saved minus_one 100 world
        ≡ (ok tt, after_reversal))
    × (delete_by_id env user (codes "t1") 3 world ≡ (ok tt, record after_delete { calls = 1 }))
    × (serve failing (posts user (codes "t1")) world
        ≡ (err database_failure, record world { calls = 5 }))
unfolding serve post_by_id within_tx run_tx finish_tx close_tx control post_in_tx cancel_in_tx
    delete_in_tx patch_in_tx duplicate_in_tx create_in_tx Database.◌>>=◌ ◌>>◌ clock_now generate_id
    execute trim_space is_empty text_eq text_ltb is_negative add64 sub64 neg64 currency_of
    currency_text is_supported_currency same_currency parse_currency is_supported_account_type
    account_type_of account_type_text parse_account_type new_account is_supported_type
    is_supported_status type_of status_of type_text status_text parse_transaction_type
    parse_transaction_status is_blank has_id same_id has_subcategory_without_category
    normalize_comment is_transfer validate_type_invariants new_transaction post cancel lookup insert
    erase row_of params_of scan_transaction passes_checks insert_transaction select_transaction
    rewrite update_transaction delete_transaction create scan_found find_by_id report_missed_update
    update_by_id report_missed_delete delete_by_id AccountRepository.params_of scan_account
    AccountRepository.passes_checks select_account AccountRepository.rewrite update_account
    AccountRepository.scan_found AccountRepository.find_by_id AccountRepository.report_missed_update
    AccountRepository.update_by_id delta_of credit debit credit_to debit_from move_between
    deltas_for transaction_account_deltas negate_deltas ids_of sort_ids adjusted adjust_account
    adjust_unless_zero adjust_each apply_transaction_balance_effect is_posted is_cancelled
    default_status occurred_or_now posted_time or_keep created_params patches_posted_field
    set_or_keep required patched_params post_dated map_transaction_status_error status_or_planned
    duplicate_params apply_and_create
runs = (refl, refl, refl, refl, refl, refl, refl, refl, refl)
