-- ===== src/Domain/Errors.antt =====
-- The sentinel errors of internal/domain, internal/app and internal/infra. `fmt.Errorf` with `%w` adds
-- only message text in front, and the callers look at errors with `errors.Is`: an error is its
-- sentinel here.
use moneo_backend.Common.{ℕ, Text, Result}

pub data Error : Type 0 where
  -- internal/domain/shared
  invalid_money_amount money_amount_overflow negative_money_amount : Error
  too_many_fractional_digits unsupported_currency currency_mismatch : Error
  -- internal/domain/accounting
  invalid_account_name invalid_account_type account_currency_mismatch : Error
  -- internal/domain/transactions
  transaction_id_required transaction_user_id_required : Error
  invalid_transaction_type invalid_transaction_status : Error
  amount_must_be_non_negative : Error
  account_from_required account_to_required : Error
  account_from_must_be_empty account_to_must_be_empty : Error
  category_must_be_empty subcategory_must_be_empty category_required : Error
  transfer_accounts_must_differ already_posted already_cancelled : Error
  -- internal/app/accounting
  account_not_found concurrent_account_update : Error
  transaction_not_found concurrent_transaction_update : Error
  transaction_already_posted transaction_already_cancelled : Error
  posted_transaction_patch_conflict posted_transaction_delete_conflict : Error
  cancelled_transaction_patch_conflict : Error
  duplicate_active_account_name account_name_already_exists negative_initial_balance : Error
  -- the errors made in place by `transactionAccountDeltas` and by `CreateBulk`
  incomplete_accounts unsupported_transaction_type : Error
  no_items too_many_items : Error
  -- internal/domain/identity
  invalid_email invalid_password password_confirm_mismatch password_hash_required : Error
  session_id_required session_user_id_required session_refresh_hash_missing : Error
  session_expires_at_invalid : Error
  one_time_token_id_required one_time_token_user_id_required : Error
  one_time_token_purpose_required one_time_token_hash_required one_time_token_expires_at_past :
      Error
  -- internal/app/identity
  duplicate_email user_not_found email_already_registered invalid_credentials : Error
  duplicate_session_refresh_token session_not_found invalid_refresh_token : Error
  invalid_access_token one_time_token_not_found invalid_password_reset_token : Error
  invalid_email_verification_token invalid_password_reset_token_ttl : Error
  invalid_verification_token_ttl : Error
  -- internal/infra/postgres and internal/infra/security
  unknown_one_time_token_purpose : Error
  jwt_secret_required invalid_access_token_ttl invalid_refresh_ttl invalid_one_time_token_ttl :
      Error
  invalid_token invalid_token_signature token_expired token_claims_missing : Error
  refresh_token_empty refresh_token_hash_empty : Error
  -- what a generator of random bytes, a hash of a password or a notification answers
  external_failure : Error
  -- what the database answers for all other reasons
  database_failure : Error
  -- `BulkItemError`: the index of the item, the field and the wrapped error
  bulk_item : ℕ → Text → Error → Error

abbrev pub Outcome : Type 0 → Type 0
Outcome A = Result Error A
