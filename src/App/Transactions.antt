-- ===== src/App/Transactions.antt =====
-- internal/app/accounting/transactions.go: the services that create, read, change and delete
-- transactions. `cloneStringPtr` trims a comment as `normalizeComment` does; the other clone
-- helpers copy a pointer's target.
use moneo_backend.Common.{
  ℕ, Bool, true, false, ◌&&◌, ◌||◌, Text, Option, none, some, [], ◌∷◌, if◌then◌else◌,
}
use moneo_backend.Domain.Errors.{
  Error, already_posted, already_cancelled, transaction_already_posted,
  transaction_already_cancelled, posted_transaction_patch_conflict,
  posted_transaction_delete_conflict, cancelled_transaction_patch_conflict,
}
use moneo_backend.Domain.Money.{Money}
use moneo_backend.Domain.Transaction.{
  Transaction, TransactionType, TransactionStatus, planned, posted, cancelled, new_transaction,
  normalize_comment, post, cancel,
}
use moneo_backend.Infra.Database.{
  Env, Action, pure, raise, lift, ◌>>=◌, ◌>>◌, raise_if, map_error, clock_now, generate_id,
  within_tx,
}
use moneo_backend.Infra.TransactionRepository.{create, find_by_id, update_by_id, delete_by_id}
use moneo_backend.App.Effect.{apply_transaction_balance_effect}

-- the signs of the calls of `applyTransactionBalanceEffect`, as `int64`
abbrev pub plus_one : ℕ
plus_one = 1

abbrev pub minus_one : ℕ
minus_one = 0xffff_ffff_ffff_ffff

-- `CreateTransactionInput`
pub record CreateTransactionInput : Type 0 where
  pub user_id : Text
  pub transaction_type : TransactionType
  pub status : TransactionStatus
  pub amount : Money
  pub account_from_id : Option Text
  pub account_to_id : Option Text
  pub category_id : Option Text
  pub subcategory_id : Option Text
  pub income_source_id : Option Text
  pub comment : Option Text
  pub occurred_at : Option ℕ
  pub planned_at : Option ℕ

unfoldable pub is_posted : TransactionStatus → Bool
is_posted posted = true
is_posted _ = false

unfoldable pub is_cancelled : TransactionStatus → Bool
is_cancelled cancelled = true
is_cancelled _ = false

-- `if status == "" { status = TransactionStatusPlanned }`
unfoldable pub default_status : TransactionStatus → TransactionStatus
default_status (TransactionStatus.other []) = planned
default_status (TransactionStatus.other (c ∷ s)) = TransactionStatus.other (c ∷ s)
default_status planned = planned
default_status posted = posted
default_status cancelled = cancelled

-- a posted transaction without a time of occurrence occurs now
unfoldable pub occurred_or_now : TransactionStatus → Option ℕ → ℕ → Option ℕ
occurred_or_now s (some at) now = some at
occurred_or_now s none now = if is_posted s then some now else none

unfoldable pub posted_time : TransactionStatus → Option ℕ → Option ℕ
posted_time s occurred = if is_posted s then occurred else none

-- `if a != nil { x = a }`
unfoldable pub or_keep {ℓ} : {A : Type ℓ} → Option A → Option A → Option A
or_keep none x = x
or_keep (some a) x = some a

abbrev pub when : Bool → Action (Unit {0}) → Action (Unit {0})
when b m = if b then m else pure tt

-- the parameters that `createInTx` passes to `NewTransaction`
unfoldable pub created_params : CreateTransactionInput → ℕ → Text → Transaction
created_params input now id =
    let status = default_status input.status in
    let occurred = occurred_or_now status input.occurred_at now in
    record {
      id = id;
      user_id = input.user_id;
      transaction_type = input.transaction_type;
      status = status;
      amount = input.amount;
      account_from_id = input.account_from_id;
      account_to_id = input.account_to_id;
      category_id = input.category_id;
      subcategory_id = input.subcategory_id;
      income_source_id = input.income_source_id;
      comment = normalize_comment input.comment;
      occurred_at = occurred;
      planned_at = input.planned_at;
      posted_at = posted_time status occurred;
      cancelled_at = none;
      created_at = now;
      updated_at = now;
    }

-- `PatchTransactionInput`: a flag says whether the field is in the request
pub record PatchTransactionInput : Type 0 where
  pub user_id : Text
  pub transaction_id : Text
  pub type_set : Bool
  pub new_type : Option TransactionType
  pub status_set : Bool
  pub new_status : Option TransactionStatus
  pub amount_set : Bool
  pub new_amount : Option Money
  pub currency_set : Bool
  pub account_from_id_set : Bool
  pub account_from_id : Option Text
  pub account_to_id_set : Bool
  pub account_to_id : Option Text
  pub category_id_set : Bool
  pub category_id : Option Text
  pub subcategory_id_set : Bool
  pub subcategory_id : Option Text
  pub income_source_set : Bool
  pub income_source_id : Option Text
  pub comment_set : Bool
  pub comment : Option Text
  pub occurred_at_set : Bool
  pub occurred_at : Option ℕ
  pub planned_at_set : Bool
  pub planned_at : Option ℕ

-- the fields that a posted transaction does not let change
unfoldable pub patches_posted_field : PatchTransactionInput → Bool
patches_posted_field p =
    p.type_set || p.status_set || p.amount_set || p.currency_set || p.account_from_id_set
    || p.account_to_id_set || p.income_source_set || p.planned_at_set

-- a field that must not be null when it is in the request
unfoldable pub set_or_keep {ℓ} : {A : Type ℓ} → Bool → Option A → A → Option A
set_or_keep true new old = new
set_or_keep false new old = some old

unfoldable pub required : {A : Type 0} → Option A → Action A
required none = raise posted_transaction_patch_conflict
required (some a) = pure a

-- the parameters that `patchInTx` passes to `NewTransaction`
unfoldable pub patched_params :
    Transaction → PatchTransactionInput → TransactionType → Money → ℕ → Transaction
patched_params t p next_type next_amount at = record t {
  transaction_type = next_type;
  amount = next_amount;
  account_from_id = if p.account_from_id_set then p.account_from_id else t.account_from_id;
  account_to_id = if p.account_to_id_set then p.account_to_id else t.account_to_id;
  category_id = if p.category_id_set then p.category_id else t.category_id;
  subcategory_id = if p.subcategory_id_set then p.subcategory_id else t.subcategory_id;
  income_source_id = if p.income_source_set then p.income_source_id else t.income_source_id;
  comment = if p.comment_set then normalize_comment p.comment else t.comment;
  occurred_at = if p.occurred_at_set then p.occurred_at else t.occurred_at;
  planned_at = if p.planned_at_set then p.planned_at else t.planned_at;
  updated_at = at;
}

-- the parameters of `transactionWithPostDate`
unfoldable pub post_dated : Transaction → ℕ → Transaction
post_dated t at = record t { occurred_at = or_keep t.occurred_at (some at); updated_at = at }

-- `mapTransactionStatusError`
unfoldable pub map_transaction_status_error : Error → Error
map_transaction_status_error already_posted = transaction_already_posted
map_transaction_status_error already_cancelled = transaction_already_cancelled
map_transaction_status_error e = e

-- `DuplicateTransactionInput`
pub record DuplicateTransactionInput : Type 0 where
  pub user_id : Text
  pub transaction_id : Text
  pub status : Option TransactionStatus
  pub occurred_at : Option ℕ
  pub planned_at : Option ℕ
  pub comment : Option Text

unfoldable pub status_or_planned : Option TransactionStatus → TransactionStatus
status_or_planned none = planned
status_or_planned (some s) = s

-- the parameters of the copy that `DuplicateByID` makes
unfoldable pub duplicate_params : DuplicateTransactionInput → Transaction → ℕ → Text → Transaction
duplicate_params input source now id =
    let status = status_or_planned input.status in
    let occurred = or_keep input.occurred_at source.occurred_at in
    let planned_at = or_keep (or_keep input.planned_at source.planned_at) occurred in
    let occurred_now = occurred_or_now status occurred now in
    record source {
      id = id;
      user_id = input.user_id;
      status = status;
      comment = elim input.comment [ none ↦ source.comment | some c ↦ normalize_comment (some c) ];
      occurred_at = occurred_now;
      planned_at = planned_at;
      posted_at = posted_time status occurred_now;
      cancelled_at = none;
      created_at = now;
      updated_at = now;
    }

module _ (env : Env) where
  -- what `createInTx` and `DuplicateByID` do with the new transaction; the effect is applied
  -- before the row is written
  unfoldable pub apply_and_create : Text → ℕ → Transaction → Action Transaction
  apply_and_create user_id now t =
      when (is_posted t.status) (apply_transaction_balance_effect env user_id t plus_one now)
      >> create env t
      >> pure t

  -- `CreateTransactionService.createInTx`
  unfoldable pub create_in_tx : CreateTransactionInput → Action Transaction
  create_in_tx input = do
    now ← clock_now env
    id ← generate_id env
    t ← lift (new_transaction (created_params input now id))
    apply_and_create t.user_id now t

  -- `PatchTransactionService.patchInTx`
  unfoldable pub patch_in_tx : PatchTransactionInput → Action Transaction
  patch_in_tx p = do
    current ← find_by_id env p.user_id p.transaction_id
    raise_if (is_cancelled current.status) cancelled_transaction_patch_conflict
    raise_if (is_posted current.status && patches_posted_field p) posted_transaction_patch_conflict
    next_type ← required (set_or_keep p.type_set p.new_type current.transaction_type)
    next_amount ← required (set_or_keep p.amount_set p.new_amount current.amount)
    at ← clock_now env
    next ← lift (new_transaction (patched_params current p next_type next_amount at))
    update_by_id env next current.updated_at
    pure next

  -- the body of `DeleteTransactionService.DeleteByID`
  unfoldable pub delete_in_tx : Text → Text → Action Transaction
  delete_in_tx user_id id = do
    current ← find_by_id env user_id id
    raise_if (is_posted current.status) posted_transaction_delete_conflict
    delete_by_id env user_id id current.updated_at
    pure current

  -- `PostTransactionService.postInTx`
  unfoldable pub post_in_tx : Text → Text → Action Transaction
  post_in_tx user_id id = do
    now ← clock_now env
    current ← find_by_id env user_id id
    dated ← lift (new_transaction (post_dated current now))
    candidate ← map_error map_transaction_status_error (lift (post dated now))
    update_by_id env candidate current.updated_at
    apply_transaction_balance_effect env user_id candidate plus_one now
    pure candidate

  -- `CancelTransactionService.cancelInTx`
  unfoldable pub cancel_in_tx : Text → Text → Action Transaction
  cancel_in_tx user_id id = do
    now ← clock_now env
    current ← find_by_id env user_id id
    candidate ← map_error map_transaction_status_error (lift (cancel current now))
    update_by_id env candidate current.updated_at
    when (is_posted current.status)
        (apply_transaction_balance_effect env user_id current minus_one now)
    pure candidate

  -- the body of `DuplicateTransactionService.DuplicateByID`
  unfoldable pub duplicate_in_tx : DuplicateTransactionInput → ℕ → Action Transaction
  duplicate_in_tx input now = do
    source ← find_by_id env input.user_id input.transaction_id
    id ← generate_id env
    copy ← lift (new_transaction (duplicate_params input source now id))
    apply_and_create input.user_id now copy

  -- `Create`, `Patch`, `DeleteByID`, `PostByID`, `CancelByID`, `DuplicateByID`
  unfoldable pub create_transaction : CreateTransactionInput → Action Transaction
  create_transaction input = within_tx env (create_in_tx input)

  unfoldable pub patch_transaction : PatchTransactionInput → Action Transaction
  patch_transaction p =
      if p.status_set
      then raise posted_transaction_patch_conflict
      else within_tx env (patch_in_tx p)

  unfoldable pub delete_transaction_by_id : Text → Text → Action Transaction
  delete_transaction_by_id user_id id = within_tx env (delete_in_tx user_id id)

  unfoldable pub post_by_id : Text → Text → Action Transaction
  post_by_id user_id id = within_tx env (post_in_tx user_id id)

  unfoldable pub cancel_by_id : Text → Text → Action Transaction
  cancel_by_id user_id id = within_tx env (cancel_in_tx user_id id)

  -- the clock is read before the transaction begins
  unfoldable pub duplicate_by_id : DuplicateTransactionInput → Action Transaction
  duplicate_by_id input = do now ← clock_now env; within_tx env (duplicate_in_tx input now)

  -- `GetTransactionService.GetByID`
  unfoldable pub get_by_id : Text → Text → Action Transaction
  get_by_id user_id id = find_by_id env user_id id
