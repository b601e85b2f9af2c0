-- ===== src/Domain/Transaction.antt =====
-- internal/domain/transactions/transaction.go: the transaction, the rules of its constructor and
-- its two state changes. A nil pointer is `none`; the clone helpers copy a pointer's target, which
-- is the value itself here.
pub mod Rules
pub mod Lifecycle
use moneo_backend.Common.{
  ℕ, Bool, true, false, not, ◌&&◌, Text, codes, text_eq, trim_space, is_empty, is_negative, Option,
  none, some, if◌then◌else◌, ok, err, fail_if, ◌>>=◌, ◌>>◌,
}
use moneo_backend.Domain.Errors.{
  Outcome, transaction_id_required, transaction_user_id_required, invalid_transaction_type,
  invalid_transaction_status, amount_must_be_non_negative, account_from_required,
  account_to_required, account_from_must_be_empty, account_to_must_be_empty, category_must_be_empty,
  subcategory_must_be_empty, category_required, transfer_accounts_must_differ, already_posted,
  already_cancelled,
}
use moneo_backend.Domain.Money.{Money}

-- `TransactionType`, a string type: `other` holds every text that is not one of the constants.
pub data TransactionType : Type 0 where
  income expense transfer investment saving : TransactionType
  other : Text → TransactionType

-- `TransactionStatus`
pub data TransactionStatus : Type 0 where
  planned posted cancelled : TransactionStatus
  other : Text → TransactionStatus

-- `NewTransactionParams`, and `Transaction`, which has the same fields
pub record Transaction : Type 0 where
  pub id : Text
  pub user_id : Text
  pub transaction_type : TransactionType
  pub status : TransactionStatus
  pub amount : Money
  pub account_from_id : Option Text
  pub account_to_id : Option Text
  pub category_id : Option Text
  pub subcategory_id : Option Text
  pub income_source_id : Option Text
  pub comment : Option Text
  pub occurred_at : Option ℕ
  pub planned_at : Option ℕ
  pub posted_at : Option ℕ
  pub cancelled_at : Option ℕ
  pub created_at : ℕ
  pub updated_at : ℕ

-- `TransactionType.IsSupported`
unfoldable pub is_supported_type : TransactionType → Bool
is_supported_type income = true
is_supported_type expense = true
is_supported_type transfer = true
is_supported_type investment = true
is_supported_type saving = true
is_supported_type (TransactionType.other s) = false

-- `TransactionStatus.IsSupported`
unfoldable pub is_supported_status : TransactionStatus → Bool
is_supported_status planned = true
is_supported_status posted = true
is_supported_status cancelled = true
is_supported_status (TransactionStatus.other s) = false

-- `TransactionType(value)`
unfoldable pub type_of : Text → TransactionType
type_of s =
    if text_eq s (codes "income")
    then income
    else if text_eq s (codes "expense")
    then expense
    else if text_eq s (codes "transfer")
    then transfer
    else if text_eq s (codes "investment")
    then investment
    else if text_eq s (codes "saving")
    then saving
    else TransactionType.other s

-- `TransactionStatus(value)`
unfoldable pub status_of : Text → TransactionStatus
status_of s =
    if text_eq s (codes "planned")
    then planned
    else if text_eq s (codes "posted")
    then posted
    else if text_eq s (codes "cancelled")
    then cancelled
    else TransactionStatus.other s

-- `string(t)` for a type and for a status
unfoldable pub type_text : TransactionType → Text
type_text income = codes "income"
type_text expense = codes "expense"
type_text transfer = codes "transfer"
type_text investment = codes "investment"
type_text saving = codes "saving"
type_text (TransactionType.other s) = s

unfoldable pub status_text : TransactionStatus → Text
status_text planned = codes "planned"
status_text posted = codes "posted"
status_text cancelled = codes "cancelled"
status_text (TransactionStatus.other s) = s

-- `ParseTransactionType`
unfoldable pub parse_transaction_type : Text → Outcome TransactionType
parse_transaction_type value =
    let t = type_of (trim_space value) in
    if is_supported_type t then ok t else err invalid_transaction_type

-- `ParseTransactionStatus`
unfoldable pub parse_transaction_status : Text → Outcome TransactionStatus
parse_transaction_status value =
    let s = status_of (trim_space value) in
    if is_supported_status s then ok s else err invalid_transaction_status

-- `strings.TrimSpace(s) == ""`
unfoldable pub is_blank : Text → Bool
is_blank s = is_empty (trim_space s)

-- `hasAccountID`, `hasCategoryID` and `hasSubcategoryID`
unfoldable pub has_id : Option Text → Bool
has_id none = false
has_id (some s) = not (is_blank s)

-- `normalizeID(*a) == normalizeID(*b)`; the caller has checked that both are there
unfoldable pub same_id : Option Text → Option Text → Bool
same_id (some a) (some b) = text_eq (trim_space a) (trim_space b)
same_id none _ = false
same_id (some a) none = false

-- `hasSubcategoryWithoutCategory`
unfoldable pub has_subcategory_without_category : Option Text → Option Text → Bool
unfolding has_id
has_subcategory_without_category subcategory category = has_id subcategory && not (has_id category)

-- `normalizeComment`
unfoldable pub normalize_comment : Option Text → Option Text
normalize_comment none = none
normalize_comment (some s) = let t = trim_space s in if is_empty t then none else some t

-- the condition `params.Type != TransactionTypeTransfer`
unfoldable pub is_transfer : TransactionType → Bool
is_transfer transfer = true
is_transfer _ = false

-- `validateTypeInvariants`
unfoldable pub validate_type_invariants : TransactionType → Transaction → Outcome (Unit {0})
validate_type_invariants income p = do
  fail_if (not (has_id p.account_to_id)) account_to_required
  fail_if (has_id p.account_from_id) account_from_must_be_empty
validate_type_invariants expense p = do
  fail_if (not (has_id p.account_from_id)) account_from_required
  fail_if (has_id p.account_to_id) account_to_must_be_empty
  fail_if (not (has_id p.category_id)) category_required
validate_type_invariants transfer p = do
  fail_if (not (has_id p.account_from_id)) account_from_required
  fail_if (not (has_id p.account_to_id)) account_to_required
  fail_if (same_id p.account_from_id p.account_to_id) transfer_accounts_must_differ
  fail_if (has_id p.category_id) category_must_be_empty
  fail_if (has_id p.subcategory_id) subcategory_must_be_empty
validate_type_invariants investment p = do
  fail_if (not (has_id p.account_from_id)) account_from_required
  fail_if (not (has_id p.category_id)) category_required
  fail_if (has_id p.account_to_id) account_to_must_be_empty
validate_type_invariants saving p = do
  fail_if (not (has_id p.account_from_id)) account_from_required
  fail_if (not (has_id p.category_id)) category_required
  fail_if (has_id p.account_to_id) account_to_must_be_empty
validate_type_invariants (TransactionType.other s) p = err invalid_transaction_type

-- `NewTransaction`
unfoldable pub new_transaction : Transaction → Outcome Transaction
new_transaction p = do
  fail_if (is_blank p.id) transaction_id_required
  fail_if (is_blank p.user_id) transaction_user_id_required
  fail_if (not (is_supported_type p.transaction_type)) invalid_transaction_type
  fail_if (not (is_supported_status p.status)) invalid_transaction_status
  fail_if (is_negative p.amount.minor_units) amount_must_be_non_negative
  fail_if
      (not (is_transfer p.transaction_type)
        && has_subcategory_without_category p.subcategory_id p.category_id)
      category_required
  validate_type_invariants p.transaction_type p
  ok (record p { comment = normalize_comment p.comment })

-- `Transaction.Post`: the status decides. The value is the transaction after the call.
unfoldable pub post_status : TransactionStatus → Transaction → ℕ → Outcome Transaction
post_status posted t at = err already_posted
post_status cancelled t at = err already_cancelled
post_status planned t at = ok (record t { status = posted; posted_at = some at; updated_at = at })
post_status (TransactionStatus.other s) t at = err invalid_transaction_status

unfoldable pub post : Transaction → ℕ → Outcome Transaction
unfolding post_status
post t at = post_status t.status t at

-- `Transaction.Cancel`
unfoldable pub cancel_status : TransactionStatus → Transaction → ℕ → Outcome Transaction
cancel_status cancelled t at = err already_cancelled
cancel_status (TransactionStatus.other s) t at = err invalid_transaction_status
cancel_status planned t at =
    ok (record t { status = cancelled; cancelled_at = some at; updated_at = at })
cancel_status posted t at =
    ok (record t { status = cancelled; cancelled_at = some at; updated_at = at })

unfoldable pub cancel : Transaction → ℕ → Outcome Transaction
unfolding cancel_status
cancel t at = cancel_status t.status t at
