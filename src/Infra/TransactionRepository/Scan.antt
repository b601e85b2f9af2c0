-- ===== src/Infra/TransactionRepository/Scan.antt =====
-- internal/infra/postgres/transaction_repository.go: `scanTransaction` on the rows that the methods
-- write.
use moneo_backend.Common.{
  ◌≡◌, ◌≢◌, refl, ap, true, false, Text, codes, trim_space, text_eq, text_eq_iff, Bool-cases, inl,
  inr, ok, arith, >>=-eq-ok,
}
use moneo_backend.Domain.Money.{
  Currency, rub, usd, eur, other, is_supported_currency, currency_of, currency_text, parse_currency,
}
use moneo_backend.Domain.Transaction.{
  Transaction, TransactionType, income, expense, transfer, investment, saving, TransactionStatus,
  planned, posted, cancelled, is_supported_type, is_supported_status, type_of, status_of, type_text,
  status_text, parse_transaction_type, parse_transaction_status, new_transaction,
}
use moneo_backend.Domain.Transaction.Rules.{IsMade, new_transaction_iff, new_transaction_idem}
use moneo_backend.Infra.Database.{TransactionRow}
use moneo_backend.Infra.TransactionRepository.{
  row_of, rewrite, scan_transaction, passes_checks, params_of,
}

parse-type_text :
    (t : TransactionType)
    → is_supported_type t ≡ true
    → parse_transaction_type (trim_space (type_text t)) ≡ ok t
unfolding parse_transaction_type type_text type_of is_supported_type trim_space text_eq
parse-type_text income h = refl
parse-type_text expense h = refl
parse-type_text transfer h = refl
parse-type_text investment h = refl
parse-type_text saving h = refl
parse-type_text (TransactionType.other s) h = cc

parse-status_text :
    (s : TransactionStatus)
    → is_supported_status s ≡ true
    → parse_transaction_status (trim_space (status_text s)) ≡ ok s
unfolding parse_transaction_status status_text status_of is_supported_status trim_space text_eq
parse-status_text planned h = refl
parse-status_text posted h = refl
parse-status_text cancelled h = refl
parse-status_text (TransactionStatus.other s) h = cc

parse-trimmed_currency :
    (c : Currency)
    → is_supported_currency c ≡ true
    → parse_currency (trim_space (currency_text c)) ≡ ok c
unfolding parse_currency currency_text is_supported_currency trim_space
parse-trimmed_currency rub h = refl
parse-trimmed_currency usd h = refl
parse-trimmed_currency eur h = refl
parse-trimmed_currency (other s) h = cc

IsMade-supported :
    (t : Transaction)
    → IsMade t
    → (is_supported_type t.transaction_type ≡ true) × (is_supported_status t.status ≡ true)
unfolding new_transaction
IsMade-supported t m = ground arith

-- A transaction that the constructor made, in a supported currency, is read back from its row as
-- it was written.
pub scan-row_of :
    (t : Transaction)
    → IsMade t
    → is_supported_currency t.amount.currency ≡ true
    → scan_transaction t.id (row_of t) ≡ ok t
unfolding scan_transaction row_of params_of
scan-row_of t m c =
    let (y, s) = IsMade-supported t m in
    rw
      (
        parse-type_text t.transaction_type y,
        parse-status_text t.status s,
        parse-trimmed_currency t.amount.currency c,
      )
      m

parse_currency-supported :
    (s : Text) {c : Currency} → parse_currency s ≡ ok c → is_supported_currency c ≡ true
unfolding parse_currency
parse_currency-supported s h = ground arith

scanned-fields :
    (id : Text) (row : TransactionRow) (y : TransactionType) (s : TransactionStatus) (c : Currency)
    {t : Transaction}
    → is_supported_currency c ≡ true
    → new_transaction (params_of id row y s c) ≡ ok t
    → IsMade t
      × (t.id ≡ id)
      × (t.user_id ≡ row.user_id)
      × (t.created_at ≡ row.created_at)
      × (t.updated_at ≡ row.updated_at)
      × (is_supported_currency t.amount.currency ≡ true)
unfolding params_of
scanned-fields id row y s c {t} k h =
    let e = ((new_transaction_iff (params_of id row y s c) t).0 h).1 in
    (
      new_transaction_idem (params_of id row y s c) t h,
      ap (λ (x : Transaction). x.id) e,
      ap (λ (x : Transaction). x.user_id) e,
      ap (λ (x : Transaction). x.created_at) e,
      ap (λ (x : Transaction). x.updated_at) e,
      rw (ap (λ (x : Transaction). x.amount.currency) e) k,
    )

-- What is read is a transaction that the constructor accepts as it is, with the fields of the row.
pub scan-IsMade :
    (id : Text) (row : TransactionRow) {t : Transaction}
    → scan_transaction id row ≡ ok t
    → IsMade t
      × (t.id ≡ id)
      × (t.user_id ≡ row.user_id)
      × (t.created_at ≡ row.created_at)
      × (t.updated_at ≡ row.updated_at)
      × (is_supported_currency t.amount.currency ≡ true)
unfolding scan_transaction
scan-IsMade id row {t} h =
    let (y, _, h₁) = >>=-eq-ok (parse_transaction_type (trim_space row.type_column)) _ h in
    let (s, _, h₂) = >>=-eq-ok (parse_transaction_status (trim_space row.status_column)) _ h₁ in
    let (c, hc, h₃) = >>=-eq-ok (parse_currency (trim_space row.currency)) _ h₂ in
    scanned-fields id row y s c (parse_currency-supported (trim_space row.currency) hc) h₃

rewrite-own :
    (row : TransactionRow) (t : Transaction)
    → row.user_id ≡ t.user_id
    → row.created_at ≡ t.created_at
    → rewrite row t ≡ row_of t
unfolding rewrite row_of
rewrite-own row t u a = rw (u, a)

-- The row that an update of the transaction's own row writes is read back as the transaction.
pub scan-rewrite :
    (row : TransactionRow) (t : Transaction)
    → IsMade t
    → is_supported_currency t.amount.currency ≡ true
    → row.user_id ≡ t.user_id
    → row.created_at ≡ t.created_at
    → scan_transaction t.id (rewrite row t) ≡ ok t
scan-rewrite row t m c u a = rw (rewrite-own row t u a) (scan-row_of t m c)

-- A transaction with another currency.
abbrev pub with_currency : Transaction → Currency → Transaction
with_currency t c = record t {
  amount = record { minor_units = t.amount.minor_units; currency = c };
}

-- the currency that is read back
abbrev pub stored_currency : Transaction → Currency
stored_currency t = currency_of (currency_text t.amount.currency)

unsupported :
    (s : Text)
    → text_eq s (codes "RUB") ≡ false
    → text_eq s (codes "USD") ≡ false
    → text_eq s (codes "EUR") ≡ false
    → is_supported_currency (currency_of s) ≢ true
unfolding currency_of is_supported_currency
unsupported s a b c h = ground arith

parse_stored_text :
    (s : Text)
    → is_supported_currency (currency_of s) ≡ true
    → parse_currency (trim_space s) ≡ ok (currency_of s)
unfolding currency_of parse_currency is_supported_currency trim_space text_eq
parse_stored_text s h = elim (Bool-cases (text_eq s (codes "RUB"))) [
  | inl e ↦ rw ((text_eq_iff s (codes "RUB")).0 e) refl
  | inr not_rub ↦ elim (Bool-cases (text_eq s (codes "USD"))) [
    | inl e ↦ rw ((text_eq_iff s (codes "USD")).0 e) refl
    | inr not_usd ↦ elim (Bool-cases (text_eq s (codes "EUR"))) [
      | inl e ↦ rw ((text_eq_iff s (codes "EUR")).0 e) refl
      | inr not_eur ↦ absurd (unsupported s not_rub not_usd not_eur h)
    ]
  ]
]

IsMade-with_currency : (t : Transaction) (c : Currency) → IsMade t → IsMade (with_currency t c)
IsMade-with_currency t c m =
    let (a, e) = (new_transaction_iff t t).0 m in
    (new_transaction_iff (with_currency t c) (with_currency t c)).1 (
      record {
        id_given = a.id_given;
        user_given = a.user_given;
        status_known = a.status_known;
        amount_sign = a.amount_sign;
        category_given = a.category_given;
        shaped = a.shaped;
      },
      ap (λ x. with_currency x c) e,
    )

checked-currency :
    (row : TransactionRow)
    → passes_checks row ≡ true
    → is_supported_currency (currency_of row.currency) ≡ true
unfolding passes_checks
checked-currency row h = ground arith

-- The row of a transaction that the constructor made, when it passes the checks of the table, is read
-- back as that transaction, in the currency that the column holds.
pub scan-checked :
    (t : Transaction)
    → IsMade t
    → passes_checks (row_of t) ≡ true
    → scan_transaction t.id (row_of t) ≡ ok (with_currency t (stored_currency t))
unfolding scan_transaction row_of params_of
scan-checked t m h =
    let (y, s) = IsMade-supported t m in
    rw
      (
        parse-type_text t.transaction_type y,
        parse-status_text t.status s,
        parse_stored_text (currency_text t.amount.currency) (checked-currency (row_of t) h),
      )
      (IsMade-with_currency t (stored_currency t) m)

-- The same for the row that an update writes over the transaction's own row.
pub scan-rewrite-checked :
    (row : TransactionRow) (t : Transaction)
    → IsMade t
    → row.user_id ≡ t.user_id
    → row.created_at ≡ t.created_at
    → passes_checks (rewrite row t) ≡ true
    → scan_transaction t.id (rewrite row t) ≡ ok (with_currency t (stored_currency t))
scan-rewrite-checked row t m u a h =
    let e = rewrite-own row t u a in rw e (scan-checked t m (rw e at h))
