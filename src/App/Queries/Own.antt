-- ===== src/App/Queries/Own.antt =====
-- internal/app/accounting/transactions.go: whose transactions `ListByUser` shows.
use moneo_backend.Common.{
  ℕ, zero, suc, ◌≡◌, refl, ap, ◌∙◌, Bool, true, Text, text_eq, List, [], ◌∷◌, all, ok, arith, take,
  drop, Bool-cases, inl, inr, >>=-eq-ok as result->>=-eq-ok,
}
use moneo_backend.Domain.Errors.{database_failure}
use moneo_backend.Domain.Transaction.{Transaction}
use moneo_backend.Infra.Table.{Table, select_rows}
use moneo_backend.Infra.Database.{TransactionRow, Env, World, >>=-elim, lift-eq-ok}
use moneo_backend.Infra.Database.Histories.{query-eq-ok}
use moneo_backend.Infra.TransactionRepository.{scan_transaction}
use moneo_backend.Infra.TransactionRepository.Scan.{scan-IsMade}
use moneo_backend.Infra.TransactionRepository.Listing.{
  TransactionsSort, ListTransactionsQuery, is_selected, order_by, insert_ordered, comes_before,
  is_positive, window, scan_transactions, list_by_user_id,
}
use moneo_backend.App.Queries.{list_transactions_by_user}

abbrev row_is_of : Text → Text × TransactionRow → Bool
row_is_of user_id p = text_eq p.1.user_id user_id

-- The transaction is the user's.
abbrev pub is_of : Text → Transaction → Bool
is_of user_id t = text_eq t.user_id user_id

all-take :
    {A : Type 0} (p : A → Bool) (n : ℕ) (xs : List A) → all p xs ≡ true → all p (take n xs) ≡ true
all-take p zero xs h = refl
all-take p (suc n) [] h = refl
all-take p (suc n) (x ∷ xs) h = ground (arith, all-take p n xs)

all-drop :
    {A : Type 0} (p : A → Bool) (n : ℕ) (xs : List A) → all p xs ≡ true → all p (drop n xs) ≡ true
all-drop p zero xs h = h
all-drop p (suc n) [] h = refl
all-drop p (suc n) (x ∷ xs) h = ground (arith, all-drop p n xs)

all-window :
    {A : Type 0} (p : A → Bool) (limit offset : ℕ) (xs : List A)
    → all p xs ≡ true
    → all p (window limit offset xs) ≡ true
unfolding window
all-window p limit offset xs h = elim (Bool-cases (is_positive offset)) [
  | inl o ↦ elim (Bool-cases (is_positive limit)) [
    | inl l ↦ rw (o, l) (all-take p limit (drop offset xs) (all-drop p offset xs h))
    | inr l ↦ rw (o, l) (all-drop p offset xs h)
  ]
  | inr o ↦ elim (Bool-cases (is_positive limit)) [
    | inl l ↦ rw (o, l) (all-take p limit xs h)
    | inr l ↦ rw (o, l) h
  ]
]

all-insert_ordered :
    (p : Text × TransactionRow → Bool) (sort : TransactionsSort) (r : Text × TransactionRow)
    (rows : Table TransactionRow)
    → p r ≡ true
    → all p rows ≡ true
    → all p (insert_ordered sort r rows) ≡ true
unfolding insert_ordered
all-insert_ordered p sort r [] h k = rw h refl
all-insert_ordered p sort r (q ∷ rows) h k =
    let later = all-insert_ordered p sort r rows h in
    elim (Bool-cases (comes_before sort q r)) [
      | inl c ↦ rw c (ground (arith, later))
      | inr c ↦ rw (c, h) k
    ]

all-order_by :
    (p : Text × TransactionRow → Bool) (sort : TransactionsSort) (rows : Table TransactionRow)
    → all p rows ≡ true
    → all p (order_by sort rows) ≡ true
unfolding order_by
all-order_by p sort [] h = refl
all-order_by p sort (r ∷ rows) h =
    let rest = all-order_by p sort rows in
    all-insert_ordered p sort r (order_by sort rows) (ground arith) (ground (arith, rest))

scan_transactions-is_of :
    (user_id : Text) (rows : Table TransactionRow) (ts : List Transaction)
    → scan_transactions rows ≡ ok ts
    → all (row_is_of user_id) rows ≡ true
    → all (is_of user_id) ts ≡ true
unfolding scan_transactions
scan_transactions-is_of u [] [] h l = refl
scan_transactions-is_of u [] (t ∷ ts) h l = ground arith
scan_transactions-is_of u ((id, row) ∷ rows) [] h l = ground arith
scan_transactions-is_of u ((id, row) ∷ rows) (x ∷ ts) h l =
    let (t, s, h₁) = result->>=-eq-ok (scan_transaction id row) _ h in
    let (more, r, h₂) = result->>=-eq-ok (scan_transactions rows) _ h₁ in
    let rest = scan_transactions-is_of u rows more r in
    let (_, _, same, _, _, _) = scan-IsMade id row s in
    ground (arith, ap (λ z. text_eq z u) same, rest)

module _ (to_lower lower : Text → Text) (like : Text → Text → Bool) where
  selected-own :
      (input : ListTransactionsQuery) (row : TransactionRow)
      → is_selected to_lower lower like input row ≡ true
      → text_eq row.user_id input.user_id ≡ true
  unfolding is_selected
  selected-own input row h = ground arith

  all-select_rows :
      (input : ListTransactionsQuery) (rows : Table TransactionRow)
      → all (row_is_of input.user_id) (select_rows (is_selected to_lower lower like input) rows)
        ≡ true
  unfolding select_rows
  all-select_rows input [] = refl
  all-select_rows input ((id, row) ∷ rows) =
      elim (Bool-cases (is_selected to_lower lower like input row)) [
        | inl c ↦ rw c (ground (arith, selected-own input row c, all-select_rows input rows))
        | inr c ↦ rw c (all-select_rows input rows)
      ]

  module _ (env : Env) where
    list-is_of :
        (input : ListTransactionsQuery) (w v : World) (ts : List Transaction)
        → list_by_user_id to_lower lower like env input w ≡ (ok ts, v)
        → (v.db ≡ w.db) × (all (is_of input.user_id) ts ≡ true)
    unfolding list_by_user_id
    list-is_of input w v ts h = >>=-elim _ _ _ h λ rows u q g.
        let (e, still) = query-eq-ok env database_failure _ w q in
        let (s, same) = lift-eq-ok (scan_transactions rows) u g in
        let found = select_rows (is_selected to_lower lower like input) w.db.transactions in
        let own =
          all-window (row_is_of input.user_id) input.limit input.offset (order_by input.sort found)
            (all-order_by (row_is_of input.user_id) input.sort found
              (all-select_rows input w.db.transactions)) in
        (
          ap (λ (x : World). x.db) same ∙ still,
          scan_transactions-is_of input.user_id rows ts s (rw (← e) own),
        )

    -- A list of transactions that succeeds changes no table, and shows only transactions of the user
    -- that asks.
    pub list_transactions_by_user-is_of :
        (input : ListTransactionsQuery) (w v : World) (ts : List Transaction)
        → list_transactions_by_user to_lower lower like env input w ≡ (ok ts, v)
        → (v.db ≡ w.db) × (all (is_of input.user_id) ts ≡ true)
    unfolding list_transactions_by_user
    list_transactions_by_user-is_of input w v ts h = list-is_of _ w v ts h
