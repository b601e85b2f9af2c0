-- ===== src/App/Queries/Pages.antt =====
-- internal/app/accounting/transactions.go: the pages of `ListByUser` and the number that
-- `CountByUser` answers.
use moneo_backend.Common.{
  ◌<◌, ◌≤◌, ◌≢◌, ◌^◌, ◌+◌, ◌⊎◌, true, false, none, ltb, leb, get_elem?, get_elem?-take_below,
  get_elem?-take_above, get_elem?-drop, is_negative, if◌then◌else◌, ℕ, zero, suc, ◌≡◌, refl, ap,
  sym, ◌∙◌, Bool, Text, List, [], ◌∷◌, ok, arith, length, take, drop, Bool-cases, inl, inr,
  >>=-eq-ok as result->>=-eq-ok,
}
use moneo_backend.Domain.Errors.{Error, database_failure}
use moneo_backend.Domain.Transaction.{Transaction}
use moneo_backend.Infra.Table.{Table, select_rows}
use moneo_backend.Infra.Database.{
  TransactionRow, Database, Reply, done, unique_violation, failure, Env, World, >>=-elim, >>=-ok,
  lift-eq-ok, execute, answered, after_statement,
}
use moneo_backend.Infra.Database.Histories.{query-eq-ok}
use moneo_backend.Infra.TransactionRepository.{scan_transaction}
use moneo_backend.Infra.TransactionRepository.Listing.{
  TransactionsSort, ListTransactionsQuery, is_selected, order_by, insert_ordered, comes_before,
  is_positive, window, scan_transactions, list_by_user_id, count_by_user_id,
}
use moneo_backend.App.Queries.{
  normalize_search_value, sort_or_default, list_transactions_by_user, count_transactions_by_user,
}

-- The list of one page is the page of the list.
scan_transactions-take :
    (n : ℕ) (rows : Table TransactionRow) {all : List Transaction}
    → scan_transactions rows ≡ ok all
    → scan_transactions (take n rows) ≡ ok (take n all)
unfolding scan_transactions
scan_transactions-take zero rows h = refl
scan_transactions-take (suc n) [] {all = []} h = refl
scan_transactions-take (suc n) [] {all = t ∷ all} h = ground arith
scan_transactions-take (suc n) ((id, row) ∷ rows) {all = all} h =
    let (t, s, h₁) = result->>=-eq-ok (scan_transaction id row) _ h in
    let (more, r, h₂) = result->>=-eq-ok (scan_transactions rows) _ h₁ in
    let rest = scan_transactions-take n rows r in ground (arith, rest)

scan_transactions-drop :
    (n : ℕ) (rows : Table TransactionRow) {all : List Transaction}
    → scan_transactions rows ≡ ok all
    → scan_transactions (drop n rows) ≡ ok (drop n all)
unfolding scan_transactions
scan_transactions-drop zero rows h = h
scan_transactions-drop (suc n) [] {all = []} h = refl
scan_transactions-drop (suc n) [] {all = t ∷ all} h = ground arith
scan_transactions-drop (suc n) ((id, row) ∷ rows) {all = all} h =
    let (t, s, h₁) = result->>=-eq-ok (scan_transaction id row) _ h in
    let (more, r, h₂) = result->>=-eq-ok (scan_transactions rows) _ h₁ in
    let rest = scan_transactions-drop n rows r in ground (arith, rest)

scan_transactions-window :
    (limit offset : ℕ) (rows : Table TransactionRow) {all : List Transaction}
    → scan_transactions rows ≡ ok all
    → scan_transactions (window limit offset rows) ≡ ok (window limit offset all)
unfolding window
scan_transactions-window limit offset rows {all = all} h = elim (Bool-cases (is_positive offset)) [
  | inl o ↦ elim (Bool-cases (is_positive limit)) [
    | inl l ↦ rw (o, l) (scan_transactions-take limit _ (scan_transactions-drop offset rows h))
    | inr l ↦ rw (o, l) (scan_transactions-drop offset rows h)
  ]
  | inr o ↦ elim (Bool-cases (is_positive limit)) [
    | inl l ↦ rw (o, l) (scan_transactions-take limit rows h)
    | inr l ↦ rw (o, l) h
  ]
]

length-scan_transactions :
    (rows : Table TransactionRow) {all : List Transaction}
    → scan_transactions rows ≡ ok all
    → length all ≡ length rows
unfolding scan_transactions
length-scan_transactions [] {all = []} h = refl
length-scan_transactions [] {all = t ∷ all} h = ground arith
length-scan_transactions ((id, row) ∷ rows) {all = all} h =
    let (t, s, h₁) = result->>=-eq-ok (scan_transaction id row) _ h in
    let (more, r, h₂) = result->>=-eq-ok (scan_transactions rows) _ h₁ in
    let rest = length-scan_transactions rows r in ground (arith, rest)

length-insert_ordered :
    (sort : TransactionsSort) (p : Text × TransactionRow) (rows : Table TransactionRow)
    → length (insert_ordered sort p rows) ≡ suc (length rows)
unfolding insert_ordered
length-insert_ordered sort p [] = refl
length-insert_ordered sort p (q ∷ rows) = elim (Bool-cases (comes_before sort q p)) [
  | inl later ↦ rw (later, length-insert_ordered sort p rows) refl
  | inr here ↦ rw here refl
]

length-order_by :
    (sort : TransactionsSort) (rows : Table TransactionRow)
    → length (order_by sort rows) ≡ length rows
unfolding order_by
length-order_by sort [] = refl
length-order_by sort (p ∷ rows) =
    rw (length-insert_ordered sort p (order_by sort rows), length-order_by sort rows) refl

answered-alike :
    {A B : Type 0} (reply : Reply) (e : Error) (f : Database → A) (g : Database → B) (w : World)
    {a : A} {u : World}
    → answered reply e (λ db. ok (f db, db)) w ≡ (ok a, u)
    → answered reply e (λ db. ok (g db, db)) w ≡ (ok (g w.db), u)
unfolding answered after_statement
answered-alike done e f g w h = ground arith
answered-alike unique_violation e f g w h = cc
answered-alike failure e f g w h = cc

-- Where one query is answered, so is another.
queries_alike :
    {A B : Type 0} (env : Env) (e : Error) (f : Database → A) (g : Database → B) (w : World) {a : A}
    {u : World}
    → execute env e (λ db. ok (f db, db)) w ≡ (ok a, u)
    → execute env e (λ db. ok (g db, db)) w ≡ (ok (g w.db), u)
unfolding execute
queries_alike env e f g w h = answered-alike (env.reply w.calls) e f g w h

-- Where a page starts, for an `int64` as the offset: at the offset, unless it is negative.
abbrev pub start : ℕ → ℕ
start offset = if ltb offset (2 ^ 63) then offset else 0

-- A page has no element `i`, for an `int64` as the limit: the limit is positive, and at most `i`.
abbrev pub IsCut : ℕ → ℕ → Type 0
IsCut limit i = (0 < limit) × (limit < 2 ^ 63) × (limit ≤ i)

abbrev pub IsPage : {A : Type 0} → ℕ → ℕ → List A → List A → Type 0
IsPage limit offset all page =
    (i : ℕ)
    → (IsCut limit i → get_elem? page i ≡ none)
      × (¬ IsCut limit i → get_elem? page i ≡ get_elem? all (start offset + i))

start-positive : (n : ℕ) → is_positive n ≡ true → start n ≡ n
unfolding is_positive is_negative
start-positive n h = ground arith

start-not_positive : (n : ℕ) → is_positive n ≡ false → start n ≡ 0
unfolding is_positive is_negative
start-not_positive n h = ground arith

IsCut-or_below : (limit i : ℕ) → is_positive limit ≡ true → (i < limit) ⊎ IsCut limit i
unfolding is_positive is_negative
IsCut-or_below limit i h = elim (Bool-cases (leb limit i)) [
  | inl at_most ↦ inr (ground arith, ground arith, ground arith)
  | inr below ↦ inl (ground arith)
]

IsCut-is_positive : (limit i : ℕ) → IsCut limit i → is_positive limit ≡ true
unfolding is_positive is_negative
IsCut-is_positive limit i (p, b, c) = ground arith

skipped :
    {A : Type 0} (offset i : ℕ) (xs : List A)
    → get_elem? (if is_positive offset then drop offset xs else xs) i
      ≡ get_elem? xs (start offset + i)
skipped offset i xs = elim (Bool-cases (is_positive offset)) [
  | inl p ↦ rw (p, start-positive offset p) (get_elem?-drop offset i xs)
  | inr p ↦
      rw (p, start-not_positive offset p) (ap (get_elem? xs) {x = i} {y = 0 + i} (omega arith))
]

true-ne-false : true ≢ false
true-ne-false h = cc

window-IsPage :
    {A : Type 0} (limit offset : ℕ) (all : List A)
    → IsPage limit offset all (window limit offset all)
unfolding window
window-IsPage limit offset all i = elim (Bool-cases (is_positive limit)) [
  | inl l ↦ rw l (
    λ (_, _, c). get_elem?-take_above limit i _ c,
    λ n. elim (IsCut-or_below limit i l) [
      | inl below ↦ get_elem?-take_below limit i _ below ∙ skipped offset i all
      | inr cut ↦ absurd (n cut)
    ],
  )
  | inr l ↦ rw l (
    λ c. absurd (true-ne-false (sym (IsCut-is_positive limit i c) ∙ l)),
    λ n. skipped offset i all,
  )
]

-- The query without a limit and an offset.
abbrev pub without_window : ListTransactionsQuery → ListTransactionsQuery
without_window input = record input { limit = 0; offset = 0 }

module _ (to_lower lower : Text → Text) (like : Text → Text → Bool) (env : Env) where
  abbrev found : ListTransactionsQuery → Database → Table TransactionRow
  found input db =
      order_by input.sort (select_rows (is_selected to_lower lower like input) db.transactions)

  abbrev page : ListTransactionsQuery → Database → Table TransactionRow
  page input db = window input.limit input.offset (found input db)

  full-found :
      (input : ListTransactionsQuery) (w v : World) {all : List Transaction}
      → list_by_user_id to_lower lower like env (without_window input) w ≡ (ok all, v)
      → (scan_transactions (found input w.db) ≡ ok all)
        × (execute env database_failure (λ db. ok (found input db, db)) w
            ≡ (ok (found input w.db), v))
  unfolding list_by_user_id is_selected window is_positive
  full-found input w v h = >>=-elim _ _ _ h λ rows u q g.
      let (e, _) = query-eq-ok env database_failure (found input) w q in
      let (s, same) = lift-eq-ok (scan_transactions rows) u g in
      (rw e s, rw same (queries_alike env database_failure (found input) (found input) w q))

  list-window :
      (input : ListTransactionsQuery) (w v : World) {all : List Transaction}
      → list_by_user_id to_lower lower like env (without_window input) w ≡ (ok all, v)
      → list_by_user_id to_lower lower like env input w
        ≡ (ok (window input.limit input.offset all), v)
  unfolding list_by_user_id
  list-window input w v h =
      let (s, q) = full-found input w v h in
      let g = queries_alike env database_failure (found input) (page input) w q in
      >>=-ok (execute env database_failure (λ db. ok (page input db, db))) _ w g
      ∙ ap (λ r. (r, v)) (scan_transactions-window input.limit input.offset (found input w.db) s)

  count-list :
      (input : ListTransactionsQuery) (w v : World) {all : List Transaction}
      → list_by_user_id to_lower lower like env (without_window input) w ≡ (ok all, v)
      → count_by_user_id to_lower lower like env input w ≡ (ok (length all), v)
  unfolding count_by_user_id
  count-list input w v h =
      let (s, q) = full-found input w v h in
      let rows = select_rows (is_selected to_lower lower like input) w.db.transactions in
      let g =
        queries_alike env database_failure (found input)
          (λ db. length (select_rows (is_selected to_lower lower like input) db.transactions)) w
          q in
      g ∙ ap (λ n. (ok n, v)) (sym (length-scan_transactions _ s ∙ length-order_by input.sort rows))

  -- When the list without a limit and an offset is answered, the list with them, in the same state, is
  -- answered, and its element `i` is the element of that list at `i` plus the offset, which counts
  -- as 0 if it is negative; but it has none if the limit is positive and at most `i`.
  pub list_transactions_by_user-IsPage :
      (input : ListTransactionsQuery) (w v : World) (all : List Transaction)
      → list_transactions_by_user to_lower lower like env (without_window input) w ≡ (ok all, v)
      → (page : List Transaction) × (list_transactions_by_user to_lower lower like env input w
          ≡ (ok page, v))
        × IsPage input.limit input.offset all page
  unfolding list_transactions_by_user
  list_transactions_by_user-IsPage input w v all h = (
    window input.limit input.offset all,
    list-window _ w v h,
    window-IsPage input.limit input.offset all,
  )

  -- When the list without a limit and an offset is answered, the count, in the same state, is the
  -- number of its transactions, whatever the limit, the offset and the order.
  pub count_transactions_by_user-length :
      (input : ListTransactionsQuery) (w v : World) (all : List Transaction)
      → list_transactions_by_user to_lower lower like env (without_window input) w ≡ (ok all, v)
      → count_transactions_by_user to_lower lower like env input w ≡ (ok (length all), v)
  unfolding list_transactions_by_user count_transactions_by_user count_by_user_id is_selected
  count_transactions_by_user-length input w v all h =
      count-list
        (record input {
          search = normalize_search_value input.search;
          sort = sort_or_default input.sort;
        })
        w v h
