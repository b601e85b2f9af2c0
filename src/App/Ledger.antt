-- ===== src/App/Ledger.antt =====
-- The invariant that ties the two tables together: a balance is the initial balance and the flows
-- of the posted transactions of the account's user.
use moneo_backend.Common.{
  ℕ, ◌+◌, ◌≡◌, refl, ap, false, ◌&&◌, Text, text_eq, Option, none, some, ok, err, if◌then◌else◌,
  arith, Bool-cases, inl, inr,
}
use moneo_backend.Domain.Errors.{Outcome}
use moneo_backend.Domain.Transaction.{Transaction}
use moneo_backend.Infra.Table.{
  Table, lookup, insert, erase, total, total-insert, total-insert_new, total-erase,
}
use moneo_backend.Infra.Database.{AccountRow, TransactionRow, Database}
use moneo_backend.Infra.TransactionRepository.{scan_transaction}
use moneo_backend.App.Effect.Flow.{flow}
use moneo_backend.App.Effect.Moves.{◌≈◌, Moved, AccountsMove}
use moneo_backend.App.Transactions.{is_posted}

-- What a transaction adds to the account `a` of the user: its flow, once it is posted.
unfoldable pub posted_flow : Text → Text → Transaction → ℕ
posted_flow user_id a t = if is_posted t.status && text_eq user_id t.user_id then flow t a else 0

-- The same for a row; a row that does not scan is no transaction.
unfoldable pub scanned_flow : Text → Text → Outcome Transaction → ℕ
scanned_flow user_id a (ok t) = posted_flow user_id a t
scanned_flow user_id a (err e) = 0

unfoldable pub row_flow : Text → Text → Text → TransactionRow → ℕ
unfolding scanned_flow
row_flow user_id a id row = scanned_flow user_id a (scan_transaction id row)

-- The sum over all transactions.
unfoldable pub posted_total : Text → Text → Table TransactionRow → ℕ
posted_total user_id a rows = total (row_flow user_id a) rows

abbrev pub IsBalanced : Table TransactionRow → Text → Option AccountRow → Type 0
IsBalanced rows a none = (user_id : Text) → posted_total user_id a rows ≈ 0
IsBalanced rows a (some r) =
    r.balance_minor ≈ r.initial_balance_minor + posted_total r.user_id a rows

-- Every account's balance is its initial balance and the flows of the posted transactions of its
-- user, as an `int64`, and no posted transaction adds to an account that is not there.
pub record IsLedger (db : Database) : Type 0 where
  pub balanced : (a : Text) → IsBalanced db.transactions a (lookup a db.accounts)

pub row_flow-scan :
    (user_id a id : Text) (row : TransactionRow) (t : Transaction)
    → scan_transaction id row ≡ ok t
    → row_flow user_id a id row ≡ posted_flow user_id a t
unfolding row_flow
row_flow-scan user_id a id row t h = rw (h, scanned_flow) refl

-- How the posted flows may change when one user's accounts move by `d`.
pub TotalsMove : Text → (Text → ℕ) → Table TransactionRow → Table TransactionRow → Type 0
TotalsMove owner d rows rows' =
    (user_id a : Text)
    → posted_total user_id a rows'
      ≈ posted_total user_id a rows + (if text_eq user_id owner then d a else 0)

IsBalanced-move :
    (owner a : Text) (d : Text → ℕ) (rows rows' : Table TransactionRow) (o p : Option AccountRow)
    → TotalsMove owner d rows rows'
    → Moved owner (d a) o p
    → IsBalanced rows a o
    → IsBalanced rows' a p
unfolding TotalsMove
IsBalanced-move owner a d rows rows' none none t m b = λ user_id.
    elim (Bool-cases (text_eq user_id owner)) [
      | inl own ↦ omega (arith, rw own at (t user_id a), m, b user_id)
      | inr not_own ↦ omega (arith, rw not_own at (t user_id a), b user_id)
    ]
IsBalanced-move owner a d rows rows' none (some s) t m b = absurd m
IsBalanced-move owner a d rows rows' (some r) none t m b = absurd m
IsBalanced-move owner a d rows rows' (some r) (some s) t (u, i, e) b =
    rw (u, i) (omega (arith, t r.user_id a))

-- The ledger is kept when the accounts and the posted flows move by the same amounts.
pub IsLedger-move :
    (owner : Text) (d : Text → ℕ) (db db' : Database) (rows' : Table TransactionRow)
    → AccountsMove owner d db db'
    → TotalsMove owner d db.transactions rows'
    → IsLedger db
    → IsLedger (record db' { transactions = rows' })
IsLedger-move owner d db db' rows' m t l = record {
  balanced = λ a.
      IsBalanced-move owner a d db.transactions rows' (lookup a db.accounts) (lookup a db'.accounts)
        t (m.moved a) (l.balanced a);
}

-- A new transaction adds its posted flow.
pub TotalsMove-insert :
    (id : Text) (row : TransactionRow) (rows : Table TransactionRow) (t : Transaction)
    → lookup id rows ≡ none
    → scan_transaction id row ≡ ok t
    → TotalsMove t.user_id
        (λ a. if is_posted t.status then flow t a else 0)
        rows
        (insert id row rows)
unfolding TotalsMove posted_total posted_flow
TotalsMove-insert id row rows t n s user_id a =
    ground (
      arith,
      total-insert_new (row_flow user_id a) id row rows n,
      row_flow-scan user_id a id row t s,
    )

-- Another transaction in the place of one of the same user: its posted flow comes instead.
pub TotalsMove-replace :
    (id : Text) (old new : TransactionRow) (rows : Table TransactionRow) (t u : Transaction)
    (d : Text → ℕ)
    → lookup id rows ≡ some old
    → scan_transaction id old ≡ ok t
    → scan_transaction id new ≡ ok u
    → u.user_id ≡ t.user_id
    → ((a : Text)
        → (if is_posted t.status then flow t a else 0) + d a
          ≈ (if is_posted u.status then flow u a else 0))
    → TotalsMove t.user_id d rows (insert id new rows)
unfolding TotalsMove posted_total posted_flow
TotalsMove-replace id old new rows t u d n s v o h user_id a =
    let same : text_eq user_id u.user_id ≡ text_eq user_id t.user_id = ap (text_eq user_id) o in
    ground (
      arith,
      total-insert (row_flow user_id a) id new rows {q = old},
      row_flow-scan user_id a id old t s,
      row_flow-scan user_id a id new u v,
      h a,
      same,
    )

-- A transaction that is not posted may go.
pub TotalsMove-erase :
    (id : Text) (old : TransactionRow) (rows : Table TransactionRow) (t : Transaction)
    → lookup id rows ≡ some old
    → scan_transaction id old ≡ ok t
    → is_posted t.status ≡ false
    → TotalsMove t.user_id (λ a. 0) rows (erase id rows)
unfolding TotalsMove posted_total posted_flow
TotalsMove-erase id old rows t n s h user_id a =
    ground (
      arith,
      total-erase (row_flow user_id a) id rows {q = old},
      row_flow-scan user_id a id old t s,
    )

-- The same when the rows are written first.
pub IsLedger-rewrite :
    (owner : Text) (d : Text → ℕ) (db db' : Database) (rows' : Table TransactionRow)
    → AccountsMove owner d (record db { transactions = rows' }) db'
    → TotalsMove owner d db.transactions rows'
    → IsLedger db
    → IsLedger db'
IsLedger-rewrite owner d db db' rows' m t l = record {
  balanced = λ a. rw m.transactions_stay (
      IsBalanced-move owner a d db.transactions rows' (lookup a db.accounts) (lookup a db'.accounts)
        t (m.moved a) (l.balanced a));
}
