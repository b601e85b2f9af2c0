-- ===== src/Infra/TransactionRepository/Laws.antt =====
-- internal/infra/postgres/transaction_repository.go: the methods, by what they do to the table.
use moneo_backend.Common.{
  ℕ, suc, ◌≡◌, ◌≢◌, refl, ap, ◌∙◌, Bool, true, false, Text, codes, text_eq, text_eq_iff, Option,
  none, some, ok, err, arith, inl, inr, Option-cases,
}
use mathlib.Core.Path.{subst}
use moneo_backend.Domain.Errors.{database_failure, concurrent_transaction_update}
use moneo_backend.Domain.Transaction.{Transaction, TransactionStatus, posted}
use moneo_backend.Infra.Table.{lookup, insert, erase}
use moneo_backend.Infra.Database.{
  TransactionRow, Database, Env, World, done, >>=-eq-ok, lift-eq-ok, execute, execute-eq-ok,
  execute-done, >>=-ok, tick,
}
use moneo_backend.Infra.TransactionRepository.{
  row_of, rewrite, scan_transaction, passes_checks, insert_transaction, select_transaction,
  update_transaction, delete_transaction, create, scan_found, find_by_id, update_by_id,
  report_missed_update, missed_update, missed_delete, delete_by_id, report_missed_delete,
  delete_conflict,
}

pub select-eq-some :
    (user_id id : Text) (db : Database) {row : TransactionRow}
    → select_transaction user_id id db ≡ some row
    → (lookup id db.transactions ≡ some row) × (row.user_id ≡ user_id)
unfolding select_transaction
select-eq-some user_id id db {row} h = ground (arith, text_eq_iff row.user_id user_id)

-- The row that a method has found.
pub record Found (user_id id : Text) (db : Database) : Type 0 where
  pub row : TransactionRow
  pub stands : lookup id db.transactions ≡ some row
  pub owned : row.user_id ≡ user_id

insert-eq-ok :
    (id : Text) (row : TransactionRow) (db : Database) {db' : Database} {u : Unit {0}}
    → insert_transaction id row db ≡ ok (u, db')
    → (lookup id db.transactions ≡ none)
      × (passes_checks row ≡ true)
      × (db' ≡ record db { transactions = insert id row db.transactions })
unfolding insert_transaction
insert-eq-ok id row db h = ground arith

update-eq-true :
    (t : Transaction) (expected : ℕ) (db : Database) {db' : Database}
    → update_transaction t expected db ≡ ok (true, db')
    → (f : Found t.user_id t.id db) × (f.row.updated_at ≡ expected)
      × (passes_checks (rewrite f.row t) ≡ true)
      × (db' ≡ record db { transactions = insert t.id (rewrite f.row t) db.transactions })
unfolding update_transaction
update-eq-true t expected db h = elim (Option-cases (select_transaction t.user_id t.id db)) [
  | inl absent ↦ ground arith
  | inr (row, e) ↦
      let (l, o) = select-eq-some t.user_id t.id db e in
      (record { row = row; stands = l; owned = o }, ground arith, ground arith, ground arith)
]

delete-eq-true :
    (user_id id : Text) (expected : ℕ) (db : Database) {db' : Database}
    → delete_transaction user_id id expected db ≡ ok (true, db')
    → (f : Found user_id id db) × (text_eq f.row.status_column (codes "posted") ≡ false)
      × (db' ≡ record db { transactions = erase id db.transactions })
unfolding delete_transaction
delete-eq-true user_id id expected db h = elim (Option-cases (select_transaction user_id id db)) [
  | inl absent ↦ ground arith
  | inr (row, e) ↦
      let (l, o) = select-eq-some user_id id db e in
      (record { row = row; stands = l; owned = o }, ground arith, ground arith)
]

update-no_effect :
    (t : Transaction) (expected : ℕ) (db : Database) {row : TransactionRow}
    → select_transaction t.user_id t.id db ≡ some row
    → row.updated_at ≢ expected
    → update_transaction t expected db ≡ ok (false, db)
unfolding update_transaction
update-no_effect t expected db s ne = ground arith

missed_update-fails :
    (row : Option TransactionRow) (w : World) {u : Unit {0}} {w' : World}
    → missed_update row w ≡ (ok u, w')
    → ⊥
unfolding missed_update
missed_update-fails none w h = cc
missed_update-fails (some row) w h = cc

delete_conflict-fails :
    (s : TransactionStatus) (w : World) {u : Unit {0}} {w' : World}
    → delete_conflict s w ≡ (ok u, w')
    → ⊥
unfolding delete_conflict
delete_conflict-fails posted w h = cc
delete_conflict-fails _ w h = cc

missed_delete-fails :
    (row : Option TransactionRow) (w : World) {u : Unit {0}} {w' : World}
    → missed_delete row w ≡ (ok u, w')
    → ⊥
unfolding missed_delete
missed_delete-fails none w h = cc
missed_delete-fails (some row) w h =
    let (s, v, _, g) = >>=-eq-ok _ _ _ h in delete_conflict-fails s v g

module _ (env : Env) where
  scan_found-eq-ok :
      (user_id id : Text) (found : Option TransactionRow) (w : World) {t : Transaction} {w' : World}
      → select_transaction user_id id w.db ≡ found
      → scan_found env id found w ≡ (ok t, w')
      → (f : Found user_id id w.db) × (w'.db ≡ w.db) × (scan_transaction id f.row ≡ ok t)
  unfolding scan_found
  scan_found-eq-ok user_id id none w e h = cc
  scan_found-eq-ok user_id id (some row) w e h =
      let (l, o) = select-eq-some user_id id w.db e in
      let (s, d) = lift-eq-ok (scan_transaction id row) w h in
      (record { row = row; stands = l; owned = o }, ap (λ (x : World). x.db) d, s)

  -- A lookup changes nothing, and reads the user's own row.
  pub find-eq-ok :
      (user_id id : Text) (w : World) {t : Transaction} {w' : World}
      → find_by_id env user_id id w ≡ (ok t, w')
      → (f : Found user_id id w.db) × (w'.db ≡ w.db) × (scan_transaction id f.row ≡ ok t)
  unfolding find_by_id
  find-eq-ok user_id id w h =
      let (found, u, e, g) = >>=-eq-ok _ _ _ h in
      let q =
        execute-eq-ok env database_failure (λ db. ok (select_transaction user_id id db, db)) w e in
      let d : u.db ≡ w.db = ground arith in
      let (f, d', s) = scan_found-eq-ok user_id id found u (rw d (ground arith)) g in
      (
        record {
          row = f.row;
          stands = subst (λ (x : Database). lookup id x.transactions ≡ some f.row) d f.stands;
          owned = f.owned;
        },
        d' ∙ d,
        s,
      )

  -- A creation that succeeds has added the row of the transaction under a new id, and the row
  -- satisfies the checks of the table.
  pub create-eq-ok :
      (t : Transaction) (w : World) {u : Unit {0}} {w' : World}
      → create env t w ≡ (ok u, w')
      → (lookup t.id w.db.transactions ≡ none)
        × (passes_checks (row_of t) ≡ true)
        × (w'.db ≡ record w.db { transactions = insert t.id (row_of t) w.db.transactions })
  unfolding create
  create-eq-ok t w h =
      insert-eq-ok t.id (row_of t) w.db
        (execute-eq-ok env database_failure (insert_transaction t.id (row_of t)) w h)

  report_missed_update-eq-ok :
      (user_id id : Text) (b : Bool) (w : World) {u : Unit {0}} {w' : World}
      → report_missed_update env user_id id b w ≡ (ok u, w')
      → (b ≡ true) × (w' ≡ w)
  unfolding report_missed_update
  report_missed_update-eq-ok user_id id true w h = (refl, ground arith)
  report_missed_update-eq-ok user_id id false w h =
      let (row, v, _, g) = >>=-eq-ok _ _ _ h in absurd (missed_update-fails row v g)

  -- An update that succeeds has rewritten the user's own row, which had the expected time.
  pub update-eq-ok :
      (t : Transaction) (expected : ℕ) (w : World) {u : Unit {0}} {w' : World}
      → update_by_id env t expected w ≡ (ok u, w')
      → (f : Found t.user_id t.id w.db) × (f.row.updated_at ≡ expected)
        × (passes_checks (rewrite f.row t) ≡ true)
        × (w'.db ≡ record w.db { transactions = insert t.id (rewrite f.row t) w.db.transactions })
  unfolding update_by_id
  update-eq-ok t expected w h =
      let (b, u, e, g) = >>=-eq-ok _ _ _ h in
      let (bt, wu) = report_missed_update-eq-ok t.user_id t.id b u g in
      let (f, x, c, d) =
        update-eq-true t expected w.db
          (rw bt at (execute-eq-ok env database_failure (update_transaction t expected) w e)) in
      (f, x, c, ap (λ (v : World). v.db) wu ∙ d)

  report_missed_delete-eq-ok :
      (user_id id : Text) (b : Bool) (w : World) {u : Unit {0}} {w' : World}
      → report_missed_delete env user_id id b w ≡ (ok u, w')
      → (b ≡ true) × (w' ≡ w)
  unfolding report_missed_delete
  report_missed_delete-eq-ok user_id id true w h = (refl, ground arith)
  report_missed_delete-eq-ok user_id id false w h =
      let (row, v, _, g) = >>=-eq-ok _ _ _ h in absurd (missed_delete-fails row v g)

  -- A deletion that succeeds has removed the user's own row, whose status was not "posted".
  pub delete-eq-ok :
      (user_id id : Text) (expected : ℕ) (w : World) {u : Unit {0}} {w' : World}
      → delete_by_id env user_id id expected w ≡ (ok u, w')
      → (f : Found user_id id w.db) × (text_eq f.row.status_column (codes "posted") ≡ false)
        × (w'.db ≡ record w.db { transactions = erase id w.db.transactions })
  unfolding delete_by_id
  delete-eq-ok user_id id expected w h =
      let (b, u, e, g) = >>=-eq-ok _ _ _ h in
      let (bt, wu) = report_missed_delete-eq-ok user_id id b u g in
      let (f, x, d) = delete-eq-true user_id id expected w.db (
        rw bt at
          (execute-eq-ok env database_failure (delete_transaction user_id id expected) w e)) in
      (f, x, ap (λ (v : World). v.db) wu ∙ d)

  -- An update with a stale time, of a row that stands, changes no table and reports the concurrent
  -- update, when the database carries both statements out.
  pub update_stale :
      (t : Transaction) (expected : ℕ) (w : World) {row : TransactionRow}
      → select_transaction t.user_id t.id w.db ≡ some row
      → row.updated_at ≢ expected
      → env.reply w.calls ≡ done
      → env.reply (suc w.calls) ≡ done
      → update_by_id env t expected w
        ≡ (err concurrent_transaction_update, record w { calls = suc (suc w.calls) })
  unfolding update_by_id report_missed_update missed_update
  update_stale t expected w {row} s ne r₁ r₂ =
      >>=-ok (execute env database_failure (update_transaction t expected)) _ w (
        execute-done env database_failure (update_transaction t expected) w r₁
          (update-no_effect t expected w.db s ne))
      ∙ >>=-ok _ missed_update (tick w)
          (execute-done env database_failure _ (tick w) r₂ (ap (λ o. ok (o, w.db)) s))
