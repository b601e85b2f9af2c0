-- ===== src/Infra/AccountRepository/Laws.antt =====
-- What the methods of the account repository have done when they succeed.
use moneo_backend.Common.{
  ℕ, ◌≡◌, refl, ap, ◌∙◌, Bool, true, false, Text, text_eq_iff, trim_space, Option, none, some, ok,
  arith, inl, inr, Option-cases, >>=-eq-ok as result->>=-eq-ok,
}
use mathlib.Core.Path.{subst}
use moneo_backend.Domain.Errors.{database_failure, duplicate_active_account_name}
use moneo_backend.Domain.Money.{parse_currency}
use moneo_backend.Domain.Account.{Account, parse_account_type, new_account-eq-ok}
use moneo_backend.Infra.Table.{lookup, insert}
use moneo_backend.Infra.Database.{
  AccountRow, Database, Env, World, >>=-eq-ok, >>=-elim, lift-eq-ok, execute-eq-ok,
}
use moneo_backend.Infra.AccountRepository.{
  rewrite, scan_account, params_of, select_account, insert_account, update_account, scan_found,
  find_by_id, missed_update, report_missed_update, update_by_id, create, row_of, require_affected,
  archive_account, restore_account, archive_by_id, restore_by_id,
}

select-eq-some :
    (user_id id : Text) (db : Database) {row : AccountRow}
    → select_account user_id id db ≡ some row
    → (lookup id db.accounts ≡ some row) × (row.user_id ≡ user_id)
unfolding select_account
select-eq-some user_id id db {row} h = ground (arith, text_eq_iff row.user_id user_id)

-- The row of an account that a method has found.
pub record Found (user_id id : Text) (db : Database) : Type 0 where
  pub row : AccountRow
  pub stands : lookup id db.accounts ≡ some row
  pub owned : row.user_id ≡ user_id

-- What is read has the numbers of the row.
pub scan-fields :
    (id : Text) (row : AccountRow) {a : Account}
    → scan_account id row ≡ ok a
    → (a.id ≡ id)
      × (a.user_id ≡ row.user_id)
      × (a.balance.minor_units ≡ row.balance_minor)
      × (a.initial_balance.minor_units ≡ row.initial_balance_minor)
      × (a.updated_at ≡ row.updated_at)
unfolding scan_account params_of
scan-fields id row h =
    let (y, _, h₁) = result->>=-eq-ok (parse_account_type (trim_space row.type_column)) _ h in
    let (c, _, h₂) = result->>=-eq-ok (parse_currency (trim_space row.currency)) _ h₁ in
    let e = new_account-eq-ok (params_of id row y c) h₂ in
    (
      ap (λ (x : Account). x.id) e,
      ap (λ (x : Account). x.user_id) e,
      ap (λ (x : Account). x.balance.minor_units) e,
      ap (λ (x : Account). x.initial_balance.minor_units) e,
      ap (λ (x : Account). x.updated_at) e,
    )

pub insert-eq-ok :
    (id : Text) (row : AccountRow) (db : Database) {db' : Database} {u : Unit {0}}
    → insert_account id row db ≡ ok (u, db')
    → (lookup id db.accounts ≡ none) × (db' ≡ record db { accounts = insert id row db.accounts })
unfolding insert_account
insert-eq-ok id row db h = ground arith

update-eq-true :
    (a : Account) (expected : ℕ) (db : Database) {db' : Database}
    → update_account a expected db ≡ ok (true, db')
    → (f : Found a.user_id a.id db) × (db'
        ≡ record db { accounts = insert a.id (rewrite f.row a) db.accounts })
unfolding update_account
update-eq-true a expected db h = elim (Option-cases (select_account a.user_id a.id db)) [
  | inl absent ↦ ground arith
  | inr (row, e) ↦
      let (l, o) = select-eq-some a.user_id a.id db e in
      (record { row = row; stands = l; owned = o }, ground arith)
]

archive-eq-true :
    (user_id id : Text) (at : ℕ) (db : Database) {db' : Database}
    → archive_account user_id id at db ≡ ok (true, db')
    → (f : Found user_id id db) × (db' ≡ record db {
      accounts = insert id (record f.row { archived_at = some at; updated_at = at }) db.accounts;
    })
unfolding archive_account
archive-eq-true user_id id at db h = elim (Option-cases (select_account user_id id db)) [
  | inl absent ↦ ground arith
  | inr (row, e) ↦
      let (l, o) = select-eq-some user_id id db e in
      (record { row = row; stands = l; owned = o }, ground arith)
]

restore-eq-true :
    (user_id id : Text) (at : ℕ) (db : Database) {db' : Database}
    → restore_account user_id id at db ≡ ok (true, db')
    → (f : Found user_id id db) × (db' ≡ record db {
      accounts = insert id (record f.row { archived_at = none; updated_at = at }) db.accounts;
    })
unfolding restore_account
restore-eq-true user_id id at db h = elim (Option-cases (select_account user_id id db)) [
  | inl absent ↦ ground arith
  | inr (row, e) ↦
      let (l, o) = select-eq-some user_id id db e in
      (record { row = row; stands = l; owned = o }, ground arith)
]

missed_update-fails :
    (row : Option AccountRow) (w : World) {u : Unit {0}} {w' : World}
    → missed_update row w ≡ (ok u, w')
    → ⊥
unfolding missed_update
missed_update-fails none w h = cc
missed_update-fails (some row) w h = cc

module _ (env : Env) where
  scan_found-eq-ok :
      (user_id id : Text) (found : Option AccountRow) (w : World) {a : Account} {w' : World}
      → select_account user_id id w.db ≡ found
      → scan_found id found w ≡ (ok a, w')
      → (f : Found user_id id w.db) × (w'.db ≡ w.db) × (scan_account id f.row ≡ ok a)
  unfolding scan_found
  scan_found-eq-ok user_id id none w e h = cc
  scan_found-eq-ok user_id id (some row) w e h =
      let (l, o) = select-eq-some user_id id w.db e in
      let (s, d) = lift-eq-ok (scan_account id row) w h in
      (record { row = row; stands = l; owned = o }, ap (λ (x : World). x.db) d, s)

  -- A lookup changes nothing, and reads the user's own row.
  pub find-eq-ok :
      (user_id id : Text) (w : World) {a : Account} {w' : World}
      → find_by_id env user_id id w ≡ (ok a, w')
      → (f : Found user_id id w.db) × (w'.db ≡ w.db) × (scan_account id f.row ≡ ok a)
  unfolding find_by_id
  find-eq-ok user_id id w h =
      let (found, u, e, g) = >>=-eq-ok _ _ _ h in
      let q =
        execute-eq-ok env database_failure (λ db. ok (select_account user_id id db, db)) w e in
      let d : u.db ≡ w.db = ground arith in
      let (f, d', s) = scan_found-eq-ok user_id id found u (rw d (ground arith)) g in
      (
        record {
          row = f.row;
          stands = subst (λ (x : Database). lookup id x.accounts ≡ some f.row) d f.stands;
          owned = f.owned;
        },
        d' ∙ d,
        s,
      )

  report_missed_update-eq-ok :
      (user_id id : Text) (b : Bool) (w : World) {u : Unit {0}} {w' : World}
      → report_missed_update env user_id id b w ≡ (ok u, w')
      → (b ≡ true) × (w' ≡ w)
  unfolding report_missed_update
  report_missed_update-eq-ok user_id id true w h = (refl, ground arith)
  report_missed_update-eq-ok user_id id false w h =
      let (row, v, _, g) = >>=-eq-ok _ _ _ h in absurd (missed_update-fails row v g)

  -- An update that succeeds has rewritten the user's own row.
  pub update-eq-ok :
      (a : Account) (expected : ℕ) (w : World) {u : Unit {0}} {w' : World}
      → update_by_id env a expected w ≡ (ok u, w')
      → (f : Found a.user_id a.id w.db) × (w'.db
          ≡ record w.db { accounts = insert a.id (rewrite f.row a) w.db.accounts })
  unfolding update_by_id
  update-eq-ok a expected w h =
      let (b, u, e, g) = >>=-eq-ok _ _ _ h in
      let (bt, wu) = report_missed_update-eq-ok a.user_id a.id b u g in
      let (f, d) = update-eq-true a expected w.db (
        rw bt at
          (execute-eq-ok env duplicate_active_account_name (update_account a expected) w e)) in
      (f, ap (λ (v : World). v.db) wu ∙ d)

  -- An insertion that succeeds has written a row under a new id.
  pub create-eq-ok :
      (a : Account) (w : World) {u : Unit {0}} {w' : World}
      → create env a w ≡ (ok u, w')
      → (lookup a.id w.db.accounts ≡ none)
        × (w'.db ≡ record w.db { accounts = insert a.id (row_of a) w.db.accounts })
  unfolding create
  create-eq-ok a w h =
      insert-eq-ok a.id (row_of a) w.db
        (execute-eq-ok env duplicate_active_account_name (insert_account a.id (row_of a)) w h)

  require_affected-eq-ok :
      (b : Bool) (w : World) {u : Unit {0}} {w' : World}
      → require_affected b w ≡ (ok u, w')
      → (b ≡ true) × (w' ≡ w)
  unfolding require_affected
  require_affected-eq-ok true w h = (refl, ground arith)
  require_affected-eq-ok false w h = cc

  -- A row whose time of archiving and time of the update are set.
  pub archive-eq-ok :
      (user_id id : Text) (at : ℕ) (w : World) {u : Unit {0}} {w' : World}
      → archive_by_id env user_id id at w ≡ (ok u, w')
      → (f : Found user_id id w.db) × (w'.db ≡ record w.db {
        accounts =
            insert id (record f.row { archived_at = some at; updated_at = at }) w.db.accounts;
      })
  unfolding archive_by_id
  archive-eq-ok user_id id at w h = >>=-elim _ _ _ h λ b v e g.
      let (bt, wv) = require_affected-eq-ok b v g in
      let (f, d) =
        archive-eq-true user_id id at w.db
          (rw bt at (execute-eq-ok env database_failure (archive_account user_id id at) w e)) in
      (f, ap (λ (x : World). x.db) wv ∙ d)

  pub restore-eq-ok :
      (user_id id : Text) (at : ℕ) (w : World) {u : Unit {0}} {w' : World}
      → restore_by_id env user_id id at w ≡ (ok u, w')
      → (f : Found user_id id w.db) × (w'.db ≡ record w.db {
        accounts = insert id (record f.row { archived_at = none; updated_at = at }) w.db.accounts;
      })
  unfolding restore_by_id
  restore-eq-ok user_id id at w h = >>=-elim _ _ _ h λ b v e g.
      let (bt, wv) = require_affected-eq-ok b v g in
      let (f, d) = restore-eq-true user_id id at w.db (
        rw bt at
          (execute-eq-ok env duplicate_active_account_name (restore_account user_id id at) w e)) in
      (f, ap (λ (x : World). x.db) wv ∙ d)
