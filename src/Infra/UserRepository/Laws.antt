-- ===== src/Infra/UserRepository/Laws.antt =====
-- What the statements on `users` do when they are carried out.
use moneo_backend.Common.{
  ℕ, ◌≡◌, refl, ◌∙◌, ap, Bool, true, false, Text, Option, none, some, ok, arith, Option-cases, inl,
  inr,
}
use moneo_backend.Infra.Table.{lookup, insert, find_row}
use moneo_backend.Domain.Errors.{database_failure}
use moneo_backend.Domain.Identity.{User}
use moneo_backend.Infra.Database.{UserRow, Database, Env, World, >>=-elim, execute-eq-ok}
use moneo_backend.Infra.Database.Histories.{query-eq-ok}
use moneo_backend.Infra.UserRepository.{
  insert_user, rewrite_user, has_email, found_user, user_of, find_by_id, with_id,
  find_by_normalized_email, require_user, update_password, with_password,
}

pub insert_user-eq-ok :
    (id : Text) (row : UserRow) (db : Database) {a : Unit {0}} {db' : Database}
    → insert_user id row db ≡ ok (a, db')
    → (lookup id db.users ≡ none)
      × (find_row (has_email row.normalized_email) db.users ≡ none)
      × (db' ≡ record db { users = insert id row db.users })
unfolding insert_user
insert_user-eq-ok id row db h = ground arith

-- A row that is there is written anew; otherwise nothing changes.
pub rewrite_user-eq-ok :
    (f : UserRow → UserRow) (id : Text) (db : Database) {b : Bool} {db' : Database} {P : Type 0}
    → rewrite_user f id db ≡ ok (b, db')
    → (b ≡ false → db' ≡ db → P)
    → ((row : UserRow)
        → lookup id db.users ≡ some row
        → b ≡ true
        → db' ≡ record db { users = insert id (f row) db.users }
        → P)
    → P
unfolding rewrite_user
rewrite_user-eq-ok f id db h missing found = elim (Option-cases (lookup id db.users)) [
  | inl gone ↦ missing (ground arith) (ground arith)
  | inr (row, there) ↦ found row there (ground arith) (ground arith)
]

found_user-eq-ok :
    (found : Option (Text × UserRow)) (w : World) {user : User} {u : World}
    → found_user found w ≡ (ok user, u)
    → (id : Text) × (row : UserRow) × (found ≡ some (id, row)) × (user ≡ user_of id row) × (u ≡ w)
unfolding found_user
found_user-eq-ok none w h = cc
found_user-eq-ok (some (id, row)) w h = (id, row, refl, ground arith, ground arith)

-- A user that is found by the id stands under it; the tables stay.
pub find_by_id-eq-ok :
    (env : Env) (id : Text) (w : World) {user : User} {u : World}
    → find_by_id env id w ≡ (ok user, u)
    → (row : UserRow) × (lookup id w.db.users ≡ some row) × (user ≡ user_of id row) × (u.db ≡ w.db)
unfolding find_by_id with_id
find_by_id-eq-ok env id w h = >>=-elim _ _ _ h λ found v e f.
    let (q, d) = query-eq-ok env database_failure (λ db. with_id id (lookup id db.users)) w e in
    let (j, row, g, us, x) = found_user-eq-ok found v f in
    elim (Option-cases (lookup id w.db.users)) [
      | inl gone ↦ absurd (ground arith)
      | inr (r, there) ↦ (r, there, ground arith, ground arith)
    ]

pub find_by_normalized_email-eq-ok :
    (env : Env) (email : Text) (w : World) {user : User} {u : World}
    → find_by_normalized_email env email w ≡ (ok user, u)
    → (id : Text) × (row : UserRow) × (find_row (has_email email) w.db.users ≡ some (id, row))
      × (user ≡ user_of id row)
      × (u.db ≡ w.db)
unfolding find_by_normalized_email
find_by_normalized_email-eq-ok env email w h = >>=-elim _ _ _ h λ found v e f.
    let (q, d) = query-eq-ok env database_failure (λ db. find_row (has_email email) db.users) w e in
    let (j, row, g, us, x) = found_user-eq-ok found v f in (j, row, q ∙ g, us, ap (λ y. y.db) x ∙ d)

require_user-eq-ok :
    (b : Bool) (w : World) {a : Unit {0}} {u : World}
    → require_user b w ≡ (ok a, u)
    → (b ≡ true) × (u ≡ w)
unfolding require_user
require_user-eq-ok b w h = ground arith

-- An update that succeeds has written the row anew.
pub update_password-eq-ok :
    (env : Env) (id hash : Text) (at : ℕ) (w : World) {a : Unit {0}} {u : World}
    → update_password env id hash at w ≡ (ok a, u)
    → (row : UserRow) × (lookup id w.db.users ≡ some row)
      × (u.db ≡ record w.db { users = insert id (with_password hash at row) w.db.users })
unfolding update_password
update_password-eq-ok env id hash at w h = >>=-elim _ _ _ h λ affected v e f.
    let (y, same) = require_user-eq-ok affected v f in
    rewrite_user-eq-ok _ id w.db (execute-eq-ok env _ _ w e) (λ n d. absurd (ground arith))
      λ row there _ d. (row, there, ap (λ x. x.db) same ∙ d)
