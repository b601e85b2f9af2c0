-- ===== src/Infra/SessionRepository/Laws.antt =====
-- What the statements on `sessions` do when they are carried out.
use moneo_backend.Common.{
  ℕ, ◌≡◌, refl, ◌∙◌, ap, Bool, true, false, Text, Option, none, some, ok, arith, Bool-cases,
  Option-cases, inl, inr,
}
use moneo_backend.Infra.Table.{lookup, insert, find_row, map_rows}
use moneo_backend.Domain.Errors.{database_failure}
use moneo_backend.Domain.Identity.{Session}
use moneo_backend.Infra.Database.{
  UserRow, SessionRow, Database, Env, World, >>=-elim, execute-eq-ok,
}
use moneo_backend.Infra.Database.Histories.{query-eq-ok}
use moneo_backend.Infra.SessionRepository.{
  insert_session, rewrite_session, holds_hash, found_session, session_of, find_by_id, with_id,
  find_by_refresh_token_hash, has_hash, require_session, touch_last_used_at, revoke_by_id,
  revoke_all_by_user_id, is_live, is_not_revoked, touched, revoked, revoked_if_live,
  revoke_sessions,
}

pub insert_session-eq-ok :
    (id : Text) (row : SessionRow) (db : Database) {a : Unit {0}} {db' : Database} {P : Type 0}
    → insert_session id row db ≡ ok (a, db')
    → ((user : UserRow)
        → lookup id db.sessions ≡ none
        → lookup row.user_id db.users ≡ some user
        → find_row (holds_hash row.refresh_token_hash) db.sessions ≡ none
        → db' ≡ record db { sessions = insert id row db.sessions }
        → P)
    → P
unfolding insert_session
insert_session-eq-ok id row db h found = elim (Option-cases (lookup row.user_id db.users)) [
  | inl gone ↦ absurd (ground arith)
  | inr (user, there) ↦ found user (ground arith) there (ground arith) (ground arith)
]

-- A row that passes the test is written anew; otherwise nothing changes.
pub rewrite_session-eq-ok :
    (p : SessionRow → Bool) (f : SessionRow → SessionRow) (id : Text) (db : Database) {b : Bool}
    {db' : Database} {P : Type 0}
    → rewrite_session p f id db ≡ ok (b, db')
    → (b ≡ false → db' ≡ db → P)
    → ((row : SessionRow)
        → lookup id db.sessions ≡ some row
        → p row ≡ true
        → b ≡ true
        → db' ≡ record db { sessions = insert id (f row) db.sessions }
        → P)
    → P
unfolding rewrite_session
rewrite_session-eq-ok p f id db h missing found = elim (Option-cases (lookup id db.sessions)) [
  | inl gone ↦ missing (ground arith) (ground arith)
  | inr (row, there) ↦ elim (Bool-cases (p row)) [
    | inl passes ↦ found row there passes (ground arith) (ground arith)
    | inr fails ↦ missing (ground arith) (ground arith)
  ]
]

found_session-eq-ok :
    (found : Option (Text × SessionRow)) (w : World) {s : Session} {u : World}
    → found_session found w ≡ (ok s, u)
    → (id : Text) × (row : SessionRow) × (found ≡ some (id, row))
      × (s ≡ session_of id row)
      × (u ≡ w)
unfolding found_session
found_session-eq-ok none w h = cc
found_session-eq-ok (some (id, row)) w h = (id, row, refl, ground arith, ground arith)

-- A session that is found by the id stands under it; the tables stay.
pub find_by_id-eq-ok :
    (env : Env) (id : Text) (w : World) {s : Session} {u : World}
    → find_by_id env id w ≡ (ok s, u)
    → (row : SessionRow) × (lookup id w.db.sessions ≡ some row)
      × (s ≡ session_of id row)
      × (u.db ≡ w.db)
unfolding find_by_id with_id
find_by_id-eq-ok env id w h = >>=-elim _ _ _ h λ found v e f.
    let (q, d) = query-eq-ok env database_failure (λ db. with_id id (lookup id db.sessions)) w e in
    let (j, row, g, us, x) = found_session-eq-ok found v f in
    elim (Option-cases (lookup id w.db.sessions)) [
      | inl gone ↦ absurd (ground arith)
      | inr (r, there) ↦ (r, there, ground arith, ground arith)
    ]

pub find_by_refresh_token_hash-eq-ok :
    (env : Env) (hash : Text) (w : World) {s : Session} {u : World}
    → find_by_refresh_token_hash env hash w ≡ (ok s, u)
    → (id : Text) × (row : SessionRow) × (find_row (has_hash hash) w.db.sessions ≡ some (id, row))
      × (s ≡ session_of id row)
      × (u.db ≡ w.db)
unfolding find_by_refresh_token_hash
find_by_refresh_token_hash-eq-ok env hash w h = >>=-elim _ _ _ h λ found v e f.
    let (q, d) =
      query-eq-ok env database_failure (λ db. find_row (has_hash hash) db.sessions) w e in
    let (j, row, g, us, x) = found_session-eq-ok found v f in
    (j, row, q ∙ g, us, ap (λ y. y.db) x ∙ d)

require_session-eq-ok :
    (b : Bool) (w : World) {a : Unit {0}} {u : World}
    → require_session b w ≡ (ok a, u)
    → (b ≡ true) × (u ≡ w)
unfolding require_session
require_session-eq-ok b w h = ground arith

-- An update that succeeds has found a row that passes its test, and has written it anew.
pub touch_last_used_at-eq-ok :
    (env : Env) (id : Text) (at : ℕ) (w : World) {a : Unit {0}} {u : World}
    → touch_last_used_at env id at w ≡ (ok a, u)
    → (row : SessionRow) × (lookup id w.db.sessions ≡ some row)
      × (is_live at row ≡ true)
      × (u.db ≡ record w.db { sessions = insert id (touched at row) w.db.sessions })
unfolding touch_last_used_at
touch_last_used_at-eq-ok env id at w h = >>=-elim _ _ _ h λ affected v e f.
    let (y, same) = require_session-eq-ok affected v f in
    rewrite_session-eq-ok _ _ id w.db (execute-eq-ok env _ _ w e) (λ n d. absurd (ground arith))
      λ row there passes _ d. (row, there, passes, ap (λ x. x.db) same ∙ d)

pub revoke_by_id-eq-ok :
    (env : Env) (id : Text) (at : ℕ) (w : World) {a : Unit {0}} {u : World}
    → revoke_by_id env id at w ≡ (ok a, u)
    → (row : SessionRow) × (lookup id w.db.sessions ≡ some row)
      × (is_not_revoked row ≡ true)
      × (u.db ≡ record w.db { sessions = insert id (revoked at row) w.db.sessions })
unfolding revoke_by_id
revoke_by_id-eq-ok env id at w h = >>=-elim _ _ _ h λ affected v e f.
    let (y, same) = require_session-eq-ok affected v f in
    rewrite_session-eq-ok _ _ id w.db (execute-eq-ok env _ _ w e) (λ n d. absurd (ground arith))
      λ row there passes _ d. (row, there, passes, ap (λ x. x.db) same ∙ d)

pub revoke_all_by_user_id-eq-ok :
    (env : Env) (user_id : Text) (at : ℕ) (w : World) {a : Unit {0}} {u : World}
    → revoke_all_by_user_id env user_id at w ≡ (ok a, u)
    → u.db ≡ record w.db { sessions = map_rows (revoked_if_live user_id at) w.db.sessions }
unfolding revoke_all_by_user_id revoke_sessions
revoke_all_by_user_id-eq-ok env user_id at w h =
    let e = execute-eq-ok env database_failure (revoke_sessions user_id at) w h in ground arith
