-- ===== src/Infra/OneTimeTokenRepository/Laws.antt =====
-- What the statements on `auth_one_time_tokens` do when they are carried out.
use moneo_backend.Common.{
  ◌≡◌, refl, ◌∙◌, ap, Bool, true, false, ℕ, Text, Option, none, some, ok, arith, Bool-cases,
  Option-cases, inl, inr,
}
use moneo_backend.Infra.Table.{lookup, insert, find_row}
use moneo_backend.Domain.Errors.{database_failure}
use moneo_backend.Domain.Identity.{OneTimeToken, OneTimeTokenPurpose}
use moneo_backend.Infra.Database.{
  UserRow, OneTimeTokenRow, Database, Env, World, >>=-elim, execute-eq-ok, lift-eq-ok,
}
use moneo_backend.Infra.Database.Histories.{query-eq-ok}
use moneo_backend.Infra.OneTimeTokenRepository.{
  insert_token, use_token, has_hash, is_usable, used, found_token, token_of, find_active_by_hash,
  is_active_with, require_token, mark_used,
}

pub insert_token-eq-ok :
    (id : Text) (row : OneTimeTokenRow) (db : Database) {a : Unit {0}} {db' : Database} {P : Type 0}
    → insert_token id row db ≡ ok (a, db')
    → ((user : UserRow)
        → lookup id db.one_time_tokens ≡ none
        → lookup row.user_id db.users ≡ some user
        → find_row (has_hash row.token_hash) db.one_time_tokens ≡ none
        → db' ≡ record db { one_time_tokens = insert id row db.one_time_tokens }
        → P)
    → P
unfolding insert_token
insert_token-eq-ok id row db h found = elim (Option-cases (lookup row.user_id db.users)) [
  | inl gone ↦ absurd (ground arith)
  | inr (user, there) ↦ found user (ground arith) there (ground arith) (ground arith)
]

pub use_token-eq-ok :
    (id : Text) (at : ℕ) (db : Database) {b : Bool} {db' : Database} {P : Type 0}
    → use_token id at db ≡ ok (b, db')
    → (b ≡ false → db' ≡ db → P)
    → ((row : OneTimeTokenRow)
        → lookup id db.one_time_tokens ≡ some row
        → is_usable at row ≡ true
        → b ≡ true
        → db' ≡ record db { one_time_tokens = insert id (used at row) db.one_time_tokens }
        → P)
    → P
unfolding use_token
use_token-eq-ok id at db h missing found = elim (Option-cases (lookup id db.one_time_tokens)) [
  | inl gone ↦ missing (ground arith) (ground arith)
  | inr (row, there) ↦ elim (Bool-cases (is_usable at row)) [
    | inl passes ↦ found row there passes (ground arith) (ground arith)
    | inr fails ↦ missing (ground arith) (ground arith)
  ]
]

found_token-eq-ok :
    (found : Option (Text × OneTimeTokenRow)) (w : World) {t : OneTimeToken} {u : World}
    → found_token found w ≡ (ok t, u)
    → (id : Text) × (row : OneTimeTokenRow) × (found ≡ some (id, row))
      × (t.id ≡ id)
      × (t.user_id ≡ row.user_id)
      × (u ≡ w)
unfolding found_token token_of
found_token-eq-ok none w h = cc
found_token-eq-ok (some (id, row)) w h = >>=-elim _ _ _ h λ purpose v e f.
    let (g, x) = lift-eq-ok _ w e in (id, row, refl, ground arith, ground arith, ground arith)

-- A token that is found is one that the test finds; the tables stay.
pub find_active_by_hash-eq-ok :
    (env : Env) (purpose : OneTimeTokenPurpose) (hash : Text) (now : ℕ) (w : World)
    {t : OneTimeToken} {u : World}
    → find_active_by_hash env purpose hash now w ≡ (ok t, u)
    → (id : Text) × (row : OneTimeTokenRow) × (find_row
          (is_active_with purpose hash now)
          w.db.one_time_tokens
        ≡ some (id, row))
      × (t.id ≡ id)
      × (t.user_id ≡ row.user_id)
      × (u.db ≡ w.db)
unfolding find_active_by_hash
find_active_by_hash-eq-ok env purpose hash now w h = >>=-elim _ _ _ h λ found v e f.
    let (q, d) =
      query-eq-ok env database_failure
        (λ db. find_row (is_active_with purpose hash now) db.one_time_tokens) w e in
    let (j, row, g, i, o, x) = found_token-eq-ok found v f in
    (j, row, q ∙ g, i, o, ap (λ y. y.db) x ∙ d)

require_token-eq-ok :
    (b : Bool) (w : World) {a : Unit {0}} {u : World}
    → require_token b w ≡ (ok a, u)
    → (b ≡ true) × (u ≡ w)
unfolding require_token
require_token-eq-ok b w h = ground arith

-- Marking a token that succeeds has found it usable.
pub mark_used-eq-ok :
    (env : Env) (id : Text) (at : ℕ) (w : World) {a : Unit {0}} {u : World}
    → mark_used env id at w ≡ (ok a, u)
    → (row : OneTimeTokenRow) × (lookup id w.db.one_time_tokens ≡ some row)
      × (is_usable at row ≡ true)
      × (u.db ≡ record w.db { one_time_tokens = insert id (used at row) w.db.one_time_tokens })
unfolding mark_used
mark_used-eq-ok env id at w h = >>=-elim _ _ _ h λ affected v e f.
    let (y, same) = require_token-eq-ok affected v f in
    use_token-eq-ok id at w.db (execute-eq-ok env _ _ w e) (λ n d. absurd (ground arith))
      λ row there passes _ d. (row, there, passes, ap (λ x. x.db) same ∙ d)
