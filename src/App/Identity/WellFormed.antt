-- ===== src/App/Identity/WellFormed.antt =====
-- The constraints of the tables `users`, `sessions` and `auth_one_time_tokens`, as an invariant.
use moneo_backend.Common.{
  ◌≤◌, ℕ, ◌≡◌, ◌≢◌, refl, sym, ◌∙◌, ap, Bool, true, Text, text_eq, text_eq_iff, none, some, arith,
  Bool-cases, Option-cases, inl, inr,
}
use mathlib.Core.Path.{subst}
use moneo_backend.Infra.Table.{
  Table, lookup, insert, map_rows, find_row, HasKeys, insert-HasKeys, lookup-insert,
  lookup-map_rows,
}
use moneo_backend.Infra.Table.Unique.{
  IsUnique, find_row-eq-none, map_rows-HasKeys, insert_new-IsUnique, insert-IsUnique,
  map_rows-IsUnique,
}
use moneo_backend.Infra.Database.{UserRow, SessionRow, OneTimeTokenRow, Database, World, tick}
use moneo_backend.Infra.Database.Histories.{IsHistory}
use moneo_backend.Infra.UserRepository.{
  insert_user, rewrite_user, has_email, with_password, with_verified_email,
}
use moneo_backend.Infra.SessionRepository.{
  insert_session, rewrite_session, holds_hash, has_hash, is_live, is_not_revoked, touched, revoked,
  revoked_if_live, revoke_sessions,
}
use moneo_backend.Infra.OneTimeTokenRepository
use moneo_backend.Infra.OneTimeTokenRepository.{insert_token, use_token, used}
use moneo_backend.Infra.UserRepository.Laws.{insert_user-eq-ok, rewrite_user-eq-ok}
use moneo_backend.Infra.SessionRepository.Laws.{insert_session-eq-ok, rewrite_session-eq-ok}
use moneo_backend.Infra.OneTimeTokenRepository.Laws.{insert_token-eq-ok, use_token-eq-ok}
use moneo_backend.App.Identity.Moves.{IsAuthHistory, Carries}

-- A row's owner stands in `users`.
unfoldable pub IsOwned : {R : Type 0} → (R → Text) → Table UserRow → Table R → Type 0
IsOwned {R} owner users rows =
    (id : Text) (r : R)
    → lookup id rows ≡ some r
    → (user : UserRow) × (lookup (owner r) users ≡ some user)

module _ {R : Type 0} (owner : R → Text) where
  more_users-IsOwned :
      (id : Text) (new : UserRow) (users : Table UserRow) (rows : Table R)
      → IsOwned owner users rows
      → IsOwned owner (insert id new users) rows
  unfolding IsOwned
  more_users-IsOwned id new users rows o j r h =
      let (user, there) = o j r h in
      elim (Bool-cases (text_eq id (owner r))) [
        | inl same ↦ (new, rw (lookup-insert id (owner r) new users, same) refl)
        | inr other ↦ (user, rw (lookup-insert id (owner r) new users, other) there)
      ]

  insert-IsOwned :
      (id : Text) (new : R) (users : Table UserRow) (rows : Table R) {user : UserRow}
      → lookup (owner new) users ≡ some user
      → IsOwned owner users rows
      → IsOwned owner users (insert id new rows)
  unfolding IsOwned
  insert-IsOwned id new users rows {user} there o j r h = elim (Bool-cases (text_eq id j)) [
    | inl same ↦ (
      user,
      subst (λ x. lookup (owner x) users ≡ some user) (ground (arith, lookup-insert id j new rows))
          there,
    )
    | inr other ↦ o j r (ground (arith, lookup-insert id j new rows))
  ]

  map_rows-IsOwned :
      (f : R → R) (users : Table UserRow) (rows : Table R)
      → ((r : R) → owner (f r) ≡ owner r)
      → IsOwned owner users rows
      → IsOwned owner users (map_rows f rows)
  unfolding IsOwned
  map_rows-IsOwned f users rows k o j r h = elim (Option-cases (lookup j rows)) [
    | inl gone ↦ absurd (ground (arith, lookup-map_rows f j rows))
    | inr (q, there) ↦
        let (user, owns) = o j q there in
        let e : f q ≡ r = ground (arith, lookup-map_rows f j rows) in
        (user, ap (λ x. lookup x users) (sym (ap owner e) ∙ k q) ∙ owns)
  ]

-- Ids, normalized emails, the hashes of sessions that are not revoked and the hashes of one-time
-- tokens stand once, and the users of sessions and of one-time tokens are there.
pub record IsWellFormed (db : Database) : Type 0 where
  pub user_keys : HasKeys db.users
  pub session_keys : HasKeys db.sessions
  pub token_keys : HasKeys db.one_time_tokens
  pub emails : IsUnique (λ r. true) (λ r. r.normalized_email) db.users
  pub hashes : IsUnique is_not_revoked (λ r. r.refresh_token_hash) db.sessions
  pub token_hashes : IsUnique (λ r. true) (λ r. r.token_hash) db.one_time_tokens
  pub session_owners : IsOwned (λ r. r.user_id) db.users db.sessions
  pub token_owners : IsOwned (λ r. r.user_id) db.users db.one_time_tokens

-- The second world is well-formed if the first one is, and comes after it.
pub record Preserves (u v : World) : Type 0 where
  pub kept : IsWellFormed u.db → IsWellFormed v.db
  pub in_time : u.calls ≤ v.calls

history : IsHistory Preserves
history = record {
  same_tables = λ u v d c. record { kept = subst IsWellFormed (sym d); in_time = c };
  in_turn = λ u v w p q. record {
    kept = λ h. q.kept (p.kept h);
    in_time = omega (arith, p.in_time, q.in_time);
  };
  in_time = λ u v p. p.in_time;
}

-- A statement after which the tables are `db`.
at_tables :
    (w : World) {db db' : Database}
    → db' ≡ db
    → (IsWellFormed w.db → IsWellFormed db)
    → Preserves w (record (tick w) { db = db' })
at_tables w e k = record { kept = λ h. subst IsWellFormed (sym e) (k h); in_time = omega arith }

new_email :
    (row : UserRow) (users : Table UserRow)
    → find_row (has_email row.normalized_email) users ≡ none
    → (j : Text) (s : UserRow) → lookup j users ≡ some s
    → true ≡ true
    → s.normalized_email ≢ row.normalized_email
unfolding has_email
new_email row users f j s l _ e = ground (
  arith,
  find_row-eq-none (has_email row.normalized_email) j users f l,
  text_eq_iff s.normalized_email row.normalized_email,
)

insert_user-Preserves : (id : Text) (row : UserRow) → Carries Preserves (insert_user id row)
insert_user-Preserves id row w a db' h =
    let (n, f, e) = insert_user-eq-ok id row w.db h in
    at_tables w e λ k. record {
      user_keys = insert-HasKeys id row w.db.users k.user_keys;
      session_keys = k.session_keys;
      token_keys = k.token_keys;
      emails = insert_new-IsUnique _ _ id row w.db.users (new_email row w.db.users f) k.emails;
      hashes = k.hashes;
      token_hashes = k.token_hashes;
      session_owners = more_users-IsOwned _ id row w.db.users _ k.session_owners;
      token_owners = more_users-IsOwned _ id row w.db.users _ k.token_owners;
    }

rewrite_user-Preserves :
    (f : UserRow → UserRow) (id : Text)
    → ((row : UserRow) → (f row).normalized_email ≡ row.normalized_email)
    → Carries Preserves (rewrite_user f id)
rewrite_user-Preserves f id p w b db' h =
    rewrite_user-eq-ok f id w.db h (λ _ e. at_tables w e (λ k. k))
      λ row there _ e. at_tables w e λ k. record {
        user_keys = insert-HasKeys id (f row) w.db.users k.user_keys;
        session_keys = k.session_keys;
        token_keys = k.token_keys;
        emails = insert-IsUnique _ _ id row (f row) w.db.users there (λ _. refl) (p row) k.emails;
        hashes = k.hashes;
        token_hashes = k.token_hashes;
        session_owners = more_users-IsOwned _ id (f row) w.db.users _ k.session_owners;
        token_owners = more_users-IsOwned _ id (f row) w.db.users _ k.token_owners;
      }

with_sessions :
    (db : Database) (rows : Table SessionRow)
    → HasKeys rows
    → IsUnique is_not_revoked (λ r. r.refresh_token_hash) rows
    → IsOwned (λ r. r.user_id) db.users rows
    → IsWellFormed db
    → IsWellFormed (record db { sessions = rows })
with_sessions db rows s u o k = record {
  user_keys = k.user_keys;
  session_keys = s;
  token_keys = k.token_keys;
  emails = k.emails;
  hashes = u;
  token_hashes = k.token_hashes;
  session_owners = o;
  token_owners = k.token_owners;
}

new_hash :
    (row : SessionRow) (sessions : Table SessionRow)
    → find_row (holds_hash row.refresh_token_hash) sessions ≡ none
    → (j : Text) (s : SessionRow) → lookup j sessions ≡ some s
    → is_not_revoked s ≡ true
    → s.refresh_token_hash ≢ row.refresh_token_hash
unfolding holds_hash has_hash
new_hash row sessions f j s l n e = ground (
  arith,
  find_row-eq-none (holds_hash row.refresh_token_hash) j sessions f l,
  text_eq_iff s.refresh_token_hash row.refresh_token_hash,
)

insert_session-Preserves :
    (id : Text) (row : SessionRow) → Carries Preserves (insert_session id row)
insert_session-Preserves id row w a db' h = insert_session-eq-ok id row w.db h λ user n owns f e.
    at_tables w e λ k.
      with_sessions w.db _ (insert-HasKeys id row w.db.sessions k.session_keys)
        (insert_new-IsUnique _ _ id row w.db.sessions (new_hash row w.db.sessions f) k.hashes)
        (insert-IsOwned _ id row w.db.users w.db.sessions owns k.session_owners) k

rewrite_session-Preserves :
    (p : SessionRow → Bool) (f : SessionRow → SessionRow) (id : Text)
    → ((row : SessionRow) → is_not_revoked (f row) ≡ true → is_not_revoked row ≡ true)
    → ((row : SessionRow) → (f row).refresh_token_hash ≡ row.refresh_token_hash)
    → ((row : SessionRow) → (f row).user_id ≡ row.user_id)
    → Carries Preserves (rewrite_session p f id)
unfolding IsOwned
rewrite_session-Preserves p f id q g o w b db' h =
    rewrite_session-eq-ok p f id w.db h (λ _ e. at_tables w e (λ k. k))
      λ row there _ _ e. at_tables w e λ k.
        with_sessions w.db _ (insert-HasKeys id (f row) w.db.sessions k.session_keys)
          (insert-IsUnique _ _ id row (f row) w.db.sessions there (q row) (g row) k.hashes)
          (insert-IsOwned _ id (f row) w.db.users w.db.sessions
            (ap (λ x. lookup x w.db.users) (o row) ∙ (k.session_owners id row there).1)
            k.session_owners)
          k

if_live-user :
    (user_id : Text) (at : ℕ) (row : SessionRow)
    → (revoked_if_live user_id at row).user_id ≡ row.user_id
unfolding revoked_if_live revoked
if_live-user user_id at row = ground arith

if_live-hash :
    (user_id : Text) (at : ℕ) (row : SessionRow)
    → (revoked_if_live user_id at row).refresh_token_hash ≡ row.refresh_token_hash
unfolding revoked_if_live revoked
if_live-hash user_id at row = ground arith

if_live-not_revoked :
    (user_id : Text) (at : ℕ) (row : SessionRow)
    → is_not_revoked (revoked_if_live user_id at row) ≡ true
    → is_not_revoked row ≡ true
unfolding revoked_if_live revoked is_live is_not_revoked
if_live-not_revoked user_id at row h = ground arith

revoke_sessions-Preserves :
    (user_id : Text) (at : ℕ) → Carries Preserves (revoke_sessions user_id at)
unfolding revoke_sessions
revoke_sessions-Preserves user_id at w a db' h = at_tables w (ground arith) λ k.
    with_sessions w.db _ (map_rows-HasKeys _ w.db.sessions k.session_keys)
      (map_rows-IsUnique _ _ _ w.db.sessions (if_live-not_revoked user_id at)
        (if_live-hash user_id at) k.hashes)
      (map_rows-IsOwned _ _ w.db.users w.db.sessions (if_live-user user_id at) k.session_owners) k

with_tokens :
    (db : Database) (rows : Table OneTimeTokenRow)
    → HasKeys rows
    → IsUnique (λ r. true) (λ r. r.token_hash) rows
    → IsOwned (λ r. r.user_id) db.users rows
    → IsWellFormed db
    → IsWellFormed (record db { one_time_tokens = rows })
with_tokens db rows s u o k = record {
  user_keys = k.user_keys;
  session_keys = k.session_keys;
  token_keys = s;
  emails = k.emails;
  hashes = k.hashes;
  token_hashes = u;
  session_owners = k.session_owners;
  token_owners = o;
}

new_token_hash :
    (row : OneTimeTokenRow) (rows : Table OneTimeTokenRow)
    → find_row (OneTimeTokenRepository.has_hash row.token_hash) rows ≡ none
    → (j : Text) (s : OneTimeTokenRow) → lookup j rows ≡ some s
    → true ≡ true
    → s.token_hash ≢ row.token_hash
unfolding OneTimeTokenRepository.has_hash
new_token_hash row rows f j s l _ e = ground (
  arith,
  find_row-eq-none (OneTimeTokenRepository.has_hash row.token_hash) j rows f l,
  text_eq_iff s.token_hash row.token_hash,
)

insert_token-Preserves :
    (id : Text) (row : OneTimeTokenRow) → Carries Preserves (insert_token id row)
insert_token-Preserves id row w a db' h = insert_token-eq-ok id row w.db h λ user n owns f e.
    at_tables w e λ k.
      let rows = w.db.one_time_tokens in
      with_tokens w.db _ (insert-HasKeys id row rows k.token_keys)
        (insert_new-IsUnique _ _ id row rows (new_token_hash row rows f) k.token_hashes)
        (insert-IsOwned _ id row w.db.users rows owns k.token_owners) k

use_token-Preserves : (id : Text) (at : ℕ) → Carries Preserves (use_token id at)
unfolding used IsOwned
use_token-Preserves id at w b db' h =
    use_token-eq-ok id at w.db h (λ _ e. at_tables w e (λ k. k))
      λ row there _ _ e. at_tables w e λ k.
        let rows = w.db.one_time_tokens in
        with_tokens w.db _ (insert-HasKeys id (used at row) rows k.token_keys)
          (insert-IsUnique _ _ id row (used at row) rows there (λ _. refl) refl k.token_hashes)
          (insert-IsOwned _ id (used at row) w.db.users rows (k.token_owners id row there).1
            k.token_owners)
          k

pub Preserves-IsAuthHistory : IsAuthHistory Preserves
unfolding with_password with_verified_email touched revoked is_not_revoked
Preserves-IsAuthHistory = record {
  history = history;
  insert_user = insert_user-Preserves;
  set_password = λ id hash at. rewrite_user-Preserves (with_password hash at) id (λ row. refl);
  set_verified = λ id at. rewrite_user-Preserves (with_verified_email at) id (λ row. refl);
  insert_session = λ id row n. insert_session-Preserves id row;
  touch_session = λ id at.
      rewrite_session-Preserves (is_live at) (touched at) id (λ row h. h) (λ row. refl)
        (λ row. refl);
  revoke_session = λ id at.
      rewrite_session-Preserves is_not_revoked (revoked at) id (λ row h. cc) (λ row. refl)
        (λ row. refl);
  revoke_sessions = revoke_sessions-Preserves;
  insert_token = insert_token-Preserves;
  use_token = use_token-Preserves;
}
