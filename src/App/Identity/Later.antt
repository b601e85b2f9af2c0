-- ===== src/App/Identity/Later.antt =====
-- What any request leaves of the users, sessions and one-time tokens that are there.
use moneo_backend.Common.{
  ℕ, ◌≤◌, ◌≡◌, refl, sym, ◌∙◌, Bool, true, Text, text_eq, text_eq_iff, none, some, arith,
  Bool-cases, inl, inr, ◌&&◌,
}
use mathlib.Core.Path.{subst}
use moneo_backend.Infra.Table.{
  Table, lookup, insert, lookup-insert, lookup-map_rows, one_row, map_rows,
}
use moneo_backend.Infra.Database.{UserRow, SessionRow, OneTimeTokenRow, Database, World, tick}
use moneo_backend.Infra.Database.Histories.{IsHistory}
use moneo_backend.Infra.UserRepository.{
  rewrite_user, insert_user, with_password, with_verified_email,
}
use moneo_backend.Infra.SessionRepository.{
  insert_session, rewrite_session, is_live, is_not_revoked, touched, revoked, revoked_if_live,
  revoke_sessions,
}
use moneo_backend.Infra.OneTimeTokenRepository.{insert_token, use_token, used, is_usable}
use moneo_backend.Infra.UserRepository.Laws.{insert_user-eq-ok, rewrite_user-eq-ok}
use moneo_backend.Infra.SessionRepository.Laws.{insert_session-eq-ok, rewrite_session-eq-ok}
use moneo_backend.Infra.OneTimeTokenRepository.Laws.{insert_token-eq-ok, use_token-eq-ok}
use moneo_backend.App.Identity.Moves.{IsAuthHistory, Carries}

-- Every row of the first table stands in the second one, in the relation `P` to what it was.
unfoldable pub Stay : {R : Type 0} → (R → R → Type 0) → Table R → Table R → Type 0
Stay {R} P rows rows' =
    (id : Text) (r : R) → lookup id rows ≡ some r → (s : R) × (lookup id rows' ≡ some s) × P r s

module _ {R : Type 0} (P : R → R → Type 0) where
  Stay-insert_new :
      (id : Text) (s : R) (rows : Table R)
      → ((r : R) → P r r)
      → lookup id rows ≡ none
      → Stay P rows (insert id s rows)
  unfolding Stay
  Stay-insert_new id s rows p n j r h =
      (r, ground (arith, lookup-insert id j s rows, text_eq_iff id j), p r)

  Stay-insert :
      (id : Text) (old new : R) (rows : Table R)
      → ((r : R) → P r r)
      → P old new
      → lookup id rows ≡ some old
      → Stay P rows (insert id new rows)
  unfolding Stay
  Stay-insert id old new rows p q n j r h = elim (Bool-cases (text_eq id j)) [
    | inl same ↦ (
      new,
      ground (arith, lookup-insert id j new rows),
      subst (λ x. P x new) (one_row id rows n (rw ((text_eq_iff id j).0 same) h)) q,
    )
    | inr other ↦ (r, ground (arith, lookup-insert id j new rows), p r)
  ]

  Stay-map_rows :
      (f : R → R) (rows : Table R) → ((r : R) → P r (f r)) → Stay P rows (map_rows f rows)
  unfolding Stay
  Stay-map_rows f rows p j r h = (f r, rw (lookup-map_rows f j rows, h) refl, p r)

-- What may become of a user, a session and a one-time token.
pub record UserStays (old new : UserRow) : Type 0 where
  pub same_email : new.email ≡ old.email
  pub same_normalized : new.normalized_email ≡ old.normalized_email
  pub verified : old.email_verified ≡ true → new.email_verified ≡ true

pub record SessionStays (old new : SessionRow) : Type 0 where
  pub same_user : new.user_id ≡ old.user_id
  pub same_hash : new.refresh_token_hash ≡ old.refresh_token_hash
  pub same_created : new.created_at ≡ old.created_at
  pub same_expiry : new.expires_at ≡ old.expires_at
  pub revoked_still : (at : ℕ) → old.revoked_at ≡ some at → new.revoked_at ≡ some at

pub record TokenStays (old new : OneTimeTokenRow) : Type 0 where
  pub same_user : new.user_id ≡ old.user_id
  pub same_purpose : new.purpose ≡ old.purpose
  pub same_hash : new.token_hash ≡ old.token_hash
  pub same_expiry : new.expires_at ≡ old.expires_at
  pub used_still : (at : ℕ) → old.used_at ≡ some at → new.used_at ≡ some at

-- The second world comes after the first one.
pub record Later (u v : World) : Type 0 where
  pub in_time : u.calls ≤ v.calls
  pub users : Stay UserStays u.db.users v.db.users
  pub sessions : Stay SessionStays u.db.sessions v.db.sessions
  pub tokens : Stay TokenStays u.db.one_time_tokens v.db.one_time_tokens

user_refl : (r : UserRow) → UserStays r r
user_refl r = record { same_email = refl; same_normalized = refl; verified = λ h. h }

session_refl : (r : SessionRow) → SessionStays r r
session_refl r = record {
  same_user = refl;
  same_hash = refl;
  same_created = refl;
  same_expiry = refl;
  revoked_still = λ at h. h;
}

token_refl : (r : OneTimeTokenRow) → TokenStays r r
token_refl r = record {
  same_user = refl;
  same_purpose = refl;
  same_hash = refl;
  same_expiry = refl;
  used_still = λ at h. h;
}

Stay-same :
    {R : Type 0} (P : R → R → Type 0) (rows rows' : Table R)
    → ((r : R) → P r r)
    → rows' ≡ rows
    → Stay P rows rows'
unfolding Stay
Stay-same P rows rows' p e j r h = (r, rw e h, p r)

Stay-trans :
    {R : Type 0} (P : R → R → Type 0) (a b c : Table R)
    → ((x y z : R) → P x y → P y z → P x z)
    → Stay P a b
    → Stay P b c
    → Stay P a c
unfolding Stay
Stay-trans P a b c t f g j r h =
    let (s, k, p) = f j r h in let (x, m, q) = g j s k in (x, m, t r s x p q)

history : IsHistory Later
history = record {
  same_tables = λ u v d c. record {
    in_time = c;
    users = Stay-same UserStays _ _ user_refl (λ i. (d i).users);
    sessions = Stay-same SessionStays _ _ session_refl (λ i. (d i).sessions);
    tokens = Stay-same TokenStays _ _ token_refl (λ i. (d i).one_time_tokens);
  };
  in_turn = λ u v w p q. record {
    in_time = omega (arith, p.in_time, q.in_time);
    users =
        Stay-trans UserStays _ _ _
          (λ x y z a b. record {
            same_email = b.same_email ∙ a.same_email;
            same_normalized = b.same_normalized ∙ a.same_normalized;
            verified = λ h. b.verified (a.verified h);
          })
          p.users q.users;
    sessions =
        Stay-trans SessionStays _ _ _
          (λ x y z a b. record {
            same_user = b.same_user ∙ a.same_user;
            same_hash = b.same_hash ∙ a.same_hash;
            same_created = b.same_created ∙ a.same_created;
            same_expiry = b.same_expiry ∙ a.same_expiry;
            revoked_still = λ at h. b.revoked_still at (a.revoked_still at h);
          })
          p.sessions q.sessions;
    tokens =
        Stay-trans TokenStays _ _ _
          (λ x y z a b. record {
            same_user = b.same_user ∙ a.same_user;
            same_purpose = b.same_purpose ∙ a.same_purpose;
            same_hash = b.same_hash ∙ a.same_hash;
            same_expiry = b.same_expiry ∙ a.same_expiry;
            used_still = λ at h. b.used_still at (a.used_still at h);
          })
          p.tokens q.tokens;
  };
  in_time = λ u v p. p.in_time;
}

-- A world in which one of the tables is another one.
with_users-Later :
    (w : World) (rows : Table UserRow)
    → Stay UserStays w.db.users rows
    → Later w (record (tick w) { db = record w.db { users = rows } })
with_users-Later w rows s = record {
  in_time = omega arith;
  users = s;
  sessions = Stay-same SessionStays _ _ session_refl refl;
  tokens = Stay-same TokenStays _ _ token_refl refl;
}

with_sessions-Later :
    (w : World) (rows : Table SessionRow)
    → Stay SessionStays w.db.sessions rows
    → Later w (record (tick w) { db = record w.db { sessions = rows } })
with_sessions-Later w rows s = record {
  in_time = omega arith;
  users = Stay-same UserStays _ _ user_refl refl;
  sessions = s;
  tokens = Stay-same TokenStays _ _ token_refl refl;
}

with_tokens-Later :
    (w : World) (rows : Table OneTimeTokenRow)
    → Stay TokenStays w.db.one_time_tokens rows
    → Later w (record (tick w) { db = record w.db { one_time_tokens = rows } })
with_tokens-Later w rows s = record {
  in_time = omega arith;
  users = Stay-same UserStays _ _ user_refl refl;
  sessions = Stay-same SessionStays _ _ session_refl refl;
  tokens = s;
}

-- A statement that leaves the tables as another one does.
at_tables :
    (w : World) {db db' : Database}
    → db' ≡ db
    → Later w (record (tick w) { db = db })
    → Later w (record (tick w) { db = db' })
at_tables w e l = subst (λ d. Later w (record (tick w) { db = d })) (sym e) l

unchanged : (w : World) {db' : Database} → db' ≡ w.db → Later w (record (tick w) { db = db' })
unchanged w e = at_tables w e (history.same_tables w (tick w) refl (omega arith))

insert_user-Later : (id : Text) (row : UserRow) → Carries Later (insert_user id row)
insert_user-Later id row w a db' h =
    let (n, f, e) = insert_user-eq-ok id row w.db h in
    at_tables w e (with_users-Later w _ (Stay-insert_new UserStays id row w.db.users user_refl n))

rewrite_user-Later :
    (f : UserRow → UserRow) (id : Text)
    → ((row : UserRow) → UserStays row (f row))
    → Carries Later (rewrite_user f id)
rewrite_user-Later f id p w b db' h =
    rewrite_user-eq-ok f id w.db h (λ _ e. unchanged w e)
      λ row there _ e. at_tables w e (
        with_users-Later w _
          (Stay-insert UserStays id row (f row) w.db.users user_refl (p row) there))

insert_session-Later : (id : Text) (row : SessionRow) → Carries Later (insert_session id row)
insert_session-Later id row w a db' h = insert_session-eq-ok id row w.db h λ user n _ _ e.
    at_tables w e
      (with_sessions-Later w _ (Stay-insert_new SessionStays id row w.db.sessions session_refl n))

rewrite_session-Later :
    (p : SessionRow → Bool) (f : SessionRow → SessionRow) (id : Text)
    → ((row : SessionRow) → p row ≡ true → SessionStays row (f row))
    → Carries Later (rewrite_session p f id)
rewrite_session-Later p f id q w b db' h =
    rewrite_session-eq-ok p f id w.db h (λ _ e. unchanged w e)
      λ row there passes _ e. at_tables w e (
        with_sessions-Later w _
          (Stay-insert SessionStays id row (f row) w.db.sessions session_refl (q row passes) there))

-- A session that is not revoked may be.
revoked-Stays :
    (at : ℕ) (row : SessionRow) → is_not_revoked row ≡ true → SessionStays row (revoked at row)
unfolding is_not_revoked revoked
revoked-Stays at row n = record {
  same_user = refl;
  same_hash = refl;
  same_created = refl;
  same_expiry = refl;
  revoked_still = λ t h. ground arith;
}

touched-Stays : (at : ℕ) (row : SessionRow) → SessionStays row (touched at row)
unfolding touched
touched-Stays at row = record {
  same_user = refl;
  same_hash = refl;
  same_created = refl;
  same_expiry = refl;
  revoked_still = λ t h. h;
}

revoked_if_live-Stays :
    (user_id : Text) (at : ℕ) (row : SessionRow) → SessionStays row (revoked_if_live user_id at row)
unfolding revoked_if_live is_live
revoked_if_live-Stays user_id at row =
    elim (Bool-cases (text_eq row.user_id user_id && is_live at row)) [
      | inl live ↦ simp live (revoked-Stays at row (ground arith))
      | inr other ↦ simp other (session_refl row)
    ]

revoke_sessions-Later : (user_id : Text) (at : ℕ) → Carries Later (revoke_sessions user_id at)
unfolding revoke_sessions
revoke_sessions-Later user_id at w a db' h = at_tables w (ground arith) (
    with_sessions-Later w _
      (Stay-map_rows SessionStays _ w.db.sessions (revoked_if_live-Stays user_id at)))

insert_token-Later : (id : Text) (row : OneTimeTokenRow) → Carries Later (insert_token id row)
insert_token-Later id row w a db' h = insert_token-eq-ok id row w.db h λ user n _ _ e.
    at_tables w e
      (with_tokens-Later w _ (Stay-insert_new TokenStays id row w.db.one_time_tokens token_refl n))

used-Stays :
    (at : ℕ) (row : OneTimeTokenRow) → is_usable at row ≡ true → TokenStays row (used at row)
unfolding is_usable used
used-Stays at row n = record {
  same_user = refl;
  same_purpose = refl;
  same_hash = refl;
  same_expiry = refl;
  used_still = λ t h. ground arith;
}

use_token-Later : (id : Text) (at : ℕ) → Carries Later (use_token id at)
use_token-Later id at w b db' h =
    use_token-eq-ok id at w.db h (λ _ e. unchanged w e)
      λ row there passes _ e. at_tables w e (
        with_tokens-Later w _ (
          Stay-insert TokenStays id row (used at row) w.db.one_time_tokens token_refl
            (used-Stays at row passes) there))

with_password-Stays :
    (hash : Text) (at : ℕ) (row : UserRow) → UserStays row (with_password hash at row)
unfolding with_password
with_password-Stays hash at row = record {
  same_email = refl;
  same_normalized = refl;
  verified = λ h. h;
}

with_verified_email-Stays : (at : ℕ) (row : UserRow) → UserStays row (with_verified_email at row)
unfolding with_verified_email
with_verified_email-Stays at row = record {
  same_email = refl;
  same_normalized = refl;
  verified = λ h. refl;
}

pub Later-IsAuthHistory : IsAuthHistory Later
Later-IsAuthHistory = record {
  history = history;
  insert_user = insert_user-Later;
  set_password = λ id hash at. rewrite_user-Later _ id (with_password-Stays hash at);
  set_verified = λ id at. rewrite_user-Later _ id (with_verified_email-Stays at);
  insert_session = λ id row n. insert_session-Later id row;
  touch_session = λ id at. rewrite_session-Later _ _ id (λ row _. touched-Stays at row);
  revoke_session = λ id at. rewrite_session-Later _ _ id (revoked-Stays at);
  revoke_sessions = revoke_sessions-Later;
  insert_token = insert_token-Later;
  use_token = use_token-Later;
}
