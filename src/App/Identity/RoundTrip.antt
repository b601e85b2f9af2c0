-- ===== src/App/Identity/RoundTrip.antt =====
-- internal/app/identity/service.go: whoever has registered can log in; and what RevokeSession has
-- done when it succeeds.
use moneo_backend.Common.{
  ℕ, ◌≤◌, ◌≡◌, refl, sym, ◌∙◌, ap, Bool, true, not, Text, text_eq, text_eq_iff, text_eq_refl,
  trim_space, trim_space_idem, none, some, [], ◌∷◌, ok, arith, Bool-cases, inl, inr,
}
use mathlib.Core.Path.{subst}
use moneo_backend.Domain.Errors.{database_failure, invalid_credentials}
use moneo_backend.Domain.Identity.{User, new_user}
use moneo_backend.Domain.Identity.Credentials.{
  Platform, validate_registration, validate_login, normalize_email,
}
use moneo_backend.Infra.Table.{Table, lookup, insert, find_row, one_row}
use moneo_backend.Infra.Database.{
  UserRow, SessionRow, Database, Env, World, done, pure, lift, map_error, tick, execute, >>=-elim,
  >>-elim, >>=-ok, clock_now-db, generate_id-db, lift-eq-ok, map_error-eq-ok, raise_if-eq-ok,
  execute-eq-ok, execute-done,
}
use moneo_backend.Infra.UserRepository
use moneo_backend.Infra.UserRepository.{
  has_email, generated_email, row_of, user_of, found_user, find_by_normalized_email,
}
use moneo_backend.Infra.UserRepository.Laws.{insert_user-eq-ok}
use moneo_backend.Infra.SessionRepository.{is_live, is_not_revoked, revoked, session_of}
use moneo_backend.Infra.SessionRepository.Laws as SessionLaws
use moneo_backend.App.Identity.{
  register_user, login_user, revoke_session, is_ended, any_as, missing_user_as,
}
use moneo_backend.App.Identity.Interfaces.{
  PasswordHasher, IsPasswordHasher, TokenIssuer, RegisterInput,
}
use moneo_backend.Infra.Database.Commits.{passed, map_error-ok}
use moneo_backend.Infra.Database.Histories.{Moves-run}
use moneo_backend.App.Identity.Moves.{session_by_id-Moves}
use moneo_backend.App.Identity.Later.{Later, Later-IsAuthHistory}
use moneo_backend.App.Identity.Access.{clock_now-eq-ok, quiet_run}

find_row-insert_new :
    {R : Type 0} (p : R → Bool) (id : Text) (r : R) (rows : Table R)
    → lookup id rows ≡ none
    → find_row p rows ≡ none
    → p r ≡ true
    → find_row p (insert id r rows) ≡ some (id, r)
unfolding find_row insert lookup
find_row-insert_new p id r [] n f h = rw h refl
find_row-insert_new p id r ((k, q) ∷ rows) n f h = elim (Bool-cases (p q)) [
  | inl passes ↦ absurd (ground arith)
  | inr fails ↦ elim (Bool-cases (text_eq k id)) [
    | inl same ↦ absurd (ground arith)
    | inr other ↦
        simp (other, fails) (find_row-insert_new p id r rows (ground arith) (ground arith) h)
  ]
]

-- Credentials with which one may register are credentials with which one may log in.
validate-login :
    (platform : Platform) (email password confirm : Text) {normalized : Text}
    → validate_registration platform email password confirm ≡ ok normalized
    → (validate_login platform email password ≡ ok normalized)
      × (platform.to_lower (trim_space email) ≡ normalized)
unfolding validate_registration validate_login normalize_email
validate-login platform email password confirm h = (ground arith, ground arith)

new_user-row :
    (platform : Platform) (id email normalized hash : Text) (now : ℕ) {user : User}
    → new_user id (trim_space email) normalized hash now ≡ ok user
    → (user.id ≡ id) × (user.email ≡ trim_space email) × (user.password_hash ≡ hash)
unfolding new_user
new_user-row platform id email normalized hash now h = ground (arith, trim_space_idem email)

-- What a registration that succeeds has written.
pub register_user-eq-ok :
    (env : Env) (platform : Platform) (hasher : PasswordHasher) (input : RegisterInput) (w : World)
    {user : User} {u : World}
    → IsPasswordHasher hasher
    → register_user env platform hasher input w ≡ (ok user, u)
    → (normalized hash : Text) × (validate_login platform input.email input.password
        ≡ ok normalized)
      × (platform.to_lower (trim_space input.email) ≡ normalized)
      × (hasher.verify input.password hash ≡ ok true)
      × (user.email ≡ trim_space input.email)
      × (user.password_hash ≡ hash)
      × (lookup user.id w.db.users ≡ none)
      × (find_row (has_email (row_of platform user).normalized_email) w.db.users ≡ none)
      × (u.db ≡ record w.db { users = insert user.id (row_of platform user) w.db.users })
unfolding register_user UserRepository.create
register_user-eq-ok env platform hasher input w {user = user'} {u = u} laws h =
    >>=-elim _ _ _ h λ normalized w₁ h₁ g₁. >>=-elim _ _ _ g₁ λ hash w₂ h₂ g₂.
      >>=-elim _ _ _ g₂ λ id w₃ h₃ g₃. >>=-elim _ _ _ g₃ λ now w₄ h₄ g₄.
        >>=-elim _ _ _ g₄ λ user w₅ h₅ g₅. >>-elim _ _ _ g₅ λ w₆ h₆ g₆.
          let (v, s₁) = lift-eq-ok _ w h₁ in
          let (login, lower) =
            validate-login platform input.email input.password input.password_confirm v in
          let (d₂, c₂) = quiet_run _ w₁ (laws.hash-IsQuiet input.password) h₂ in
          let d₃ = generate_id-db env w₂ h₃ in
          let d₄ = clock_now-db env w₃ h₄ in
          let (made, s₅) = lift-eq-ok _ w₄ h₅ in
          let (i, e, p) = new_user-row platform id input.email normalized hash now made in
          let f = map_error-eq-ok _ (UserRepository.create env platform user) w₅ h₆ in
          let (n, fresh, d₆) = insert_user-eq-ok user.id _ w₅.db (execute-eq-ok env _ _ w₅ f) in
          let same : user ≡ user' = ground arith in
          let last : w₆ ≡ u = ground arith in
          let tables : w₅.db ≡ w.db = ap (λ x. x.db) s₅ ∙ d₄ ∙ d₃ ∙ d₂ ∙ ap (λ x. x.db) s₁ in
          let (n', fresh', d') = subst (Inserted w₆.db user) tables (n, fresh, d₆) in
          (
            normalized,
            hash,
            login,
            lower,
            laws.verify-hash input.password hash w₁ w₂ h₂,
            ap (λ x. x.email) (sym same) ∙ e,
            ap (λ x. x.password_hash) (sym same) ∙ p,
            ap (λ x. lookup x.id w.db.users) (sym same) ∙ n',
            ap (λ x. find_row (has_email (row_of platform x).normalized_email) w.db.users)
                  (sym same)
                ∙ fresh',
            ap (λ x. x.db) (sym last)
                ∙ d'
                ∙ ap (λ x. record w.db { users = insert x.id (row_of platform x) w.db.users }) same,
          )
  where
    Inserted : Database → User → Database → Type 0
    Inserted after x db =
        (lookup x.id db.users ≡ none)
        × (find_row (has_email (row_of platform x).normalized_email) db.users ≡ none)
        × (after ≡ record db { users = insert x.id (row_of platform x) db.users })

found-answer :
    (env : Env) (email : Text) (v : World) {id : Text} {row : UserRow}
    → env.reply v.calls ≡ done
    → find_row (has_email email) v.db.users ≡ some (id, row)
    → find_by_normalized_email env email v ≡ (ok (user_of id row), tick v)
unfolding find_by_normalized_email found_user
found-answer env email v r f =
    >>=-ok (execute env database_failure (λ db. ok (find_row (has_email email) db.users, db))) _ v
      (execute-done env database_failure _ v r refl)
    ∙ ap (λ o. found_user o (tick v)) f

-- Whoever has registered can log in with the same credentials, as the same user, on tables that
-- have the users from after the registration, when the database carries the query out, PostgreSQL
-- and Go agree on the normalized email, and the hasher keeps its laws.
pub register-login :
    (env : Env) (platform : Platform) (hasher : PasswordHasher) (input : RegisterInput)
    (w w₁ v : World) (user : User)
    → IsPasswordHasher hasher
    → generated_email platform (trim_space input.email) ≡ platform.to_lower (trim_space input.email)
    → register_user env platform hasher input w ≡ (ok user, w₁)
    → v.db.users ≡ w₁.db.users
    → env.reply v.calls ≡ done
    → (found : User) × (login_user env platform hasher
          (record { email = input.email; password = input.password })
          v
        ≡ (ok found, tick v))
      × (found.id ≡ user.id)
unfolding login_user row_of has_email user_of
register-login env platform hasher input w w₁ v user laws agree h same r =
    let (normalized, hash, login, lower, good, email, stored, n, fresh, d) =
      register_user-eq-ok env platform hasher input w laws h in
    let row = row_of platform user in
    let key : row.normalized_email ≡ normalized =
      ap (generated_email platform) email ∙ agree ∙ lower in
    let there : find_row (has_email normalized) v.db.users ≡ some (user.id, row) =
      ap (find_row (has_email normalized)) (same ∙ ap (λ db. db.users) d)
      ∙ ap (λ k. find_row (has_email k) (insert user.id row w.db.users)) (sym key)
      ∙ find_row-insert_new (has_email row.normalized_email) user.id row w.db.users n fresh
          (text_eq_refl row.normalized_email) in
    let found = user_of user.id row in
    let checked = ap (λ o. map_error (any_as invalid_credentials) (lift o) v) login in
    let query = found-answer env normalized v r there in
    let verified : hasher.verify input.password found.password_hash ≡ ok true =
      ap (hasher.verify input.password) stored ∙ good in
    (
      found,
      >>=-ok _ _ v checked
          ∙ >>=-ok _ _ v (
              map_error-ok (missing_user_as invalid_credentials)
                (find_by_normalized_email env normalized) v query)
          ∙ >>=-ok _ _ (tick v)
              (ap (λ o. map_error (any_as invalid_credentials) (lift o) (tick v)) verified)
          ∙ passed (not true) invalid_credentials (pure found) (tick v) refl,
      refl,
    )

-- RevokeSession, when it succeeds, was asked by the user of the session, found the session live at
-- a time not before the request, and has revoked this session at that time and changed nothing
-- else.
pub revoke_session-eq-ok :
    (env : Env) (tokens : TokenIssuer) (user_id id : Text) (w u : World)
    → revoke_session env tokens user_id id w ≡ (ok tt, u)
    → (row : SessionRow) × (n : ℕ) × (lookup id w.db.sessions ≡ some row)
      × (row.user_id ≡ user_id)
      × (is_live (env.now n) row ≡ true)
      × (w.calls ≤ n)
      × (u.db ≡ record w.db { sessions = insert id (revoked (env.now n) row) w.db.sessions })
unfolding revoke_session is_ended session_of is_live is_not_revoked
revoke_session-eq-ok env tokens user_id id w u h = >>=-elim _ _ _ h λ session w₁ h₁ g₁.
    >>-elim _ _ _ g₁ λ w₂ h₂ g₂. >>=-elim _ _ _ g₂ λ now w₃ h₃ g₃. >>-elim _ _ _ g₃ λ w₄ h₄ g₄.
      let (row, there, is, d₁) = SessionLaws.find_by_id-eq-ok env id w h₁ in
      let c₁ = (Moves-run Later _ w (session_by_id-Moves Later-IsAuthHistory env id) h₁).in_time in
      let (b₂, s₂) = raise_if-eq-ok _ _ w₁ h₂ in
      let (t₃, s₃) = clock_now-eq-ok env w₂ h₃ in
      let (b₄, s₄) = raise_if-eq-ok _ _ w₃ h₄ in
      let (row', there', live, d₄) = SessionLaws.revoke_by_id-eq-ok env id now w₄ g₄ in
      let tables : w₄.db ≡ w.db = ap (λ x. x.db) s₄ ∙ ap (λ x. x.db) s₃ ∙ ap (λ x. x.db) s₂ ∙ d₁ in
      let same : row' ≡ row =
        one_row id w.db.sessions (ap (λ db. lookup id db.sessions) (sym tables) ∙ there') there in
      (
        row,
        w₂.calls,
        there,
        ground (arith, text_eq_iff session.user_id user_id),
        ground arith,
        ground arith,
        d₄
            ∙ ap (after now row') tables
            ∙ ap (λ r. after now r w.db) same
            ∙ ap (λ t. after t row w.db) (t₃ ∙ refl),
      )
  where
    after : ℕ → SessionRow → Database → Database
    after t r db = record db { sessions = insert id (revoked t r) db.sessions }
