-- ===== src/App/Identity/Access.antt =====
-- internal/app/identity/access_auth.go and the use of refresh tokens: who gets in.
use moneo_backend.Common.{ℕ, ◌≤◌, ◌≡◌, true, Text, text_eq_iff, some, ok, arith}
use moneo_backend.Domain.Identity.{User, Session}
use moneo_backend.Infra.Table.{lookup}
use moneo_backend.Infra.Database.{
  UserRow, SessionRow, Env, World, Action, tick, clock_now, >>=-elim, >>-elim, map_error-eq-ok,
  raise_if-eq-ok,
}
use moneo_backend.Infra.Database.Histories.{Moves-run}
use moneo_backend.Infra.UserRepository
use moneo_backend.Infra.UserRepository.Laws as UserLaws
use moneo_backend.Infra.SessionRepository
use moneo_backend.Infra.SessionRepository.{is_live, is_not_revoked, session_of}
use moneo_backend.Infra.SessionRepository.Laws as SessionLaws
use moneo_backend.App.Identity.{authenticate, is_revoked}
use moneo_backend.App.Identity.Interfaces.{TokenIssuer, IsTokenIssuer, IsQuiet}
use moneo_backend.App.Identity.Moves.{user_by_id-Moves, session_by_id-Moves}
use moneo_backend.App.Identity.Later.{Later, Later-IsAuthHistory}

-- a reading of the clock
pub clock_now-eq-ok :
    (env : Env) (w : World) {n : ℕ} {u : World}
    → clock_now env w ≡ (ok n, u)
    → (n ≡ env.now w.calls) × (u ≡ tick w)
unfolding clock_now
clock_now-eq-ok env w h = ground arith

pub quiet_run :
    {A : Type 0} (m : Action A) (w : World) {a : A} {u : World}
    → IsQuiet m
    → m w ≡ (ok a, u)
    → (u.db ≡ w.db) × (w.calls ≤ u.calls)
unfolding IsQuiet
quiet_run m w {u = u} q h =
    let ((d, t), c) = q w in let e : (m w).1 ≡ u = λ i. (h i).1 in ground arith

-- Whoever an access token lets in, it was verified for this user and this session, which are there;
-- the session is the user's, not revoked and, at a time not before the request, not expired; and no
-- table changes. The issuer of tokens keeps its laws.
pub authenticate_live :
    (env : Env) (tokens : TokenIssuer) (token : Text) (w : World) {user : User} {session : Session}
    {u : World}
    → IsTokenIssuer tokens
    → authenticate env tokens token w ≡ (ok (user, session), u)
    → (owner : UserRow) × (row : SessionRow) × (n : ℕ) × ((tokens.verify_access_token_identity token
          w).0
        ≡ ok (user.id, session.id))
      × (lookup user.id w.db.users ≡ some owner)
      × (lookup session.id w.db.sessions ≡ some row)
      × (row.user_id ≡ user.id)
      × (is_live (env.now n) row ≡ true)
      × (w.calls ≤ n)
      × (u.db ≡ w.db)
unfolding authenticate is_revoked session_of UserRepository.user_of is_live is_not_revoked
authenticate_live env tokens token w {user = user'} {session = session'} laws h =
    >>=-elim _ _ _ h λ (user_id, session_id) w₁ h₁ g₁. >>=-elim _ _ _ g₁ λ user w₂ h₂ g₂.
      >>=-elim _ _ _ g₂ λ session w₃ h₃ g₃. >>-elim _ _ _ g₃ λ w₄ h₄ g₄.
        >>-elim _ _ _ g₄ λ w₅ h₅ g₅. >>=-elim _ _ _ g₅ λ now w₆ h₆ g₆. >>-elim _ _ _ g₆ λ w₇ h₇ g₇.
          let v = map_error-eq-ok _ (tokens.verify_access_token_identity token) w h₁ in
          let (d₁, c₁) = quiet_run _ w (laws.verify_access_token_identity-IsQuiet token) v in
          let f₂ = map_error-eq-ok _ (UserRepository.find_by_id env user_id) w₁ h₂ in
          let (owner, owns, us, d₂) = UserLaws.find_by_id-eq-ok env user_id w₁ f₂ in
          let l₂ = Moves-run Later _ w₁ (user_by_id-Moves Later-IsAuthHistory env user_id) f₂ in
          let f₃ = map_error-eq-ok _ (SessionRepository.find_by_id env session_id) w₂ h₃ in
          let (row, stands, ss, d₃) = SessionLaws.find_by_id-eq-ok env session_id w₂ f₃ in
          let l₃ =
            Moves-run Later _ w₂ (session_by_id-Moves Later-IsAuthHistory env session_id) f₃ in
          let (o₄, e₄) = raise_if-eq-ok _ _ w₃ h₄ in
          let (r₅, e₅) = raise_if-eq-ok _ _ w₄ h₅ in
          let (t₆, e₆) = clock_now-eq-ok env w₅ h₆ in
          let (x₇, e₇) = raise_if-eq-ok _ _ w₆ h₇ in
          let a₂ = l₂.in_time in
          let a₃ = l₃.in_time in
          let user_is : UserRepository.user_of user_id owner ≡ user' = ground arith in
          let session_is : session_of session_id row ≡ session' = ground arith in
          (
            owner,
            row,
            w₅.calls,
            ground arith,
            ground arith,
            ground arith,
            ground (arith, text_eq_iff session.user_id user.id),
            ground arith,
            ground arith,
            ground arith,
          )
