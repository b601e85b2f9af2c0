-- ===== src/App/Identity/Lockout.antt =====
-- What becomes of the sessions that a logout everywhere, or the reset of a password, has ended.
use moneo_backend.Common.{
  ℕ, ◌≤◌, ◌≡◌, ◌≢◌, refl, sym, ◌∙◌, ap, false, ◌&&◌, Text, text_eq, text_eq_iff, some, ok, arith,
  Bool-cases, Option-cases, inl, inr,
}
use mathlib.Core.Path.{subst}
use moneo_backend.Domain.Identity.{User, Session}
use moneo_backend.Infra.Table.{lookup, map_rows, lookup-map_rows, one_row}
use moneo_backend.Infra.Database.{SessionRow, Database, Env, World, >>=-elim, map_error-eq-ok}
use moneo_backend.Infra.Database.Histories.{Moves-run}
use moneo_backend.Infra.SessionRepository.{
  is_live, is_not_revoked, revoked, revoked_if_live, revoke_all_by_user_id,
}
use moneo_backend.Infra.SessionRepository.Laws.{revoke_all_by_user_id-eq-ok}
use moneo_backend.App.Identity.{logout_all, authenticate}
use moneo_backend.App.Identity.Interfaces.{IsClock}
use moneo_backend.App.Identity.Moves.{revoke_all-Moves}
use moneo_backend.App.Identity.Later.{Later, SessionStays, Stay, Later-IsAuthHistory}
use moneo_backend.App.Identity.Sequences.{AreServices, requests-Moves}
use moneo_backend.App.Identity.Requests.{Services, Requests}
use moneo_backend.App.Identity.Access.{authenticate_live, clock_now-eq-ok}

-- Every session of the user that is there has ended by the given time.
unfoldable pub AreOver : ℕ → Text → Database → Type 0
AreOver at user_id db =
    (id : Text) (row : SessionRow)
    → lookup id db.sessions ≡ some row
    → row.user_id ≡ user_id
    → is_live at row ≡ false

revoked_if_live-over :
    (user_id : Text) (at : ℕ) (row : SessionRow)
    → (revoked_if_live user_id at row).user_id ≡ user_id
    → is_live at (revoked_if_live user_id at row) ≡ false
unfolding revoked_if_live revoked is_live is_not_revoked
revoked_if_live-over user_id at row h =
    elim (Bool-cases (text_eq row.user_id user_id && is_live at row)) [
      | inl live ↦ simp live refl
      | inr other ↦ ground (arith, text_eq_iff row.user_id user_id)
    ]

pub revoke_all-AreOver :
    (env : Env) (user_id : Text) (at : ℕ) (w : World) {a : Unit {0}} {u : World}
    → revoke_all_by_user_id env user_id at w ≡ (ok a, u)
    → AreOver at user_id u.db
unfolding AreOver
revoke_all-AreOver env user_id at w {u = u} h id row there own =
    let d = revoke_all_by_user_id-eq-ok env user_id at w h in
    let found : lookup id (map_rows (revoked_if_live user_id at) w.db.sessions) ≡ some row =
      subst (λ db. lookup id db.sessions ≡ some row) d there in
    elim (Option-cases (lookup id w.db.sessions)) [
      | inl gone ↦
          absurd (ground (arith, lookup-map_rows (revoked_if_live user_id at) id w.db.sessions))
      | inr (old, stood) ↦
          let e : revoked_if_live user_id at old ≡ row =
            ground (arith, lookup-map_rows (revoked_if_live user_id at) id w.db.sessions) in
          subst (λ r. is_live at r ≡ false) e
            (revoked_if_live-over user_id at old (ap (λ r. r.user_id) e ∙ own))
    ]

-- A session that has ended does not live again.
pub over_still :
    (at n : ℕ) (old new : SessionRow)
    → SessionStays old new
    → at ≤ n
    → is_live at old ≡ false
    → is_live n new ≡ false
unfolding is_live is_not_revoked
over_still at n old new s l o = elim (Option-cases old.revoked_at) [
  | inl unended ↦ ground (arith, s.same_expiry)
  | inr (t, ended) ↦ ground (arith, s.revoked_still t ended)
]

-- Whoever is let in after any further requests is let in for no session that had ended.
pub never_again :
    (env : Env) (s : Services) (token : Text) (at : ℕ) (w₁ w₂ : World) {user : User}
    {session : Session} {w₃ : World}
    → AreServices s
    → IsClock env
    → at ≤ env.now w₁.calls
    → Requests env s w₁ w₂
    → authenticate env s.tokens token w₂ ≡ (ok (user, session), w₃)
    → (id : Text) (row : SessionRow) → lookup id w₁.db.sessions ≡ some row
    → is_live at row ≡ false
    → session.id ≢ id
unfolding IsClock Stay
never_again env s token at w₁ w₂ {session = session} laws clock l q h id row there over e =
    let later = requests-Moves Later-IsAuthHistory env s laws q in
    let (owner, now_row, n, v, o, stands, own, live, c, d) =
      authenticate_live env s.tokens token w₂ laws.tokens h in
    let (new, found, stays) = later.sessions id row there in
    let same : now_row ≡ new =
      one_row id w₂.db.sessions (ap (λ j. lookup j w₂.db.sessions) (sym e) ∙ stands) found in
    let before : env.now w₁.calls ≤ env.now n =
      clock w₁.calls n (omega (arith, later.in_time, c)) in
    let dead = over_still at (env.now n) row new stays (omega (arith, l, before)) over in
    ground arith

-- Of the sessions of the user of the token, none that stands after a successful LogoutAll lets
-- anybody in again, after any further requests of anybody, for interfaces that keep their laws and
-- a clock that does not go back.
pub logout_all-locks_out :
    (env : Env) (s : Services) (token other_token user_id session_id id : Text) (row : SessionRow)
    (w w₁ w₂ w₃ : World) (user : User) (session : Session)
    → AreServices s
    → IsClock env
    → (s.tokens.verify_access_token_identity token w).0 ≡ ok (user_id, session_id)
    → logout_all env s.tokens token w ≡ (ok tt, w₁)
    → lookup id w₁.db.sessions ≡ some row
    → row.user_id ≡ user_id
    → Requests env s w₁ w₂
    → authenticate env s.tokens other_token w₂ ≡ (ok (user, session), w₃)
    → session.id ≢ id
unfolding logout_all IsClock AreOver
logout_all-locks_out env s token other_token user_id session_id id row w w₁ w₂ w₃ user session laws
      clock v h there own q g =
    >>=-elim _ _ _ h λ (verified_user, verified_session) u₁ h₁ g₁. >>=-elim _ _ _ g₁ λ now u₂ h₂ g₂.
      let e = map_error-eq-ok _ (s.tokens.verify_access_token_identity token) w h₁ in
      let same : verified_user ≡ user_id = ground arith in
      let (t, ticked) = clock_now-eq-ok env u₁ h₂ in
      let later =
        Moves-run Later _ u₂ (revoke_all-Moves Later-IsAuthHistory env verified_user now) g₂ in
      let over = revoke_all-AreOver env verified_user now u₂ g₂ id row there (own ∙ sym same) in
      let c = later.in_time in
      let l : env.now u₁.calls ≤ env.now w₁.calls = clock u₁.calls w₁.calls (ground arith) in
      never_again env s other_token now w₁ w₂ laws clock (ground arith) q g id row there over
