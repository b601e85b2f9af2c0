-- ===== src/App/Identity/OneTime.antt =====
-- internal/app/identity/post_mvp.go: what a reset of a password and a verification of an email have
-- done when they succeed, and that a token serves once.
use moneo_backend.Common.{ℕ, ◌≤◌, ◌≡◌, sym, ◌∙◌, ap, true, Text, text_eq_iff, List, some, ok, arith}
use mathlib.Core.Path.{subst}
use moneo_backend.Domain.Errors.{Error}
use moneo_backend.Domain.Identity.{OneTimeToken, OneTimeTokenPurpose, password_reset}
use moneo_backend.Infra.Table.{lookup, insert, find_row, lookup-insert, one_row, HasKeys}
use moneo_backend.Infra.Table.Unique.{find_row-eq-some}
use moneo_backend.Infra.Database.{
  UserRow, OneTimeTokenRow, Env, World, lift, >>=-elim, >>-elim, map_error-eq-ok, lift-eq-ok,
  raise_if-eq-ok,
}
use moneo_backend.Infra.Database.Histories.{Moves-run}
use moneo_backend.Infra.Database.Commits.{within_tx-eq-ok}
use moneo_backend.Infra.UserRepository
use moneo_backend.Infra.UserRepository.{with_password}
use moneo_backend.Infra.UserRepository.Laws.{update_password-eq-ok}
use moneo_backend.Infra.SessionRepository.Laws.{revoke_all_by_user_id-eq-ok}
use moneo_backend.Infra.OneTimeTokenRepository
use moneo_backend.Infra.OneTimeTokenRepository.{is_usable, has_hash, is_active_with, used}
use moneo_backend.Infra.OneTimeTokenRepository.Laws.{find_active_by_hash-eq-ok, mark_used-eq-ok}
use moneo_backend.App.Identity.Interfaces.{TokenIssuer, IsClock}
use moneo_backend.App.Identity.PostMvp.{
  find_active_one_time_token, reset_in_tx, reset_password, ResetPasswordInput,
}
use moneo_backend.App.Identity.Moves.{
  revoke_all-Moves, update_password-Moves, mark_used-Moves, token_by_hash-Moves,
}
use moneo_backend.App.Identity.Later.{Later, Later-IsAuthHistory}
use moneo_backend.App.Identity.WellFormed.{IsWellFormed}
use moneo_backend.App.Identity.Sequences.{AreServices}
use moneo_backend.App.Identity.Requests.{Services}
use moneo_backend.App.Identity.Access.{clock_now-eq-ok, quiet_run}
use moneo_backend.App.Identity.Lockout.{AreOver, revoke_all-AreOver}

-- The token that is found is stored, for its purpose, and can be used at the time of the search.
pub find_active_one_time_token-eq-ok :
    (env : Env) (tokens : TokenIssuer) (purpose : OneTimeTokenPurpose) (raw : Text) (e : Error)
    (w : World) {t : OneTimeToken} {u : World}
    → find_active_one_time_token env tokens purpose raw e w ≡ (ok t, u)
    → (hash : Text) × (row : OneTimeTokenRow) × (n : ℕ) × (tokens.hash_one_time_token raw ≡ ok hash)
      × (find_row (is_active_with purpose hash n) w.db.one_time_tokens ≡ some (t.id, row))
      × (t.user_id ≡ row.user_id)
      × (u.db ≡ w.db)
      × (w.calls ≤ u.calls)
unfolding find_active_one_time_token
find_active_one_time_token-eq-ok env tokens purpose raw e w {t = t} h =
    >>=-elim _ _ _ h λ hash u₁ h₁ g₁. >>=-elim _ _ _ g₁ λ now u₂ h₂ g₂.
      let (q, s₁) =
        lift-eq-ok _ w (map_error-eq-ok _ (lift (tokens.hash_one_time_token raw)) w h₁) in
      let (c, s₂) = clock_now-eq-ok env u₁ h₂ in
      let f =
        map_error-eq-ok _ (OneTimeTokenRepository.find_active_by_hash env purpose hash now) u₂ g₂ in
      let (id, row, found, i, o, d) = find_active_by_hash-eq-ok env purpose hash now u₂ f in
      let l =
        (Moves-run Later _ u₂ (token_by_hash-Moves Later-IsAuthHistory env purpose hash now)
          f).in_time in
      let tables : u₂.db ≡ w.db = ap (λ x. x.db) s₂ ∙ ap (λ x. x.db) s₁ in
      (
        hash,
        row,
        now,
        q,
        ap (λ db. find_row (is_active_with purpose hash now) db.one_time_tokens) (sym tables)
            ∙ found
            ∙ ap (λ j. some (j, row)) (sym i),
        o,
        d ∙ tables,
        omega (arith, l, ap (λ x. x.calls) s₂, ap (λ x. x.calls) s₁),
      )

-- What a reset with the hash of a token and the hash of a new password has done.
pub record IsReset (env : Env) (hash password_hash : Text) (before after : World) : Type 0 where
  pub id : Text
  pub token : OneTimeTokenRow
  pub user : UserRow
  pub at : ℕ
  pub stood : lookup id before.db.one_time_tokens ≡ some token
  pub was_usable : is_usable at token ≡ true
  pub had_hash : token.token_hash ≡ hash
  pub is_used : lookup id after.db.one_time_tokens ≡ some (used at token)
  pub was_user : lookup token.user_id before.db.users ≡ some user
  pub has_password :
      lookup token.user_id after.db.users ≡ some (with_password password_hash at user)
  pub over : AreOver at token.user_id after.db
  pub in_time : at ≤ env.now after.calls

pub active-has_hash :
    (purpose : OneTimeTokenPurpose) (hash : Text) (n : ℕ) (row : OneTimeTokenRow)
    → is_active_with purpose hash n row ≡ true
    → (row.token_hash ≡ hash) × (is_usable n row ≡ true)
unfolding is_active_with has_hash
active-has_hash purpose hash n row h = ground (arith, text_eq_iff row.token_hash hash)

insert_self :
    {R : Type 0} (id : Text) (r : R) (rows : List (Text × R))
    → lookup id (insert id r rows) ≡ some r
insert_self id r rows = ground (arith, lookup-insert id id r rows, text_eq_iff id id)

reset_in_tx-IsReset :
    (env : Env) (tokens : TokenIssuer) (raw password_hash : Text) (w : World) {u : World}
    → IsClock env
    → HasKeys w.db.one_time_tokens
    → reset_in_tx env tokens raw password_hash w ≡ (ok tt, u)
    → (hash : Text) × (tokens.hash_one_time_token raw ≡ ok hash)
      × IsReset env hash password_hash w u
unfolding reset_in_tx IsClock AreOver
reset_in_tx-IsReset env tokens raw password_hash w {u} clock keys h = >>=-elim _ _ _ h λ t w₁ h₁ g₁.
    >>=-elim _ _ _ g₁ λ now w₂ h₂ g₂. >>-elim _ _ _ g₂ λ w₃ h₃ g₃. >>-elim _ _ _ g₃ λ w₄ h₄ g₄.
      let (hash, row, n, q, found, owner, d₁, c₁) =
        find_active_one_time_token-eq-ok env tokens _ raw _ w h₁ in
      let (t₂, s₂) = clock_now-eq-ok env w₁ h₂ in
      let f₃ =
        map_error-eq-ok _ (UserRepository.update_password env t.user_id password_hash now) w₂ h₃ in
      let l₃ =
        (Moves-run Later _ w₂
          (update_password-Moves Later-IsAuthHistory env t.user_id password_hash now) f₃).in_time in
      let (user, stood, d₃) = update_password-eq-ok env t.user_id password_hash now w₂ f₃ in
      let over = revoke_all-AreOver env t.user_id now w₃ h₄ in
      let l₄ =
        (Moves-run Later _ w₃ (revoke_all-Moves Later-IsAuthHistory env t.user_id now)
          h₄).in_time in
      let d₄ = revoke_all_by_user_id-eq-ok env t.user_id now w₃ h₄ in
      let f₅ = map_error-eq-ok _ (OneTimeTokenRepository.mark_used env t.id now) w₄ g₄ in
      let l₅ =
        (Moves-run Later _ w₄ (mark_used-Moves Later-IsAuthHistory env t.id now) f₅).in_time in
      let (token, there, usable, d₅) = mark_used-eq-ok env t.id now w₄ f₅ in
      let (active, first) =
        find_row-eq-some (is_active_with password_reset hash n) t.id w.db.one_time_tokens keys
          found in
      let tables : w₂.db ≡ w.db = ap (λ x. x.db) s₂ ∙ d₁ in
      let tokens_stay : w₄.db.one_time_tokens ≡ w.db.one_time_tokens =
        ap (λ db. db.one_time_tokens) d₄
        ∙ ap (λ db. db.one_time_tokens) d₃
        ∙ ap (λ db. db.one_time_tokens) tables in
      let stands : lookup t.id w.db.one_time_tokens ≡ some token =
        ap (lookup t.id) (sym tokens_stay) ∙ there in
      let same : row ≡ token = one_row t.id w.db.one_time_tokens first stands in
      let owns : t.user_id ≡ token.user_id = owner ∙ ap (λ r. r.user_id) same in
      let (has, _usable) = active-has_hash password_reset hash n row active in
      let passed : env.now w₁.calls ≤ env.now u.calls =
        clock w₁.calls u.calls (omega (arith, ap (λ x. x.calls) s₂, l₃, l₄, l₅)) in
      let users_stay : u.db.users
          ≡ insert t.user_id (with_password password_hash now user) w₂.db.users =
        ap (λ db. db.users) d₅ ∙ ap (λ db. db.users) d₄ ∙ ap (λ db. db.users) d₃ in
      (
        hash,
        q,
        record {
          id = t.id;
          token = token;
          user = user;
          at = now;
          stood = stands;
          was_usable = usable;
          had_hash = ap (λ r. r.token_hash) (sym same) ∙ has;
          is_used =
              ap (λ db. lookup t.id db.one_time_tokens) d₅ ∙ insert_self t.id (used now token) _;
          was_user =
              ap (λ i. lookup i w.db.users) (sym owns)
              ∙ ap (λ db. lookup t.user_id db.users) (sym tables)
              ∙ stood;
          has_password =
              ap (λ i. lookup i u.db.users) (sym owns)
              ∙ ap (lookup t.user_id) users_stay
              ∙ insert_self t.user_id (with_password password_hash now user) w₂.db.users;
          over =
              subst (AreOver now token.user_id) (sym d₅)
                (subst (λ i. AreOver now i w₄.db) owns over);
          in_time = omega (arith, t₂, passed);
        },
      )

-- A ResetPassword that succeeds, on well-formed tables, has found the token stored and usable, has
-- marked it used, has given its user a hash of the new password, and has ended all of the sessions
-- of the user, for interfaces that keep their laws and a clock that does not go back.
pub reset_password-IsReset :
    (env : Env) (s : Services) (input : ResetPasswordInput) (w u : World)
    → AreServices s
    → IsClock env
    → IsWellFormed w.db
    → reset_password env s.platform s.hasher s.tokens s.notifiers s.config input w ≡ (ok tt, u)
    → (hash password_hash : Text) × (s.tokens.hash_one_time_token input.token ≡ ok hash)
      × (s.hasher.verify input.password password_hash ≡ ok true)
      × IsReset env hash password_hash w u
unfolding reset_password IsClock AreOver
reset_password-IsReset env s input w u laws clock formed h = >>-elim _ _ _ h λ w₁ h₁ g₁.
    >>-elim _ _ _ g₁ λ w₂ h₂ g₂. >>-elim _ _ _ g₂ λ w₃ h₃ g₃.
      >>=-elim _ _ _ g₃ λ password_hash w₄ h₄ g₄.
        let (b₁, s₁) = raise_if-eq-ok _ _ w h₁ in
        let (b₂, s₂) = lift-eq-ok _ w₁ h₂ in
        let (b₃, s₃) = raise_if-eq-ok _ _ w₂ h₃ in
        let (d₄, c₄) = quiet_run _ w₃ (laws.hasher.hash-IsQuiet input.password) h₄ in
        let tables : w₄.db ≡ w.db = d₄ ∙ ap (λ x. x.db) (s₃ ∙ s₂ ∙ s₁) in
        let (v, v', d, c, e, d', c') = within_tx-eq-ok env _ w₄ g₄ in
        let (hash, q, r) =
          reset_in_tx-IsReset env s.tokens input.token password_hash v clock
            (subst (λ db. HasKeys db.one_time_tokens) (sym (d ∙ tables)) formed.token_keys) e in
        (
          hash,
          password_hash,
          q,
          laws.hasher.verify-hash input.password password_hash w₃ w₄ h₄,
          moved hash password_hash (d ∙ tables) d' c' r,
        )
  where
    moved :
        (hash password_hash : Text) {v v' : World}
        → v.db ≡ w.db
        → u.db ≡ v'.db
        → v'.calls ≤ u.calls
        → IsReset env hash password_hash v v'
        → IsReset env hash password_hash w u
    moved hash password_hash {v} {v'} d d' c r = record {
      id = r.id;
      token = r.token;
      user = r.user;
      at = r.at;
      stood = ap (λ db. lookup r.id db.one_time_tokens) (sym d) ∙ r.stood;
      was_usable = r.was_usable;
      had_hash = r.had_hash;
      is_used = ap (λ db. lookup r.id db.one_time_tokens) d' ∙ r.is_used;
      was_user = ap (λ db. lookup r.token.user_id db.users) (sym d) ∙ r.was_user;
      has_password = ap (λ db. lookup r.token.user_id db.users) d' ∙ r.has_password;
      over = subst (AreOver r.at r.token.user_id) (sym d') r.over;
      in_time = omega (arith, r.in_time, clock v'.calls u.calls c);
    }
