-- ===== src/App/Identity/Spent.antt =====
-- internal/app/identity/post_mvp.go: after a reset of a password.
use moneo_backend.Common.{ℕ, ◌≡◌, ◌≢◌, refl, sym, ◌∙◌, ap, Text, some, ok, arith}
use mathlib.Core.Path.{subst}
use moneo_backend.Domain.Errors.{Error}
use moneo_backend.Domain.Identity.{User, Session, OneTimeToken, OneTimeTokenPurpose}
use moneo_backend.Infra.Table.{lookup, one_row}
use moneo_backend.Infra.Table.Unique.{IsUnique, find_row-eq-some}
use moneo_backend.Infra.Database.{
  SessionRow, OneTimeTokenRow, Database, Env, World, >>-elim, >>=-elim, raise_if-eq-ok, lift-eq-ok,
}
use moneo_backend.Infra.Database.Commits.{within_tx-eq-ok}
use moneo_backend.Infra.Database.Histories.{Moves}
use moneo_backend.App.Identity.Access.{quiet_run}
use moneo_backend.Infra.OneTimeTokenRepository.{is_usable, is_active_with, used}
use moneo_backend.App.Identity.{authenticate}
use moneo_backend.App.Identity.Interfaces.{TokenIssuer, IsClock}
use moneo_backend.App.Identity.PostMvp.{
  ResetPasswordInput, find_active_one_time_token, reset_password, reset_in_tx,
}
use moneo_backend.App.Identity.Later.{Later, Stay, Later-IsAuthHistory}
use moneo_backend.App.Identity.WellFormed.{IsWellFormed, Preserves-IsAuthHistory}
use moneo_backend.App.Identity.Sequences.{AreServices, requests-Moves, answer-Moves}
use moneo_backend.App.Identity.Requests.{Services, Requests, answer, resets_password}
use moneo_backend.App.Identity.Lockout.{AreOver, never_again}
use moneo_backend.App.Identity.OneTime.{
  find_active_one_time_token-eq-ok, active-has_hash, reset_password-IsReset,
}

-- Any sequence of requests for users, sessions and one-time tokens, whatever each answers, keeps
-- the tables well-formed: ids, normalized emails, hashes of sessions that are not revoked and
-- hashes of one-time tokens stand once, and owners are there. The interfaces keep their laws.
pub Requests-IsWellFormed :
    (env : Env) (s : Services) (u v : World)
    → AreServices s
    → Requests env s u v
    → IsWellFormed u.db
    → IsWellFormed v.db
Requests-IsWellFormed env s u v laws q = (requests-Moves Preserves-IsAuthHistory env s laws q).kept

-- On well-formed tables, of the sessions of the user for whom the token is stored, none that stands
-- after a successful ResetPassword lets anybody in again, after any further requests of anybody,
-- for interfaces that keep their laws and a clock that does not go back.
pub reset_password-locks_out :
    (env : Env) (s : Services) (input : ResetPasswordInput) (other_token hash token_id id : Text)
    (token : OneTimeTokenRow) (row : SessionRow) (w w₁ w₂ w₃ : World) (user : User)
    (session : Session)
    → AreServices s
    → IsClock env
    → IsWellFormed w.db
    → s.tokens.hash_one_time_token input.token ≡ ok hash
    → lookup token_id w.db.one_time_tokens ≡ some token
    → token.token_hash ≡ hash
    → reset_password env s.platform s.hasher s.tokens s.notifiers s.config input w ≡ (ok tt, w₁)
    → lookup id w₁.db.sessions ≡ some row
    → row.user_id ≡ token.user_id
    → Requests env s w₁ w₂
    → authenticate env s.tokens other_token w₂ ≡ (ok (user, session), w₃)
    → session.id ≢ id
unfolding AreOver IsUnique
reset_password-locks_out env s input other_token hash token_id id token row w w₁ w₂ w₃ user session
      laws clock formed k stood has h there own q g =
    let (hash', password_hash, k', v, r) =
      reset_password-IsReset env s input w w₁ laws clock formed h in
    let same_hash : hash' ≡ hash = ground arith in
    let same_id : token_id ≡ r.id =
      formed.token_hashes token_id r.id token r.token stood r.stood refl refl
        (has ∙ sym same_hash ∙ sym r.had_hash) in
    let same : token ≡ r.token =
      one_row r.id w.db.one_time_tokens
        (ap (λ i. lookup i w.db.one_time_tokens) (sym same_id) ∙ stood) r.stood in
    never_again env s other_token r.at w₁ w₂ laws clock r.in_time q g id row there
      (r.over id row there (own ∙ ap (λ t. t.user_id) same))

-- A token with this hash that is used.
pub record IsSpent (hash : Text) (db : Database) : Type 0 where
  pub id : Text
  pub token : OneTimeTokenRow
  pub at : ℕ
  pub stands : lookup id db.one_time_tokens ≡ some token
  pub has_hash : token.token_hash ≡ hash
  pub is_used : token.used_at ≡ some at

IsSpent-Later : (hash : Text) (u v : World) → Later u v → IsSpent hash u.db → IsSpent hash v.db
unfolding Stay
IsSpent-Later hash u v l p =
    let (token, there, stays) = l.tokens p.id p.token p.stands in
    record {
      id = p.id;
      token = token;
      at = p.at;
      stands = there;
      has_hash = stays.same_hash ∙ p.has_hash;
      is_used = stays.used_still p.at p.is_used;
    }

-- A token that is used is not found again, for any purpose.
spent_not_found :
    (env : Env) (tokens : TokenIssuer) (purpose : OneTimeTokenPurpose) (raw hash : Text) (e : Error)
    (w : World) {t : OneTimeToken} {u : World}
    → IsWellFormed w.db
    → tokens.hash_one_time_token raw ≡ ok hash
    → IsSpent hash w.db
    → find_active_one_time_token env tokens purpose raw e w ≢ (ok t, u)
unfolding IsUnique is_usable
spent_not_found env tokens purpose raw hash e w {t = t} formed k p h =
    let (found_hash, row, n, q, found, o, d, c) =
      find_active_one_time_token-eq-ok env tokens purpose raw e w h in
    let (active, stands) =
      find_row-eq-some (is_active_with purpose found_hash n) t.id w.db.one_time_tokens
        formed.token_keys found in
    let (has, usable) = active-has_hash purpose found_hash n row active in
    let same_hash : found_hash ≡ hash = ground arith in
    let same_id : t.id ≡ p.id =
      formed.token_hashes t.id p.id row p.token stands p.stands refl refl
        (has ∙ same_hash ∙ sym p.has_hash) in
    let same : row ≡ p.token =
      one_row p.id w.db.one_time_tokens
        (ap (λ i. lookup i w.db.one_time_tokens) (sym same_id) ∙ stands) p.stands in
    let was : row.used_at ≡ some p.at = ap (λ r. r.used_at) same ∙ p.is_used in ground arith

-- A search of the token in a transaction on these tables that succeeds.
record Finds (env : Env) (tokens : TokenIssuer) (raw : Text) (w : World) : Type 0 where
  v : World
  v' : World
  purpose : OneTimeTokenPurpose
  refused : Error
  t : OneTimeToken
  same_tables : v.db ≡ w.db
  found : find_active_one_time_token env tokens purpose raw refused v ≡ (ok t, v')

reset_in_tx-Finds :
    (env : Env) (tokens : TokenIssuer) (raw password_hash : Text) (w v : World) {u : World}
    → v.db ≡ w.db
    → reset_in_tx env tokens raw password_hash v ≡ (ok tt, u)
    → Finds env tokens raw w
unfolding reset_in_tx
reset_in_tx-Finds env tokens raw password_hash w v d h = >>=-elim _ _ _ h λ t v' h₁ g₁. record {
  v = v;
  v' = v';
  purpose = _;
  refused = _;
  t = t;
  same_tables = d;
  found = h₁;
}

reset_password-Finds :
    (env : Env) (s : Services) (input : ResetPasswordInput) (w : World) {u : World}
    → AreServices s
    → reset_password env s.platform s.hasher s.tokens s.notifiers s.config input w ≡ (ok tt, u)
    → Finds env s.tokens input.token w
unfolding reset_password
reset_password-Finds env s input w laws h = >>-elim _ _ _ h λ w₁ h₁ g₁. >>-elim _ _ _ g₁ λ w₂ h₂ g₂.
    >>-elim _ _ _ g₂ λ w₃ h₃ g₃. >>=-elim _ _ _ g₃ λ password_hash w₄ h₄ g₄.
      let (b₁, s₁) = raise_if-eq-ok _ _ w h₁ in
      let (b₂, s₂) = lift-eq-ok _ w₁ h₂ in
      let (b₃, s₃) = raise_if-eq-ok _ _ w₂ h₃ in
      let (d₄, c₄) = quiet_run _ w₃ (laws.hasher.hash-IsQuiet input.password) h₄ in
      let (v, v', d, c, e, d', c') = within_tx-eq-ok env _ w₄ g₄ in
      reset_in_tx-Finds env s.tokens input.token password_hash w v
        (d ∙ d₄ ∙ ap (λ x. x.db) (s₃ ∙ s₂ ∙ s₁)) e

Finds-not-IsSpent :
    (env : Env) (tokens : TokenIssuer) (raw hash : Text) (w : World)
    → IsWellFormed w.db
    → tokens.hash_one_time_token raw ≡ ok hash
    → Finds env tokens raw w
    → ¬ IsSpent hash w.db
Finds-not-IsSpent env tokens raw hash w formed k f p =
    spent_not_found env tokens f.purpose raw hash f.refused f.v
      (subst IsWellFormed (sym f.same_tables) formed) k (subst (IsSpent hash) (sym f.same_tables) p)
      f.found

-- On well-formed tables a token resets a password once: after a ResetPassword that succeeds and any
-- further requests of anybody, none with the same token succeeds, for interfaces that keep their
-- laws and a clock that does not go back.
pub reset_password-only_once :
    (env : Env) (s : Services) (input again : ResetPasswordInput) (w w₁ w₂ w₃ : World)
    → AreServices s
    → IsClock env
    → IsWellFormed w.db
    → again.token ≡ input.token
    → reset_password env s.platform s.hasher s.tokens s.notifiers s.config input w ≡ (ok tt, w₁)
    → Requests env s w₁ w₂
    → reset_password env s.platform s.hasher s.tokens s.notifiers s.config again w₂ ≢ (ok tt, w₃)
unfolding Moves used answer
reset_password-only_once env s input again w w₁ w₂ w₃ laws clock formed same h q g =
    let (hash, password_hash, k, v, r) =
      reset_password-IsReset env s input w w₁ laws clock formed h in
    let kept = answer-Moves Preserves-IsAuthHistory env s laws (resets_password input) w in
    let formed₁ : IsWellFormed w₁.db =
      subst (λ x. IsWellFormed x.db) (λ i. (h i).1) (kept.kept formed) in
    let formed₂ = Requests-IsWellFormed env s w₁ w₂ laws q formed₁ in
    let spent : IsSpent hash w₁.db = record {
      id = r.id;
      token = used r.at r.token;
      at = r.at;
      stands = r.is_used;
      has_hash = r.had_hash;
      is_used = refl;
    } in
    Finds-not-IsSpent env s.tokens input.token hash w₂ formed₂ k
      (subst (λ raw. Finds env s.tokens raw w₂) same (reset_password-Finds env s again w₂ laws g))
      (IsSpent-Later hash w₁ w₂ (requests-Moves Later-IsAuthHistory env s laws q) spent)
