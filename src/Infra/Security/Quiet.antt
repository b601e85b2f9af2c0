-- ===== src/Infra/Security/Quiet.antt =====
-- internal/infra/security/token_service.go keeps the laws of the interface that
-- internal/app/identity takes.
use moneo_backend.Common.{ℕ, ◌≤◌, refl, Text, Bool, arith}
use moneo_backend.Domain.Errors.{Error}
use moneo_backend.Infra.Database.{Env, World, Action, ◌>>◌, raise_if}
use moneo_backend.Infra.Database.Clean.{Reads, >>=-Reads, pure-Reads, lift-Reads, clock_now-Reads}
use moneo_backend.Infra.Database.Histories.{
  IsHistory, Moves, >>=-Moves, >>-Moves, pure-Moves, lift-Moves, clock_now-Moves, raise_if-Moves,
}
use moneo_backend.App.Identity.Interfaces.{IsQuiet, IsTokenIssuer}
use moneo_backend.Infra.Security.{
  GoLibrary, TokenServiceConfig, issue_access_token, verify_access_token,
  verify_access_token_identity, read_random, issue_random, issue_refresh_token,
  issue_one_time_token, token_issuer,
}

-- Calls are counted upwards.
Counts : World → World → Type 0
Counts u v = u.calls ≤ v.calls

counts : IsHistory Counts
unfolding Counts
counts = record {
  same_tables = λ u v d c. c;
  in_turn = λ u v w p q. omega (arith, p, q);
  in_time = λ u v p. p;
}

quiet : {A : Type 0} (m : Action A) → Reads m → Moves Counts m → IsQuiet m
unfolding Reads Moves Counts IsQuiet
quiet m r c w = (r w, c w)

raise_if-Reads : (b : Bool) (e : Error) → Reads (raise_if b e)
unfolding Reads
raise_if-Reads b e w = (refl, refl)

module _ (env : Env) (go : GoLibrary) (config : TokenServiceConfig) where
  read_random-Reads : Reads (read_random env go config)
  unfolding Reads read_random
  read_random-Reads w = (refl, refl)

  read_random-Counts : Moves Counts (read_random env go config)
  unfolding Moves read_random Counts
  read_random-Counts w = omega arith

  issue_random-Reads : (ttl : ℕ) → Reads (issue_random env go config ttl)
  unfolding issue_random
  issue_random-Reads ttl = >>=-Reads _ _ read_random-Reads λ raw.
      >>=-Reads _ _ (lift-Reads _) λ hash. >>=-Reads _ _ (clock_now-Reads env) λ now. pure-Reads _

  issue_random-Counts : (ttl : ℕ) → Moves Counts (issue_random env go config ttl)
  unfolding issue_random
  issue_random-Counts ttl = >>=-Moves counts _ _ read_random-Counts λ raw.
      >>=-Moves counts _ _ (lift-Moves counts _)
        λ hash. >>=-Moves counts _ _ (clock_now-Moves counts env) λ now. pure-Moves counts _

  issue_one_time-IsQuiet : (ttl : ℕ) → IsQuiet (issue_one_time_token env go config ttl)
  unfolding issue_one_time_token ◌>>◌
  issue_one_time-IsQuiet ttl =
      quiet _ (>>=-Reads _ _ (raise_if-Reads _ _) λ _. issue_random-Reads ttl)
        (>>=-Moves counts _ _ (raise_if-Moves counts _ _) λ _. issue_random-Counts ttl)

  issue_refresh-IsQuiet : IsQuiet (issue_refresh_token env go config)
  unfolding issue_refresh_token
  issue_refresh-IsQuiet = quiet _ (issue_random-Reads _) (issue_random-Counts _)

  issue_access-IsQuiet :
      (user_id session_id : Text) → IsQuiet (issue_access_token env go config user_id session_id)
  unfolding issue_access_token
  issue_access-IsQuiet user_id session_id =
      quiet _
        (>>=-Reads _ _ (clock_now-Reads env) λ now.
          >>=-Reads _ _ (lift-Reads _)
            λ header. >>=-Reads _ _ (lift-Reads _) λ payload. pure-Reads _)
        (>>=-Moves counts _ _ (clock_now-Moves counts env) λ now.
          >>=-Moves counts _ _ (lift-Moves counts _)
            λ header. >>=-Moves counts _ _ (lift-Moves counts _) λ payload. pure-Moves counts _)

  verify_access-Reads : (token : Text) → Reads (verify_access_token env go config token)
  unfolding verify_access_token ◌>>◌
  verify_access-Reads token = >>=-Reads _ _ (lift-Reads _) λ p.
      >>=-Reads _ _ (clock_now-Reads env)
        λ now. >>=-Reads _ _ (raise_if-Reads _ _) λ _. pure-Reads _

  verify_access-Counts : (token : Text) → Moves Counts (verify_access_token env go config token)
  unfolding verify_access_token
  verify_access-Counts token = >>=-Moves counts _ _ (lift-Moves counts _) λ p.
      >>=-Moves counts _ _ (clock_now-Moves counts env)
        λ now. >>-Moves counts _ _ (raise_if-Moves counts _ _) (pure-Moves counts _)

  verify_identity-IsQuiet :
      (token : Text) → IsQuiet (verify_access_token_identity env go config token)
  unfolding verify_access_token_identity
  verify_identity-IsQuiet token =
      quiet _ (>>=-Reads _ _ (verify_access-Reads token) λ claims. pure-Reads _)
        (>>=-Moves counts _ _ (verify_access-Counts token) λ claims. pure-Moves counts _)

  pub token_issuer-IsTokenIssuer : IsTokenIssuer (token_issuer env go config)
  unfolding token_issuer
  token_issuer-IsTokenIssuer = record {
    issue_access_token-IsQuiet = issue_access-IsQuiet;
    issue_refresh_token-IsQuiet = issue_refresh-IsQuiet;
    verify_access_token_identity-IsQuiet = verify_identity-IsQuiet;
    issue_one_time_token-IsQuiet = issue_one_time-IsQuiet;
  }
