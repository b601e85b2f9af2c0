-- ===== src/Tests/Identities.antt =====
-- Services for users and sessions, on a database without users.
use moneo_backend.Common.{
  ℕ, ◌+◌, ◌-◌, ◌*◌, ◌≡◌, refl, ap, Bool, true, false, ◌&&◌, Text, codes, text_eq, text_eq_iff,
  text_eq_refl, Option, none, some, [], ◌∷◌, ok, if◌then◌else◌, arith, ◌==◌, ltb,
}
use moneo_backend.Domain.Identity.Credentials.{Platform, contains_where}
use moneo_backend.Domain.Errors.{Outcome}
use moneo_backend.Infra.Database.{Env, World, pure, done}
use moneo_backend.Infra.Security.{
  GoLibrary, JwtHeader, AccessTokenPayload, TokenServiceConfig, token_issuer,
}
use moneo_backend.Infra.Security.Tokens.{IsGoLibrary}
use moneo_backend.Infra.Security.Quiet.{token_issuer-IsTokenIssuer}
use moneo_backend.App.Identity.Interfaces.{
  PasswordHasher, IsQuiet, IsClock, RegisterInput, LoginInput,
}
use moneo_backend.App.Identity.Requests.{Services}
use moneo_backend.App.Identity.Sequences.{AreServices}

-- bytes as characters above those of ASCII
unfoldable pub shift_up : Text → Text
shift_up [] = []
shift_up (c ∷ s) = (1000 + c) ∷ shift_up s

unfoldable pub shift_down : Text → Text
shift_down [] = []
shift_down (c ∷ s) = (c - 1000) ∷ shift_down s

shift_back : (s : Text) → shift_down (shift_up s) ≡ s
unfolding shift_up shift_down
shift_back [] = refl
shift_back (c ∷ s) = ground (arith, shift_back s)

shift_dots : (s : Text) → contains_where (λ c. c == 0x2e) (shift_up s) ≡ false
unfolding shift_up
shift_dots [] = refl
shift_dots (c ∷ s) = ground (arith, shift_dots s)

-- the one header that is written, as a letter
unfoldable pub write_header : JwtHeader → Option Text
write_header h =
    if text_eq h.alg (codes "HS256") && text_eq h.typ (codes "JWT") then some (codes "H") else none

-- claims with ids of one letter
unfoldable pub write_claims : Text → Text → ℕ → ℕ → Option Text
write_claims (c ∷ []) (d ∷ []) from to = some (c ∷ d ∷ from ∷ to ∷ [])
write_claims _ _ from to = none

unfoldable pub read_claims : Text → Option AccessTokenPayload
read_claims (c ∷ d ∷ from ∷ to ∷ []) =
    some (record { subject = c ∷ []; session_id = d ∷ []; issued_at = from; expires_at = to })
read_claims _ = none

abbrev pub go : GoLibrary
go = record {
  marshal_header = write_header;
  unmarshal_header = λ json. some (record { alg = codes "HS256"; typ = codes "JWT" });
  marshal_payload = λ p. write_claims p.subject p.session_id p.issued_at p.expires_at;
  unmarshal_payload = read_claims;
  encode = shift_up;
  decode = λ s. some (shift_down s);
  hmac = λ key s. 7 ∷ s;
  digest = λ s. s;
  random = λ n. some (n ∷ []);
}

header_read :
    (h : JwtHeader) (json : Text)
    → write_header h ≡ some json
    → ◌≡◌ {A = Option JwtHeader} (some (record { alg = codes "HS256"; typ = codes "JWT" })) (some h)
unfolding write_header
header_read h json e =
    ground (arith, text_eq_iff h.alg (codes "HS256"), text_eq_iff h.typ (codes "JWT"))

claims_read :
    (a b json : Text) (from to : ℕ)
    → write_claims a b from to ≡ some json
    → read_claims json
      ≡ some (record { subject = a; session_id = b; issued_at = from; expires_at = to })
unfolding write_claims read_claims
claims_read (c ∷ []) (d ∷ []) json from to e = ground arith
claims_read [] b json from to e = cc
claims_read (c ∷ []) [] json from to e = cc
claims_read (c ∷ []) (d ∷ x ∷ b) json from to e = cc
claims_read (c ∷ x ∷ a) b json from to e = cc

pub go-IsGoLibrary : IsGoLibrary go
go-IsGoLibrary = record {
  decode-encode = λ bytes. ap some (shift_back bytes);
  encode-dots = shift_dots;
  header-read = header_read;
  payload-read = λ p json. claims_read p.subject p.session_id json p.issued_at p.expires_at;
}

-- Seconds pass with the calls; ids are letters.
abbrev pub env : Env
env = record {
  reply = λ n. done;
  now = λ n. (1000 + n) * 1000000;
  new_id = λ n. (97 + n) ∷ [];
  commit_kept = λ n. false;
}

pub env-IsClock : IsClock env
unfolding IsClock
env-IsClock m n h = omega (arith, h)

abbrev pub config : TokenServiceConfig
config = record {
  access_token_ttl = 900000000;
  refresh_token_ttl = 86400000000;
  jwt_secret = codes "secret";
}

abbrev pub platform : Platform
platform = record {
  parse_address = λ s. some s;
  to_lower = λ s. s;
  is_letter = λ c. ltb 0x40 c;
  is_digit = λ c. ltb c 0x40;
  sql_lower = λ s. s;
}

abbrev pub hasher : PasswordHasher
hasher = record {
  hash = λ password. pure (0x68 ∷ password);
  verify = λ password hash. ok (text_eq (0x68 ∷ password) hash);
}

abbrev pub services : Services
services = record {
  platform = platform;
  hasher = hasher;
  tokens = token_issuer env go config;
  notifiers = record {
    send_password_reset = λ user token. pure tt;
    send_email_verification = λ user token. pure tt;
  };
  config = record {
    password_reset_token_ttl = 1800000000;
    email_verification_token_ttl = 86400000000;
  };
}

hash_verified :
    (password hash : Text) (w w' : World)
    → pure (0x68 ∷ password) w ≡ (ok hash, w')
    → ◌≡◌ {A = Outcome Bool} (ok (text_eq (0x68 ∷ password) hash)) (ok true)
hash_verified password hash w w' h = ground (arith, text_eq_refl (0x68 ∷ password))

pub services-AreServices : AreServices services
unfolding IsQuiet
services-AreServices = record {
  hasher = record {
    hash-IsQuiet = λ password w. ((refl, refl), omega arith);
    verify-hash = hash_verified;
  };
  tokens = token_issuer-IsTokenIssuer env go config;
  notifiers = record {
    send_password_reset-IsQuiet = λ user token w. ((refl, refl), omega arith);
    send_email_verification-IsQuiet = λ user token w. ((refl, refl), omega arith);
  };
}

abbrev pub start : World
start = record {
  db = record { transactions = []; accounts = []; users = []; sessions = []; one_time_tokens = [] };
  in_tx = false;
  calls = 0;
}

abbrev pub anna : RegisterInput
anna = record {
  email = codes "anna@post.ru";
  password = codes "secret123";
  password_confirm = codes "secret123";
}

abbrev pub anna_again : LoginInput
anna_again = record { email = codes "anna@post.ru"; password = codes "secret123" }
