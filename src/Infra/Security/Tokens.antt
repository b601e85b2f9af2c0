-- ===== src/Infra/Security/Tokens.antt =====
-- internal/infra/security/token_service.go: who can make a token that is accepted, and the laws of
-- the interface that internal/app/identity takes.
use moneo_backend.Common.{
  ℕ, ◌+◌, ◌≤◌, ◌<◌, ◌≡◌, refl, sym, ◌∙◌, ap, true, false, Text, codes, text_eq, text_eq_iff,
  text_eq_refl, is_empty, Option, none, some, List, [], ◌∷◌, ◌++◌, ok, leb, ◌==◌, arith,
  Option-cases, inl, inr,
}
use mathlib.Core.List.{append_assoc}
use moneo_backend.Domain.Errors.{Error}
use moneo_backend.Domain.Identity.Credentials.{
  split_at, contains_where, split_at-append, split_at-one,
}
use moneo_backend.Infra.Database.{
  Env, World, pure, lift, clock_now, tick, >>=-elim, >>-elim, lift-eq-ok, raise_if-eq-ok, >>=-ok,
}
use moneo_backend.Infra.Database.Commits.{passed}
use moneo_backend.App.Identity.Access.{clock_now-eq-ok}
use moneo_backend.Infra.Security.{
  GoLibrary, JwtHeader, AccessTokenPayload, TokenServiceConfig, or_fail, is_jwt, misses_claims,
  claims_of, unix, sign_jwt, issue_access_token, verify_parts, verify_access_token,
  verify_access_token_identity,
}

-- The documented behaviour of json and base64: what is written is read back, writing does not fail
-- on these types, and the alphabet of base64 has no dot.
pub record IsGoLibrary (go : GoLibrary) : Type 0 where
  pub decode-encode : (bytes : Text) → go.decode (go.encode bytes) ≡ some bytes
  pub encode-dots : (bytes : Text) → contains_where (λ c. c == 0x2e) (go.encode bytes) ≡ false
  pub header-read :
      (header : JwtHeader) (json : Text)
      → go.marshal_header header ≡ some json
      → go.unmarshal_header json ≡ some header
  pub payload-read :
      (p : AccessTokenPayload) (json : Text)
      → go.marshal_payload p ≡ some json
      → go.unmarshal_payload json ≡ some p

or_fail-eq-ok : {A : Type 0} (e : Error) (o : Option A) {a : A} → or_fail e o ≡ ok a → o ≡ some a
unfolding or_fail
or_fail-eq-ok e none h = cc
or_fail-eq-ok e (some b) h = ground arith

module _ (env : Env) (go : GoLibrary) (config : TokenServiceConfig) where
  -- The parts of a token that was signed with the secret are accepted.
  verify_parts-signed :
      (header : JwtHeader) (p : AccessTokenPayload) (header_json payload_json : Text)
      → IsGoLibrary go
      → go.unmarshal_header header_json ≡ some header
      → is_jwt header ≡ true
      → go.unmarshal_payload payload_json ≡ some p
      → misses_claims p ≡ false
      → verify_parts env go config (
          go.encode header_json
          ∷ go.encode payload_json
          ∷ go.encode
              (sign_jwt env go config (go.encode header_json ++ 0x2e ∷ go.encode payload_json))
          ∷ [])
        ≡ ok p
  unfolding verify_parts or_fail
  verify_parts-signed header p header_json payload_json laws h j k m =
      rw
        (
          laws.decode-encode header_json,
          h,
          j,
          laws.decode-encode _,
          text_eq_refl _,
          laws.decode-encode payload_json,
          k,
          m,
        )
        refl

  signed-split :
      (a b c : Text)
      → IsGoLibrary go
      → split_at 0x2e ((go.encode a ++ 0x2e ∷ go.encode b) ++ 0x2e ∷ go.encode c)
        ≡ go.encode a ∷ go.encode b ∷ go.encode c ∷ []
  signed-split a b c laws =
      ap (split_at 0x2e) (append_assoc (go.encode a) (0x2e ∷ go.encode b) (0x2e ∷ go.encode c))
      ∙ split_at-append 0x2e (go.encode a) _ (laws.encode-dots a)
      ∙ ap (λ parts. go.encode a ∷ parts)
          (split_at-append 0x2e (go.encode b) _ (laws.encode-dots b)
            ∙ ap (λ parts. go.encode b ∷ parts)
                (split_at-one 0x2e (go.encode c) (laws.encode-dots c)))

  -- What an access token says that is issued at a time.
  abbrev payload_at : Text → Text → ℕ → AccessTokenPayload
  payload_at user_id session_id now = record {
    subject = user_id;
    session_id = session_id;
    issued_at = unix now;
    expires_at = unix (now + config.access_token_ttl);
  }

  abbrev signed : Text → Text → Text
  signed header payload =
      let input = go.encode header ++ 0x2e ∷ go.encode payload in
      input ++ 0x2e ∷ go.encode (sign_jwt env go config input)

  issue-eq-ok :
      (user_id session_id : Text) (w : World) {token : Text} {u : World}
      → issue_access_token env go config user_id session_id w ≡ (ok token, u)
      → (header payload : Text) × (go.marshal_header
            (record { alg = codes "HS256"; typ = codes "JWT" })
          ≡ some header)
        × (go.marshal_payload (payload_at user_id session_id (env.now w.calls)) ≡ some payload)
        × (token ≡ signed header payload)
  unfolding issue_access_token
  issue-eq-ok user_id session_id w h = >>=-elim _ _ _ h λ now w₁ h₁ g₁.
      >>=-elim _ _ _ g₁ λ header w₂ h₂ g₂. >>=-elim _ _ _ g₂ λ payload w₃ h₃ g₃.
        let (t, s₁) = clock_now-eq-ok env w h₁ in
        let (m, s₂) = lift-eq-ok _ w₁ h₂ in
        let (n, s₃) = lift-eq-ok _ w₂ h₃ in
        (
          header,
          payload,
          or_fail-eq-ok _ _ m,
          ap (λ x. go.marshal_payload (payload_at user_id session_id x)) (sym t)
              ∙ or_fail-eq-ok _ _ n,
          ground arith,
        )

  verified :
      (token : Text) (p : AccessTokenPayload) (v : World)
      → verify_parts env go config (split_at 0x2e token) ≡ ok p
      → leb p.expires_at (unix (env.now v.calls)) ≡ false
      → verify_access_token_identity env go config token v ≡ (ok (p.subject, p.session_id), tick v)
  unfolding verify_access_token_identity verify_access_token claims_of clock_now
  verified token p v h l = >>=-ok (verify_access_token env go config token) _ v (
      >>=-ok (lift (verify_parts env go config (split_at 0x2e token))) _ v (ap (λ x. (x, v)) h)
      ∙ >>=-ok (clock_now env) _ v refl
      ∙ passed _ _ (pure (claims_of p)) (tick v) l)

  -- An access token is accepted, as that of the user and the session that it was issued for, in
  -- every second before the one at which its life ends, when the ids are not empty, the clock is
  -- past the first second of 1970, and json and base64 keep their laws.
  pub verify-issue_access_token :
      (user_id session_id token : Text) (w v u : World)
      → IsGoLibrary go
      → is_empty user_id ≡ false
      → is_empty session_id ≡ false
      → 1 ≤ unix (env.now w.calls)
      → unix (env.now v.calls) < unix (env.now w.calls + config.access_token_ttl)
      → issue_access_token env go config user_id session_id w ≡ (ok token, u)
      → verify_access_token_identity env go config token v ≡ (ok (user_id, session_id), tick v)
  unfolding misses_claims is_jwt text_eq
  verify-issue_access_token user_id session_id token w v u laws a b c l h =
      let (header, payload, m, n, e) = issue-eq-ok user_id session_id w h in
      let p = payload_at user_id session_id (env.now w.calls) in
      let parts =
        verify_parts-signed _ p header payload laws (laws.header-read _ header m) refl
          (laws.payload-read p payload n) (ground arith) in
      verified token p v
        (ap (λ t. verify_parts env go config (split_at 0x2e t)) e
          ∙ ap (verify_parts env go config) (signed-split header payload _ laws)
          ∙ parts)
        (ground arith)

  verify_parts-eq-ok :
      (parts : List Text) (p : AccessTokenPayload)
      → verify_parts env go config parts ≡ ok p
      → (header payload signature json : Text) × (parts ≡ header ∷ payload ∷ signature ∷ [])
        × (go.decode signature ≡ some (sign_jwt env go config (header ++ 0x2e ∷ payload)))
        × (go.decode payload ≡ some json)
        × (go.unmarshal_payload json ≡ some p)
  unfolding verify_parts or_fail
  verify_parts-eq-ok [] p h = cc
  verify_parts-eq-ok (a ∷ []) p h = cc
  verify_parts-eq-ok (a ∷ b ∷ []) p h = cc
  verify_parts-eq-ok (a ∷ b ∷ c ∷ d ∷ rest) p h = cc
  verify_parts-eq-ok (a ∷ b ∷ c ∷ []) p h = elim (Option-cases (go.decode b)) [
    | inl gone ↦ absurd (ground arith)
    | inr (json, decoded) ↦ elim (Option-cases (go.decode c)) [
      | inl gone ↦ absurd (ground arith)
      | inr (signature, s) ↦ (
        a,
        b,
        c,
        json,
        refl,
        ground (arith, text_eq_iff (sign_jwt env go config (a ++ 0x2e ∷ b)) signature),
        decoded,
        ground arith,
      )
    ]
  ]

  -- An access token that is accepted has three parts, the last of which is the signature of the
  -- first two with the secret; the second one says for which user and session, and the time at
  -- which it expires has not come.
  pub verify_access_token-signed :
      (token : Text) (w : World) {user_id session_id : Text} {u : World}
      → verify_access_token_identity env go config token w ≡ (ok (user_id, session_id), u)
      → (header payload signature json : Text) × (p : AccessTokenPayload) × (split_at 0x2e token
          ≡ header ∷ payload ∷ signature ∷ [])
        × (go.decode signature ≡ some (sign_jwt env go config (header ++ 0x2e ∷ payload)))
        × (go.decode payload ≡ some json)
        × (go.unmarshal_payload json ≡ some p)
        × (p.subject ≡ user_id)
        × (p.session_id ≡ session_id)
        × (unix (env.now w.calls) < p.expires_at)
  unfolding verify_access_token_identity verify_access_token claims_of
  verify_access_token-signed token w h = >>=-elim _ _ _ h λ claims w₁ h₁ g₁.
      >>=-elim _ _ _ h₁ λ p w₂ h₂ g₂. >>=-elim _ _ _ g₂ λ now w₃ h₃ g₃. >>-elim _ _ _ g₃ λ w₄ h₄ g₄.
        let (m, s₂) = lift-eq-ok _ w h₂ in
        let (t, s₃) = clock_now-eq-ok env w₂ h₃ in
        let (x, s₄) = raise_if-eq-ok _ _ w₃ h₄ in
        let (header, payload, signature, json, split, good, decoded, says) =
          verify_parts-eq-ok (split_at 0x2e token) p m in
        (
          header,
          payload,
          signature,
          json,
          p,
          split,
          good,
          decoded,
          says,
          ground arith,
          ground arith,
          ground (arith, ap (λ y. y.calls) s₂),
        )
