-- ===== src/Sdk/Client/Tokens.antt =====
-- Where a token comes from that the client hands out.
use agent_auth.Prelude.{
  ℕ, String, ◌≡◌, refl, subst, ◌⊎◌, inl, inr, true, some, arith, Bool-cases, Option-cases, Result,
  ok, Result-cases,
}
use agent_auth.Core.Envelope.{Calendar}
use agent_auth.Sdk.Error.{SdkError}
use agent_auth.Sdk.Retry.{with_retry}
use agent_auth.Sdk.TokenCache as TokenCache
use agent_auth.Sdk.TokenCache.{CachedToken}
use agent_auth.Sdk.RateLimiter.{Governor}
use agent_auth.Sdk.Client.{
  Response, TokenResponse, CapabilityGrant, SdkConfig, Request, tokens_issue, AgentAuthClient,
  entry, get_token, from_cache, issue_token, handle_json_response, is_success,
}

module _ (g : Governor) (cal : Calendar) (Server : Type 0)
    (send : Request → Server → Result SdkError Response × Server) (config : SdkConfig) where
  -- The answer of the registry to a request for a token.
  abbrev pub Answered : CapabilityGrant → String → Server → TokenResponse → Type 0
  Answered grant proof s t =
      (r : Response) × ((with_retry (send (tokens_issue grant.grant_id proof)) config.max_attempts
          s).0
        ≡ ok r)
      × (is_success r.status ≡ true)
      × (r.as_token ≡ some t)

  json_ok :
      (r : Response) (t : TokenResponse)
      → handle_json_response (λ r. r.as_token) r ≡ ok t
      → (is_success r.status ≡ true) × (r.as_token ≡ some t)
  unfolding handle_json_response
  json_ok r t e = ground arith

  -- A new token, for a grant that the client has, and what is cached for it.
  abbrev pub Issued :
      ℕ
      → ℕ
      → AgentAuthClient g cal Server send config
      → String
      → AgentAuthClient g cal Server send config
      → Type 0
  Issued sp cached_at c token c' =
      (grant : CapabilityGrant) × (proof : String) × (t : TokenResponse) × (entry sp c.grants
        ≡ some grant)
      × Answered grant proof c.server t
      × (token ≡ t.access_token)
      × (c'.token_cache
          ≡ TokenCache.put
              (record {
                token = t.access_token;
                jti = t.jti;
                expires_at = t.expires_at;
                cached_at = cached_at;
                service_provider_id = sp;
              })
              c.token_cache)

  issue_token-Issued :
      (sp : ℕ) (proof : Result SdkError String) (now : ℕ)
      (c : AgentAuthClient g cal Server send config) (token : String)
      → (issue_token g cal Server send config sp proof now c).0 ≡ ok token
      → Issued sp now c token (issue_token g cal Server send config sp proof now c).1
  unfolding issue_token
  issue_token-Issued sp proof now c token k = elim (Option-cases (entry sp c.grants)) [
    | inl e ↦ absurd (ground arith)
    | inr (grant, e) ↦ elim (Result-cases proof) [
      | inr (x, f) ↦ absurd (ground arith)
      | inl (dpop, f) ↦
          elim (Result-cases
            (with_retry (send (tokens_issue grant.grant_id dpop)) config.max_attempts c.server).0) [
              | inr (x, h) ↦ absurd (ground arith)
              | inl (r, h) ↦ elim (Result-cases (handle_json_response (λ r. r.as_token) r)) [
                | inr (x, j) ↦ absurd (ground arith)
                | inl (t, j) ↦
                    let (success, body) = json_ok r t j in
                    (grant, dpop, t, e, (r, h, success, body), ground arith, rw (e, f, h, j) refl)
              ]
            ]
    ]
  ]

  -- A token that the client hands out is the cached one of the provider, unexpired at the first
  -- reading of the clock, and then nothing is sent and nothing changes; or it is one that the
  -- registry answered with for a grant that the client has, and then it is cached.
  pub get_token_sources :
      (sp : ℕ) (proof : Result SdkError String) (now refresh_at expiry_at cached_at : ℕ)
      (c : AgentAuthClient g cal Server send config) (token : String)
      → let r = get_token g cal Server send config sp proof now refresh_at expiry_at cached_at c in
        r.0 ≡ ok token
        → ((x : CachedToken) × (TokenCache.get sp now c.token_cache ≡ some x)
            × (token ≡ x.token)
            × (r.1 ≡ c))
          ⊎ Issued sp cached_at c token r.1
  unfolding get_token from_cache
  get_token_sources sp proof now refresh_at expiry_at cached_at c token k =
      elim (Option-cases (TokenCache.get sp now c.token_cache)) [
        | inl e ↦ rw e (
            inr (
              issue_token-Issued sp proof cached_at c token (
                subst
                  (λ o.
                    (from_cache g cal Server send config sp proof refresh_at expiry_at cached_at o
                      c).0
                    ≡ ok token)
                  e k)))
        | inr (x, e) ↦ rw e (
            from_cached x e (
              subst
                (λ o.
                  (from_cache g cal Server send config sp proof refresh_at expiry_at cached_at o
                    c).0
                  ≡ ok token)
                e k))
      ]
    where
      rest : CachedToken → Result SdkError String × AgentAuthClient g cal Server send config
      rest x =
          from_cache g cal Server send config sp proof refresh_at expiry_at cached_at (some x) c

      reissued :
          (x : CachedToken)
          → TokenCache.should_refresh x config.refresh_before_expiry refresh_at ≡ true
          → TokenCache.is_expired x expiry_at ≡ true
          → rest x ≡ issue_token g cal Server send config sp proof cached_at c
      reissued x f h = rw (f, h) refl

      from_cached :
          (x : CachedToken)
          → TokenCache.get sp now c.token_cache ≡ some x
          → (rest x).0 ≡ ok token
          → ((y : CachedToken) × (some x ≡ some y) × (token ≡ y.token) × ((rest x).1 ≡ c))
            ⊎ Issued sp cached_at c token (rest x).1
      from_cached x e k =
          elim (Bool-cases (TokenCache.should_refresh x config.refresh_before_expiry refresh_at)) [
            | inr f ↦ inl (x, refl, ground arith, rw f refl)
            | inl f ↦ elim (Bool-cases (TokenCache.is_expired x expiry_at)) [
              | inr h ↦ inl (x, refl, ground arith, rw (f, h) refl)
              | inl h ↦ inr (
                  rw (f, h)
                    (issue_token-Issued sp proof cached_at c token
                      (subst (λ q. q.0 ≡ ok token) (reissued x f h) k)))
            ]
          ]
