-- ===== src/Registry/Tokens/Issue.antt =====
-- Issuing: the lifetime of a token, and the repetition of a request.
use agent_auth.Prelude.{
  ℕ, ◌+◌, ◌-◌, ◌≤◌, ◌<◌, String, ◌≡◌, refl, sym, ap, subst, ◌∙◌, inl, inr, Bool, true, false, not,
  ◌&&◌, Option, none, some, List, [], ◌∷◌, ◌++◌, arith, leb, ◌==◌, keep, All, Result, ok, from_secs,
}
use agent_auth.Core.Capability.{Capability}
use agent_auth.Core.Envelope.{BehavioralEnvelope}
use agent_auth.Core.Token.{AgentAccessToken}
use agent_auth.Registry.Error.{RegistryError}
use agent_auth.Registry.Tables.{
  TokenRow, to_micros, latest_token, find_existing_token, insert_token,
}
use agent_auth.Registry.Db.{answers, Fault-cases}
use agent_auth.Registry.Cache.{Redis, cache_token}
use agent_auth.Registry.World.{World}
use agent_auth.Registry.Tokens.{TokenConfig, issue_token, row_to_token}

-- The row that a token is stored as.
abbrev pub row_of : AgentAccessToken → ℕ → Option (List ℕ) → TokenRow
row_of t grant_id binding = record {
  jti = t.jti;
  grant_id = grant_id;
  agent_id = t.agent_id;
  service_provider_id = t.service_provider_id;
  human_principal_id = t.human_principal_id;
  key_id = t.key_id;
  token_binding = binding;
  granted_capabilities = some t.granted_capabilities;
  behavioral_envelope = some t.behavioral_envelope;
  issued_at = to_micros t.issued_at;
  expires_at = to_micros t.expires_at;
  is_revoked = false;
  revoked_at = none;
  revocation_reason = none;
}

latest_token-keep :
    (p : TokenRow → Bool) (rs : List TokenRow) (x : TokenRow)
    → All (λ r. r.issued_at < x.issued_at) rs
    → p x ≡ true
    → latest_token (keep p (rs ++ (x ∷ []))) ≡ some x
unfolding latest_token
latest_token-keep p [] x h y = rw y refl
latest_token-keep p (r ∷ rs) x h y = ground (arith, latest_token-keep p rs x h.1 y)

-- A token as it is read back: its instants are cut to microseconds.
abbrev pub stored : AgentAccessToken → AgentAccessToken
stored t = record t { issued_at = to_micros t.issued_at; expires_at = to_micros t.expires_at }

row_of-row_to_token :
    (t : AgentAccessToken) (grant_id : ℕ) (binding : Option (List ℕ))
    → t.confirmation ≡ none
    → row_to_token (row_of t grant_id binding) ≡ ok (stored t)
unfolding row_to_token
row_of-row_to_token t grant_id binding h = ground arith

-- What a client asks for, and what the service adds: the fresh identifier and the clocks.
pub record Request : Type 0 where
  pub agent_id : ℕ
  pub sp : ℕ
  pub human : ℕ
  pub caps : List Capability
  pub envelope : BehavioralEnvelope
  pub binding : Option (List ℕ)
  pub jti : ℕ
  pub asked_at : ℕ
  pub now : ℕ
  pub cached_at : ℕ

-- The token of a request that finds none in the window.
abbrev pub new_token : TokenConfig → String → Request → AgentAccessToken
new_token config key_id q = record {
  jti = q.jti;
  agent_id = q.agent_id;
  human_principal_id = q.human;
  service_provider_id = q.sp;
  granted_capabilities = q.caps;
  behavioral_envelope = q.envelope;
  issued_at = q.now;
  expires_at = q.now + from_secs config.lifetime_secs;
  confirmation = none;
  key_id = key_id;
}

module _ (r : Redis) (config : TokenConfig) (key_id : String) (grant_id : ℕ) where
  abbrev pub issue : Request → World r → Result RegistryError AgentAccessToken × World r
  issue q =
      issue_token r config key_id grant_id q.agent_id q.sp q.human q.caps q.envelope q.binding q.jti
        q.asked_at q.now q.cached_at

  abbrev pub existing : Request → World r → Option TokenRow
  existing q w =
      find_existing_token grant_id (q.asked_at - from_secs config.idempotency_window_secs)
        w.db.primary

  issue-existing :
      (q : Request) (w : World r) (row : TokenRow)
      → w.db.fault 0 ≡ answers
      → existing q w ≡ some row
      → ((issue q w).0 ≡ row_to_token row) × ((issue q w).1.db.primary ≡ w.db.primary)
  unfolding issue_token
  issue-existing q w row f e = rw (f, e) (refl, refl)

  -- A request that finds no live token of the grant in the window, and succeeds, returns a token
  -- with the identifier, agent, provider, capabilities and envelope asked for, and the configured
  -- lifetime, and adds its row to the primary.
  pub issue_created :
      (q : Request) (w : World r) (t : AgentAccessToken)
      → existing q w ≡ none
      → (issue q w).0 ≡ ok t
      → (t ≡ new_token config key_id q)
        × ((issue q w).1.db.primary.tokens
            ≡ w.db.primary.tokens ++ (row_of (new_token config key_id q) grant_id q.binding ∷ []))
  unfolding issue_token insert_token cache_token
  issue_created q w t e h = elim (Fault-cases (w.db.fault 0)) [
    | inr f ↦ ground arith
    | inl f ↦ elim (Fault-cases (w.db.fault 1)) [
      | inr g ↦ ground arith
      | inl g ↦ elim (Fault-cases (w.cache.fault 0)) [ inr k ↦ ground arith | inl k ↦ ground arith ]
    ]
  ]

  -- A second request for the same grant, whatever else it asks, that comes within the window of a
  -- request that created a token, later by a microsecond than any other on the primary, gets the token
  -- of the first, with its instants cut to microseconds, and the primary is left as it is; the read
  -- of the primary is answered.
  pub issue_idempotent :
      (q q' : Request) (w : World r) (t : AgentAccessToken)
      → existing q w ≡ none
      → (issue q w).0 ≡ ok t
      → All (λ x. x.issued_at < to_micros q.now) w.db.primary.tokens
      → q'.asked_at ≤ q.now + from_secs config.idempotency_window_secs
      → (issue q w).1.db.fault 0 ≡ answers
      → ((issue q' (issue q w).1).0 ≡ ok (stored t))
        × ((issue q' (issue q w).1).1.db.primary ≡ (issue q w).1.db.primary)
  unfolding find_existing_token
  issue_idempotent q q' w t e h before inside f =
      let (same, rows) = issue_created q w t e h in
      let row = row_of (new_token config key_id q) grant_id q.binding in
      let p = λ (x : TokenRow).
        x.grant_id == grant_id
        && leb (to_micros (q'.asked_at - from_secs config.idempotency_window_secs)) x.issued_at
        && not x.is_revoked in
      let kept = latest_token-keep p w.db.primary.tokens row before (ground arith) in
      let found = subst (λ ts. latest_token (keep p ts) ≡ some row) (sym rows) kept in
      let (got, left) = issue-existing q' (issue q w).1 row f found in
      (
        got
            ∙ row_of-row_to_token (new_token config key_id q) grant_id q.binding refl
            ∙ ap (λ x. ok (stored x)) (sym same),
        left,
      )
