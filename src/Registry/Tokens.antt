-- ===== src/Registry/Tokens.antt =====
-- crates/registry/src/services/token.rs: issuing and revoking tokens.
pub mod Issue
pub mod Revocation
use agent_auth.Prelude.{
  ℕ, ◌+◌, ◌-◌, String, Bool, false, Option, none, some, List, if◌then◌else◌, Result, ok, err,
  from_secs, timestamp,
}
use agent_auth.Core.Capability.{Capability}
use agent_auth.Core.Envelope.{BehavioralEnvelope}
use agent_auth.Core.Token.{AgentAccessToken}
use agent_auth.Registry.Error.{RegistryError, token_not_found, token_already_revoked, internal}
use agent_auth.Registry.Tables
use agent_auth.Registry.Tables.{TokenRow}
use agent_auth.Registry.Db.{
  Prog, ◌>>=◌, ◌>>◌, pure, throw, lift, read_primary, read_replica, write_primary,
}
use agent_auth.Registry.Cache
use agent_auth.Registry.Cache.{Redis}
use agent_auth.Registry.World.{World, on_db, on_cache}

-- The fields of `TokenConfig` that the service reads.
pub record TokenConfig : Type 0 where
  pub lifetime_secs : ℕ  -- u64
  pub idempotency_window_secs : ℕ  -- u64

parse_token :
    TokenRow
    → Option (List Capability)
    → Option BehavioralEnvelope
    → Result RegistryError AgentAccessToken
parse_token row none _ = err (internal "failed to parse capabilities")
parse_token row (some caps) none = err (internal "failed to parse envelope")
parse_token row (some caps) (some envelope) = ok (record {
  jti = row.jti;
  agent_id = row.agent_id;
  human_principal_id = row.human_principal_id;
  service_provider_id = row.service_provider_id;
  granted_capabilities = caps;
  behavioral_envelope = envelope;
  issued_at = row.issued_at;
  expires_at = row.expires_at;
  confirmation = none;
  key_id = row.key_id;
})

unfoldable pub row_to_token : TokenRow → Result RegistryError AgentAccessToken
unfolding parse_token
row_to_token row = parse_token row row.granted_capabilities row.behavioral_envelope

module _ (r : Redis) where
  create_token :
      TokenConfig
      → String
      → ℕ
      → AgentAccessToken
      → Option (List ℕ)
      → ℕ
      → Prog (World r) AgentAccessToken
  create_token config key_id grant_id token token_binding now = do
    on_db (write_primary (Tables.insert_token token grant_id key_id token_binding))
    on_cache (
        Cache.cache_token r token.jti token.service_provider_id (timestamp token.expires_at) false
          now)
    pure token

  reuse_or : Option TokenRow → Prog (World r) AgentAccessToken → Prog (World r) AgentAccessToken
  unfolding row_to_token
  reuse_or (some row) create = lift (row_to_token row)
  reuse_or none create = create

  -- `key_id` is that of the signing backend, `jti` the fresh identifier, `asked_at`, `now` and
  -- `cached_at` the readings of the clock.
  unfoldable pub issue_token :
      TokenConfig
      → String
      → (grant_id agent_id sp human : ℕ) → List Capability
      → BehavioralEnvelope
      → Option (List ℕ)
      → (jti asked_at now cached_at : ℕ) → Prog (World r) AgentAccessToken
  unfolding create_token reuse_or
  issue_token config key_id grant_id agent_id sp human caps envelope binding jti asked_at now
        cached_at =
      on_db (
        read_primary (
          Tables.find_existing_token grant_id
            (asked_at - from_secs config.idempotency_window_secs)))
      >>= λ existing. reuse_or existing (
          create_token config key_id grant_id
            (record {
              jti = jti;
              agent_id = agent_id;
              human_principal_id = human;
              service_provider_id = sp;
              granted_capabilities = caps;
              behavioral_envelope = envelope;
              issued_at = now;
              expires_at = now + from_secs config.lifetime_secs;
              confirmation = none;
              key_id = key_id;
            })
            binding cached_at)

  -- What `revoke_token` answers when no row was affected.
  explain_unrevoked : ℕ → Option TokenRow → RegistryError
  explain_unrevoked jti none = token_not_found jti
  explain_unrevoked jti (some t) =
      if t.is_revoked then token_already_revoked else internal "unexpected revocation failure"

  unfoldable pub revoke_token : ℕ → Option String → ℕ → ℕ → Prog (World r) (Unit {0})
  unfolding explain_unrevoked
  revoke_token jti reason db_now now =
      on_db (write_primary (Tables.revoke_token jti reason db_now)) >>= λ done.
      if done
      then on_cache (Cache.mark_token_revoked r jti now)
      else (on_db (read_replica (Tables.get_token jti)) >>= λ row.
          throw (explain_unrevoked jti row))

  -- The cache if it knows the token, the replica otherwise.
  unfoldable pub is_revoked : ℕ → ℕ → Prog (World r) Bool
  is_revoked jti now = on_cache (Cache.get_cached_token r jti now) >>= λ cached. elim cached [
    | some c ↦ pure c.is_revoked
    | none ↦ on_db (read_replica (Tables.is_token_revoked jti))
  ]

  parse_row : Option TokenRow → Result RegistryError (Option AgentAccessToken)
  parse_row none = ok none
  parse_row (some row) = elim (row_to_token row) [ ok t ↦ ok (some t) | err e ↦ err e ]

  unfoldable pub get_token : ℕ → Prog (World r) (Option AgentAccessToken)
  unfolding parse_row
  get_token jti = on_db (read_replica (Tables.get_token jti)) >>= λ row. lift (parse_row row)
