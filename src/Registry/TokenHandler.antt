-- ===== src/Registry/TokenHandler.antt =====
-- crates/registry/src/handlers/tokens.rs: the handlers that issue and revoke a token,
-- over the token service and the audit service. What the response formats is left out: the token stands for it.
pub mod Provenance
use agent_auth.Prelude.{ℕ, String, not, Option, none, some, List, Result, ok}
use agent_auth.Core.Capability.{Capability}
use agent_auth.Core.Envelope.{BehavioralEnvelope}
use agent_auth.Core.Token.{AgentAccessToken, approved, status_eq}
use agent_auth.Registry.Error.{grant_not_found, grant_not_approved, token_not_found, internal}
use agent_auth.Registry.Tables
use agent_auth.Registry.Db.{Fault, Prog, ◌>>=◌, ◌>>◌, pure, or_throw, throw_if, read_replica}
use agent_auth.Registry.Cache.{Redis}
use agent_auth.Registry.App.{AppState, Attempt, Json, on_world, recorded, new_event}
use agent_auth.Registry.World.{World, on_db}
use agent_auth.Registry.Tokens.{TokenConfig, issue_token, revoke_token, get_token}
use agent_auth.Registry.Audit.{Bytes, Sha, AuditEvent, token_issued, token_revoked, record_event}

pub record IssueTokenRequest : Type 0 where
  pub grant_id : ℕ
  pub agent_id : Option ℕ
  pub service_provider_id : Option ℕ
  pub human_principal_id : Option ℕ
  pub capabilities : Option (List Capability)
  pub behavioral_envelope : Option BehavioralEnvelope
  pub token_binding : Option Bytes
  pub dpop_thumbprint : Option Bytes

-- What a token is issued with.
pub record Details : Type 0 where
  pub agent : ℕ
  pub provider : ℕ
  pub human : ℕ
  pub caps : List Capability
  pub envelope : BehavioralEnvelope

abbrev pub given :
    Option ℕ
    → Option ℕ
    → Option ℕ
    → Option (List Capability)
    → Option BehavioralEnvelope
    → Option Details
given (some a) (some s) (some h) (some c) (some e) =
    some (record { agent = a; provider = s; human = h; caps = c; envelope = e })
given (some a) (some s) (some h) (some c) none = none
given (some a) (some s) (some h) none e = none
given (some a) (some s) none c e = none
given (some a) none h c e = none
given none s h c e = none

-- The details that a request names itself, if it names them all.
abbrev pub named : IssueTokenRequest → Option Details
named q =
    given q.agent_id q.service_provider_id q.human_principal_id q.capabilities q.behavioral_envelope

-- `token_binding.or_else(…)`
abbrev pub binding_of : Option Bytes → Option Bytes → Option Bytes
binding_of none thumbprint = thumbprint
binding_of (some b) thumbprint = some b

abbrev pub issued_event : IssueTokenRequest → Details → AgentAccessToken → AuditEvent
issued_event q d token = record {
  event_type = some token_issued;
  agent_id = some d.agent;
  service_provider_id = some d.provider;
  human_principal_id = some d.human;
  grant_id = some q.grant_id;
  token_jti = some token.jti;
  event_data = "{}";
  outcome = "success";
  error_message = none;
  source_ip = none;
  user_agent = none;
  request_id = none;
  trace_id = none;
}

module _ (r : Redis) (h : Sha) where
  unfoldable pub lookup : ℕ → Prog (World r) Details
  lookup grant_id = do
    found ← on_db (read_replica (Tables.get_grant grant_id))
    row ← or_throw found (grant_not_found grant_id)
    throw_if (not (status_eq row.grant.status approved)) (grant_not_approved grant_id)
    caps ← or_throw row.grant.granted_capabilities (internal "failed to parse grant capabilities")
    envelope ← or_throw row.grant.behavioral_envelope (internal "failed to parse grant envelope")
    pure (record {
      agent = row.grant.agent_id;
      provider = row.grant.service_provider_id;
      human = row.human_principal_id;
      caps = caps;
      envelope = envelope;
    })

  unfoldable pub details : ℕ → Option Details → Prog (World r) Details
  unfolding lookup
  details grant_id (some d) = pure d
  details grant_id none = lookup grant_id

  -- The call of the service.
  abbrev pub issue :
      TokenConfig
      → String
      → IssueTokenRequest
      → Details
      → (jti asked_at now cached_at : ℕ) → Prog (World r) AgentAccessToken
  issue config key_id q d jti asked_at now cached_at =
      issue_token r config key_id q.grant_id d.agent d.provider d.human d.caps d.envelope
        (binding_of q.token_binding q.dpop_thumbprint) jti asked_at now cached_at

  -- `event_id`, `sign` and `fate` are those of the audit record, whose outcome is not looked at.
  unfoldable pub issue_token_handler :
      TokenConfig
      → String
      → IssueTokenRequest
      → (jti asked_at now cached_at event_id : ℕ) → (Bytes → Result String Bytes)
      → Fault
      → Prog (AppState r h) AgentAccessToken
  unfolding details
  issue_token_handler config key_id q jti asked_at now cached_at event_id sign fate = do
    d ← on_world r h (details q.grant_id (named q))
    token ← on_world r h (issue config key_id q d jti asked_at now cached_at)
    (λ s. (
      ok token,
      record s { audit = (record_event h event_id (issued_event q d token) sign fate s.audit).1 },
    ))

  -- The handler that revokes a token.
  unfoldable pub revoke_token_handler :
      Json → ℕ → Option String → (db_now now : ℕ) → Attempt → Prog (AppState r h) (Unit {0})
  revoke_token_handler json jti reason db_now now a = do
    found ← on_world r h (get_token r jti)
    token ← or_throw found (token_not_found jti)
    on_world r h (revoke_token r jti reason db_now now)
    recorded r h a (record (new_event token_revoked) {
      agent_id = some token.agent_id;
      service_provider_id = some token.service_provider_id;
      token_jti = some jti;
      event_data = json.reason reason;
    })
