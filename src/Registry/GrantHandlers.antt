-- ===== src/Registry/GrantHandlers.antt =====
-- crates/registry/src/handlers/grants.rs: the handlers of grants, over the grant service and the
-- audit service. A response repeats a few fields under two names; here they stand once.
use agent_auth.Prelude.{ℕ, String, Option, none, some, List, length, Result, ok, err}
use agent_auth.Core.Capability.{Capability}
use agent_auth.Core.Envelope.{BehavioralEnvelope}
use agent_auth.Core.Token.{
  CapabilityGrant, GrantStatus, pending, approved, denied, revoked, expired,
}
use agent_auth.Registry.Error.{RegistryError, grant_not_found, internal}
use agent_auth.Registry.Tables
use agent_auth.Registry.Tables.{GrantRow}
use agent_auth.Registry.Db.{M, Prog, ◌>>=◌, ◌>>◌, pure, lift, or_throw, read_replica}
use agent_auth.Registry.Cache.{Redis}
use agent_auth.Registry.Grants
use agent_auth.Registry.Grants.{GrantConfig}
use agent_auth.Registry.Audit.{
  Bytes, Sha, AuditEvent, grant_requested, grant_approved, grant_denied, grant_revoked,
}
use agent_auth.Registry.App.{AppState, Attempt, Json, on_app_db, recorded, new_event}

pub record RequestGrantRequest : Type 0 where
  pub agent_id : ℕ
  pub service_provider_id : ℕ
  pub capabilities : List Capability
  pub behavioral_envelope : BehavioralEnvelope

pub record ApproveGrantRequest : Type 0 where
  pub approved_by : ℕ
  pub approval_nonce : Bytes
  pub approval_signature : Bytes
  pub granted_capabilities : Option (List Capability)

pub record GrantResponse : Type 0 where
  pub grant_id : ℕ
  pub agent_id : ℕ
  pub agent_name : String
  pub service_provider_id : ℕ
  pub service_provider_name : String
  pub granted_capabilities : List Capability
  pub behavioral_envelope : BehavioralEnvelope
  pub human_principal_id : ℕ
  pub status : String
  pub created_at : ℕ
  pub approved_by : Option ℕ
  pub approved_at : Option ℕ
  pub expires_at : Option ℕ

unfoldable pub status_to_string : GrantStatus → String
status_to_string pending = "pending"
status_to_string approved = "approved"
status_to_string denied = "denied"
status_to_string revoked = "revoked"
status_to_string expired = "expired"

-- `approval_assertion.as_ref().map(|_| …)`
abbrev approver : CapabilityGrant → Option ℕ
approver g = elim g.approval_assertion [ none ↦ none | some _ ↦ some g.human_principal_id ]

unfoldable pub grant_to_response : CapabilityGrant → GrantResponse
unfolding status_to_string
grant_to_response g = record {
  grant_id = g.id;
  agent_id = g.agent_id;
  agent_name = "";
  service_provider_id = g.service_provider_id;
  service_provider_name = "";
  granted_capabilities = g.requested_capabilities;
  behavioral_envelope = g.requested_envelope;
  human_principal_id = g.human_principal_id;
  status = status_to_string g.status;
  created_at = g.created_at;
  approved_by = approver g;
  approved_at = g.approved_at;
  expires_at = some g.expires_at;
}

unfoldable pub grant_row_to_response : GrantRow → Result RegistryError GrantResponse
unfolding status_to_string
grant_row_to_response row = elim row.grant.granted_capabilities [
  | none ↦ err (internal "failed to parse capabilities")
  | some caps ↦ elim row.grant.behavioral_envelope [
    | none ↦ err (internal "failed to parse envelope")
    | some envelope ↦ ok (record {
      grant_id = row.grant.id;
      agent_id = row.grant.agent_id;
      agent_name = row.agent_name;
      service_provider_id = row.grant.service_provider_id;
      service_provider_name = row.service_provider_name;
      granted_capabilities = caps;
      behavioral_envelope = envelope;
      human_principal_id = row.human_principal_id;
      status = status_to_string row.grant.status;
      created_at = row.grant.requested_at;
      approved_by = row.grant.approved_by;
      approved_at = row.grant.decided_at;
      expires_at = some row.grant.expires_at;
    })
  ]
]

-- GET: `GrantService::get_grant_row` and the response.
unfoldable pub get_grant : ℕ → M GrantResponse
unfolding grant_row_to_response
get_grant id = do
  found ← read_replica (Tables.get_grant id)
  row ← or_throw found (grant_not_found id)
  lift (grant_row_to_response row)

-- The event of a decision on a grant.
abbrev pub grant_event : AuditEvent → (agent_id sp grant_id : ℕ) → AuditEvent
grant_event e agent_id sp grant_id = record e {
  agent_id = some agent_id;
  service_provider_id = some sp;
  grant_id = some grant_id;
}

module _ (r : Redis) (h : Sha) (json : Json) where
  unfoldable pub request_grant :
      GrantConfig
      → RequestGrantRequest
      → (grant_id now db_now : ℕ) → Attempt
      → Prog (AppState r h) GrantResponse
  unfolding grant_to_response
  request_grant config q grant_id now db_now a = do
    grant ← on_app_db r h (
        Grants.request_grant config q.agent_id q.service_provider_id q.capabilities
          q.behavioral_envelope grant_id now db_now)
    recorded r h a (
        grant_event
          (record (new_event grant_requested) {
            event_data = json.capabilities_count (length grant.requested_capabilities);
          })
          q.agent_id q.service_provider_id grant.id)
    pure (grant_to_response grant)

  unfoldable pub approve_grant :
      ℕ → ApproveGrantRequest → (now db_now later : ℕ) → Attempt → Prog (AppState r h) GrantResponse
  unfolding grant_to_response
  approve_grant id q now db_now later a = do
    grant ← on_app_db r h (
        Grants.approve_grant id q.approved_by q.approval_nonce q.approval_signature
          q.granted_capabilities now db_now later)
    recorded r h a (
        grant_event (record (new_event grant_approved) { human_principal_id = some q.approved_by })
          grant.agent_id grant.service_provider_id grant.id)
    pure (grant_to_response grant)

  unfoldable pub deny_grant : ℕ → (db_now : ℕ) → Attempt → Prog (AppState r h) GrantResponse
  unfolding grant_to_response
  deny_grant id db_now a = do
    grant ← on_app_db r h (Grants.deny_grant id db_now)
    recorded r h a
        (grant_event (new_event grant_denied) grant.agent_id grant.service_provider_id grant.id)
    pure (grant_to_response grant)

  unfoldable pub revoke_grant : ℕ → Attempt → Prog (AppState r h) (Unit {0})
  revoke_grant id a = do
    found ← on_app_db r h (Grants.get_grant id)
    grant ← or_throw found (grant_not_found id)
    on_app_db r h (Grants.revoke_grant id)
    recorded r h a
        (grant_event (new_event grant_revoked) grant.agent_id grant.service_provider_id id)
