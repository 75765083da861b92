-- ===== src/Registry/AgentHandlers.antt =====
-- crates/registry/src/handlers/agents.rs: the handlers of agents. The texts of instants and the hex
-- of the public key, which the responses format, are left out: the instant and the bytes stand there.
use agent_auth.Prelude.{
  ℕ, String, Bool, not, Option, none, some, List, [], ◌∷◌, if◌then◌else◌, Result, ok, err,
}
use agent_auth.Core.Capability.{Capability}
use agent_auth.Core.Envelope.{BehavioralEnvelope}
use agent_auth.Core.Manifest.{AgentManifest}
use agent_auth.Core.Token.{GrantStatus}
use agent_auth.Registry.Error.{
  agent_not_found, otp_invalid, agent_already_registered, signature_verification_failed, internal,
  RegistryError,
}
use agent_auth.Registry.Tables
use agent_auth.Registry.Tables.{Tables, AgentRow, GrantRow}
use agent_auth.Registry.Tables.Agents
use agent_auth.Registry.Db.{
  Db, M, Prog, ◌>>=◌, ◌>>◌, pure, lift, throw_if, or_throw, read_primary, read_replica,
  write_primary,
}
use agent_auth.Registry.Cache.{Redis, validate_and_consume_otp}
use agent_auth.Registry.World.{on_cache}
use agent_auth.Registry.Audit.{Bytes, Sha, agent_registered, agent_revoked, AuditEvent}
use agent_auth.Registry.App.{
  AppState, Attempt, Crypto, Json, on_world, on_app_db, recorded, new_event,
}

-- `map_err`
abbrev pub map_err :
    {A : Type 0} → (String → RegistryError) → Result String A → Result RegistryError A
map_err f (ok a) = ok a
map_err f (err m) = err (f m)

pub record RegisterAgentResponse : Type 0 where
  pub status_code : ℕ
  pub agent_id : ℕ
  pub status : String

pub record BootstrapAgentResponse : Type 0 where
  pub agent_id : ℕ
  pub key_ref : String

pub record AgentSummaryResponse : Type 0 where
  pub agent_id : ℕ
  pub name : String
  pub registered_at : ℕ
  pub status : String
  pub active_grants : ℕ
  pub pending_grant_id : Option ℕ

pub record GrantSummaryResponse : Type 0 where
  pub grant_id : ℕ
  pub service_provider_name : String
  pub capabilities : List Capability
  pub created_at : ℕ
  pub status : GrantStatus

pub record AgentResponse : Type 0 where
  pub id : ℕ
  pub name : String
  pub registered_at : ℕ
  pub status : String
  pub is_active : Bool
  pub public_key : Bytes
  pub capabilities : List Capability
  pub grants : List GrantSummaryResponse
  pub human_principal_id : ℕ
  pub description : Option String
  pub key_id : String
  pub default_behavioral_envelope : BehavioralEnvelope
  pub model_origin : Option String

abbrev pub registered_event : AgentManifest → String → AuditEvent
registered_event m text = record (new_event agent_registered) {
  agent_id = some m.id;
  human_principal_id = some m.human_principal_id;
  event_data = text;
}

-- db::insert_agent: the public key is decoded first. An envelope and capabilities always serialise.
unfoldable pub insert_agent : Crypto → AgentManifest → Bytes → ℕ → M (Unit {0})
insert_agent crypto m signature db_now = do
  key ← lift (map_err internal (crypto.decode m.public_key))
  write_primary (Agents.insert_agent m key signature db_now)

abbrev pub status_text : AgentRow → String
status_text row = if row.is_active then "active" else "revoked"

-- `.await.unwrap_or(a)`
abbrev value_or : {A : Type 0} → A → Result RegistryError A → A
value_or a (ok x) = x
value_or a (err e) = a

abbrev pub unwrap_or : {A : Type 0} → A → Prog Db A → Prog Db A
unwrap_or a m db = (ok (value_or a (m db).0), (m db).1)

-- The body of the loop, and the loop.
unfoldable pub summarize : AgentRow → M AgentSummaryResponse
summarize row = do
  grant_count ← unwrap_or 0 (read_replica (Tables.count_active_grants row.id))
  pending ← unwrap_or none (read_replica (Agents.get_pending_grant_id row.id))
  pure (record {
    agent_id = row.id;
    name = row.name;
    registered_at = row.created_at;
    status = status_text row;
    active_grants = grant_count;
    pending_grant_id = pending;
  })

unfoldable pub summarize_all : List AgentRow → M (List AgentSummaryResponse)
unfolding summarize
summarize_all [] = pure []
summarize_all (row ∷ rows) = do
  summary ← summarize row
  rest ← summarize_all rows
  pure (summary ∷ rest)

unfoldable pub list_agents : M (List AgentSummaryResponse)
unfolding summarize_all
list_agents = do rows ← read_replica Agents.list_agents; summarize_all rows

-- A grant whose capabilities do not parse is passed over.
abbrev pub summarize_grants : List GrantRow → List GrantSummaryResponse
summarize_grants [] = []
summarize_grants (g ∷ gs) = elim g.grant.granted_capabilities [
  | none ↦ summarize_grants gs
  | some caps ↦
      record {
        grant_id = g.grant.id;
        service_provider_name = g.service_provider_name;
        capabilities = caps;
        created_at = g.grant.requested_at;
        status = g.grant.status;
      }
      ∷ summarize_grants gs
]

unfoldable pub row_to_response : AgentRow → List GrantRow → Result RegistryError AgentResponse
row_to_response row grants = elim row.requested_capabilities [
  | none ↦ err (internal "failed to parse capabilities")
  | some caps ↦ elim row.default_behavioral_envelope [
    | none ↦ err (internal "failed to parse envelope")
    | some envelope ↦ ok (record {
      id = row.id;
      name = row.name;
      registered_at = row.created_at;
      status = status_text row;
      is_active = row.is_active;
      public_key = row.public_key;
      capabilities = caps;
      grants = summarize_grants grants;
      human_principal_id = row.human_principal_id;
      description = row.description;
      key_id = row.key_id;
      default_behavioral_envelope = envelope;
      model_origin = row.model_origin;
    })
  ]
]

unfoldable pub get_agent : ℕ → M AgentResponse
unfolding row_to_response
get_agent id = do
  found ← read_replica (Tables.get_agent id)
  row ← or_throw found (agent_not_found id)
  grants ← read_replica (Agents.list_grants_for_agent id)
  lift (row_to_response row grants)

-- An agent that is there but inactive counts as deleted.
confirm_exists : ℕ → M (Unit {0})
confirm_exists id = do
  exists ← read_replica (Tables.agent_exists id)
  throw_if (not exists) (agent_not_found id)

-- The deletion up to its audit event.
unfoldable pub deactivate : ℕ → M (Unit {0})
unfolding confirm_exists
deactivate id = do
  deactivated ← write_primary (Tables.deactivate_agent id)
  if deactivated then pure tt else confirm_exists id

module _ (r : Redis) (h : Sha) (crypto : Crypto) (json : Json) where
  unfoldable pub register_new :
      AgentManifest → Bytes → (db_now : ℕ) → Attempt → Prog (AppState r h) RegisterAgentResponse
  unfolding insert_agent
  register_new m signature db_now a =
      on_app_db r h
        (lift (map_err signature_verification_failed (crypto.verify_manifest_bytes m signature)))
      >> on_app_db r h (insert_agent crypto m signature db_now)
      >> recorded r h a (registered_event m (json.registered m.name m.model_origin))
      >> pure (record { status_code = 201; agent_id = m.id; status = "registered" })

  unfoldable pub register_agent :
      AgentManifest → Bytes → (db_now : ℕ) → Attempt → Prog (AppState r h) RegisterAgentResponse
  unfolding register_new
  register_agent m signature db_now a =
      on_app_db r h (read_primary (Tables.agent_exists m.id)) >>= λ exists.
      if exists
      then pure (record { status_code = 200; agent_id = m.id; status = "already_registered" })
      else register_new m signature db_now a

  -- `sign` is the backend's answer for the bytes of the manifest, `key_id` its key.
  unfoldable pub bootstrap_agent :
      String
      → AgentManifest
      → (sign : AgentManifest → Result String Bytes) → (key_id : String) → (now db_now : ℕ)
      → Attempt
      → Prog (AppState r h) BootstrapAgentResponse
  unfolding insert_agent
  bootstrap_agent otp m sign key_id now db_now a = do
    otp_valid ← on_world r h (on_cache (validate_and_consume_otp r otp now))
    throw_if (not otp_valid) otp_invalid
    exists ← on_app_db r h (read_primary (Tables.agent_exists m.id))
    throw_if exists agent_already_registered
    signature ← lift (map_err internal (sign m))
    on_app_db r h (insert_agent crypto m signature db_now)
    recorded r h a (registered_event m (json.bootstrapped m.name))
    pure (record { agent_id = m.id; key_ref = key_id })

  unfoldable pub delete_agent : ℕ → Attempt → Prog (AppState r h) (Unit {0})
  unfolding deactivate
  delete_agent id a =
      on_app_db r h (deactivate id)
      >> recorded r h a (record (new_event agent_revoked) { agent_id = some id })
