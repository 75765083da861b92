-- ===== src/Registry/App.antt =====
-- crates/registry/src/state.rs: the state that the handlers share, and the way they record an audit
-- event, whose outcome none of them looks at.
use agent_auth.Prelude.{ℕ, String, Option, none, some, Result, ok}
use agent_auth.Core.Manifest.{AgentManifest}
use agent_auth.Registry.Db.{Fault, Prog, Db}
use agent_auth.Registry.Cache.{Redis}
use agent_auth.Registry.World.{World, on_db}
use agent_auth.Registry.Audit.{Bytes, Sha, AuditEvent, AuditEventType, AuditService, record_event}

-- `AuditEvent::new`
unfoldable pub new_event : AuditEventType → AuditEvent
new_event t = record {
  event_type = some t;
  agent_id = none;
  service_provider_id = none;
  human_principal_id = none;
  grant_id = none;
  token_jti = none;
  event_data = "{}";
  outcome = "success";
  error_message = none;
  source_ip = none;
  user_agent = none;
  request_id = none;
  trace_id = none;
}

-- What a recording meets: its fresh identifier, the signing backend and the fate of the insertion.
pub record Attempt : Type 0 where
  pub event_id : ℕ
  pub sign : Bytes → Result String Bytes
  pub fate : Fault

-- The texts that serde_json makes of the data of an event.
pub record Json : Type 0 where
  pub registered : (name : String) → (model_origin : Option String) → String
  pub bootstrapped : (name : String) → String
  pub capabilities_count : ℕ → String
  pub reason : Option String → String

-- What the handlers use of the cryptography: the check of a manifest's signature, and base64.
pub record Crypto : Type 0 where
  pub verify_manifest_bytes : AgentManifest → Bytes → Result String (Unit {0})
  pub decode : String → Result String Bytes

module _ (r : Redis) (h : Sha) where
  pub record AppState : Type 0 where
    pub world : World r
    pub audit : AuditService

  abbrev pub on_world : {A : Type 0} → Prog (World r) A → Prog AppState A
  on_world m s = ((m s.world).0, record s { world = (m s.world).1 })

  abbrev pub on_app_db : {A : Type 0} → Prog Db A → Prog AppState A
  on_app_db m = on_world (on_db m)

  -- `let _ = state.audit.record(…).await;`
  abbrev pub recorded : Attempt → AuditEvent → Prog AppState (Unit {0})
  recorded a e s =
      (ok tt, record s { audit = (record_event h a.event_id e a.sign a.fate s.audit).1 })
