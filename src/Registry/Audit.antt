-- ===== src/Registry/Audit.antt =====
-- crates/registry/src/services/audit.rs: recording events in a hash chain, and
-- crates/registry/src/handlers/audit.rs: its verification for one agent. SHA-256, the bytes of a UUID
-- and of a text, and the signing backend are parameters. Event data is kept as the text of its JSON.
-- The rows stand in the order of their `created_at`, which the database stamps on insertion.
pub mod Chain
pub mod Tamper
pub mod Agents
mod Tests
use agent_auth.Prelude.{
  ℕ, zero, suc, ◌+◌, String, ◌≡◌, Bool, true, false, not, ◌&&◌, Option, none, some, List, [], ◌∷◌,
  ◌++◌, ◌==◌, if◌then◌else◌, length, keep, Result, ok, err,
}
use agent_auth.Registry.Error.{RegistryError, internal, database, agent_not_found}
use agent_auth.Registry.Tables.{Tables, agent_exists}
use agent_auth.Registry.Db.{Fault, answers, lost_before, lost_after}

abbrev pub Bytes : Type 0
Bytes = List ℕ

-- The encodings and the hash. A digest has 32 bytes.
pub record Sha : Type 0 where
  pub sha256 : Bytes → Bytes
  pub uuid_bytes : ℕ → Bytes
  pub as_bytes : String → Bytes
  pub length-sha256 : (bs : Bytes) → length (sha256 bs) ≡ 32

pub data AuditEventType : Type 0 where
  agent_registered agent_updated agent_revoked : AuditEventType
  grant_requested grant_approved grant_denied grant_revoked : AuditEventType
  token_issued token_verified_allowed token_verified_denied token_revoked : AuditEventType
  rate_limit_exceeded security_violation : AuditEventType

unfoldable pub as_str : AuditEventType → String
as_str agent_registered = "agent_registered"
as_str agent_updated = "agent_updated"
as_str agent_revoked = "agent_revoked"
as_str grant_requested = "grant_requested"
as_str grant_approved = "grant_approved"
as_str grant_denied = "grant_denied"
as_str grant_revoked = "grant_revoked"
as_str token_issued = "token_issued"
as_str token_verified_allowed = "token_verified_allowed"
as_str token_verified_denied = "token_verified_denied"
as_str token_revoked = "token_revoked"
as_str rate_limit_exceeded = "rate_limit_exceeded"
as_str security_violation = "security_violation"

pub record AuditEvent : Type 0 where
  pub event_type : Option AuditEventType
  pub agent_id : Option ℕ
  pub service_provider_id : Option ℕ
  pub human_principal_id : Option ℕ
  pub grant_id : Option ℕ
  pub token_jti : Option ℕ
  pub event_data : String
  pub outcome : String
  pub error_message : Option String
  pub source_ip : Option String
  pub user_agent : Option String
  pub request_id : Option ℕ
  pub trace_id : Option String

-- A row of audit_events.
pub record AuditRow : Type 0 where
  pub id : ℕ
  pub event_type : String
  pub agent_id : Option ℕ
  pub service_provider_id : Option ℕ
  pub human_principal_id : Option ℕ
  pub grant_id : Option ℕ
  pub token_jti : Option ℕ
  pub event_data : String
  pub outcome : String
  pub error_message : Option String
  pub source_ip : Option String
  pub user_agent : Option String
  pub request_id : Option ℕ
  pub trace_id : Option String
  pub previous_event_hash : Bytes
  pub row_hash : Bytes
  pub registry_signature : Bytes

-- The table and the hash that the service keeps in memory.
pub record AuditService : Type 0 where
  pub rows : List AuditRow
  pub previous_hash : Bytes

-- [0u8; 32]
abbrev pub genesis : Bytes
genesis = zeros 32
  where
    zeros : ℕ → Bytes
    zeros zero = []
    zeros (suc n) = 0 ∷ zeros n

-- A start of the service: the hash is that of an empty chain, whatever the table holds.
unfoldable pub new : List AuditRow → AuditService
new rows = record { rows = rows; previous_hash = genesis }

-- `==` on arrays of bytes.
abbrev pub bytes_eq : Bytes → Bytes → Bool
bytes_eq [] [] = true
bytes_eq (x ∷ xs) (y ∷ ys) = x == y && bytes_eq xs ys
bytes_eq [] (y ∷ ys) = false
bytes_eq (x ∷ xs) [] = false

pub data ChainError : Type 0 where
  previous_hash_mismatch row_hash_mismatch : ℕ → ChainError

pub record AuditChainVerifyResponse : Type 0 where
  pub valid : Bool
  pub events_verified : ℕ  -- u64
  pub first_event_id : Option ℕ
  pub last_event_id : Option ℕ
  pub error : Option ChainError

module _ (h : Sha) where
  abbrev pub optional : Option ℕ → Bytes
  optional none = []
  optional (some id) = h.uuid_bytes id

  unfoldable pub hash_chain_event : Bytes → Bytes → Bytes
  hash_chain_event previous content = h.sha256 (previous ++ content)

  abbrev pub type_bytes : Option AuditEventType → Bytes
  type_bytes none = []
  type_bytes (some t) = h.as_bytes (as_str t)

  -- What is fed to the hasher for an event, in order.
  unfoldable pub hash_input : ℕ → AuditEvent → Bytes
  hash_input event_id e =
      h.uuid_bytes event_id
      ++ (type_bytes e.event_type
          ++ (optional e.agent_id
              ++ (optional e.service_provider_id
                  ++ (optional e.human_principal_id
                      ++ (optional e.grant_id
                          ++ (optional e.token_jti
                              ++ (h.as_bytes e.event_data ++ h.as_bytes e.outcome)))))))

  unfoldable pub build_hash_content : ℕ → AuditEvent → Bytes
  build_hash_content event_id e = h.sha256 (hash_input event_id e)

  -- What is fed to the hasher for a row.
  unfoldable pub row_input : AuditRow → Bytes
  row_input r =
      h.uuid_bytes r.id
      ++ (h.as_bytes r.event_type
          ++ (optional r.agent_id
              ++ (optional r.service_provider_id
                  ++ (optional r.human_principal_id
                      ++ (optional r.grant_id
                          ++ (optional r.token_jti
                              ++ (h.as_bytes r.event_data ++ h.as_bytes r.outcome)))))))

  unfoldable pub build_verification_content : AuditRow → Bytes
  build_verification_content r = h.sha256 (row_input r)

  abbrev pub row_for : ℕ → AuditEventType → AuditEvent → Bytes → Bytes → AuditRow
  row_for event_id t e previous signature = record {
    id = event_id;
    event_type = as_str t;
    agent_id = e.agent_id;
    service_provider_id = e.service_provider_id;
    human_principal_id = e.human_principal_id;
    grant_id = e.grant_id;
    token_jti = e.token_jti;
    event_data = e.event_data;
    outcome = e.outcome;
    error_message = e.error_message;
    source_ip = e.source_ip;
    user_agent = e.user_agent;
    request_id = e.request_id;
    trace_id = e.trace_id;
    previous_event_hash = previous;
    row_hash = hash_chain_event previous (build_hash_content event_id e);
    registry_signature = signature;
  }

  -- The insertion with a given fate; the hash in memory moves on only after an answer.
  insert_and_advance : AuditRow → Fault → AuditService → Result RegistryError ℕ × AuditService
  insert_and_advance row answers s =
      (ok row.id, record { rows = s.rows ++ (row ∷ []); previous_hash = row.row_hash })
  insert_and_advance row lost_before s = (err database, s)
  insert_and_advance row lost_after s = (err database, record s { rows = s.rows ++ (row ∷ []) })

  sign_and_insert :
      ℕ
      → AuditEvent
      → AuditEventType
      → Result String Bytes
      → Fault
      → AuditService
      → Result RegistryError ℕ × AuditService
  unfolding insert_and_advance
  sign_and_insert event_id e t (err _) fate s = (err (internal "failed to sign audit event"), s)
  sign_and_insert event_id e t (ok signature) fate s =
      insert_and_advance (row_for event_id t e s.previous_hash signature) fate s

  with_type :
      ℕ
      → AuditEvent
      → Option AuditEventType
      → (Bytes → Result String Bytes)
      → Fault
      → AuditService
      → Result RegistryError ℕ × AuditService
  unfolding sign_and_insert
  with_type event_id e none sign fate s = (err (internal "audit event type required"), s)
  with_type event_id e (some t) sign fate s =
      sign_and_insert event_id e t
        (sign (hash_chain_event s.previous_hash (build_hash_content event_id e))) fate s

  -- `event_id` is fresh, `sign` the backend's answer for a digest, `fate` that of the insertion.
  unfoldable pub record_event :
      ℕ
      → AuditEvent
      → (Bytes → Result String Bytes)
      → Fault
      → AuditService
      → Result RegistryError ℕ × AuditService
  unfolding with_type
  record_event event_id e sign fate s = with_type event_id e e.event_type sign fate s

  abbrev broken : Option ℕ → ℕ → ℕ → ChainError → AuditChainVerifyResponse
  broken first verified at e = record {
    valid = false;
    events_verified = verified;
    first_event_id = first;
    last_event_id = some at;
    error = some e;
  }

  -- The loop of the verification, from the expected hash and the count so far. The stored hashes, which
  -- the query copies into 32 bytes each, are taken to have that length.
  unfoldable pub verify_rows :
      (first last : Option ℕ) → Bytes → ℕ → List AuditRow → AuditChainVerifyResponse
  verify_rows first last expected verified [] = record {
    valid = true;
    events_verified = verified;
    first_event_id = first;
    last_event_id = last;
    error = none;
  }
  verify_rows first last expected verified (event ∷ events) =
      let rest = verify_rows first last event.row_hash (verified + 1) events in
      if not (bytes_eq event.previous_event_hash expected)
      then broken first verified event.id (previous_hash_mismatch event.id)
      else (if not
            (bytes_eq event.row_hash (hash_chain_event expected (build_verification_content event)))
          then broken first verified event.id (row_hash_mismatch event.id)
          else rest)

  abbrev pub is_agent : ℕ → AuditRow → Bool
  is_agent agent_id row = elim row.agent_id [ none ↦ false | some a ↦ a == agent_id ]

  abbrev pub first_id : List AuditRow → Option ℕ
  first_id [] = none
  first_id (r ∷ rs) = some r.id

  abbrev pub last_id : List AuditRow → Option ℕ
  last_id [] = none
  last_id (r ∷ []) = some r.id
  last_id (r ∷ s ∷ rs) = last_id (s ∷ rs)

  -- The body on the rows that the query returns. With no row the loop answers at once, as the early
  -- return does.
  unfoldable pub verify_events : List AuditRow → AuditChainVerifyResponse
  unfolding verify_rows
  verify_events events = verify_rows (first_id events) (last_id events) genesis 0 events

  -- The handler, once both queries are answered.
  unfoldable pub verify_agent_audit_chain :
      ℕ → Tables → List AuditRow → Result RegistryError AuditChainVerifyResponse
  unfolding verify_events
  verify_agent_audit_chain agent_id tables rows =
      if not (agent_exists agent_id tables)
      then err (agent_not_found agent_id)
      else ok (verify_events (keep (is_agent agent_id) rows))
