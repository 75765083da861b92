-- ===== src/Registry/Audit/Tests.antt =====
-- Runs of the audit chain at concrete inputs, with a sum in place of the hash.
use agent_auth.Prelude.{
  ℕ, zero, suc, ◌+◌, ◌*◌, ◌%◌, String, ◌≡◌, refl, ◌⊎◌, true, false, none, some, List, [], ◌∷◌,
  length, keep, Result, ok,
}
use agent_auth.Registry.Tables as Tables
use agent_auth.Registry.Tables.{AgentRow, agent_exists}
use agent_auth.Registry.Db.{answers, lost_before}
use agent_auth.Registry.Audit.{
  Bytes, Sha, AuditEvent, grant_requested, AuditRow, new, genesis, record_event, verify_events,
  verify_agent_audit_chain, is_agent, hash_chain_event, build_verification_content,
}
use agent_auth.Registry.Audit.Chain.{Recording, record_all, chain_verified}
use agent_auth.Registry.Audit.Tamper.{Collision, inputs, tamper_evident}
use agent_auth.Registry.Audit.Agents.{one, second_agent_fails}

abbrev total : Bytes → ℕ
total [] = 1
total (x ∷ xs) = x + total xs

abbrev repeat : ℕ → ℕ → Bytes
repeat zero x = []
repeat (suc n) x = x ∷ repeat n x

abbrev sum : Sha
sum = record {
  sha256 = λ bs. repeat 32 (total bs % 256);
  uuid_bytes = λ id. id ∷ [];
  as_bytes = λ s. [];
  length-sha256 = λ bs. refl;
}

abbrev event : ℕ → AuditEvent
event agent_id = record {
  event_type = some grant_requested;
  agent_id = some agent_id;
  service_provider_id = none;
  human_principal_id = none;
  grant_id = some 5;
  token_jti = none;
  event_data = "{}";
  outcome = "success";
  error_message = none;
  source_ip = none;
  user_agent = none;
  request_id = none;
  trace_id = none;
}

abbrev agent : AgentRow
agent = record {
  id = 1;
  human_principal_id = 3;
  name = "agent";
  description = none;
  public_key = [];
  key_id = "k";
  requested_capabilities = none;
  default_behavioral_envelope = none;
  model_origin = none;
  signature = [];
  issued_at = 0;
  expires_at = 100000;
  is_active = true;
  created_at = 0;
}

abbrev tables : Tables.Tables
tables = record { agents = agent ∷ []; service_providers = []; grants = []; tokens = [] }

abbrev sign : Bytes → Result String Bytes
sign digest = ok digest

-- Two events are recorded; the insertion of one between them fails.
abbrev recordings : List (Recording sum)
recordings =
    record { id = 1; event = event 1; sign = sign; fate = answers }
    ∷ record { id = 2; event = event 1; sign = sign; fate = lost_before }
    ∷ record { id = 3; event = event 1; sign = sign; fate = answers }
    ∷ []

chain_verified_example :
    let rows = (record_all sum recordings (new [])).rows in
    (verify_agent_audit_chain sum 1 tables rows ≡ ok (verify_events sum rows))
    × ((verify_events sum rows).valid ≡ true)
    × ((verify_events sum rows).events_verified ≡ length rows)
chain_verified_example =
    chain_verified sum 1 tables recordings (unfold agent_exists in refl)
      ((λ e. cc), ((λ e. cc), ((λ e. cc), tt))) (refl, (refl, (refl, tt)))

second_agent_fails_example :
    ((verify_events sum (
        keep
          (is_agent sum 2)
          (record_event sum 7
            (event 2)
            sign
            answers
            (one sum 6 (event 1) sign answers).1).1.rows)).valid
      ≡ false)
    ⊎ ((x : Bytes) × (sum.sha256 x ≡ genesis))
second_agent_fails_example =
    second_agent_fails sum 1 2 6 7 (event 1) (event 2) sign sign answers answers refl refl refl
      (unfold record_event in refl) (unfold record_event in refl)

-- A chain of one event, which tells its identifier by one byte.
abbrev row : ℕ → AuditRow
row id = record {
  id = id;
  event_type = "grant_requested";
  agent_id = none;
  service_provider_id = none;
  human_principal_id = none;
  grant_id = none;
  token_jti = none;
  event_data = "{}";
  outcome = "success";
  error_message = none;
  source_ip = none;
  user_agent = none;
  request_id = none;
  trace_id = none;
  previous_event_hash = genesis;
  row_hash = repeat 32 ((1 + 32 * ((1 + id) % 256)) % 256);
  registry_signature = [];
}

row-valid : (verify_events sum (row 9 ∷ [])).valid ≡ true
unfolding verify_events hash_chain_event build_verification_content
    agent_auth.Registry.Audit.row_input
row-valid = refl

-- The same identifier but for a multiple of 256, which the sum does not see.
row-valid-too : (verify_events sum (row 265 ∷ [])).valid ≡ true
unfolding verify_events hash_chain_event build_verification_content
    agent_auth.Registry.Audit.row_input
row-valid-too = refl

tamper_evident_example : Collision sum ⊎ (inputs sum (row 9 ∷ []) ≡ inputs sum (row 265 ∷ []))
tamper_evident_example =
    tamper_evident sum (row 9 ∷ []) (row 265 ∷ []) refl row-valid row-valid-too refl
