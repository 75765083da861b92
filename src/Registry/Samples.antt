-- ===== src/Registry/Samples.antt =====
-- Concrete states, requests and configurations of the registry, for its tests.
use agent_auth.Prelude.{refl, true, false, none, some, [], ◌∷◌, ◌==◌, if◌then◌else◌, from_secs}
use agent_auth.Core.Capability.{Capability, transact}
use agent_auth.Core.Envelope.{BehavioralEnvelope}
use agent_auth.Core.Token.{AgentAccessToken, CapabilityGrant, pending, approved}
use agent_auth.Registry.Tables as Tables
use agent_auth.Registry.Tables.{AgentRow, GrantEntry, TokenRow}
use agent_auth.Registry.Db.{Db, answers, lost_before}
use agent_auth.Registry.World.{World}
use agent_auth.Registry.Server.{server, empty, with_token}
use agent_auth.Registry.Grants.{GrantConfig}
use agent_auth.Registry.Tokens.{TokenConfig}
use agent_auth.Registry.Tokens.Issue.{Request, new_token}
use agent_auth.Registry.Audit.{Sha, genesis}
use agent_auth.Registry.App.{AppState}
use agent_auth.Registry.TokenHandler.{IssueTokenRequest}

abbrev pub envelope : BehavioralEnvelope
envelope = record {
  max_requests_per_minute = 60;
  max_burst = 5;
  requires_human_online = true;
  human_confirmation_threshold = none;
  allowed_time_windows = [];
  max_session_duration_secs = 3600;
}

abbrev pub payment : Capability
payment = transact "pay" 100 none

abbrev pub agent : AgentRow
agent = record {
  id = 1;
  human_principal_id = 3;
  name = "agent";
  description = none;
  public_key = [];
  key_id = "k";
  requested_capabilities = none;
  default_behavioral_envelope = none;
  model_origin = none;
  signature = [];
  issued_at = 0;
  expires_at = from_secs 100000;
  is_active = true;
  created_at = 0;
}

abbrev pub waiting : GrantEntry
waiting = record {
  id = 5;
  agent_id = 1;
  service_provider_id = 2;
  approved_by = none;
  granted_capabilities = some (payment ∷ []);
  behavioral_envelope = some envelope;
  status = pending;
  approval_nonce = none;
  approval_signature = none;
  requested_at = 0;
  decided_at = none;
  expires_at = 1000;
}

abbrev pub issued : TokenRow
issued = record {
  jti = 7;
  grant_id = 5;
  agent_id = 1;
  service_provider_id = 2;
  human_principal_id = 3;
  key_id = "k";
  token_binding = none;
  granted_capabilities = some (payment ∷ []);
  behavioral_envelope = some envelope;
  issued_at = 0;
  expires_at = from_secs 900;
  is_revoked = false;
  revoked_at = none;
  revocation_reason = none;
}

abbrev pub tables : Tables.Tables
tables = record {
  agents = agent ∷ [];
  service_providers = (2, "provider") ∷ [];
  grants = waiting ∷ [];
  tokens = issued ∷ [];
}

abbrev pub db : Db
db = record { primary = tables; replica = tables; fault = λ n. answers }

abbrev pub config : GrantConfig
config = record { max_pending_per_agent = 1; expiry_secs = 3600 }

abbrev pub world : World server
world = record {
  db = db;
  cache = record {
    store =
        with_token 0 7 (record { service_provider_id = 2; expires_at = 900; is_revoked = false })
          900 empty;
    fault = λ n. answers;
  };
}

-- The first request to the cache is lost.
abbrev pub losing : World server
losing = record world {
  cache = record world.cache { fault = λ n. if n == 0 then lost_before else answers };
}

-- What the approval of the waiting grant at 200 returns.
abbrev pub approval : CapabilityGrant
approval = record {
  id = 5;
  agent_id = 1;
  service_provider_id = 2;
  human_principal_id = 3;
  requested_capabilities = payment ∷ [];
  requested_envelope = envelope;
  status = approved;
  created_at = 0;
  expires_at = 1000;
  approved_at = some 202;
  approval_assertion = none;
}

abbrev pub token_config : TokenConfig
token_config = record { lifetime_secs = 900; idempotency_window_secs = 60 }

abbrev pub ask : Request
ask = record {
  agent_id = 1;
  sp = 2;
  human = 3;
  caps = payment ∷ [];
  envelope = envelope;
  binding = none;
  jti = 8;
  asked_at = from_secs 100;
  now = from_secs 101;
  cached_at = from_secs 102;
}

abbrev pub ask_again : Request
ask_again = record ask {
  jti = 9;
  asked_at = from_secs 130;
  now = from_secs 131;
  cached_at = from_secs 132;
}

abbrev pub sha : Sha
sha = record {
  sha256 = λ bs. genesis;
  uuid_bytes = λ id. id ∷ [];
  as_bytes = λ s. [];
  length-sha256 = λ bs. refl;
}

-- The waiting grant, once it is approved, on the replica too.
abbrev pub app : AppState server sha
app = record {
  world = record world {
    db = record db {
      replica = record tables { grants = record waiting { status = approved } ∷ [] };
    };
  };
  audit = record { rows = []; previous_hash = genesis };
}

abbrev pub simple : IssueTokenRequest
simple = record {
  grant_id = 5;
  agent_id = none;
  service_provider_id = none;
  human_principal_id = none;
  capabilities = none;
  behavioral_envelope = none;
  token_binding = none;
  dpop_thumbprint = none;
}

abbrev pub handed : AgentAccessToken
handed = new_token token_config "k" ask
