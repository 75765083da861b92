-- ===== src/Core/Tests.antt =====
-- Runs of the checks of the core types at concrete inputs.
use agent_auth.Prelude.{◌/◌, ◌%◌, ◌<◌, ◌≡◌, refl, ◌↔◌, true, none, [], ◌∷◌, arith, ok, from_secs}
use agent_auth.Core.Capability.{Capability, read, transact}
use agent_auth.Core.Envelope as Envelope
use agent_auth.Core.Envelope.{Calendar, TimeWindow, BehavioralEnvelope}
use agent_auth.Core.Envelope.Windows.{contains_iff, hours_since, OnDay}
use agent_auth.Core.Token.{AgentAccessToken, ApprovalAssertion, validate}
use agent_auth.Core.Token.Validity.{IsValid, token_validate_iff}
use agent_auth.Core.Manifest.{AgentManifest}

abbrev envelope : BehavioralEnvelope
envelope = record {
  max_requests_per_minute = 60;
  max_burst = 5;
  requires_human_online = true;
  human_confirmation_threshold = none;
  allowed_time_windows = [];
  max_session_duration_secs = 3600;
}

abbrev token : AgentAccessToken
token = record {
  jti = 1;
  agent_id = 2;
  human_principal_id = 3;
  service_provider_id = 4;
  granted_capabilities = read "files" none ∷ [];
  behavioral_envelope = envelope;
  issued_at = 0;
  expires_at = from_secs 900;
  confirmation = none;
  key_id = "k";
}

token-valid : validate token ≡ ok tt
unfolding validate Envelope.validate agent_auth.Core.Capability.validate_all
    agent_auth.Core.Capability.validate
token-valid = refl

token_validate_iff_example : (validate token ≡ ok tt) ↔ IsValid token
token_validate_iff_example = token_validate_iff token

abbrev assertion : ApprovalAssertion
assertion = record {
  grant_id = 1;
  agent_id = 2;
  granted_capabilities = transact "pay" 100 none ∷ [];
  behavioral_envelope = envelope;
  approved_at = 5;
  approval_nonce = 7 ∷ [];
  human_signature = "s";
  credential_id = "c";
  authenticator_data = "a";
  client_data_hash = "h";
}

abbrev manifest : AgentManifest
manifest = record {
  id = 1;
  public_key = "p";
  key_id = "k";
  capabilities_requested = read "files" none ∷ [];
  human_principal_id = 2;
  issued_at = 0;
  expires_at = 10;
  name = "agent";
  description = none;
  model_origin = none;
}

-- Instants count hours here, and day 0 is a Sunday.
abbrev hours : Calendar
hours = record {
  hour = λ t. t % 24;
  num_days_from_sunday = λ t. (t / 24) % 7;
  hour-lt = λ t. omega arith;
  num_days_from_sunday-lt = λ t. omega arith;
}

-- From 22 to 6 on Mondays.
abbrev night : TimeWindow
night = record { start_hour = 22; end_hour = 6; days_of_week = 1 ∷ [] }

contains_iff_example : (Envelope.contains hours night 26 ≡ true) ↔ (
    OnDay night.days_of_week (hours.num_days_from_sunday 26)
    × (hours_since night.start_hour (hours.hour 26) < hours_since night.start_hour night.end_hour))
contains_iff_example = contains_iff hours night 26 (omega arith)
