-- ===== src/Registry/Error.antt =====
-- crates/registry/src/error.rs: the errors of the registry and the HTTP status of each. An
-- identifier or a text stands for the message that the source formats from it.
use agent_auth.Prelude.{ℕ, String}
use agent_auth.Core.Error.{CoreError}

pub data RegistryError : Type 0 where
  agent_not_found grant_not_found grant_not_approved token_not_found : ℕ → RegistryError
  invalid_manifest invalid_capability invalid_approval_assertion : String → RegistryError
  grant_already_exists grant_not_pending too_many_pending_grants grant_expired : RegistryError
  token_already_revoked agent_already_registered otp_already_used otp_invalid : RegistryError
  signature_verification_failed : String → RegistryError
  database : RegistryError
  cache : String → RegistryError
  crypto : CoreError → RegistryError
  rate_limited : RegistryError
  cooldown_active : ℕ → RegistryError
  service_unavailable internal : String → RegistryError
