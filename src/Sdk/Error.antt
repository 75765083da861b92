-- ===== src/Sdk/Error.antt =====
-- crates/sdk/src/error.rs: the errors of the client and which of them are worth another attempt.
use agent_auth.Prelude.{ℕ, String, Bool, true, false, ◌&&◌, ◌||◌, leb, ◌==◌}

pub data SdkError : Type 0 where
  registry_error : String → String → ℕ → SdkError  -- status: u16
  grant_denied grant_pending grant_expired agent_revoked : String → SdkError
  token_expired time_window_restriction human_confirmation_required timeout : SdkError
  rate_limit_exceeded crypto_error network_error config_error : String → SdkError
  serialization_error capability_not_granted internal_error : String → SdkError

abbrev pub is_transient_status : ℕ → Bool
is_transient_status status = leb 502 status && leb status 504

abbrev pub is_client_error : ℕ → Bool
is_client_error status =
    status == 400
    || (status == 401 || (status == 403 || (status == 404 || (status == 409 || status == 422))))

unfoldable pub is_transient : SdkError → Bool
is_transient (network_error _) = true
is_transient timeout = true
is_transient (registry_error _ _ status) = is_transient_status status
is_transient _ = false

unfoldable pub is_permanent : SdkError → Bool
is_permanent (grant_denied _) = true
is_permanent (agent_revoked _) = true
is_permanent (config_error _) = true
is_permanent (capability_not_granted _) = true
is_permanent (registry_error _ _ status) = is_client_error status
is_permanent _ = false
