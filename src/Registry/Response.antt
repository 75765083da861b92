-- ===== src/Registry/Response.antt =====
-- crates/registry/src/error.rs: the response that a registry error becomes, and its body, a JSON object
-- whose fields stand as texts. The message is the one that `Display` formats.
use agent_auth.Prelude.{ℕ, String, Option, none, some, List, [], ◌∷◌}
use agent_auth.Registry.Error.{
  RegistryError, agent_not_found, grant_not_found, grant_not_approved, token_not_found,
  invalid_manifest, invalid_capability, invalid_approval_assertion, grant_already_exists,
  grant_not_pending, too_many_pending_grants, grant_expired, token_already_revoked,
  agent_already_registered, otp_already_used, otp_invalid, signature_verification_failed, database,
  cache, crypto, rate_limited, cooldown_active, service_unavailable, internal,
}

-- The status, the code, and the seconds to wait.
unfoldable pub classify : RegistryError → ℕ × String × Option ℕ
classify (agent_not_found _) = (404, "agent_not_found", none)
classify (grant_not_found _) = (404, "grant_not_found", none)
classify (grant_not_approved _) = (409, "grant_not_approved", none)
classify (token_not_found _) = (404, "token_not_found", none)
classify (invalid_manifest _) = (400, "invalid_manifest", none)
classify (invalid_capability _) = (400, "invalid_capability", none)
classify (invalid_approval_assertion _) = (400, "invalid_approval_assertion", none)
classify grant_already_exists = (409, "grant_already_exists", none)
classify grant_not_pending = (409, "grant_not_pending", none)
classify too_many_pending_grants = (429, "too_many_pending_grants", none)
classify grant_expired = (410, "grant_expired", none)
classify token_already_revoked = (409, "token_already_revoked", none)
classify agent_already_registered = (409, "agent_already_registered", none)
classify otp_already_used = (409, "otp_already_used", none)
classify otp_invalid = (401, "otp_invalid", none)
classify (signature_verification_failed _) = (401, "signature_verification_failed", none)
classify database = (500, "database_error", none)
classify (cache _) = (500, "cache_error", none)
classify (crypto _) = (500, "crypto_error", none)
classify rate_limited = (429, "rate_limited", some 60)
classify (cooldown_active secs) = (429, "cooldown_active", some secs)
classify (service_unavailable _) = (503, "service_unavailable", none)
classify (internal _) = (500, "internal_error", none)

-- A JSON object, as the texts of its fields.
abbrev pub Fields : Type 0
Fields = List (String × String)

module _ (to_string : RegistryError → String) (number : ℕ → String) where
  abbrev pub retry_field : Option ℕ → Fields
  retry_field none = []
  retry_field (some secs) = ("retry_after", number secs) ∷ []

  -- The status and the body.
  unfoldable pub into_response : RegistryError → ℕ × Fields
  unfolding classify
  into_response e = (
    (classify e).0,
    ("error", (classify e).1) ∷ ("message", to_string e) ∷ retry_field (classify e).2,
  )
