-- ===== src/Core/Token/Validity.antt =====
-- What an accepted token, and an accepted approval, is.
use agent_auth.Prelude.{
  ◌+◌, ◌≤◌, ◌<◌, ◌≡◌, ◌↔◌, false, arith, is_empty, null, All, ok, nanos_per_sec, from_secs,
}
use agent_auth.Core.Capability.Validity as CapabilityValidity
use agent_auth.Core.Envelope.Validity as EnvelopeValidity
use agent_auth.Core.Token.{
  AgentAccessToken, ApprovalAssertion, validate, validate_assertion, max_lifetime_secs,
}

pub record IsValid (t : AgentAccessToken) : Type 0 where
  pub lives : t.issued_at + nanos_per_sec ≤ t.expires_at
  pub short_lived : t.expires_at < t.issued_at + from_secs (max_lifetime_secs + 1)
  pub grants_something : null t.granted_capabilities ≡ false
  pub has_key : is_empty t.key_id ≡ false
  pub envelope : EnvelopeValidity.IsValid t.behavioral_envelope
  pub capabilities : All CapabilityValidity.IsValid t.granted_capabilities

-- A token passes its checks exactly when it lives at least one second and less than 901, grants
-- something, names its key, and has a valid envelope and only valid capabilities.
pub token_validate_iff : (t : AgentAccessToken) → (validate t ≡ ok tt) ↔ IsValid t
unfolding validate
token_validate_iff t = ground (
  arith,
  EnvelopeValidity.envelope_validate_iff t.behavioral_envelope,
  CapabilityValidity.validate_all_iff t.granted_capabilities,
)

pub record IsValidAssertion (a : ApprovalAssertion) : Type 0 where
  pub grants_something : null a.granted_capabilities ≡ false
  pub signed : is_empty a.human_signature ≡ false
  pub has_credential : is_empty a.credential_id ≡ false
  pub envelope : EnvelopeValidity.IsValid a.behavioral_envelope
  pub capabilities : All CapabilityValidity.IsValid a.granted_capabilities

-- An approval passes exactly when it grants something, carries a signature and a credential, and
-- has a valid envelope and only valid capabilities.
pub validate_assertion_iff :
    (a : ApprovalAssertion) → (validate_assertion a ≡ ok tt) ↔ IsValidAssertion a
unfolding validate_assertion
validate_assertion_iff a = ground (
  arith,
  EnvelopeValidity.envelope_validate_iff a.behavioral_envelope,
  CapabilityValidity.validate_all_iff a.granted_capabilities,
)
