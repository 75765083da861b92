-- ===== src/Core/Token.antt =====
-- crates/core/src/types/token.rs: the access token of an agent, the approval of a grant, and the
-- states of a grant. A UUID is a number. What is serialised (canonical bytes) is not modelled.
pub mod Validity
pub mod Lifetime
use agent_auth.Prelude.{
  ℕ, ◌-◌, String, Bool, true, false, not, ◌&&◌, Option, List, leb, str_eq, is_empty, null, any,
  Result, ◌>>=◌, ◌>>◌, fail_if, pos, pos_part, leb_ℤ, from_secs, num_seconds_between,
}
use agent_auth.Core.Error.{
  CoreError, validation, expires_before_issued, lifetime_exceeds, no_capabilities, no_key_id,
  no_human_signature, no_credential_id,
}
use agent_auth.Core.Capability
use agent_auth.Core.Capability.{Capability}
use agent_auth.Core.Envelope
use agent_auth.Core.Envelope.{BehavioralEnvelope}

pub record AgentAccessToken : Type 0 where
  pub jti : ℕ
  pub agent_id : ℕ
  pub human_principal_id : ℕ
  pub service_provider_id : ℕ
  pub granted_capabilities : List Capability
  pub behavioral_envelope : BehavioralEnvelope
  pub issued_at : ℕ
  pub expires_at : ℕ
  pub confirmation : Option String
  pub key_id : String

-- 15 minutes
abbrev pub max_lifetime_secs : ℕ
max_lifetime_secs = 900

-- The lifetime is a signed number of whole seconds.
unfoldable pub validate : AgentAccessToken → Result CoreError (Unit {0})
validate t = do
  let lifetime = num_seconds_between t.expires_at t.issued_at
  fail_if (leb_ℤ lifetime (pos 0)) (validation expires_before_issued)
  fail_if (not (leb_ℤ lifetime (pos max_lifetime_secs)))
      (validation (lifetime_exceeds (pos_part lifetime) max_lifetime_secs))
  fail_if (null t.granted_capabilities) (validation no_capabilities)
  fail_if (is_empty t.key_id) (validation no_key_id)
  Envelope.validate t.behavioral_envelope
  Capability.validate_all t.granted_capabilities

-- `now` is what `Utc::now()` returns.
unfoldable pub is_expired : AgentAccessToken → ℕ → Bool
is_expired t now = leb t.expires_at now

-- `expires_at` less 120 seconds; the difference stops at the origin, before which no clock reads.
unfoldable pub should_refresh : AgentAccessToken → ℕ → Bool
should_refresh t now = leb (t.expires_at - from_secs 120) now

unfoldable pub has_capability : AgentAccessToken → String → String → Bool
has_capability t cap_type res =
    any (λ c. str_eq (Capability.capability_type c) cap_type && str_eq (Capability.resource c) res)
      t.granted_capabilities

pub record ApprovalAssertion : Type 0 where
  pub grant_id : ℕ
  pub agent_id : ℕ
  pub granted_capabilities : List Capability
  pub behavioral_envelope : BehavioralEnvelope
  pub approved_at : ℕ
  pub approval_nonce : List ℕ
  pub human_signature : String
  pub credential_id : String
  pub authenticator_data : String
  pub client_data_hash : String

unfoldable pub validate_assertion : ApprovalAssertion → Result CoreError (Unit {0})
validate_assertion a = do
  fail_if (null a.granted_capabilities) (validation no_capabilities)
  fail_if (is_empty a.human_signature) (validation no_human_signature)
  fail_if (is_empty a.credential_id) (validation no_credential_id)
  Envelope.validate a.behavioral_envelope
  Capability.validate_all a.granted_capabilities

pub data GrantStatus : Type 0 where
  pending approved denied expired revoked : GrantStatus

-- `PartialEq` of the source's enum.
abbrev pub status_eq : GrantStatus → GrantStatus → Bool
status_eq pending pending = true
status_eq approved approved = true
status_eq denied denied = true
status_eq expired expired = true
status_eq revoked revoked = true
status_eq _ _ = false

pub record CapabilityGrant : Type 0 where
  pub id : ℕ
  pub agent_id : ℕ
  pub service_provider_id : ℕ
  pub human_principal_id : ℕ
  pub requested_capabilities : List Capability
  pub requested_envelope : BehavioralEnvelope
  pub status : GrantStatus
  pub created_at : ℕ
  pub expires_at : ℕ
  pub approved_at : Option ℕ
  pub approval_assertion : Option ApprovalAssertion
