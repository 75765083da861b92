-- ===== src/Core/Error.antt =====
-- crates/core/src/error.rs: the errors that the checks of the protocol types return. A reason
-- stands for the text of the message, with the numbers that the message prints.
use agent_auth.Prelude.{ℕ}

pub data CapabilityReason : Type 0 where
  empty_resource zero_max_value empty_namespace empty_name : CapabilityReason

pub data EnvelopeReason : Type 0 where
  start_hour_invalid end_hour_invalid day_of_week_invalid : ℕ → EnvelopeReason
  burst_exceeds_rate : ℕ → ℕ → EnvelopeReason
  zero_rate zero_burst zero_session : EnvelopeReason

pub data ValidationReason : Type 0 where
  expires_before_issued : ValidationReason
  lifetime_exceeds : ℕ → ℕ → ValidationReason
  no_capabilities no_key_id no_public_key no_human_signature no_credential_id : ValidationReason

pub data CoreError : Type 0 where
  invalid_capability : CapabilityReason → CoreError
  invalid_envelope : EnvelopeReason → CoreError
  validation : ValidationReason → CoreError
