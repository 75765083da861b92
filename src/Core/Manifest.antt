-- ===== src/Core/Manifest.antt =====
-- crates/core/src/types/agent.rs: the identity document of an agent.
use agent_auth.Prelude.{
  ℕ, ◌<◌, String, ◌≡◌, ◌↔◌, false, Option, List, arith, leb, is_empty, null, All, Result, ok, ◌>>◌,
  fail_if,
}
use agent_auth.Core.Error.{
  CoreError, validation, expires_before_issued, no_capabilities, no_key_id, no_public_key,
}
use agent_auth.Core.Capability
use agent_auth.Core.Capability.{Capability}
use agent_auth.Core.Capability.Validity

pub record AgentManifest : Type 0 where
  pub id : ℕ
  pub public_key : String
  pub key_id : String
  pub capabilities_requested : List Capability
  pub human_principal_id : ℕ
  pub issued_at : ℕ
  pub expires_at : ℕ
  pub name : String
  pub description : Option String
  pub model_origin : Option String

unfoldable pub validate : AgentManifest → Result CoreError (Unit {0})
validate m = do
  fail_if (leb m.expires_at m.issued_at) (validation expires_before_issued)
  fail_if (is_empty m.public_key) (validation no_public_key)
  fail_if (is_empty m.key_id) (validation no_key_id)
  fail_if (null m.capabilities_requested) (validation no_capabilities)
  Capability.validate_all m.capabilities_requested

pub record IsValid (m : AgentManifest) : Type 0 where
  pub lives : m.issued_at < m.expires_at
  pub has_public_key : is_empty m.public_key ≡ false
  pub has_key_id : is_empty m.key_id ≡ false
  pub asks_something : null m.capabilities_requested ≡ false
  pub capabilities : All Validity.IsValid m.capabilities_requested

-- A manifest passes its checks exactly when it expires after it was issued, names its keys, and
-- asks for at least one capability and only for valid ones.
pub manifest_validate_iff : (m : AgentManifest) → (validate m ≡ ok tt) ↔ IsValid m
unfolding validate
manifest_validate_iff m = ground (arith, Validity.validate_all_iff m.capabilities_requested)
