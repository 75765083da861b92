-- ===== src/Core/Capability.antt =====
-- crates/core/src/types/capability.rs: what an agent may ask for, and the check of one capability.
-- The parameters of a custom capability, which no function of the model reads, are kept as the
-- text that they are serialised to.
pub mod Validity
use agent_auth.Prelude.{
  ℕ, String, Bool, true, false, Option, List, [], ◌∷◌, ◌==◌, is_empty, Result, ok, ◌>>=◌, ◌>>◌,
  fail_if,
}
use agent_auth.Core.Error.{
  CoreError, invalid_capability, empty_resource, zero_max_value, empty_namespace, empty_name,
}

pub record WriteConditions : Type 0 where
  pub filter : Option String
  pub max_items_per_request : Option ℕ  -- u32
  pub append_only : Bool

pub data Capability : Type 0 where
  read : String → Option String → Capability
  write : String → Option WriteConditions → Capability
  transact : String → ℕ → Option String → Capability  -- max_value: u64
  delete : String → Option String → Capability
  custom : String → String → String → Capability

unfoldable pub validate : Capability → Result CoreError (Unit {0})
validate (read resource _) = fail_if (is_empty resource) (invalid_capability empty_resource)
validate (write resource _) = fail_if (is_empty resource) (invalid_capability empty_resource)
validate (delete resource _) = fail_if (is_empty resource) (invalid_capability empty_resource)
validate (transact resource max_value _) = do
  fail_if (is_empty resource) (invalid_capability empty_resource)
  fail_if (max_value == 0) (invalid_capability zero_max_value)
validate (custom namespace name _) = do
  fail_if (is_empty namespace) (invalid_capability empty_namespace)
  fail_if (is_empty name) (invalid_capability empty_name)

-- The loop `for cap in caps { cap.validate()? }` of the types that hold capabilities.
unfoldable pub validate_all : List Capability → Result CoreError (Unit {0})
validate_all [] = ok tt
validate_all (c ∷ caps) = validate c >>= λ _. validate_all caps

unfoldable pub resource : Capability → String
resource (read r _) = r
resource (write r _) = r
resource (transact r _ _) = r
resource (delete r _) = r
resource (custom namespace _ _) = namespace

unfoldable pub requires_two_step_confirmation : Capability → Bool
requires_two_step_confirmation (transact _ _ _) = true
requires_two_step_confirmation (delete _ _) = true
requires_two_step_confirmation (read _ _) = false
requires_two_step_confirmation (write _ _) = false
requires_two_step_confirmation (custom _ _ _) = false

unfoldable pub capability_type : Capability → String
capability_type (read _ _) = "read"
capability_type (write _ _) = "write"
capability_type (transact _ _ _) = "transact"
capability_type (delete _ _) = "delete"
capability_type (custom _ _ _) = "custom"
