-- ===== src/Core/Capability/Validity.antt =====
-- What an accepted capability is, stated apart from the checks of `validate`.
use agent_auth.Prelude.{◌<◌, ◌≡◌, refl, ◌↔◌, false, List, [], ◌∷◌, arith, is_empty, All, ok}
use agent_auth.Core.Capability.{
  Capability, read, write, transact, delete, custom, validate, validate_all,
}

-- Every name is given, and a transaction has a limit.
abbrev pub IsValid : Capability → Type 0
IsValid (read r _) = is_empty r ≡ false
IsValid (write r _) = is_empty r ≡ false
IsValid (delete r _) = is_empty r ≡ false
IsValid (transact r max_value _) = (is_empty r ≡ false) × (0 < max_value)
IsValid (custom namespace name _) = (is_empty namespace ≡ false) × (is_empty name ≡ false)

pub validate_iff : (c : Capability) → (validate c ≡ ok tt) ↔ IsValid c
unfolding validate
validate_iff (read r f) = ground arith
validate_iff (write r c) = ground arith
validate_iff (delete r f) = ground arith
validate_iff (transact r m c) = ground arith
validate_iff (custom n m p) = ground arith

-- A list of capabilities passes exactly when each of its entries does.
pub validate_all_iff : (cs : List Capability) → (validate_all cs ≡ ok tt) ↔ All IsValid cs
unfolding validate_all
validate_all_iff [] = (λ _. tt, λ _. refl)
validate_all_iff (c ∷ cs) = ground (arith, validate_iff c, validate_all_iff cs)
