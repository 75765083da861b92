-- ===== src/Core/Crypto/Backend.antt =====
-- crates/core/src/crypto/backend.rs: where the key of an agent is kept, and the backend for key management
-- services.
use agent_auth.Prelude.{
  String, ◌≡◌, refl, inl, inr, Bool, true, false, not, Option, none, some, arith, Bool-cases,
  Option-cases, Result, ok, err, ◌>>◌, fail_if, Result-cases, Bytes,
}
use agent_auth.Core.Manifest
use agent_auth.Core.Manifest.{AgentManifest}
use agent_auth.Core.Crypto.{
  CryptoError, signing_failed, serialization_failed, manifest_validation_failed, kms_error,
  not_production_safe, not_implemented, not_supported, Signature, Ed25519PublicKey, SigningBackend,
  Base64, Canonical, sign_manifest,
}

-- The feature `allow-plaintext-keys` is off, as it is by default.
pub data AgentKeyBackend : Type 0 where
  aws_kms : (key_id : String) → AgentKeyBackend
  gcp_kms : (key_resource_name : String) → AgentKeyBackend
  vault_transit : (mount key_name : String) → AgentKeyBackend
  encrypted_keyfile : (path : String) → AgentKeyBackend

unfoldable pub is_production_safe : AgentKeyBackend → Bool
is_production_safe (aws_kms key_id) = true
is_production_safe (gcp_kms key_resource_name) = true
is_production_safe (vault_transit mount key_name) = true
is_production_safe (encrypted_keyfile path) = false

pub record KmsSigningBackend : Type 0 where
  pub backend : AgentKeyBackend
  pub cached_public_key : Option Ed25519PublicKey
  pub key_id : String

unfoldable pub kms_new : AgentKeyBackend → String → Result CryptoError KmsSigningBackend
unfolding is_production_safe
kms_new backend key_id = do
  fail_if (not (is_production_safe backend)) (kms_error not_production_safe)
  ok (record { backend = backend; cached_public_key = none; key_id = key_id })

unfoldable pub kms_sign : AgentKeyBackend → Bytes → Result CryptoError Signature
kms_sign (aws_kms key_id) message = err (kms_error not_implemented)
kms_sign (gcp_kms key_resource_name) message = err (kms_error not_implemented)
kms_sign (vault_transit mount key_name) message = err (kms_error not_implemented)
kms_sign (encrypted_keyfile path) message = err (kms_error not_supported)

unfoldable pub kms_public_key : Option Ed25519PublicKey → Result CryptoError Ed25519PublicKey
kms_public_key (some cached) = ok cached
kms_public_key none = err (kms_error not_implemented)

-- The trait, as it is implemented.
unfoldable pub kms_backend : KmsSigningBackend → SigningBackend
unfolding kms_sign kms_public_key
kms_backend k = record {
  sign = kms_sign k.backend;
  public_key = kms_public_key k.cached_public_key;
  key_id = k.key_id;
}

kms_sign_fails :
    (b : AgentKeyBackend) (message : Bytes) → (e : CryptoError) × (kms_sign b message ≡ err e)
unfolding kms_sign
kms_sign_fails (aws_kms key_id) message = (_, refl)
kms_sign_fails (gcp_kms key_resource_name) message = (_, refl)
kms_sign_fails (vault_transit mount key_name) message = (_, refl)
kms_sign_fails (encrypted_keyfile path) message = (_, refl)

sign_manifest_fails :
    (url_safe : Base64) (canonical : Canonical) (m : AgentManifest) (b : SigningBackend)
    → ((message : Bytes) → (e : CryptoError) × (b.sign message ≡ err e))
    → (e : CryptoError) × (sign_manifest url_safe canonical m b ≡ err e)
unfolding sign_manifest
sign_manifest_fails url_safe canonical m b fails = elim (Result-cases (Manifest.validate m)) [
  | inl (u, valid) ↦ elim (Option-cases (canonical.manifest_bytes m)) [
    | inl no_bytes ↦ (signing_failed serialization_failed, rw (valid, no_bytes) refl)
    | inr (bytes, serialised) ↦ ((fails bytes).0, rw (valid, serialised, (fails bytes).1) refl)
  ]
  | inr (e, invalid) ↦ (signing_failed (manifest_validation_failed e), rw invalid refl)
]

-- A backend for key management services is made exactly for the three services, and none that is
-- made signs a manifest or tells its public key.
pub kms_never_signs :
    (url_safe : Base64) (canonical : Canonical) (b : AgentKeyBackend) (key_id : String)
    (k : KmsSigningBackend) (m : AgentManifest)
    → kms_new b key_id ≡ ok k
    → (is_production_safe b ≡ true)
      × ((e : CryptoError) × (sign_manifest url_safe canonical m (kms_backend k) ≡ err e))
      × ((kms_backend k).public_key ≡ err (kms_error not_implemented))
unfolding kms_new kms_backend
kms_never_signs url_safe canonical b key_id k m made = (
  ground arith,
  sign_manifest_fails url_safe canonical m (kms_backend k) (kms_sign_fails k.backend),
  elim (Bool-cases (is_production_safe b)) [ inl safe ↦ ground arith | inr unsafe ↦ ground arith ],
)
