-- ===== src/Core/Crypto.antt =====
-- crates/core/src/crypto: keys and signatures with their texts (backend.rs), the signing of manifests and
-- tokens (signing.rs) and their verification (verification.rs, mod.rs). Ed25519, base64 and the JSON of
-- serde are parameters; a text that is encoded is its bytes.
pub mod Backend
pub mod RoundTrip
pub mod Verification
pub mod Samples
mod Tests
use agent_auth.Prelude.{
  ℕ, String, ◌≡◌, ◌≢◌, Bool, not, Option, some, ◌==◌, length, All, Result, ok, err, ◌>>=◌, ◌>>◌,
  fail_if, ok_or, Bytes, codes,
}
use agent_auth.Core.Error.{CoreError}
use agent_auth.Core.Manifest
use agent_auth.Core.Manifest.{AgentManifest}
use agent_auth.Core.Token
use agent_auth.Core.Token.{AgentAccessToken}

-- What an error's text says.
pub data CryptoReason : Type 0 where
  expected_bytes : (expected got : ℕ) → CryptoReason
  not_base64 not_a_key signature_mismatch serialization_failed : CryptoReason
  manifest_validation_failed token_validation_failed : CoreError → CryptoReason
  not_production_safe not_implemented not_supported : CryptoReason
  request_failed bad_response bad_signature_format : CryptoReason

pub data CryptoError : Type 0 where
  signing_failed verification_failed key_generation_failed invalid_key_format kms_error :
      CryptoReason → CryptoError
  hash_chain_violation : (expected actual : Bytes) → CryptoError

-- One engine of base64: what was encoded is decoded, and the text has no full stop and no colon.
pub record Base64 : Type 0 where
  pub encode : Bytes → Bytes
  pub decode : Bytes → Option Bytes
  pub decode-encode : (bs : Bytes) → decode (encode bs) ≡ some bs
  pub no_full_stop : (bs : Bytes) → All (λ c. c ≢ b'.') (encode bs)
  pub no_colon : (bs : Bytes) → All (λ c. c ≢ b':') (encode bs)

-- `VerifyingKey::from_bytes`, as whether the bytes are a key, and `verify`.
pub record Ed25519 : Type 0 where
  pub is_key : Bytes → Bool
  pub verify : (key message signature : Bytes) → Bool

-- `to_canonical_bytes`
pub record Canonical : Type 0 where
  pub manifest_bytes : AgentManifest → Option Bytes
  pub token_bytes : AgentAccessToken → Option Bytes

pub record Ed25519PublicKey : Type 0 where
  pub bytes : Bytes  -- 32

pub record Signature : Type 0 where
  pub bytes : Bytes  -- 64

unfoldable pub key_from_bytes : Bytes → Result CryptoError Ed25519PublicKey
key_from_bytes bytes = do
  fail_if (not (length bytes == 32)) (invalid_key_format (expected_bytes 32 (length bytes)))
  ok (record { bytes = bytes })

unfoldable pub signature_from_bytes : Bytes → Result CryptoError Signature
signature_from_bytes bytes = do
  fail_if (not (length bytes == 64)) (verification_failed (expected_bytes 64 (length bytes)))
  ok (record { bytes = bytes })

-- `SigningBackend`
pub record SigningBackend : Type 0 where
  pub sign : Bytes → Result CryptoError Signature
  pub public_key : Result CryptoError Ed25519PublicKey
  pub key_id : String

pub record SignedManifest : Type 0 where
  pub manifest : AgentManifest
  pub signature : Bytes
  pub signing_key_id : String

pub record SignedAat : Type 0 where
  pub token : AgentAccessToken
  pub signature : Bytes

-- `map_err`
abbrev pub mapped :
    {A : Type 0} → (CoreError → CryptoError) → Result CoreError A → Result CryptoError A
mapped f (ok a) = ok a
mapped f (err e) = err (f e)

module _ (ed : Ed25519) where
  unfoldable pub verify_ed25519 :
      (message : Bytes) → Signature → Ed25519PublicKey → Result CryptoError (Unit {0})
  verify_ed25519 message signature public_key = do
    fail_if (not (ed.is_key public_key.bytes)) (invalid_key_format not_a_key)
    fail_if (not (ed.verify public_key.bytes message signature.bytes))
        (verification_failed signature_mismatch)

module _ (url_safe : Base64) where
  open url_safe use {encode, decode}

  unfoldable pub key_to_base64url : Ed25519PublicKey → Bytes
  key_to_base64url k = encode k.bytes

  unfoldable pub key_from_base64url : Bytes → Result CryptoError Ed25519PublicKey
  key_from_base64url encoded = do
    bytes ← ok_or (decode encoded) (invalid_key_format not_base64)
    key_from_bytes bytes

  unfoldable pub signature_to_base64url : Signature → Bytes
  signature_to_base64url s = encode s.bytes

  unfoldable pub signature_from_base64url : Bytes → Result CryptoError Signature
  signature_from_base64url encoded = do
    bytes ← ok_or (decode encoded) (verification_failed not_base64)
    signature_from_bytes bytes

  module _ (canonical : Canonical) where
    unfoldable pub sign_manifest :
        AgentManifest → SigningBackend → Result CryptoError SignedManifest
    sign_manifest manifest backend = do
      mapped (λ e. signing_failed (manifest_validation_failed e)) (Manifest.validate manifest)
      bytes ← ok_or (canonical.manifest_bytes manifest) (signing_failed serialization_failed)
      signature ← backend.sign bytes
      ok (record {
        manifest = manifest;
        signature = signature_to_base64url signature;
        signing_key_id = backend.key_id;
      })

    unfoldable pub sign_token : AgentAccessToken → SigningBackend → Result CryptoError SignedAat
    sign_token token backend = do
      mapped (λ e. signing_failed (token_validation_failed e)) (Token.validate token)
      bytes ← ok_or (canonical.token_bytes token) (signing_failed serialization_failed)
      signature ← backend.sign bytes
      ok (record { token = token; signature = signature_to_base64url signature })

    module _ (ed : Ed25519) where
      unfoldable pub verify_manifest :
          SignedManifest → Ed25519PublicKey → Result CryptoError (Unit {0})
      verify_manifest signed public_key = do
        signature ← signature_from_base64url signed.signature
        bytes ←
            ok_or (canonical.manifest_bytes signed.manifest)
              (verification_failed serialization_failed)
        verify_ed25519 ed bytes signature public_key

      unfoldable pub verify_token : SignedAat → Ed25519PublicKey → Result CryptoError (Unit {0})
      verify_token signed public_key = do
        signature ← signature_from_base64url signed.signature
        bytes ←
            ok_or (canonical.token_bytes signed.token) (verification_failed serialization_failed)
        verify_ed25519 ed bytes signature public_key

      -- With the signature as bytes, and the key that the manifest itself names.
      unfoldable pub verify_manifest_bytes : AgentManifest → Bytes → Result CryptoError (Unit {0})
      verify_manifest_bytes manifest signature = do
        bytes ← ok_or (canonical.manifest_bytes manifest) (verification_failed serialization_failed)
        pk_bytes ← ok_or (decode (codes manifest.public_key)) (invalid_key_format not_base64)
        fail_if (not (length pk_bytes == 32))
            (invalid_key_format (expected_bytes 32 (length pk_bytes)))
        fail_if (not (ed.is_key pk_bytes)) (invalid_key_format not_a_key)
        fail_if (not (length signature == 64))
            (verification_failed (expected_bytes 64 (length signature)))
        fail_if (not (ed.verify pk_bytes bytes signature)) (verification_failed signature_mismatch)
