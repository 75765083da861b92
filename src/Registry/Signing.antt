-- ===== src/Registry/Signing.antt =====
-- services/registry/src/signing.rs: the signing backends of the registry. Vault enters as its replies: the
-- document that describes a key, and the text of a signature, each missing where the request fails or
-- its status or its body is bad. The addresses of the requests are left out.
pub mod Rotation
mod Tests
use agent_auth.Prelude.{
  ℕ, String, not, Option, none, some, List, [], ◌∷◌, ◌==◌, if◌then◌else◌, length, Result, ok, err,
  ◌>>=◌, ◌>>◌, fail_if, ok_or, Bytes, split, to_string, bytes_eq,
}
use agent_auth.Core.Crypto.{
  Base64, CryptoError, signing_failed, request_failed, bad_signature_format, not_base64,
  expected_bytes, Ed25519PublicKey, Signature, SigningBackend,
}

-- `KmsBackend`
pub data KmsBackend : Type 0 where
  aws_kms : (region : String) → KmsBackend
  gcp_kms : (project_id location key_ring : String) → KmsBackend
  vault_transit : (address mount : String) → KmsBackend
  encrypted_keyfile : (path : String) → KmsBackend

-- Why there is no backend.
pub data StartError : Type 0 where
  aws_not_implemented gcp_not_implemented fetch_failed version_not_found bad_base64 : StartError
  invalid_length : (got : ℕ) → StartError

-- The versions of a key by their numbers as text, with their public keys as text.
pub record VaultKeyData : Type 0 where
  pub keys : List (Bytes × Bytes)
  pub latest_version : ℕ  -- u32

abbrev pub get_version : Bytes → List (Bytes × Bytes) → Option Bytes
get_version v [] = none
get_version v ((w, key) ∷ rest) = if bytes_eq v w then some key else get_version v rest

pub record VaultTransitBackend : Type 0 where
  pub key_name : String
  pub public_key : Ed25519PublicKey

-- The third of three parts.
unfoldable pub signature_part : List Bytes → Option Bytes
signature_part (a ∷ b ∷ signature_b64 ∷ []) = some signature_b64
signature_part parts = none

module _ (standard : Base64) where
  open standard use {encode, decode}

  unfoldable pub decode_key : Bytes → Result StartError Ed25519PublicKey
  decode_key text = do
    public_key_bytes ← ok_or (decode text) bad_base64
    fail_if (not (length public_key_bytes == 32)) (invalid_length (length public_key_bytes))
    ok (record { bytes = public_key_bytes })

  unfoldable pub vault_new :
      (key_name : String) → Option VaultKeyData → Result StartError VaultTransitBackend
  unfolding decode_key to_string
  vault_new key_name reply = do
    key_data ← ok_or reply fetch_failed
    key_version ←
        ok_or (get_version (to_string key_data.latest_version) key_data.keys) version_not_found
    public_key ← decode_key key_version
    ok (record { key_name = key_name; public_key = public_key })

  unfoldable pub parse_signature : Bytes → Result CryptoError Signature
  unfolding signature_part
  parse_signature text = do
    signature_b64 ← ok_or (signature_part (split b':' text)) (signing_failed bad_signature_format)
    signature_bytes ← ok_or (decode signature_b64) (signing_failed not_base64)
    fail_if (not (length signature_bytes == 64))
        (signing_failed (expected_bytes 64 (length signature_bytes)))
    ok (record { bytes = signature_bytes })

  -- `reply` is what Vault answers to the text of a message at the time of the request.
  unfoldable pub vault_sign : (reply : Bytes → Option Bytes) → Bytes → Result CryptoError Signature
  unfolding parse_signature
  vault_sign reply message = do
    text ← ok_or (reply (encode message)) (signing_failed request_failed)
    parse_signature text

  unfoldable pub vault_backend :
      VaultTransitBackend → (reply : Bytes → Option Bytes) → SigningBackend
  unfolding vault_sign
  vault_backend b reply = record {
    sign = vault_sign reply;
    public_key = ok b.public_key;
    key_id = b.key_name;
  }

-- A key pair of Ed25519 that was generated at the start.
pub record DevelopmentSigningBackend : Type 0 where
  pub sign_with : Bytes → Bytes
  pub verifying_key : Bytes
  pub key_id : String

unfoldable pub development_backend : DevelopmentSigningBackend → SigningBackend
development_backend d = record {
  sign = λ message. ok (record { bytes = d.sign_with message });
  public_key = ok (record { bytes = d.verifying_key });
  key_id = d.key_id;
}

-- The keyfile is not read: a keyfile gets the generated key.
unfoldable pub create_signing_backend :
    (standard : Base64)
    → KmsBackend
    → (signing_key_id : String) → (key_reply : Option VaultKeyData)
    → (sign_reply : Bytes → Option Bytes) → (generated : DevelopmentSigningBackend)
    → Result StartError SigningBackend
unfolding vault_new vault_backend development_backend
create_signing_backend standard (aws_kms region) signing_key_id key_reply sign_reply generated =
    err aws_not_implemented
create_signing_backend standard (gcp_kms project_id location key_ring) signing_key_id key_reply
      sign_reply generated =
    err gcp_not_implemented
create_signing_backend standard (vault_transit address mount) signing_key_id key_reply sign_reply
      generated =
    do
      backend ← vault_new standard signing_key_id key_reply
      ok (vault_backend standard backend sign_reply)
create_signing_backend standard (encrypted_keyfile path) signing_key_id key_reply sign_reply
      generated =
    ok (development_backend (record generated { key_id = signing_key_id }))
