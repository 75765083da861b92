-- ===== src/Core/Crypto/Verification.antt =====
-- crates/core/src/crypto/verification.rs and mod.rs: what the verification accepts.
use agent_auth.Prelude.{
  String, ◌≡◌, ◌↔◌, inl, inr, true, Option, some, arith, Option-cases, length, Result, ok, ◌>>=◌,
  ok_or, Bytes, codes,
}
use agent_auth.Core.Manifest.{AgentManifest}
use agent_auth.Core.Crypto.{
  Base64, Ed25519, Canonical, Ed25519PublicKey, SignedManifest, SignedAat, CryptoError,
  verification_failed, serialization_failed, signature_from_bytes, signature_from_base64url,
  key_from_bytes, key_from_base64url, verify_ed25519, verify_manifest, verify_token,
  verify_manifest_bytes,
}

module _ (url_safe : Base64) (canonical : Canonical) (ed : Ed25519) where
  open url_safe use {encode, decode, decode-encode}

  -- What a text of a signature has to be for a message and a key.
  pub record Signed (message : Option Bytes) (text : Bytes) (key : Bytes) : Type 0 where
    pub signature : Bytes
    pub bytes : Bytes
    pub decodes : decode text ≡ some signature
    pub long_enough : length signature ≡ 64
    pub serialises : message ≡ some bytes
    pub is_key : ed.is_key key ≡ true
    pub verifies : ed.verify key bytes signature ≡ true

  abbrev checked : Option Bytes → Bytes → Ed25519PublicKey → Result CryptoError (Unit {0})
  checked message text k = do
    signature ← signature_from_base64url url_safe text
    bytes ← ok_or message (verification_failed serialization_failed)
    verify_ed25519 ed bytes signature k

  checked_iff :
      (message : Option Bytes) (text : Bytes) (k : Ed25519PublicKey)
      → (checked message text k ≡ ok tt) ↔ Signed message text k.bytes
  unfolding signature_from_base64url signature_from_bytes verify_ed25519
  checked_iff message text k = (forth, λ v. rw (v.decodes, v.serialises) (ground arith))
    where
      forth : checked message text k ≡ ok tt → Signed message text k.bytes
      forth h = elim (Option-cases (decode text)) [
        | inl not_decoded ↦ absurd (ground arith)
        | inr (signature, decodes) ↦ elim (Option-cases message) [
          | inl no_bytes ↦ absurd (ground arith)
          | inr (bytes, serialises) ↦ record {
            signature = signature;
            bytes = bytes;
            decodes = decodes;
            long_enough = ground arith;
            serialises = serialises;
            is_key = ground arith;
            verifies = ground arith;
          }
        ]
      ]

  -- A signed manifest is accepted exactly when its signature decodes to 64 bytes, it serialises, the
  -- key is one and the signature is that key's over those bytes.
  pub verify_manifest_iff :
      (s : SignedManifest) (k : Ed25519PublicKey)
      → (verify_manifest url_safe canonical ed s k ≡ ok tt)
        ↔ Signed (canonical.manifest_bytes s.manifest) s.signature k.bytes
  unfolding verify_manifest
  verify_manifest_iff s k = checked_iff (canonical.manifest_bytes s.manifest) s.signature k

  -- The same of a signed token.
  pub verify_token_iff :
      (s : SignedAat) (k : Ed25519PublicKey)
      → (verify_token url_safe canonical ed s k ≡ ok tt)
        ↔ Signed (canonical.token_bytes s.token) s.signature k.bytes
  unfolding verify_token
  verify_token_iff s k = checked_iff (canonical.token_bytes s.token) s.signature k

  -- A manifest with the bytes of a signature is accepted exactly when the key that it names is the text
  -- of one, under which the manifest, signed with the text of that signature, is accepted.
  pub verify_manifest_bytes_iff :
      (m : AgentManifest) (signature : Bytes) (signing_key_id : String)
      → (verify_manifest_bytes url_safe canonical ed m signature ≡ ok tt) ↔ (
          (k : Ed25519PublicKey) × (key_from_base64url url_safe (codes m.public_key) ≡ ok k)
          × (verify_manifest url_safe canonical ed
                (record {
                  manifest = m;
                  signature = encode signature;
                  signing_key_id = signing_key_id;
                })
                k
              ≡ ok tt))
  unfolding verify_manifest_bytes verify_manifest key_from_base64url key_from_bytes
      signature_from_base64url signature_from_bytes verify_ed25519
  verify_manifest_bytes_iff m signature signing_key_id =
      elim (Option-cases (decode (codes m.public_key))) [
        | inl no_key ↦ (λ h. absurd (ground arith), λ (k, hk, hv). absurd (ground arith))
        | inr (key, named) ↦ elim (Option-cases (canonical.manifest_bytes m)) [
          | inl no_bytes ↦ (
            λ h. absurd (ground arith),
            λ (k, hk, hv). absurd (ground (arith, decode-encode signature)),
          )
          | inr (bytes, serialises) ↦ (
            λ h. (
              record { bytes = key },
              ground arith,
              rw (decode-encode signature, serialises) (ground arith),
            ),
            λ (k, hk, hv). ground (arith, decode-encode signature),
          )
        ]
      ]
