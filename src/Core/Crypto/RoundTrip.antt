-- ===== src/Core/Crypto/RoundTrip.antt =====
-- crates/core/src/crypto/signing.rs: what is signed is accepted.
use agent_auth.Prelude.{
  ◌≡◌, refl, subst, inl, inr, true, some, arith, Option-cases, length, ok, Result-cases, Bytes,
  ok_inj,
}
use agent_auth.Core.Manifest
use agent_auth.Core.Manifest.{AgentManifest, manifest_validate_iff}
use agent_auth.Core.Token
use agent_auth.Core.Token.{AgentAccessToken}
use agent_auth.Core.Crypto.{
  Base64, Ed25519, Canonical, Ed25519PublicKey, Signature, SigningBackend, SignedManifest,
  SignedAat, sign_manifest, sign_token, signature_to_base64url, verify_manifest, verify_token,
}
use agent_auth.Core.Crypto.Verification.{verify_manifest_iff, verify_token_iff}

-- The signatures of a backend are those of a key.
pub record Signs (ed : Ed25519) (b : SigningBackend) (k : Ed25519PublicKey) : Type 0 where
  pub is_key : ed.is_key k.bytes ≡ true
  pub long_enough : (m : Bytes) (s : Signature) → b.sign m ≡ ok s → length s.bytes ≡ 64
  pub verifies : (m : Bytes) (s : Signature) → b.sign m ≡ ok s → ed.verify k.bytes m s.bytes ≡ true

module _ (url_safe : Base64) (canonical : Canonical) (ed : Ed25519) where
  open url_safe use {decode-encode}

  -- A valid manifest that serialises, and whose bytes a backend signs with a key, is signed: the result
  -- has the manifest and the backend's key id, and is accepted under the key.
  pub sign_manifest-verify :
      (m : AgentManifest) (b : SigningBackend) (k : Ed25519PublicKey) (bytes : Bytes)
      (s : Signature)
      → Signs ed b k
      → Manifest.IsValid m
      → canonical.manifest_bytes m ≡ some bytes
      → b.sign bytes ≡ ok s
      → (signed : SignedManifest) × (sign_manifest url_safe canonical m b ≡ ok signed)
        × (signed.manifest ≡ m)
        × (signed.signing_key_id ≡ b.key_id)
        × (verify_manifest url_safe canonical ed signed k ≡ ok tt)
  unfolding sign_manifest signature_to_base64url
  sign_manifest-verify m b k bytes s signs valid serialises signed = (
    record {
      manifest = m;
      signature = signature_to_base64url url_safe s;
      signing_key_id = b.key_id;
    },
    rw ((manifest_validate_iff m).1 valid, serialises, signed) refl,
    refl,
    refl,
    (verify_manifest_iff url_safe canonical ed _ k).1 (record {
      signature = s.bytes;
      bytes = bytes;
      decodes = decode-encode s.bytes;
      long_enough = signs.long_enough bytes s signed;
      serialises = serialises;
      is_key = signs.is_key;
      verifies = signs.verifies bytes s signed;
    }),
  )

  -- A token that a backend with a key signs is valid, and the result has it and is accepted under the key.
  pub sign_token-verify :
      (t : AgentAccessToken) (b : SigningBackend) (k : Ed25519PublicKey) (signed : SignedAat)
      → Signs ed b k
      → sign_token url_safe canonical t b ≡ ok signed
      → (Token.validate t ≡ ok tt)
        × (signed.token ≡ t)
        × (verify_token url_safe canonical ed signed k ≡ ok tt)
  unfolding sign_token signature_to_base64url
  sign_token-verify t b k signed signs h = elim (Result-cases (Token.validate t)) [
    | inr (e, invalid) ↦ absurd (ground arith)
    | inl (u, valid) ↦ elim (Option-cases (canonical.token_bytes t)) [
      | inl no_bytes ↦ absurd (ground arith)
      | inr (bytes, serialises) ↦ elim (Result-cases (b.sign bytes)) [
        | inr (e, not_signed) ↦ absurd (ground arith)
        | inl (s, by_key) ↦
            let e : ok (record { token = t; signature = signature_to_base64url url_safe s })
                ≡ ok signed =
              rw (valid, serialises, by_key) at h in
            (
              valid,
              ground arith,
              subst (λ x. verify_token url_safe canonical ed x k ≡ ok tt) (ok_inj e)
                  ((verify_token_iff url_safe canonical ed _ k).1 (record {
                    signature = s.bytes;
                    bytes = bytes;
                    decodes = decode-encode s.bytes;
                    long_enough = signs.long_enough bytes s by_key;
                    serialises = serialises;
                    is_key = signs.is_key;
                    verifies = signs.verifies bytes s by_key;
                  })),
            )
      ]
    ]
  ]
