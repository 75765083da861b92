-- ===== src/Registry/Signing/Rotation.antt =====
-- What the Vault backend of services/registry/src/signing.rs signs with, and which key it tells, when the
-- key is rotated in Vault after the start of the registry.
use agent_auth.Prelude.{
  ℕ, String, ◌≡◌, refl, sym, subst, ◌∙◌, ◌≢◌, ◌↔◌, true, Option, some, [], ◌∷◌, ◌++◌, arith, length,
  All, ok, Bytes, codes, split, split_once, split_last, to_string, ok_inj,
}
use agent_auth.Core.Crypto.{Base64, Ed25519, verify_ed25519}
use agent_auth.Core.Crypto.RoundTrip.{Signs}
use agent_auth.Registry.Signing.{
  VaultKeyData, VaultTransitBackend, get_version, vault_new, vault_sign, parse_signature,
  decode_key, vault_backend,
}

-- Vault's Transit engine, at each version of the key: what it answers while that is the latest one.
pub record Vault (standard : Base64) (ed : Ed25519) : Type 0 where
  pub public_key : (version : ℕ) → Bytes
  pub signature : (version : ℕ) → Bytes → Bytes
  pub key_data : (version : ℕ) → VaultKeyData
  pub label : (version : ℕ) → Bytes
  pub sign_reply : (version : ℕ) → Bytes → Option Bytes
  -- The description has the public key under the number of the latest version.
  pub key_data_lem :
      (v : ℕ)
      → get_version (to_string (key_data v).latest_version) (key_data v).keys
        ≡ some (standard.encode (public_key v))
  -- A reply is "vault", the version and the signature, with colons between them.
  pub label_plain : (v : ℕ) → All (λ c. c ≢ b':') (label v)
  pub sign_reply_lem :
      (v : ℕ) (message : Bytes)
      → sign_reply v (standard.encode message)
        ≡ some (codes "vault" ++ b':' ∷ (label v ++ b':' ∷ standard.encode (signature v message)))
  pub length-public_key : (v : ℕ) → length (public_key v) ≡ 32
  pub length-signature : (v : ℕ) (message : Bytes) → length (signature v message) ≡ 64
  pub is_key : (v : ℕ) → ed.is_key (public_key v) ≡ true
  pub verifies : (v : ℕ) (m : Bytes) → ed.verify (public_key v) m (signature v m) ≡ true

module _ (standard : Base64) (ed : Ed25519) (vault : Vault standard ed) where
  open standard use {encode, decode, decode-encode, no_colon}
  open vault use {public_key, signature, key_data, label, sign_reply}

  abbrev made : String → ℕ → VaultTransitBackend
  made key_name v = record { key_name = key_name; public_key = record { bytes = public_key v } }

  vault_new_lem :
      (key_name : String) (v : ℕ)
      → vault_new standard key_name (some (key_data v)) ≡ ok (made key_name v)
  unfolding vault_new decode_key
  vault_new_lem key_name v =
      rw (vault.key_data_lem v, decode-encode (public_key v), vault.length-public_key v) refl

  split_reply :
      (v : ℕ) (text : Bytes)
      → All (λ c. c ≢ b':') text
      → split b':' (codes "vault" ++ b':' ∷ (label v ++ b':' ∷ text))
        ≡ codes "vault" ∷ label v ∷ text ∷ []
  split_reply v text plain =
      split_once b':' (codes "vault") _ (omega arith)
      ∙ rw (split_once b':' (label v) text (vault.label_plain v), split_last b':' text plain) refl

  parse_reply :
      (v : ℕ) (m : Bytes)
      → parse_signature standard
          (codes "vault" ++ b':' ∷ (label v ++ b':' ∷ encode (signature v m)))
        ≡ ok (record { bytes = signature v m })
  unfolding parse_signature
  parse_reply v m =
      rw (split_reply v (encode (signature v m)) (no_colon (signature v m)))
        (rw (decode-encode (signature v m), vault.length-signature v m) refl)

  vault_sign_lem :
      (w : ℕ) (m : Bytes)
      → vault_sign standard (sign_reply w) m ≡ ok (record { bytes = signature w m })
  unfolding vault_sign
  vault_sign_lem w m = rw (vault.sign_reply_lem w m) (parse_reply w m)

  -- A backend is made from the description of a key, and made while version `v` of the key was the latest, it signs with version `w`
  -- when that is the latest, and tells the public key of version `v`: its signature is accepted under
  -- the key that it tells exactly when the old key verifies what the new one signed.
  pub signs_with_latest :
      (key_name : String) (v w : ℕ) (m : Bytes)
      → (b : VaultTransitBackend) × (vault_new standard key_name (some (key_data v)) ≡ ok b)
        × ((vault_backend standard b (sign_reply w)).sign m ≡ ok (record { bytes = signature w m }))
        × ((vault_backend standard b (sign_reply w)).public_key
            ≡ ok (record { bytes = public_key v }))
        × ((verify_ed25519 ed m (record { bytes = signature w m }) (record { bytes = public_key v })
              ≡ ok tt)
            ↔ (ed.verify (public_key v) m (signature w m) ≡ true))
  unfolding vault_backend verify_ed25519
  signs_with_latest key_name v w m = (
    made key_name v,
    vault_new_lem key_name v,
    vault_sign_lem w m,
    refl,
    ground (arith, vault.is_key v),
  )

  -- A backend whose key is not rotated signs with the key that it tells.
  pub unrotated-Signs :
      (key_name : String) (v : ℕ) (b : VaultTransitBackend)
      → vault_new standard key_name (some (key_data v)) ≡ ok b
      → Signs ed (vault_backend standard b (sign_reply v)) (record { bytes = public_key v })
  unfolding vault_backend
  unrotated-Signs key_name v b h = record {
    is_key = vault.is_key v;
    long_enough = λ m s e.
        subst (λ x. length x.bytes ≡ 64) (ok_inj (sym (vault_sign_lem v m) ∙ e))
          (vault.length-signature v m);
    verifies = λ m s e.
        subst (λ x. ed.verify (public_key v) m x.bytes ≡ true)
          (ok_inj (sym (vault_sign_lem v m) ∙ e)) (vault.verifies v m);
  }
