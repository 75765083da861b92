-- ===== src/Registry/Signing/Tests.antt =====
-- A small Vault whose key is rotated from version 1 to version 2.
use agent_auth.Prelude.{
  ℕ, ◌≡◌, refl, ◌≢◌, ◌↔◌, true, Option, some, [], ◌∷◌, ◌++◌, arith, ok, Bytes, codes, to_string,
  bytes_eq_refl,
}
use agent_auth.Core.Crypto.{verify_ed25519}
use agent_auth.Core.Crypto.Samples.{
  base64, ed25519, raised, lowered, lowered-raised, repeat, signature_of, length-signature_of,
}
use agent_auth.Registry.Signing.{VaultTransitBackend, vault_new, vault_backend}
use agent_auth.Registry.Signing.Rotation.{Vault, signs_with_latest}

abbrev reply : ℕ → Bytes → Option Bytes
reply v text = some (
    codes "vault"
    ++ b':' ∷ (codes "v" ++ b':' ∷ raised (signature_of (repeat 32 v) (lowered text))))

abbrev vault : Vault base64 ed25519
vault = record {
  public_key = λ v. repeat 32 v;
  signature = λ v m. signature_of (repeat 32 v) m;
  key_data = λ v. record { keys = (to_string v, raised (repeat 32 v)) ∷ []; latest_version = v };
  label = λ v. codes "v";
  sign_reply = reply;
  key_data_lem = λ v. rw (bytes_eq_refl (to_string v)) refl;
  label_plain = λ v. omega arith;
  sign_reply_lem = λ v m. rw (lowered-raised m) refl;
  length-public_key = λ v. refl;
  length-signature = λ v m. length-signature_of (repeat 32 v) m;
  is_key = λ v. refl;
  verifies = λ v m. bytes_eq_refl (signature_of (repeat 32 v) m);
}

-- The old key does not verify what the new one signed.
rotated :
    verify_ed25519 ed25519
      (7 ∷ [])
      (record { bytes = signature_of (repeat 32 2) (7 ∷ []) })
      (record { bytes = repeat 32 1 })
    ≢ ok tt
unfolding verify_ed25519 signature_of
rotated h = cc

signs_with_latest_example :
    (b : VaultTransitBackend) × (vault_new base64 "registry" (some (vault.key_data 1)) ≡ ok b)
    × ((vault_backend base64 b (reply 2)).sign (7 ∷ [])
        ≡ ok (record { bytes = signature_of (repeat 32 2) (7 ∷ []) }))
    × ((vault_backend base64 b (reply 2)).public_key ≡ ok (record { bytes = repeat 32 1 }))
    × ((verify_ed25519 ed25519
            (7 ∷ [])
            (record { bytes = signature_of (repeat 32 2) (7 ∷ []) })
            (record { bytes = repeat 32 1 })
          ≡ ok tt)
        ↔ (ed25519.verify (repeat 32 1) (7 ∷ []) (signature_of (repeat 32 2) (7 ∷ [])) ≡ true))
signs_with_latest_example = signs_with_latest base64 ed25519 vault "registry" 1 2 (7 ∷ [])
