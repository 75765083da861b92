-- ===== src/Core/Crypto/Tests.antt =====
-- Signing and verification at concrete inputs.
use agent_auth.Prelude.{
  ℕ, ◌≡◌, refl, subst, true, false, none, [], ◌∷◌, length, ok, from_secs, ok_inj, bytes_eq,
  bytes_eq_refl,
}
use agent_auth.Core.Capability.{Capability, read}
use agent_auth.Core.Manifest
use agent_auth.Core.Manifest.{AgentManifest, manifest_validate_iff}
use agent_auth.Core.Token.{AgentAccessToken}
use agent_auth.Core.Crypto.{SignedManifest, sign_manifest, verify_manifest}
use agent_auth.Core.Crypto.RoundTrip.{Signs, sign_manifest-verify}
use agent_auth.Core.Crypto.Samples.{
  base64, ed25519, json, key, backend, signature_of, length-signature_of, repeat,
}

abbrev manifest : AgentManifest
manifest = record {
  id = 7;
  public_key = "key";
  key_id = "key-1";
  capabilities_requested = read "files" none ∷ [];
  human_principal_id = 3;
  issued_at = 0;
  expires_at = 10;
  name = "agent";
  description = none;
  model_origin = none;
}

abbrev token : AgentAccessToken
token = record {
  jti = 1;
  agent_id = 7;
  human_principal_id = 3;
  service_provider_id = 4;
  granted_capabilities = read "files" none ∷ [];
  behavioral_envelope = record {
    max_requests_per_minute = 60;
    max_burst = 5;
    requires_human_online = false;
    human_confirmation_threshold = none;
    allowed_time_windows = [];
    max_session_duration_secs = 3600;
  };
  issued_at = 0;
  expires_at = from_secs 900;
  confirmation = none;
  key_id = "key-1";
}

manifest-valid : Manifest.validate manifest ≡ ok tt
unfolding Manifest.validate agent_auth.Core.Capability.validate_all
    agent_auth.Core.Capability.validate
manifest-valid = refl

backend-Signs : (b : ℕ) → Signs ed25519 (backend b) (key b)
backend-Signs b = record {
  is_key = refl;
  long_enough =
      λ m s e. subst (λ x. length x.bytes ≡ 64) (ok_inj e) (length-signature_of (repeat 32 b) m);
  verifies = λ m s e.
      subst (λ x. bytes_eq x.bytes (signature_of (repeat 32 b) m) ≡ true) (ok_inj e)
        (bytes_eq_refl (signature_of (repeat 32 b) m));
}

sign_manifest-verify_example :
    (signed : SignedManifest) × (sign_manifest base64 json manifest (backend 5) ≡ ok signed)
    × (signed.manifest ≡ manifest)
    × (signed.signing_key_id ≡ "key-1")
    × (verify_manifest base64 json ed25519 signed (key 5) ≡ ok tt)
sign_manifest-verify_example =
    sign_manifest-verify base64 json ed25519 manifest (backend 5) (key 5) (7 ∷ [])
      (record { bytes = signature_of (repeat 32 5) (7 ∷ []) }) (backend-Signs 5)
      ((manifest_validate_iff manifest).0 manifest-valid) refl refl
