-- ===== src/Sdk/Dpop/Thumbprint.antt =====
-- crates/sdk/src/dpop.rs: the thumbprint that a token is bound to stands for one key.
use mathlib.Core.List.{append_cancel_left, append_cancel_right}
use agent_auth.Prelude.{
  ◌≡◌, sym, ap, ◌∙◌, ◌≢◌, ◌⊎◌, inl, inr, some, Bool-cases, Bytes, codes, bytes_eq, bytes_eq_refl,
  bytes_eq_sound,
}
use agent_auth.Sdk.Dpop.{Libraries, SigningKey, Jwk, from_signing_key, canonical_jwk, thumbprint}

module _ (l : Libraries) where
  open l use {url_safe, sha256}

  encode_inj : (a b : Bytes) → url_safe.encode a ≡ url_safe.encode b → a ≡ b
  encode_inj a b e =
      some_inj (sym (url_safe.decode-encode a) ∙ ap url_safe.decode e ∙ url_safe.decode-encode b)
    where
      some_inj : {x y : Bytes} → some x ≡ some y → x ≡ y
      some_inj h = cc

  abbrev jwk_of : SigningKey → Jwk
  jwk_of key = (from_signing_key l key).jwk

  canonical_jwk_inj :
      (a b : SigningKey)
      → canonical_jwk l (jwk_of a) ≡ canonical_jwk l (jwk_of b)
      → a.verifying_key ≡ b.verifying_key
  unfolding canonical_jwk from_signing_key
  canonical_jwk_inj a b e = encode_inj a.verifying_key b.verifying_key (
      append_cancel_right _ _ (codes "\"}")
        (append_cancel_left (codes "{\"crv\":\"Ed25519\",\"kty\":\"OKP\",\"x\":\"") _ _ e))

  -- Two keys with one thumbprint are one key, or two texts with one digest are at hand.
  pub thumbprint_binds :
      (a b : SigningKey)
      → thumbprint l (from_signing_key l a) ≡ thumbprint l (from_signing_key l b)
      → (a.verifying_key ≡ b.verifying_key) ⊎ ((x y : Bytes) × (x ≢ y) × (sha256 x ≡ sha256 y))
  unfolding thumbprint
  thumbprint_binds a b e =
      elim (Bool-cases (bytes_eq (canonical_jwk l (jwk_of a)) (canonical_jwk l (jwk_of b)))) [
        | inl same ↦ inl (canonical_jwk_inj a b (bytes_eq_sound _ _ same))
        | inr differ ↦ inr (
          canonical_jwk l (jwk_of a),
          canonical_jwk l (jwk_of b),
          (λ s. cc (
              sym differ
              ∙ ap (λ t. bytes_eq t (canonical_jwk l (jwk_of b))) s
              ∙ bytes_eq_refl (canonical_jwk l (jwk_of b)))),
          encode_inj _ _ e,
        )
      ]
