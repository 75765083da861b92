-- ===== src/Sdk/Dpop/Proof.antt =====
-- crates/sdk/src/dpop.rs: what a recipient reads in a proof that the client makes.
use mathlib.Core.List.{append_assoc}
use agent_auth.Prelude.{
  ℕ, ◌≡◌, refl, subst, ◌≢◌, inl, inr, true, Option, some, [], ◌∷◌, ◌++◌, arith, Option-cases,
  length, All, ok, Result-cases, Bytes, codes, split, split_once, split_last, ok_inj,
}
use agent_auth.Sdk.Dpop.{
  DpopPayload, Libraries, SigningKey, from_signing_key, extract_url_base, proof_header, token_hash,
  signing_input, generate,
}

module _ (l : Libraries) where
  open l use {url_safe, ed, to_uppercase, header, payload}

  -- A key pair whose public key verifies what the other half signs.
  pub record IsKeyPair (key : SigningKey) : Type 0 where
    pub long_enough : length key.verifying_key ≡ 32
    pub is_key : ed.is_key key.verifying_key ≡ true
    pub length-sign : (m : Bytes) → length (key.sign m) ≡ 64
    pub verifies : (m : Bytes) → ed.verify key.verifying_key m (key.sign m) ≡ true

  split_proof :
      (a b c : Bytes)
      → All (λ x. x ≢ b'.') a
      → All (λ x. x ≢ b'.') b
      → All (λ x. x ≢ b'.') c
      → split b'.' (signing_input l a b ++ b'.' ∷ c) ≡ a ∷ b ∷ c ∷ []
  split_proof a b c ha hb hc = rw (append_assoc a (b'.' ∷ b) (b'.' ∷ c)) (
      rw (split_once b'.' a (b ++ b'.' ∷ c) ha)
        (rw (split_once b'.' b c hb, split_last b'.' c hc) refl))

  -- What a text says as a proof: it has three parts, which decode to a header, a payload and a
  -- signature; the header names the algorithm, the type and a key, and the signature is one of that key
  -- on the first two parts as they stand.
  pub record Reads (proof public_key : Bytes) (p : DpopPayload) : Type 0 where
    pub header_b64 : Bytes
    pub payload_b64 : Bytes
    pub signature_b64 : Bytes
    pub header_bytes : Bytes
    pub payload_bytes : Bytes
    pub signature_bytes : Bytes
    pub x : Bytes
    pub parts : split b'.' proof ≡ header_b64 ∷ payload_b64 ∷ signature_b64 ∷ []
    pub header_decoded : url_safe.decode header_b64 ≡ some header_bytes
    pub header_read :
        header.from_slice header_bytes
        ≡ some (record {
          alg = codes "EdDSA";
          typ = codes "dpop+jwt";
          jwk = record { kty = codes "OKP"; crv = codes "Ed25519"; x = x };
        })
    pub key_decoded : url_safe.decode x ≡ some public_key
    pub payload_decoded : url_safe.decode payload_b64 ≡ some payload_bytes
    pub payload_read : payload.from_slice payload_bytes ≡ some p
    pub signature_decoded : url_safe.decode signature_b64 ≡ some signature_bytes
    pub signed : ed.verify public_key (header_b64 ++ b'.' ∷ payload_b64) signature_bytes ≡ true

  abbrev payload_of : (jti method htu : Bytes) → ℕ → Option Bytes → DpopPayload
  payload_of jti method htu made token = record {
    jti = jti;
    htm = to_uppercase method;
    htu = htu;
    iat = made;
    ath = token_hash l token;
  }

  built-Reads :
      (key : SigningKey) (header_json payload_json : Bytes) (p : DpopPayload)
      → IsKeyPair key
      → header.to_vec (proof_header l (from_signing_key l key)) ≡ some header_json
      → payload.to_vec p ≡ some payload_json
      → Reads
          (signing_input l (url_safe.encode header_json) (url_safe.encode payload_json)
            ++ b'.'
              ∷ url_safe.encode (
                  key.sign
                    (signing_input l (url_safe.encode header_json) (url_safe.encode payload_json))))
          key.verifying_key
          p
  unfolding from_signing_key
  built-Reads key header_json payload_json p v hj pj = record {
    header_b64 = url_safe.encode header_json;
    payload_b64 = url_safe.encode payload_json;
    signature_b64 = _;
    header_bytes = header_json;
    payload_bytes = payload_json;
    signature_bytes = _;
    x = url_safe.encode key.verifying_key;
    parts =
        split_proof (url_safe.encode header_json) (url_safe.encode payload_json) _
          (url_safe.no_full_stop header_json) (url_safe.no_full_stop payload_json)
          (url_safe.no_full_stop _);
    header_decoded = url_safe.decode-encode header_json;
    header_read = header.from_slice-to_vec _ header_json hj;
    key_decoded = url_safe.decode-encode key.verifying_key;
    payload_decoded = url_safe.decode-encode payload_json;
    payload_read = payload.from_slice-to_vec p payload_json pj;
    signature_decoded = url_safe.decode-encode _;
    signed = v.verifies _;
  }

  -- A proof that the generator makes with a key pair is three parts of base64, from which a recipient
  -- reads back the header, with the public key of the pair, and the payload, with the identifier, the
  -- method in upper case, the address without its query, the time and the hash of the token if there is
  -- one, and whose signature verifies under that key on the first two parts.
  pub generate-Reads :
      (key : SigningKey) (method url : Bytes) (token : Option Bytes) (jti proof : Bytes) (made : ℕ)
      → IsKeyPair key
      → generate l (from_signing_key l key) method url token jti made ≡ ok proof
      → (htu : Bytes) × (extract_url_base l url ≡ ok htu)
        × Reads proof key.verifying_key (record {
          jti = jti;
          htm = to_uppercase method;
          htu = htu;
          iat = made;
          ath = token_hash l token;
        })
  unfolding generate from_signing_key
  generate-Reads key method url token jti proof made v h =
      elim (Result-cases (extract_url_base l url)) [
        | inr (e, bad) ↦ absurd (ground arith)
        | inl (htu, good) ↦
            elim (Option-cases (header.to_vec (proof_header l (from_signing_key l key)))) [
              | inl no_header ↦ absurd (ground arith)
              | inr (hj, header_is) ↦
                  elim (Option-cases (payload.to_vec (payload_of jti method htu made token))) [
                    | inl no_payload ↦ absurd (ground arith)
                    | inr (pj, payload_is) ↦ (
                      htu,
                      good,
                      subst (λ x. Reads x key.verifying_key (payload_of jti method htu made token))
                          (ok_inj (rw (good, header_is, payload_is) at h))
                          (built-Reads key hj pj (payload_of jti method htu made token) v header_is
                            payload_is),
                    )
                  ]
            ]
      ]
