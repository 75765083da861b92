-- ===== src/Sdk/Dpop.antt =====
-- crates/sdk/src/dpop.rs: the proofs of possession that the client sends. The file's check of a proof is
-- compiled for its tests only and left out. Texts are bytes. Ed25519, base64, SHA-256, the upper case
-- of Unicode, the parser of addresses and the JSON of serde are parameters, the fresh identifier and
-- the clock (whole seconds) are arguments.
pub mod Proof
pub mod Thumbprint
mod Tests
use agent_auth.Prelude.{
  ℕ, ◌≡◌, Option, none, some, [], ◌∷◌, ◌++◌, Result, ok, ◌>>=◌, ◌>>◌, ok_or, Bytes, codes,
  to_string,
}
use agent_auth.Core.Crypto.{Base64, Ed25519}
use agent_auth.Sdk.Error.{SdkError, config_error, serialization_error}

pub record Jwk : Type 0 where
  pub kty : Bytes
  pub crv : Bytes
  pub x : Bytes

pub record DpopHeader : Type 0 where
  pub alg : Bytes
  pub typ : Bytes
  pub jwk : Jwk

pub record DpopPayload : Type 0 where
  pub jti : Bytes
  pub htm : Bytes
  pub htu : Bytes
  pub iat : ℕ  -- i64
  pub ath : Option Bytes

-- The parts of an address that are used.
pub record Url : Type 0 where
  pub scheme : Bytes
  pub host_str : Option Bytes
  pub port : Option ℕ
  pub path : Bytes

-- `to_vec` and `from_slice`: what was written is read.
pub record Json (A : Type 0) : Type 0 where
  pub to_vec : A → Option Bytes
  pub from_slice : Bytes → Option A
  pub from_slice-to_vec : (a : A) (bs : Bytes) → to_vec a ≡ some bs → from_slice bs ≡ some a

pub record Libraries : Type 0 where
  pub url_safe : Base64
  pub ed : Ed25519
  pub sha256 : Bytes → Bytes
  pub to_uppercase : Bytes → Bytes
  pub parse_url : Bytes → Option Url
  pub header : Json DpopHeader
  pub payload : Json DpopPayload

-- A key pair of Ed25519.
pub record SigningKey : Type 0 where
  pub sign : Bytes → Bytes
  pub verifying_key : Bytes

pub record DpopGenerator : Type 0 where
  pub signing_key : SigningKey
  pub jwk : Jwk

abbrev pub unwrap_or : Bytes → Option Bytes → Bytes
unwrap_or d none = d
unwrap_or d (some b) = b

abbrev pub port_text : Option ℕ → Bytes
port_text none = []
port_text (some port) = b':' ∷ to_string port

module _ (l : Libraries) where
  open l use {url_safe, sha256, to_uppercase, parse_url, header, payload}

  unfoldable pub from_signing_key : SigningKey → DpopGenerator
  from_signing_key key = record {
    signing_key = key;
    jwk = record {
      kty = codes "OKP";
      crv = codes "Ed25519";
      x = url_safe.encode key.verifying_key;
    };
  }

  -- An address without its query.
  unfoldable pub extract_url_base : Bytes → Result SdkError Bytes
  unfolding to_string
  extract_url_base url = do
    parsed ← ok_or (parse_url url) (config_error "Invalid URL")
    ok (
        parsed.scheme
        ++ (codes "://"
            ++ (unwrap_or [] parsed.host_str ++ (port_text parsed.port ++ parsed.path))))

  abbrev pub proof_header : DpopGenerator → DpopHeader
  proof_header g = record { alg = codes "EdDSA"; typ = codes "dpop+jwt"; jwk = g.jwk }

  -- The hash of the token that a proof is bound to.
  abbrev pub token_hash : Option Bytes → Option Bytes
  token_hash none = none
  token_hash (some token) = some (url_safe.encode (sha256 token))

  -- header.payload
  abbrev pub signing_input : (header_b64 payload_b64 : Bytes) → Bytes
  signing_input header_b64 payload_b64 = header_b64 ++ b'.' ∷ payload_b64

  unfoldable pub generate :
      DpopGenerator
      → (method url : Bytes) → (access_token : Option Bytes) → (jti : Bytes) → (now : ℕ)
      → Result SdkError Bytes
  generate g method url access_token jti now = do
    htu ← extract_url_base url
    header_json ← ok_or (header.to_vec (proof_header g)) (serialization_error "json")
    payload_json ←
        ok_or
          (payload.to_vec (record {
            jti = jti;
            htm = to_uppercase method;
            htu = htu;
            iat = now;
            ath = token_hash access_token;
          }))
          (serialization_error "json")
    let input = signing_input (url_safe.encode header_json) (url_safe.encode payload_json)
    ok (input ++ b'.' ∷ url_safe.encode (g.signing_key.sign input))

  -- The canonical JSON of the key, with its fields in order.
  unfoldable pub canonical_jwk : Jwk → Bytes
  canonical_jwk k =
      codes "{\"crv\":\""
      ++ (k.crv
          ++ (codes "\",\"kty\":\"" ++ (k.kty ++ (codes "\",\"x\":\"" ++ (k.x ++ codes "\"}")))))

  unfoldable pub thumbprint : DpopGenerator → Bytes
  unfolding canonical_jwk
  thumbprint g = url_safe.encode (sha256 (canonical_jwk g.jwk))
