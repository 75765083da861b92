-- ===== src/Sdk/Dpop/Tests.antt =====
-- Proofs of possession at concrete inputs, over small libraries.
use agent_auth.Prelude.{
  ℕ, zero, suc, ◌-◌, ◌≡◌, refl, ap, subst, ◌&&◌, Option, none, some, [], ◌∷◌, ◌++◌, leb,
  if◌then◌else◌, length, Result, ok, err, Bytes, codes, bytes_eq_refl,
}
use agent_auth.Core.Crypto.Samples.{base64, ed25519, repeat, signature_of, length-signature_of}
use agent_auth.Sdk.Error.{SdkError}
use agent_auth.Sdk.Dpop.{
  DpopHeader, DpopPayload, Libraries, SigningKey, from_signing_key, extract_url_base, token_hash,
  generate,
}
use agent_auth.Sdk.Dpop.Proof.{IsKeyPair, Reads, generate-Reads}

-- The upper case of ASCII.
abbrev upper : ℕ → ℕ
upper c = if leb b'a' c && leb c b'z' then c - 32 else c

abbrev to_uppercase : Bytes → Bytes
to_uppercase [] = []
to_uppercase (c ∷ cs) = upper c ∷ to_uppercase cs

-- A field is written behind its length.
abbrev field : Bytes → Bytes → Bytes
field f rest = length f ∷ (f ++ rest)

abbrev pull : ℕ → Bytes → Bytes × Bytes
pull zero bs = ([], bs)
pull (suc n) [] = ([], [])
pull (suc n) (b ∷ bs) = let (f, rest) = pull n bs in (b ∷ f, rest)

abbrev take_field : Bytes → Bytes × Bytes
take_field [] = ([], [])
take_field (n ∷ bs) = pull n bs

pull_lem : (f rest : Bytes) → pull (length f) (f ++ rest) ≡ (f, rest)
pull_lem [] rest = refl
pull_lem (b ∷ f) rest = rw (pull_lem f rest) refl

abbrev write_header : DpopHeader → Bytes
write_header h = field h.alg (field h.typ (field h.jwk.kty (field h.jwk.crv (field h.jwk.x []))))

abbrev read_header : Bytes → DpopHeader
read_header bs =
    let (alg, r1) = take_field bs in
    let (typ, r2) = take_field r1 in
    let (kty, r3) = take_field r2 in
    let (crv, r4) = take_field r3 in
    record { alg = alg; typ = typ; jwk = record { kty = kty; crv = crv; x = (take_field r4).0 } }

read_header_lem : (h : DpopHeader) → read_header (write_header h) ≡ h
read_header_lem h = rw (pull_lem h.alg _) (
    rw (pull_lem h.typ _)
      (rw (pull_lem h.jwk.kty _) (rw (pull_lem h.jwk.crv _) (rw (pull_lem h.jwk.x []) refl))))

abbrev write_ath : Option Bytes → Bytes
write_ath none = []
write_ath (some hash) = 1 ∷ hash

abbrev read_ath : Bytes → Option Bytes
read_ath [] = none
read_ath (b ∷ hash) = some hash

read-write_ath : (o : Option Bytes) → read_ath (write_ath o) ≡ o
read-write_ath none = refl
read-write_ath (some hash) = refl

abbrev write_payload : DpopPayload → Bytes
write_payload p = p.iat ∷ field p.jti (field p.htm (field p.htu (write_ath p.ath)))

abbrev read_payload : Bytes → Option DpopPayload
read_payload [] = none
read_payload (iat ∷ r0) =
    let (jti, r1) = take_field r0 in
    let (htm, r2) = take_field r1 in
    let (htu, r3) = take_field r2 in
    some (record { jti = jti; htm = htm; htu = htu; iat = iat; ath = read_ath r3 })

read_payload_lem : (p : DpopPayload) → read_payload (write_payload p) ≡ some p
read_payload_lem p =
    rw (pull_lem p.jti _) (
      rw (pull_lem p.htm _)
        (rw (pull_lem p.htu (write_ath p.ath)) (rw (read-write_ath p.ath) refl)))

some_inj : {x y : Bytes} → some x ≡ some y → x ≡ y
some_inj h = cc

abbrev libraries : Libraries
libraries = record {
  url_safe = base64;
  ed = ed25519;
  sha256 = λ bs. bs;
  to_uppercase = to_uppercase;
  parse_url = λ url. some (record {
    scheme = codes "https";
    host_str = some (codes "registry");
    port = some 8443;
    path = url;
  });
  header = record {
    to_vec = λ h. some (write_header h);
    from_slice = λ bs. some (read_header bs);
    from_slice-to_vec = λ h bs e.
        subst (λ x. some (read_header x) ≡ some h) (some_inj e) (ap some (read_header_lem h));
  };
  payload = record {
    to_vec = λ p. some (write_payload p);
    from_slice = read_payload;
    from_slice-to_vec =
        λ p bs e. subst (λ x. read_payload x ≡ some p) (some_inj e) (read_payload_lem p);
  };
}

abbrev key : SigningKey
key = record { sign = signature_of (repeat 32 5); verifying_key = repeat 32 5 }

key-IsKeyPair : IsKeyPair libraries key
key-IsKeyPair = record {
  long_enough = refl;
  is_key = refl;
  length-sign = length-signature_of (repeat 32 5);
  verifies = λ m. bytes_eq_refl (signature_of (repeat 32 5) m);
}

abbrev made : Result SdkError Bytes
made =
    generate libraries (from_signing_key libraries key) (codes "post") (codes "/v1/tokens") none
      (codes "id") 1000

base_run :
    extract_url_base libraries (codes "/v1/tokens") ≡ ok (codes "https://registry:8443/v1/tokens")
unfolding extract_url_base
base_run = refl

-- The proof as it stands, for the statement below.
abbrev proof : Bytes
proof = elim made [ ok p ↦ p | err e ↦ [] ]

generate-Reads_example :
    (htu : Bytes) × (extract_url_base libraries (codes "/v1/tokens") ≡ ok htu)
    × Reads libraries proof key.verifying_key (record {
      jti = codes "id";
      htm = libraries.to_uppercase (codes "post");
      htu = htu;
      iat = 1000;
      ath = token_hash libraries none;
    })
unfolding generate extract_url_base from_signing_key
generate-Reads_example =
    generate-Reads libraries key (codes "post") (codes "/v1/tokens") none (codes "id") proof 1000
      key-IsKeyPair refl
