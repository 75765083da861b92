-- ===== src/Core/Crypto/Samples.antt =====
-- Small engines of base64, of Ed25519 and of JSON, for the runs at concrete inputs.
use agent_auth.Prelude.{
  ℕ, zero, suc, ◌+◌, ◌-◌, ◌<◌, ◌≡◌, refl, ap, ◌≢◌, some, [], ◌∷◌, arith, ◌==◌, length, All, ok,
  Bytes, bytes_eq,
}
use agent_auth.Core.Crypto.{Base64, Ed25519, Canonical, Ed25519PublicKey, SigningBackend}

-- Every byte past the full stop and the colon.
abbrev pub raised : Bytes → Bytes
raised [] = []
raised (b ∷ bs) = (b + 59) ∷ raised bs

abbrev pub lowered : Bytes → Bytes
lowered [] = []
lowered (b ∷ bs) = (b - 59) ∷ lowered bs

pub lowered-raised : (bs : Bytes) → lowered (raised bs) ≡ bs
lowered-raised [] = refl
lowered-raised (b ∷ bs) = ground (arith, lowered-raised bs)

pub raised_far : (c : ℕ) → c < 59 → (bs : Bytes) → All (λ b. b ≢ c) (raised bs)
raised_far c lt [] = tt
raised_far c lt (b ∷ bs) = (λ e. absurd (omega arith), raised_far c lt bs)

pub some-lowered : (bs : Bytes) → some (lowered (raised bs)) ≡ some bs
some-lowered bs = ap some (lowered-raised bs)

abbrev pub base64 : Base64
base64 = record {
  encode = raised;
  decode = λ text. some (lowered text);
  decode-encode = some-lowered;
  no_full_stop = raised_far b'.' (omega arith);
  no_colon = raised_far b':' (omega arith);
}

abbrev pub repeat : ℕ → ℕ → Bytes
repeat zero b = []
repeat (suc n) b = b ∷ repeat n b

-- A signature is 64 times the sum of the first bytes of the key and of the message.
abbrev pub first : Bytes → ℕ
first [] = 0
first (b ∷ bs) = b

unfoldable pub signature_of : (key message : Bytes) → Bytes
signature_of key message = repeat 64 (first key + first message)

pub length-signature_of : (key message : Bytes) → length (signature_of key message) ≡ 64
unfolding signature_of
length-signature_of key message = refl

abbrev pub ed25519 : Ed25519
ed25519 = record {
  is_key = λ key. length key == 32;
  verify = λ key message signature. bytes_eq signature (signature_of key message);
}

abbrev pub key : ℕ → Ed25519PublicKey
key b = record { bytes = repeat 32 b }

abbrev pub backend : ℕ → SigningBackend
backend b = record {
  sign = λ message. ok (record { bytes = signature_of (repeat 32 b) message });
  public_key = ok (key b);
  key_id = "key-1";
}

abbrev pub json : Canonical
json = record { manifest_bytes = λ m. some (m.id ∷ []); token_bytes = λ t. some (t.jti ∷ []) }
