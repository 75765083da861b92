-- ===== src/Registry/Cache.antt =====
-- crates/registry/src/services/cache.rs: the token cache, the nonce store, the idempotency keys and
-- the one-time passwords in Redis. Redis and
-- its client are not part of the repository: they enter as an interface, with the documented
-- behaviour of the commands that the service sends. A key is its prefix and its identifier; the
-- configured prefixes are taken to keep tokens, nonces and other texts apart.
use Prim.Native.String.{◌++◌ as str_append}
use agent_auth.Prelude.{
  ℕ, suc, ◌+◌, ◌-◌, ◌/◌, ◌≤◌, ◌<◌, max, String, ◌≡◌, ◌≢◌, Bool, true, false, not, Option, none,
  some, if◌then◌else◌, Result, ok, err, nanos_per_sec, from_secs, timestamp,
}
use agent_auth.Registry.Error.{RegistryError, cache}
use agent_auth.Registry.Db.{Fault, answers, lost_before, lost_after, Prog, ◌>>=◌, ◌>>◌, pure}

-- The service provider is the UUID whose text is stored, `expires_at` counts seconds.
pub record CachedToken : Type 0 where
  pub service_provider_id : ℕ
  pub expires_at : ℕ  -- i64
  pub is_revoked : Bool

pub record Redis : Type 1 where
  -- What the server holds.
  pub Store : Type 0
  -- HSET of the three fields and EXPIRE, in seconds.
  pub put_token : (now jti : ℕ) → CachedToken → (ttl : ℕ) → Store → Store
  -- HMGET of the three fields; `err` if the reply does not parse.
  pub hmget : (now jti : ℕ) → Store → Result String (Option CachedToken)
  -- HSET revoked 1
  pub hset_revoked : (now jti : ℕ) → Store → Store
  -- SETNX: whether the key was set.
  pub set_nx : (now : ℕ) → String → Store → Bool × Store
  -- EXPIRE of a nonce, in seconds.
  pub expire : (now : ℕ) → String → (ttl : ℕ) → Store → Store
  -- SETEX, in seconds, GET and GETDEL of a text.
  pub set_ex : (now : ℕ) → (key value : String) → (ttl : ℕ) → Store → Store
  pub get : (now : ℕ) → (key : String) → Store → Option String
  pub getdel : (now : ℕ) → (key : String) → Store → Option String × Store
  -- Whether a nonce is there at an instant.
  pub seen : ℕ → String → Store → Bool
  -- The fields that were put are there until they expire, and no other token changes.
  pub hmget-put_token :
      (t now jti : ℕ) (c : CachedToken) (ttl : ℕ) (s : Store)
      → t < now + from_secs ttl
      → hmget t jti (put_token now jti c ttl s) ≡ ok (some c)
  pub hmget-put_token_ne :
      (t now jti k : ℕ) (c : CachedToken) (ttl : ℕ) (s : Store)
      → jti ≢ k
      → hmget t jti (put_token now k c ttl s) ≡ hmget t jti s
  -- A token that is there keeps its other fields when it is marked.
  pub hmget-hset_revoked :
      (t now jti : ℕ) (c : CachedToken) (s : Store)
      → hmget t jti s ≡ ok (some c)
      → hmget t jti (hset_revoked now jti s) ≡ ok (some (record c { is_revoked = true }))
  -- Nonce commands leave tokens alone.
  pub hmget-set_nx :
      (t now jti : ℕ) (n : String) (s : Store) → hmget t jti (set_nx now n s).1 ≡ hmget t jti s
  pub hmget-expire :
      (t now jti ttl : ℕ) (n : String) (s : Store)
      → hmget t jti (expire now n ttl s) ≡ hmget t jti s
  -- SETNX sets a key that is not there, and then it is there, with no expiry.
  pub set_nx_fresh : (now : ℕ) (n : String) (s : Store) → (set_nx now n s).0 ≡ not (seen now n s)
  pub seen-set_nx :
      (t now : ℕ) (n : String) (s : Store)
      → seen now n s ≡ false
      → seen t n (set_nx now n s).1 ≡ true
  pub seen-set_nx_again :
      (t now : ℕ) (n : String) (s : Store) → seen now n s ≡ true → (set_nx now n s).1 ≡ s
  -- EXPIRE keeps a key until the time is over.
  pub seen-expire :
      (t now ttl : ℕ) (n : String) (s : Store)
      → seen t n s ≡ true
      → t < now + from_secs ttl
      → seen t n (expire now n ttl s) ≡ true
  -- A key that is there at an instant was there before, and no command on one nonce touches another.
  pub seen-earlier :
      (u t : ℕ) (n : String) (s : Store) → u ≤ t → seen t n s ≡ true → seen u n s ≡ true
  pub seen-set_nx_ne :
      (t now : ℕ) (n m : String) (s : Store) → n ≢ m → seen t n (set_nx now m s).1 ≡ seen t n s
  pub seen-expire_ne :
      (t now ttl : ℕ) (n m : String) (s : Store)
      → n ≢ m
      → seen t n (expire now m ttl s) ≡ seen t n s
  -- Token commands leave nonces alone.
  pub seen-put_token :
      (t now jti : ℕ) (c : CachedToken) (ttl : ℕ) (n : String) (s : Store)
      → seen t n (put_token now jti c ttl s) ≡ seen t n s
  -- A text that was set is there until it expires. GETDEL returns it, and it is gone.
  pub get-set_ex :
      (t now : ℕ) (k v : String) (ttl : ℕ) (s : Store)
      → t < now + from_secs ttl
      → get t k (set_ex now k v ttl s) ≡ some v
  pub getdel_get : (now : ℕ) (k : String) (s : Store) → (getdel now k s).0 ≡ get now k s
  pub get-getdel : (t now : ℕ) (k : String) (s : Store) → get t k (getdel now k s).1 ≡ none
  -- No other command changes a text.
  pub get-set_ex_ne :
      (t now : ℕ) (k m v : String) (ttl : ℕ) (s : Store)
      → k ≢ m
      → get t k (set_ex now m v ttl s) ≡ get t k s
  pub get-getdel_ne :
      (t now : ℕ) (k m : String) (s : Store) → k ≢ m → get t k (getdel now m s).1 ≡ get t k s
  pub get-put_token :
      (t now jti : ℕ) (c : CachedToken) (ttl : ℕ) (k : String) (s : Store)
      → get t k (put_token now jti c ttl s) ≡ get t k s
  pub get-hset_revoked :
      (t now jti : ℕ) (k : String) (s : Store) → get t k (hset_revoked now jti s) ≡ get t k s
  pub get-set_nx : (t now : ℕ) (n k : String) (s : Store) → get t k (set_nx now n s).1 ≡ get t k s
  pub get-expire :
      (t now ttl : ℕ) (n k : String) (s : Store) → get t k (expire now n ttl s) ≡ get t k s

abbrev pub is_some : Option String → Bool
is_some none = false
is_some (some v) = true

module _ (r : Redis) where
  open r use {Store, put_token, hmget, hset_revoked, set_nx, expire, set_ex, get, getdel}

  -- The connection: what the server holds, and the fate of the next requests.
  pub record Connection : Type 0 where
    pub store : Store
    pub fault : ℕ → Fault

  abbrev pub next : Connection → Connection
  next c = record c { fault = λ n. c.fault (suc n) }

  -- A request that is lost gives the service's cache error.
  abbrev pub reply {ℓ} : {A : Type ℓ} → Fault → String → A → Result RegistryError A
  reply answers message a = ok a
  reply lost_before message a = err (cache message)
  reply lost_after message a = err (cache message)

  abbrev pub held : Fault → Store → Store → Store
  held answers old new = new
  held lost_before old new = old
  held lost_after old new = new

  abbrev pub request {ℓ} : {A : Type ℓ} → String → (Store → A × Store) → Prog Connection A
  request message f c = (
    reply (c.fault 0) message (f c.store).0,
    record (next c) { store = held (c.fault 0) c.store (f c.store).1 },
  )

  -- PING
  unfoldable pub health_check : Prog Connection (Unit {0})
  health_check = request "Redis health check failed" (λ s. (tt, s))

  -- `expires_at` counts seconds; a token that is past it is kept for one second. The pipeline of HSET and
  -- EXPIRE is taken as one request, which takes effect as a whole.
  unfoldable pub cache_token : ℕ → ℕ → ℕ → Bool → ℕ → Prog Connection (Unit {0})
  cache_token jti sp expires_at is_revoked now = request "failed to cache token" (λ s. (
    tt,
    put_token now jti
        (record { service_provider_id = sp; expires_at = expires_at; is_revoked = is_revoked })
        (max (expires_at - timestamp now) 1) s,
  ))

  -- A reply that does not parse is an error too.
  parsed : Result String (Option CachedToken) → Prog Connection (Option CachedToken)
  parsed (ok c) = pure c
  parsed (err e) = λ s. (err (cache "failed to get cached token"), s)

  unfoldable pub get_cached_token : ℕ → ℕ → Prog Connection (Option CachedToken)
  unfolding parsed
  get_cached_token jti now =
      request "failed to get cached token" (λ s. (hmget now jti s, s)) >>= parsed

  unfoldable pub mark_token_revoked : ℕ → ℕ → Prog Connection (Unit {0})
  mark_token_revoked jti now =
      request "failed to mark token revoked" (λ s. (tt, hset_revoked now jti s))

  -- Whether the nonce was used before; a fresh one is now used, for `ttl` seconds.
  unfoldable pub check_and_set_nonce : String → ℕ → ℕ → Prog Connection Bool
  check_and_set_nonce nonce ttl now =
      request "failed to check nonce" (λ s. set_nx now nonce s) >>= λ was_set.
      (if was_set
        then request "failed to set nonce expiry" (λ s. (tt, expire now nonce ttl s))
        else pure tt)
      >> pure (not was_set)

  abbrev pub idempotency_key : String → String
  idempotency_key key = str_append "idempotency:" key

  unfoldable pub store_idempotency_key : String → String → ℕ → ℕ → Prog Connection (Unit {0})
  store_idempotency_key key response ttl now =
      request "failed to store idempotency key"
        (λ s. (tt, set_ex now (idempotency_key key) response (ttl / nanos_per_sec) s))

  unfoldable pub get_idempotency_key : String → ℕ → Prog Connection (Option String)
  get_idempotency_key key now =
      request "failed to get idempotency key" (λ s. (get now (idempotency_key key) s, s))

  abbrev pub otp_key : String → String
  otp_key otp = str_append "otp:" otp

  -- Whether the password was there; it is gone after the call.
  unfoldable pub validate_and_consume_otp : String → ℕ → Prog Connection Bool
  validate_and_consume_otp otp now =
      request "failed to validate OTP" (λ s. getdel now (otp_key otp) s) >>= λ result.
      pure (is_some result)

  unfoldable pub store_otp : String → ℕ → ℕ → Prog Connection (Unit {0})
  store_otp otp ttl now =
      request "failed to store OTP"
        (λ s. (tt, set_ex now (otp_key otp) "1" (ttl / nanos_per_sec) s))
