-- ===== src/Verifier.antt =====
-- services/verifier/src/handlers.rs: the verification of a token. Log lines and latencies leave no
-- trace. The comparison `ct_eq` of the crate subtle is a parameter.
pub mod Soundness
pub mod Answers
pub mod Replay
pub mod Revocation
pub mod Health
mod Tests
use agent_auth.Prelude.{
  ℕ, ◌+◌, String, Bool, true, false, not, ◌&&◌, Option, none, some, List, ltb, ◌==◌, if◌then◌else◌,
  Result, ok, err, ℤ, from_secs, num_seconds_between, timestamp,
}
use agent_auth.Core.Capability.{Capability}
use agent_auth.Core.Envelope.{BehavioralEnvelope}
use agent_auth.Registry.Error.{RegistryError}
use agent_auth.Registry.Tables
use agent_auth.Registry.Tables.{TokenRow}
use agent_auth.Registry.Db.{Db, read_replica}
use agent_auth.Registry.Cache
use agent_auth.Registry.Cache.{Redis, CachedToken}
use agent_auth.Registry.World.{World}

-- A proof is kept as a text, a thumbprint as its bytes.
pub record VerifyTokenRequest : Type 0 where
  pub jti : ℕ
  pub service_provider_id : ℕ
  pub nonce : String
  pub dpop_proof : Option String
  pub dpop_thumbprint : Option (List ℕ)

pub data VerificationOutcome : Type 0 where
  allowed nonce_replay revoked binding_mismatch invalid_dpop_proof : VerificationOutcome
  invalid_signature expired not_found service_provider_mismatch internal_error : VerificationOutcome

pub data StatusCode : Type 0 where
  status_ok service_unavailable : StatusCode

-- The HTTP status and the body. The JSON columns are passed on as they stand in the row.
pub record VerifyTokenResponse : Type 0 where
  pub status : StatusCode
  pub valid : Bool
  pub outcome : VerificationOutcome
  pub agent_id : Option ℕ
  pub granted_capabilities : Option (Option (List Capability))
  pub behavioral_envelope : Option (Option BehavioralEnvelope)
  pub remaining_lifetime_secs : Option ℤ

-- The skew is configured as an i64; it is taken to be no negative number.
pub record VerificationConfig : Type 0 where
  pub nonce_ttl_secs : ℕ
  pub max_clock_skew_secs : ℕ
  pub require_dpop : Bool

abbrev pub refuse : StatusCode → VerificationOutcome → VerifyTokenResponse
refuse status outcome = record {
  status = status;
  valid = false;
  outcome = outcome;
  agent_id = none;
  granted_capabilities = none;
  behavioral_envelope = none;
  remaining_lifetime_secs = none;
}

abbrev pub reject : VerificationOutcome → VerifyTokenResponse
reject = refuse status_ok

abbrev pub unavailable : VerifyTokenResponse
unavailable = refuse service_unavailable internal_error

abbrev pub is_some {ℓ} : {A : Type ℓ} → Option A → Bool
is_some none = false
is_some (some _) = true

-- Step 6 and the answer. `now` is the reading of the clock for it.
check_expiry : VerificationConfig → TokenRow → ℕ → VerifyTokenResponse
check_expiry config row now =
    if ltb (row.expires_at + from_secs config.max_clock_skew_secs) now
    then reject expired
    else record {
      status = status_ok;
      valid = true;
      outcome = allowed;
      agent_id = some row.agent_id;
      granted_capabilities = some row.granted_capabilities;
      behavioral_envelope = some row.behavioral_envelope;
      remaining_lifetime_secs = some (num_seconds_between row.expires_at now);
    }

-- Step 4. A proof is asked for, and not looked into; step 5, the signature, is not implemented.
check_proof : VerificationConfig → VerifyTokenRequest → TokenRow → ℕ → VerifyTokenResponse
unfolding check_expiry
check_proof config req row now =
    if config.require_dpop && not (is_some req.dpop_proof)
    then reject invalid_dpop_proof
    else check_expiry config row now

module _ (r : Redis) (ct_eq : List ℕ → List ℕ → Bool) where
  -- Step 3: the binding of the token, the thumbprint of the request.
  check_binding :
      VerificationConfig
      → VerifyTokenRequest
      → TokenRow
      → ℕ
      → Option (List ℕ)
      → Option (List ℕ)
      → VerifyTokenResponse
  unfolding check_proof
  check_binding config req row now none thumbprint = check_proof config req row now
  check_binding config req row now (some binding) (some thumbprint) =
      if not (ct_eq binding thumbprint)
      then reject binding_mismatch
      else check_proof config req row now
  check_binding config req row now (some binding) none =
      if config.require_dpop then reject invalid_dpop_proof else check_proof config req row now

  unfoldable pub check_row :
      VerificationConfig → VerifyTokenRequest → TokenRow → ℕ → VerifyTokenResponse
  unfolding check_binding
  check_row config req row now =
      check_binding config req row now row.token_binding req.dpop_thumbprint

  -- The token is in the cache: its row is read for the details only.
  with_cached_row :
      VerificationConfig
      → VerifyTokenRequest
      → ℕ
      → Result RegistryError (Option TokenRow)
      → VerifyTokenResponse
  unfolding check_row
  with_cached_row config req now (ok (some row)) = check_row config req row now
  with_cached_row config req now (ok none) = reject not_found
  with_cached_row config req now (err e) = unavailable

  -- The token is not in the cache: its row is checked, and cached whatever becomes of that call.
  with_uncached_row :
      VerificationConfig
      → VerifyTokenRequest
      → (cached_at now : ℕ) → Result RegistryError (Option TokenRow)
      → World r
      → VerifyTokenResponse × World r
  unfolding check_row
  with_uncached_row config req cached_at now (ok (some row)) w =
      if row.is_revoked
      then (reject revoked, w)
      else (if not (row.service_provider_id == req.service_provider_id)
          then (reject service_provider_mismatch, w)
          else (
            check_row config req row now,
            record w {
              cache =
                  (Cache.cache_token r req.jti row.service_provider_id (timestamp row.expires_at)
                    row.is_revoked cached_at w.cache).1;
            },
          ))
  with_uncached_row config req cached_at now (ok none) w = (reject not_found, w)
  with_uncached_row config req cached_at now (err e) w = (unavailable, w)

  read_row : ℕ → Db → Result RegistryError (Option TokenRow) × Db
  read_row jti = read_replica (Tables.get_token jti)

  -- Step 2. A cache that does not answer counts as a miss.
  with_cached :
      VerificationConfig
      → VerifyTokenRequest
      → (cached_at now : ℕ) → Result RegistryError (Option CachedToken)
      → World r
      → VerifyTokenResponse × World r
  unfolding with_cached_row with_uncached_row read_row
  with_cached config req cached_at now (ok (some c)) w =
      if c.is_revoked
      then (reject revoked, w)
      else (if not (c.service_provider_id == req.service_provider_id)
          then (reject service_provider_mismatch, w)
          else (
            with_cached_row config req now (read_row req.jti w.db).0,
            record w { db = (read_row req.jti w.db).1 },
          ))
  with_cached config req cached_at now (ok none) w =
      with_uncached_row config req cached_at now (read_row req.jti w.db).0
        (record w { db = (read_row req.jti w.db).1 })
  with_cached config req cached_at now (err e) w =
      with_uncached_row config req cached_at now (read_row req.jti w.db).0
        (record w { db = (read_row req.jti w.db).1 })

  -- Step 1: a nonce that was used, or that cannot be checked, ends the verification.
  with_nonce :
      VerificationConfig
      → VerifyTokenRequest
      → (cached_at now : ℕ) → Result RegistryError Bool
      → World r
      → VerifyTokenResponse × World r
  unfolding with_cached
  with_nonce config req cached_at now (ok true) w = (reject nonce_replay, w)
  with_nonce config req cached_at now (err e) w = (unavailable, w)
  with_nonce config req cached_at now (ok false) w =
      let looked_up = Cache.get_cached_token r req.jti cached_at w.cache in
      with_cached config req cached_at now looked_up.0 (record w { cache = looked_up.1 })

  -- The handler. `cached_at` is the clock of Redis, `now` that of the expiry check.
  unfoldable pub verify_token :
      VerificationConfig
      → VerifyTokenRequest
      → (cached_at now : ℕ) → World r
      → VerifyTokenResponse × World r
  unfolding with_nonce
  verify_token config req cached_at now w =
      let checked = Cache.check_and_set_nonce r req.nonce config.nonce_ttl_secs cached_at w.cache in
      with_nonce config req cached_at now checked.0 (record w { cache = checked.1 })
