-- ===== src/Verifier/Answers.antt =====
-- The shape of the verifier's answers.
use agent_auth.Prelude.{
  ℕ, ◌≡◌, ◌↔◌, Bool, true, false, Option, none, some, List, arith, Result, ok, err,
}
use agent_auth.Registry.Error.{RegistryError}
use agent_auth.Registry.Tables.{TokenRow}
use agent_auth.Registry.Cache
use agent_auth.Registry.Cache.{Redis, CachedToken}
use agent_auth.Registry.World.{World}
use agent_auth.Verifier.{
  VerifyTokenRequest, VerifyTokenResponse, VerificationConfig, service_unavailable, internal_error,
  allowed, verify_token, check_row, with_nonce, with_cached, with_cached_row, with_uncached_row,
  read_row, check_binding, is_some,
}

-- Whether an answer has the outcome `allowed` exactly when it is valid, tells whose token it is
-- exactly then, and has the status 503 exactly when its outcome is the internal error.
abbrev pub Consistent : VerifyTokenResponse → Type 0
Consistent a =
    ((a.valid ≡ true) ↔ (a.outcome ≡ allowed))
    × (is_some a.agent_id ≡ a.valid)
    × (is_some a.granted_capabilities ≡ a.valid)
    × (is_some a.behavioral_envelope ≡ a.valid)
    × (is_some a.remaining_lifetime_secs ≡ a.valid)
    × ((a.status ≡ service_unavailable) ↔ (a.outcome ≡ internal_error))

module _ (r : Redis) (ct_eq : List ℕ → List ℕ → Bool) where
  check_binding-Consistent :
      (config : VerificationConfig) (req : VerifyTokenRequest) (row : TokenRow) (now : ℕ)
      (b t : Option (List ℕ))
      → Consistent (check_binding r ct_eq config req row now b t)
  unfolding check_binding
  check_binding-Consistent config req row now none t = ground arith
  check_binding-Consistent config req row now (some b) none = ground arith
  check_binding-Consistent config req row now (some b) (some t) = ground arith

  check_row-Consistent :
      (config : VerificationConfig) (req : VerifyTokenRequest) (row : TokenRow) (now : ℕ)
      → Consistent (check_row r ct_eq config req row now)
  unfolding check_row
  check_row-Consistent config req row now =
      check_binding-Consistent config req row now row.token_binding req.dpop_thumbprint

  with_cached_row-Consistent :
      (config : VerificationConfig) (req : VerifyTokenRequest) (now : ℕ)
      (got : Result RegistryError (Option TokenRow))
      → Consistent (with_cached_row r ct_eq config req now got)
  unfolding with_cached_row
  with_cached_row-Consistent config req now (ok (some row)) =
      check_row-Consistent config req row now
  with_cached_row-Consistent config req now (ok none) = ground arith
  with_cached_row-Consistent config req now (err e) = ground arith

  with_uncached_row-Consistent :
      (config : VerificationConfig) (req : VerifyTokenRequest) (cached_at now : ℕ)
      (got : Result RegistryError (Option TokenRow)) (w : World r)
      → Consistent (with_uncached_row r ct_eq config req cached_at now got w).0
  unfolding with_uncached_row
  with_uncached_row-Consistent config req cached_at now (ok (some row)) w =
      ground (arith, check_row-Consistent config req row now)
  with_uncached_row-Consistent config req cached_at now (ok none) w = ground arith
  with_uncached_row-Consistent config req cached_at now (err e) w = ground arith

  with_cached-Consistent :
      (config : VerificationConfig) (req : VerifyTokenRequest) (cached_at now : ℕ)
      (looked_up : Result RegistryError (Option CachedToken)) (w : World r)
      → Consistent (with_cached r ct_eq config req cached_at now looked_up w).0
  unfolding with_cached
  with_cached-Consistent config req cached_at now (ok (some c)) w =
      ground (arith, with_cached_row-Consistent config req now (read_row r ct_eq req.jti w.db).0)
  with_cached-Consistent config req cached_at now (ok none) w =
      with_uncached_row-Consistent config req cached_at now (read_row r ct_eq req.jti w.db).0 _
  with_cached-Consistent config req cached_at now (err e) w =
      with_uncached_row-Consistent config req cached_at now (read_row r ct_eq req.jti w.db).0 _

  with_nonce-Consistent :
      (config : VerificationConfig) (req : VerifyTokenRequest) (cached_at now : ℕ)
      (checked : Result RegistryError Bool) (w : World r)
      → Consistent (with_nonce r ct_eq config req cached_at now checked w).0
  unfolding with_nonce
  with_nonce-Consistent config req cached_at now (ok true) w = ground arith
  with_nonce-Consistent config req cached_at now (ok false) w =
      let looked_up = Cache.get_cached_token r req.jti cached_at w.cache in
      with_cached-Consistent config req cached_at now looked_up.0 (record w { cache = looked_up.1 })
  with_nonce-Consistent config req cached_at now (err e) w = ground arith

  -- Every answer of the verifier has the outcome `allowed` exactly when it is valid, carries the
  -- agent, its capabilities, its envelope and the remaining lifetime exactly then, and has the
  -- status 503 exactly when its outcome is the internal error.
  pub verify_token-Consistent :
      (config : VerificationConfig) (req : VerifyTokenRequest) (cached_at now : ℕ) (w : World r)
      → Consistent (verify_token r ct_eq config req cached_at now w).0
  unfolding verify_token
  verify_token-Consistent config req cached_at now w =
      let checked = Cache.check_and_set_nonce r req.nonce config.nonce_ttl_secs cached_at w.cache in
      with_nonce-Consistent config req cached_at now checked.0 (record w { cache = checked.1 })
