-- ===== src/Verifier/Soundness.antt =====
-- What a positive answer of the verifier stands for, and the shape of every answer.
use agent_auth.Prelude.{
  ℕ, ◌+◌, ◌≤◌, ◌≡◌, refl, ◌≢◌, ◌↔◌, inl, inr, Bool, true, false, Option, none, some, List, arith,
  Result, ok, err, from_secs,
}
use agent_auth.Registry.Error.{RegistryError}
use agent_auth.Registry.Tables
use agent_auth.Registry.Tables.{TokenRow}
use agent_auth.Registry.Cache
use agent_auth.Registry.Cache.{Redis, CachedToken}
use agent_auth.Registry.Db.{Db, answers, Fault-cases}
use agent_auth.Registry.World.{World}
use agent_auth.Verifier.{
  VerifyTokenRequest, VerificationConfig, verify_token, check_row, with_nonce, with_cached,
  with_cached_row, with_uncached_row, read_row, check_binding, is_some,
}

-- What a row must meet to be allowed.
pub record RowAllowed (ct_eq : List ℕ → List ℕ → Bool) (config : VerificationConfig)
    (req : VerifyTokenRequest) (row : TokenRow) (now : ℕ) : Type 0 where
  pub in_time : now ≤ row.expires_at + from_secs config.max_clock_skew_secs
  pub proof_given : config.require_dpop ≡ true → is_some req.dpop_proof ≡ true
  pub bound :
      (binding thumbprint : List ℕ)
      → row.token_binding ≡ some binding
      → req.dpop_thumbprint ≡ some thumbprint
      → ct_eq binding thumbprint ≡ true
  pub thumbprint_given :
      config.require_dpop ≡ true
      → is_some row.token_binding ≡ true
      → is_some req.dpop_thumbprint ≡ true

module _ (r : Redis) (ct_eq : List ℕ → List ℕ → Bool) where
  check_binding-allowed :
      (config : VerificationConfig) (req : VerifyTokenRequest) (row : TokenRow) (now : ℕ)
      (b t : Option (List ℕ))
      → row.token_binding ≡ b
      → req.dpop_thumbprint ≡ t
      → (check_binding r ct_eq config req row now b t).valid ≡ true
      → RowAllowed ct_eq config req row now
  unfolding check_binding
  check_binding-allowed config req row now none t e f h = record {
    in_time = ground arith;
    proof_given = λ d. ground arith;
    bound = λ binding thumbprint x y. ground arith;
    thumbprint_given = λ d x. ground arith;
  }
  check_binding-allowed config req row now (some b) none e f h = record {
    in_time = ground arith;
    proof_given = λ d. ground arith;
    bound = λ binding thumbprint x y. ground arith;
    thumbprint_given = λ d x. ground arith;
  }
  check_binding-allowed config req row now (some b) (some t) e f h = record {
    in_time = ground arith;
    proof_given = λ d. ground arith;
    bound = λ binding thumbprint x y. ground arith;
    thumbprint_given = λ d x. ground arith;
  }

  RowAllowed-check_row :
      (config : VerificationConfig) (req : VerifyTokenRequest) (row : TokenRow) (now : ℕ)
      (b t : Option (List ℕ))
      → row.token_binding ≡ b
      → req.dpop_thumbprint ≡ t
      → RowAllowed ct_eq config req row now
      → (check_binding r ct_eq config req row now b t).valid ≡ true
  unfolding check_binding
  RowAllowed-check_row config req row now none t e f a = ground (arith, a.in_time, a.proof_given)
  RowAllowed-check_row config req row now (some b) none e f a =
      ground (arith, a.in_time, a.proof_given, a.thumbprint_given)
  RowAllowed-check_row config req row now (some b) (some t) e f a =
      ground (arith, a.in_time, a.proof_given, a.bound b t e f)

  -- A row passes the checks of the binding, of the proof and of the expiry exactly when: it is not
  -- past its expiry by more than the skew; a proof comes along if one is required; a thumbprint
  -- that comes along with a bound token matches; and a bound token has one if a proof is required.
  pub check_row_iff :
      (config : VerificationConfig) (req : VerifyTokenRequest) (row : TokenRow) (now : ℕ)
      → ((check_row r ct_eq config req row now).valid ≡ true) ↔ RowAllowed ct_eq config req row now
  unfolding check_row
  check_row_iff config req row now = (
    check_binding-allowed config req row now row.token_binding req.dpop_thumbprint refl refl,
    RowAllowed-check_row config req row now row.token_binding req.dpop_thumbprint refl refl,
  )

  -- What a positive answer rests on.
  pub record Admitted (config : VerificationConfig) (req : VerifyTokenRequest)
      (looked_up : Result RegistryError (Option CachedToken)) (now : ℕ) (db : Db) : Type 0 where
    pub row : TokenRow
    pub found : Tables.get_token req.jti db.replica ≡ some row
    pub answered : db.fault 0 ≡ answers
    pub checked : RowAllowed ct_eq config req row now
    -- The cached entry was looked at, or the row if there is none.
    pub cached_live :
        (c : CachedToken)
        → looked_up ≡ ok (some c)
        → (c.is_revoked ≡ false) × (c.service_provider_id ≡ req.service_provider_id)
    pub row_live :
        ((c : CachedToken) → looked_up ≢ ok (some c))
        → (row.is_revoked ≡ false) × (row.service_provider_id ≡ req.service_provider_id)

  read_row-found :
      (jti : ℕ) (db : Db) (row : TokenRow)
      → (read_row r ct_eq jti db).0 ≡ ok (some row)
      → (Tables.get_token jti db.replica ≡ some row) × (db.fault 0 ≡ answers)
  unfolding read_row
  read_row-found jti db row h = elim (Fault-cases (db.fault 0)) [
    | inl e ↦ (ground arith, e)
    | inr e ↦ ground arith
  ]

  with_cached_row-valid :
      (config : VerificationConfig) (req : VerifyTokenRequest) (now : ℕ)
      (got : Result RegistryError (Option TokenRow))
      → (with_cached_row r ct_eq config req now got).valid ≡ true
      → (row : TokenRow) × (got ≡ ok (some row)) × RowAllowed ct_eq config req row now
  unfolding with_cached_row
  with_cached_row-valid config req now (ok (some row)) h =
      (row, refl, (check_row_iff config req row now).0 h)
  with_cached_row-valid config req now (ok none) h = ground arith
  with_cached_row-valid config req now (err e) h = ground arith

  with_uncached_row-valid :
      (config : VerificationConfig) (req : VerifyTokenRequest) (cached_at now : ℕ)
      (got : Result RegistryError (Option TokenRow)) (w : World r)
      → (with_uncached_row r ct_eq config req cached_at now got w).0.valid ≡ true
      → (row : TokenRow) × (got ≡ ok (some row))
        × (row.is_revoked ≡ false)
        × (row.service_provider_id ≡ req.service_provider_id)
        × RowAllowed ct_eq config req row now
  unfolding with_uncached_row
  with_uncached_row-valid config req cached_at now (ok (some row)) w h =
      (row, refl, ground arith, ground arith, (check_row_iff config req row now).0 (ground arith))
  with_uncached_row-valid config req cached_at now (ok none) w h = ground arith
  with_uncached_row-valid config req cached_at now (err e) w h = ground arith

  uncached-Admitted :
      (config : VerificationConfig) (req : VerifyTokenRequest) (cached_at now : ℕ)
      (looked_up : Result RegistryError (Option CachedToken)) (w w' : World r)
      → ((c : CachedToken) → looked_up ≢ ok (some c))
      → (with_uncached_row r ct_eq config req cached_at now
          (read_row r ct_eq req.jti w.db).0
          w').0.valid
        ≡ true
      → Admitted config req looked_up now w.db
  uncached-Admitted config req cached_at now looked_up w w' n h =
      let (row, e, live, same, a) =
        with_uncached_row-valid config req cached_at now (read_row r ct_eq req.jti w.db).0 w' h in
      let (found, answered) = read_row-found req.jti w.db row e in
      record {
        row = row;
        found = found;
        answered = answered;
        checked = a;
        cached_live = λ c x. absurd (n c x);
        row_live = λ x. (live, same);
      }

  with_cached-Admitted :
      (config : VerificationConfig) (req : VerifyTokenRequest) (cached_at now : ℕ)
      (looked_up : Result RegistryError (Option CachedToken)) (w : World r)
      → (with_cached r ct_eq config req cached_at now looked_up w).0.valid ≡ true
      → Admitted config req looked_up now w.db
  unfolding with_cached
  with_cached-Admitted config req cached_at now (ok (some c)) w h =
      let (row, e, a) =
        with_cached_row-valid config req now (read_row r ct_eq req.jti w.db).0 (ground arith) in
      let (found, answered) = read_row-found req.jti w.db row e in
      record {
        row = row;
        found = found;
        answered = answered;
        checked = a;
        cached_live = λ d x. (ground arith, ground arith);
        row_live = λ n. absurd (n c refl);
      }
  with_cached-Admitted config req cached_at now (ok none) w h =
      uncached-Admitted config req cached_at now (ok none) w _ (λ c x. cc) h
  with_cached-Admitted config req cached_at now (err e) w h =
      uncached-Admitted config req cached_at now (err e) w _ (λ c x. cc) h

  with_nonce-Admitted :
      (config : VerificationConfig) (req : VerifyTokenRequest) (cached_at now : ℕ)
      (checked : Result RegistryError Bool) (w : World r)
      → (with_nonce r ct_eq config req cached_at now checked w).0.valid ≡ true
      → (checked ≡ ok false)
        × Admitted config req (Cache.get_cached_token r req.jti cached_at w.cache).0 now w.db
  unfolding with_nonce
  with_nonce-Admitted config req cached_at now (ok true) w h = ground arith
  with_nonce-Admitted config req cached_at now (ok false) w h =
      let looked_up = Cache.get_cached_token r req.jti cached_at w.cache in
      (
        refl,
        with_cached-Admitted config req cached_at now looked_up.0 (record w { cache = looked_up.1 })
            h,
      )
  with_nonce-Admitted config req cached_at now (err e) w h = ground arith

  found-read_row :
      (jti : ℕ) (db : Db) (row : TokenRow)
      → Tables.get_token jti db.replica ≡ some row
      → db.fault 0 ≡ answers
      → (read_row r ct_eq jti db).0 ≡ ok (some row)
  unfolding read_row
  found-read_row jti db row e f = rw (e, f) refl

  Admitted-with_cached :
      (config : VerificationConfig) (req : VerifyTokenRequest) (cached_at now : ℕ)
      (looked_up : Result RegistryError (Option CachedToken)) (w : World r)
      → Admitted config req looked_up now w.db
      → (with_cached r ct_eq config req cached_at now looked_up w).0.valid ≡ true
  unfolding with_cached with_cached_row with_uncached_row
  Admitted-with_cached config req cached_at now (ok (some c)) w a =
      rw ((a.cached_live c refl).0, found-read_row req.jti w.db a.row a.found a.answered)
        (ground (arith, (a.cached_live c refl).1, (check_row_iff config req a.row now).1 a.checked))
  Admitted-with_cached config req cached_at now (ok none) w a =
      rw (found-read_row req.jti w.db a.row a.found a.answered)
        (ground (arith, a.row_live (λ c x. cc), (check_row_iff config req a.row now).1 a.checked))
  Admitted-with_cached config req cached_at now (err e) w a =
      rw (found-read_row req.jti w.db a.row a.found a.answered)
        (ground (arith, a.row_live (λ c x. cc), (check_row_iff config req a.row now).1 a.checked))

  -- The verifier admits a token exactly when: the nonce check was answered and found it fresh; the
  -- replica was read and has the row of the token; the row passes the checks of binding, proof and
  -- expiry; and it is not revoked and is for the provider that asks, as the cache says if it knows
  -- the token, and as the row says otherwise.
  pub verify_token_iff :
      (config : VerificationConfig) (req : VerifyTokenRequest) (cached_at now : ℕ) (w : World r)
      → ((verify_token r ct_eq config req cached_at now w).0.valid ≡ true) ↔ (
          ((Cache.check_and_set_nonce r req.nonce config.nonce_ttl_secs cached_at w.cache).0
            ≡ ok false)
          × Admitted config req
              (Cache.get_cached_token r req.jti cached_at
                (Cache.check_and_set_nonce r req.nonce config.nonce_ttl_secs cached_at w.cache).1).0
              now
              w.db)
  unfolding verify_token with_nonce
  verify_token_iff config req cached_at now w =
      let checked = Cache.check_and_set_nonce r req.nonce config.nonce_ttl_secs cached_at w.cache in
      let looked_up = Cache.get_cached_token r req.jti cached_at checked.1 in
      (
        with_nonce-Admitted config req cached_at now checked.0 (record w { cache = checked.1 }),
        λ (fresh, a). rw fresh (
            Admitted-with_cached config req cached_at now looked_up.0
              (record w { cache = looked_up.1 }) a),
      )
