-- ===== src/Verifier/Replay.antt =====
-- Replay: a nonce that was found fresh is refused until its time is over.
use agent_auth.Prelude.{
  ℕ, ◌+◌, ◌≤◌, ◌<◌, String, ◌≡◌, refl, sym, subst, ◌∙◌, ◌≢◌, ◌⊎◌, inl, inr, Bool, true, false,
  Option, none, some, List, [], ◌∷◌, arith, eq_iff, str_eq, Bool-cases, All, Result, ok, err,
  Result-cases, from_secs, timestamp,
}
use agent_auth.Registry.Error.{RegistryError}
use agent_auth.Registry.Db.{Fault-cases}
use agent_auth.Registry.Cache.{
  Redis, Connection, CachedToken, check_and_set_nonce, cache_token, get_cached_token,
}
use agent_auth.Registry.World.{World}
use agent_auth.Registry.Tables.{TokenRow}
use agent_auth.Verifier.{
  VerifyTokenRequest, VerifyTokenResponse, VerificationConfig, reject, unavailable, nonce_replay,
  verify_token, with_nonce, with_cached, with_uncached_row, read_row,
}

ne_of_str_eq : (n m : String) → str_eq n m ≡ false → n ≢ m
ne_of_str_eq n m e x = absurd (ground (arith, (eq_iff n m).1 x))

-- One call of the verifier, with the readings of the clocks.
pub record Attempt : Type 0 where
  pub config : VerificationConfig
  pub req : VerifyTokenRequest
  pub cached_at : ℕ
  pub now : ℕ

module _ (r : Redis) where
  -- A nonce that was found fresh is held until its time is over.
  nonce_held :
      (n : String) (ttl at t : ℕ) (c : Connection r)
      → (check_and_set_nonce r n ttl at c).0 ≡ ok false
      → t < at + from_secs ttl
      → r.seen t n (check_and_set_nonce r n ttl at c).1.store ≡ true
  unfolding check_and_set_nonce
  nonce_held n ttl at t c h lt = elim (Fault-cases (c.fault 0)) [
    | inr e ↦ ground arith
    | inl e ↦ elim (Bool-cases (r.seen at n c.store)) [
      | inl s ↦ ground (arith, r.set_nx_fresh at n c.store)
      | inr s ↦ elim (Fault-cases (c.fault 1)) [
        | inr f ↦ ground (arith, r.set_nx_fresh at n c.store)
        | inl f ↦ ground (
          arith,
          r.set_nx_fresh at n c.store,
          r.seen-set_nx t at n c.store s,
          r.seen-expire t at ttl n (r.set_nx at n c.store).1,
        )
      ]
    ]
  ]

  -- A check of any nonce keeps one that is held.
  nonce_kept :
      (n m : String) (ttl at t : ℕ) (c : Connection r)
      → at ≤ t
      → r.seen t n c.store ≡ true
      → r.seen t n (check_and_set_nonce r m ttl at c).1.store ≡ true
  unfolding check_and_set_nonce
  nonce_kept n m ttl at t c le h = elim (Bool-cases (str_eq n m)) [
    | inl e ↦
        unfold check_and_set_nonce in
        rw (sym ((eq_iff n m).0 e)) (elim (Fault-cases (c.fault 0)) [
          | inr f ↦
              ground
                (arith, r.seen-set_nx_again t at n c.store (r.seen-earlier at t n c.store le h))
          | inl f ↦ ground (
            arith,
            r.seen-set_nx_again t at n c.store (r.seen-earlier at t n c.store le h),
            r.set_nx_fresh at n c.store,
            r.seen-earlier at t n c.store le h,
          )
        ])
    | inr e ↦
        let ne = ne_of_str_eq n m e in
        ground (
          arith,
          Fault-cases (c.fault 0),
          Fault-cases (c.fault 1),
          r.seen-set_nx_ne t at n m c.store ne,
          r.seen-expire_ne t at ttl n m (r.set_nx at m c.store).1 ne,
        )
  ]

  get_kept :
      (n : String) (jti at t : ℕ) (c : Connection r)
      → r.seen t n (get_cached_token r jti at c).1.store ≡ r.seen t n c.store
  unfolding get_cached_token
  get_kept n jti at t c =
      ground (arith, Fault-cases (c.fault 0), Result-cases (r.hmget at jti c.store))

  cache_kept :
      (n : String) (jti sp expires_at : ℕ) (b : Bool) (at t : ℕ) (c : Connection r)
      → r.seen t n (cache_token r jti sp expires_at b at c).1.store ≡ r.seen t n c.store
  unfolding cache_token
  cache_kept n jti sp expires_at b at t c = elim (Fault-cases (c.fault 0)) [
    | inl e ↦ rw e (r.seen-put_token t at jti _ _ n c.store)
    | inr (inl e) ↦ rw e refl
    | inr (inr e) ↦ rw e (r.seen-put_token t at jti _ _ n c.store)
  ]

  module _ (ct_eq : List ℕ → List ℕ → Bool) where
    uncached_kept :
        (n : String) (t : ℕ) (config : VerificationConfig) (req : VerifyTokenRequest)
        (cached_at now : ℕ) (got : Result RegistryError (Option TokenRow)) (w : World r)
        → r.seen t n (with_uncached_row r ct_eq config req cached_at now got w).1.cache.store
          ≡ r.seen t n w.cache.store
    unfolding with_uncached_row
    uncached_kept n t config req cached_at now (ok (some row)) w = ground (
      arith,
      cache_kept n req.jti row.service_provider_id (timestamp row.expires_at) row.is_revoked
          cached_at t w.cache,
    )
    uncached_kept n t config req cached_at now (ok none) w = refl
    uncached_kept n t config req cached_at now (err e) w = refl

    cached_kept :
        (n : String) (t : ℕ) (config : VerificationConfig) (req : VerifyTokenRequest)
        (cached_at now : ℕ) (looked_up : Result RegistryError (Option CachedToken)) (w : World r)
        → r.seen t n (with_cached r ct_eq config req cached_at now looked_up w).1.cache.store
          ≡ r.seen t n w.cache.store
    unfolding with_cached
    cached_kept n t config req cached_at now (ok (some c)) w = ground arith
    cached_kept n t config req cached_at now (ok none) w =
        uncached_kept n t config req cached_at now (read_row r ct_eq req.jti w.db).0 _
    cached_kept n t config req cached_at now (err e) w =
        uncached_kept n t config req cached_at now (read_row r ct_eq req.jti w.db).0 _

    with_nonce_kept :
        (n : String) (t : ℕ) (config : VerificationConfig) (req : VerifyTokenRequest)
        (cached_at now : ℕ) (checked : Result RegistryError Bool) (w : World r)
        → r.seen t n (with_nonce r ct_eq config req cached_at now checked w).1.cache.store
          ≡ r.seen t n w.cache.store
    unfolding with_nonce
    with_nonce_kept n t config req cached_at now (ok true) w = refl
    with_nonce_kept n t config req cached_at now (ok false) w =
        let looked_up = get_cached_token r req.jti cached_at w.cache in
        cached_kept n t config req cached_at now looked_up.0 (record w { cache = looked_up.1 })
        ∙ get_kept n req.jti cached_at t w.cache
    with_nonce_kept n t config req cached_at now (err e) w = refl

    abbrev pub attempt : Attempt → World r → VerifyTokenResponse × World r
    attempt a w = verify_token r ct_eq a.config a.req a.cached_at a.now w

    abbrev pub attempts : List Attempt → World r → World r
    attempts [] w = w
    attempts (a ∷ xs) w = attempts xs (attempt a w).1

    attempt_kept :
        (n : String) (t : ℕ) (a : Attempt) (w : World r)
        → a.cached_at ≤ t
        → r.seen t n w.cache.store ≡ true
        → r.seen t n (attempt a w).1.cache.store ≡ true
    unfolding verify_token
    attempt_kept n t a w le h =
        with_nonce_kept n t a.config a.req a.cached_at a.now _ _
        ∙ nonce_kept n a.req.nonce (a.config.nonce_ttl_secs) a.cached_at t w.cache le h

    attempts_kept :
        (n : String) (t : ℕ) (xs : List Attempt) (w : World r)
        → All (λ a. a.cached_at ≤ t) xs
        → r.seen t n w.cache.store ≡ true
        → r.seen t n (attempts xs w).cache.store ≡ true
    attempts_kept n t [] w le h = h
    attempts_kept n t (a ∷ xs) w le h =
        attempts_kept n t xs (attempt a w).1 le.1 (attempt_kept n t a w le.0 h)

    -- A nonce that is there is refused, or cannot be checked.
    seen_refused :
        (b : Attempt) (w : World r)
        → r.seen b.cached_at b.req.nonce w.cache.store ≡ true
        → ((attempt b w).0 ≡ reject nonce_replay) ⊎ ((attempt b w).0 ≡ unavailable)
    unfolding verify_token check_and_set_nonce with_nonce
    seen_refused b w h =
        ground (
          arith,
          Fault-cases (w.cache.fault 0),
          r.set_nx_fresh b.cached_at b.req.nonce w.cache.store,
        )

    attempt_holds :
        (t : ℕ) (a : Attempt) (w : World r)
        → (check_and_set_nonce r a.req.nonce a.config.nonce_ttl_secs a.cached_at w.cache).0
          ≡ ok false
        → t < a.cached_at + from_secs a.config.nonce_ttl_secs
        → r.seen t a.req.nonce (attempt a w).1.cache.store ≡ true
    unfolding verify_token
    attempt_holds t a w fresh lt =
        with_nonce_kept a.req.nonce t a.config a.req a.cached_at a.now _ _
        ∙ nonce_held a.req.nonce a.config.nonce_ttl_secs a.cached_at t w.cache fresh lt

    -- After an attempt whose nonce was found fresh, and any attempts of anyone in between, an
    -- attempt with that nonce whose clock is before the end of the first one's nonce lifetime, and
    -- not before those in between, is refused as a replay or because Redis does not answer.
    pub replay_refused :
        (a : Attempt) (between : List Attempt) (b : Attempt) (w : World r)
        → (check_and_set_nonce r a.req.nonce a.config.nonce_ttl_secs a.cached_at w.cache).0
          ≡ ok false
        → b.req.nonce ≡ a.req.nonce
        → b.cached_at < a.cached_at + from_secs a.config.nonce_ttl_secs
        → All (λ c. c.cached_at ≤ b.cached_at) between
        → let w' = attempts between (attempt a w).1 in
          ((attempt b w').0 ≡ reject nonce_replay) ⊎ ((attempt b w').0 ≡ unavailable)
    replay_refused a between b w fresh same lt le =
        seen_refused b (attempts between (attempt a w).1) (
          attempts_kept b.req.nonce b.cached_at between (attempt a w).1 le (
            subst (λ n. r.seen b.cached_at n (attempt a w).1.cache.store ≡ true) (sym same)
              (attempt_holds b.cached_at a w fresh lt)))
