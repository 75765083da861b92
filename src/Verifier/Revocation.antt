-- ===== src/Verifier/Revocation.antt =====
-- Revocation, from the registry to the verifier.
use agent_auth.Prelude.{
  ℕ, ◌≤◌, String, ◌≡◌, refl, sym, ap, subst, ◌∙◌, ◌≢◌, inl, inr, Bool, true, false, Option, none,
  some, List, [], ◌∷◌, arith, ◌==◌, ==_iff, Bool-cases, All, Result, ok, err, Result-cases,
  timestamp,
}
use agent_auth.Registry.Db.{answers, Fault-cases}
use agent_auth.Registry.Cache.{
  Redis, Connection, CachedToken, check_and_set_nonce, get_cached_token, cache_token,
}
use agent_auth.Registry.World.{World}
use agent_auth.Registry.Tokens.{revoke_token}
use agent_auth.Registry.Tokens.Revocation.{revoke_token_sound}
use agent_auth.Registry.Error.{RegistryError}
use agent_auth.Registry.Tables.{TokenRow}
use agent_auth.Verifier.{
  VerifyTokenRequest, VerificationConfig, verify_token, with_nonce, with_cached, with_uncached_row,
  read_row, reject, revoked,
}
use agent_auth.Verifier.Replay.{Attempt, attempt, attempts}

module _ (r : Redis) where
  -- The nonce check leaves tokens alone.
  token_kept :
      (t jti : ℕ) (n : String) (ttl at : ℕ) (c : Connection r)
      → r.hmget t jti (check_and_set_nonce r n ttl at c).1.store ≡ r.hmget t jti c.store
  unfolding check_and_set_nonce
  token_kept t jti n ttl at c = ground (
    arith,
    Fault-cases (c.fault 0),
    Fault-cases (c.fault 1),
    r.hmget-set_nx t at jti n c.store,
    r.hmget-expire t at jti ttl n (r.set_nx at n c.store).1,
  )

  looked_up :
      (jti at : ℕ) (c : Connection r) (cached : CachedToken)
      → c.fault 0 ≡ answers
      → r.hmget at jti c.store ≡ ok (some cached)
      → (get_cached_token r jti at c).0 ≡ ok (some cached)
  unfolding get_cached_token
  looked_up jti at c cached f e = rw (f, e) refl

  cache_kept_ne :
      (t jti k sp expires_at : ℕ) (b : Bool) (at : ℕ) (c : Connection r)
      → jti ≢ k
      → r.hmget t jti (cache_token r k sp expires_at b at c).1.store ≡ r.hmget t jti c.store
  unfolding cache_token
  cache_kept_ne t jti k sp expires_at b at c ne = elim (Fault-cases (c.fault 0)) [
    | inl e ↦ rw e (r.hmget-put_token_ne t at jti k _ _ c.store ne)
    | inr (inl e) ↦ rw e refl
    | inr (inr e) ↦ rw e (r.hmget-put_token_ne t at jti k _ _ c.store ne)
  ]

  get_kept_token :
      (t jti k at : ℕ) (c : Connection r)
      → r.hmget t jti (get_cached_token r k at c).1.store ≡ r.hmget t jti c.store
  unfolding get_cached_token
  get_kept_token t jti k at c =
      ground (arith, Fault-cases (c.fault 0), Result-cases (r.hmget at k c.store))

  -- Until an instant, the cache has the token as revoked.
  abbrev pub Marked : (jti until : ℕ) → World r → Type 0
  Marked jti until w =
      (t : ℕ)
      → t ≤ until
      → (c : CachedToken) × (r.hmget t jti w.cache.store ≡ ok (some c)) × (c.is_revoked ≡ true)

  -- The lookup that a verification makes after its check of the nonce is answered.
  abbrev pub LookupAnswered : Attempt → World r → Type 0
  LookupAnswered a w =
      (check_and_set_nonce r a.req.nonce a.config.nonce_ttl_secs a.cached_at w.cache).1.fault 0
      ≡ answers

  module _ (ct_eq : List ℕ → List ℕ → Bool) where
    -- Those of several verifications, one after another.
    abbrev pub AllAnswered : List Attempt → World r → Type 0
    AllAnswered [] w = Unit
    AllAnswered (a ∷ xs) w = LookupAnswered a w × AllAnswered xs (attempt r ct_eq a w).1

    uncached_kept_ne :
        (t jti : ℕ) (config : VerificationConfig) (req : VerifyTokenRequest) (cached_at now : ℕ)
        (got : Result RegistryError (Option TokenRow)) (w : World r)
        → jti ≢ req.jti
        → r.hmget t jti (with_uncached_row r ct_eq config req cached_at now got w).1.cache.store
          ≡ r.hmget t jti w.cache.store
    unfolding with_uncached_row
    uncached_kept_ne t jti config req cached_at now (ok (some row)) w ne = ground (
      arith,
      cache_kept_ne t jti req.jti row.service_provider_id (timestamp row.expires_at) row.is_revoked
          cached_at w.cache ne,
    )
    uncached_kept_ne t jti config req cached_at now (ok none) w ne = refl
    uncached_kept_ne t jti config req cached_at now (err e) w ne = refl

    cached_kept_ne :
        (t jti : ℕ) (config : VerificationConfig) (req : VerifyTokenRequest) (cached_at now : ℕ)
        (looked_up : Result RegistryError (Option CachedToken)) (w : World r)
        → jti ≢ req.jti
        → r.hmget t jti (with_cached r ct_eq config req cached_at now looked_up w).1.cache.store
          ≡ r.hmget t jti w.cache.store
    unfolding with_cached
    cached_kept_ne t jti config req cached_at now (ok (some c)) w ne = ground arith
    cached_kept_ne t jti config req cached_at now (ok none) w ne =
        uncached_kept_ne t jti config req cached_at now (read_row r ct_eq req.jti w.db).0 _ ne
    cached_kept_ne t jti config req cached_at now (err e) w ne =
        uncached_kept_ne t jti config req cached_at now (read_row r ct_eq req.jti w.db).0 _ ne

    -- A token that is cached as revoked is refused, and nothing is stored.
    cached_marked :
        (config : VerificationConfig) (req : VerifyTokenRequest) (cached_at now : ℕ)
        (c : CachedToken) (w : World r)
        → c.is_revoked ≡ true
        → (with_cached r ct_eq config req cached_at now (ok (some c)) w) ≡ (reject revoked, w)
    unfolding with_cached
    cached_marked config req cached_at now c w e = rw e refl

    -- A verification until the instant, of the token or of another one, leaves the mark.
    with_nonce-Marked :
        (jti until : ℕ) (config : VerificationConfig) (req : VerifyTokenRequest) (cached_at now : ℕ)
        (checked : Result RegistryError Bool) (w : World r)
        → w.cache.fault 0 ≡ answers
        → cached_at ≤ until
        → Marked jti until w
        → Marked jti until (with_nonce r ct_eq config req cached_at now checked w).1
          × ((jti ≡ req.jti)
              → (with_nonce r ct_eq config req cached_at now checked w).0.valid ≡ false)
    unfolding with_nonce
    with_nonce-Marked jti until config req cached_at now (ok true) w f le m = (m, λ e. refl)
    with_nonce-Marked jti until config req cached_at now (err x) w f le m = (m, λ e. refl)
    with_nonce-Marked jti until config req cached_at now (ok false) w f le m =
        let got = get_cached_token r req.jti cached_at w.cache in
        elim (Bool-cases (jti == req.jti)) [
          | inl e ↦
              let same = (==_iff jti req.jti).0 e in
              let (c, h, rev) = m cached_at le in
              let seen =
                looked_up req.jti cached_at w.cache c f
                  (subst (λ k. r.hmget cached_at k w.cache.store ≡ ok (some c)) same h) in
              let refused =
                ap
                  (λ o. with_cached r ct_eq config req cached_at now o (record w { cache = got.1 }))
                  seen
                ∙ cached_marked config req cached_at now c (record w { cache = got.1 }) rev in
              (
                subst (Marked jti until) (sym (ap (λ x. x.1) refused)) (λ t lt.
                    let (d, k, dr) = m t lt in
                    (d, get_kept_token t jti req.jti cached_at w.cache ∙ k, dr)),
                λ _. ap (λ x. x.0.valid) refused,
              )
          | inr e ↦
              let ne : jti ≢ req.jti = λ x. ground (arith, (==_iff jti req.jti).1 x) in
              (
                λ t lt.
                    let (d, k, dr) = m t lt in
                    (
                      d,
                      cached_kept_ne t jti config req cached_at now got.0
                            (record w { cache = got.1 }) ne
                          ∙ get_kept_token t jti req.jti cached_at w.cache
                          ∙ k,
                      dr,
                    ),
                λ x. absurd (ne x),
              )
        ]

    attempt-Marked :
        (jti until : ℕ) (a : Attempt) (w : World r)
        → LookupAnswered a w
        → a.cached_at ≤ until
        → Marked jti until w
        → Marked jti until (attempt r ct_eq a w).1
          × ((jti ≡ a.req.jti) → (attempt r ct_eq a w).0.valid ≡ false)
    unfolding verify_token
    attempt-Marked jti until a w f le m =
        let checked =
          check_and_set_nonce r a.req.nonce a.config.nonce_ttl_secs a.cached_at w.cache in
        with_nonce-Marked jti until a.config a.req a.cached_at a.now checked.0
          (record w { cache = checked.1 }) f le
          (λ t lt.
            let (d, k, dr) = m t lt in
            (d, token_kept t jti a.req.nonce a.config.nonce_ttl_secs a.cached_at w.cache ∙ k, dr))

    attempts-Marked :
        (jti until : ℕ) (xs : List Attempt) (w : World r)
        → AllAnswered xs w
        → All (λ a. a.cached_at ≤ until) xs
        → Marked jti until w
        → Marked jti until (attempts r ct_eq xs w)
    attempts-Marked jti until [] w f le m = m
    attempts-Marked jti until (a ∷ xs) w f le m =
        attempts-Marked jti until xs (attempt r ct_eq a w).1 f.1 le.1
          (attempt-Marked jti until a w f.0 le.0 m).0

    -- Where the cache knows a token, in what it holds before a revocation, at every instant until a
    -- later verification of that token, and the revocation succeeds: that verification is not
    -- admitted, after any verifications in between, of this token and of others, none of whose clocks is
    -- after its own, as long as the lookup in the cache of each of these verifications is answered; even
    -- if the replica still has the token as live.
    pub revoked_refused :
        (reason : Option String) (db_now revoked_at : ℕ) (between : List Attempt) (b : Attempt)
        (w : World r)
        → (revoke_token r b.req.jti reason db_now revoked_at w).0 ≡ ok tt
        → ((t : ℕ)
            → t ≤ b.cached_at
            → (c : CachedToken) × (r.hmget t b.req.jti w.cache.store ≡ ok (some c)))
        → All (λ a. a.cached_at ≤ b.cached_at) between
        → AllAnswered between (revoke_token r b.req.jti reason db_now revoked_at w).1
        → LookupAnswered b
            (attempts r ct_eq between (revoke_token r b.req.jti reason db_now revoked_at w).1)
        → (attempt r ct_eq b (
            attempts r ct_eq between
              (revoke_token r b.req.jti reason db_now revoked_at w).1)).0.valid
          ≡ false
    revoked_refused reason db_now revoked_at between b w h known le fs f =
        let w' = (revoke_token r b.req.jti reason db_now revoked_at w).1 in
        let marked : Marked b.req.jti b.cached_at w' = (λ t lt.
          let (c, k) = known t lt in
          (
            record c { is_revoked = true },
            (revoke_token_sound r b.req.jti reason db_now revoked_at w h).2 t c k,
            refl,
          )) in
        (attempt-Marked b.req.jti b.cached_at b (attempts r ct_eq between w') f (omega arith)
            (attempts-Marked b.req.jti b.cached_at between w' fs le marked)).1
          refl
