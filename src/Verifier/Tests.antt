-- ===== src/Verifier/Tests.antt =====
-- Runs of the verifier at concrete inputs.
use agent_auth.Prelude.{
  ◌≤◌, ℕ, ◌≡◌, refl, ◌↔◌, ◌⊎◌, Bool, true, false, ◌&&◌, none, some, List, [], ◌∷◌, arith, ◌==◌, ok,
  from_secs,
}
use agent_auth.Core.Capability.{transact}
use agent_auth.Registry.Tables as Tables
use agent_auth.Registry.Tables.{TokenRow}
use agent_auth.Registry.Db.{answers, lost_before}
use agent_auth.Registry.Cache as Cache
use agent_auth.Registry.Cache.{Connection}
use agent_auth.Registry.World.{World}
use agent_auth.Registry.Server.{server, empty, with_token}
use agent_auth.Registry.Tokens.{revoke_token}
use agent_auth.Verifier.{
  VerifyTokenRequest, VerificationConfig, verify_token, reject, unavailable, nonce_replay,
}
use agent_auth.Verifier.Soundness.{Admitted, verify_token_iff}
use agent_auth.Verifier.Replay.{Attempt, attempt, attempts, replay_refused}
use agent_auth.Verifier.Revocation.{AllAnswered, LookupAnswered, revoked_refused}
use agent_auth.Verifier.Health as Health

abbrev bytes_eq : List ℕ → List ℕ → Bool
bytes_eq [] [] = true
bytes_eq (x ∷ xs) (y ∷ ys) = x == y && bytes_eq xs ys
bytes_eq [] (y ∷ ys) = false
bytes_eq (x ∷ xs) [] = false

abbrev row : TokenRow
row = record {
  jti = 7;
  grant_id = 5;
  agent_id = 1;
  service_provider_id = 2;
  human_principal_id = 3;
  key_id = "k";
  token_binding = some (1 ∷ 2 ∷ []);
  granted_capabilities = some (transact "pay" 100 none ∷ []);
  behavioral_envelope = none;
  issued_at = 0;
  expires_at = from_secs 900;
  is_revoked = false;
  revoked_at = none;
  revocation_reason = none;
}

abbrev tables : Tables.Tables
tables = record { agents = []; service_providers = []; grants = []; tokens = row ∷ [] }

abbrev world : World server
world = record {
  db = record { primary = tables; replica = tables; fault = λ n. answers };
  cache = record {
    store =
        with_token 0 7 (record { service_provider_id = 2; expires_at = 900; is_revoked = false })
          900 empty;
    fault = λ n. answers;
  };
}

abbrev config : VerificationConfig
config = record { nonce_ttl_secs = 60; max_clock_skew_secs = 5; require_dpop = true }

abbrev req : VerifyTokenRequest
req = record {
  jti = 7;
  service_provider_id = 2;
  nonce = "n";
  dpop_proof = some "proof";
  dpop_thumbprint = some (1 ∷ 2 ∷ []);
}

verify_token_iff_example :
    ((verify_token server bytes_eq config req (from_secs 10) (from_secs 11) world).0.valid ≡ true)
    ↔ (((Cache.check_and_set_nonce server "n" 60 (from_secs 10) world.cache).0 ≡ ok false)
        × Admitted server bytes_eq config req
            (Cache.get_cached_token server 7
              (from_secs 10)
              (Cache.check_and_set_nonce server "n" 60 (from_secs 10) world.cache).1).0
            (from_secs 11)
            world.db)
verify_token_iff_example =
    verify_token_iff server bytes_eq config req (from_secs 10) (from_secs 11) world

abbrev first : Attempt
first = record { config = config; req = req; cached_at = from_secs 10; now = from_secs 11 }

abbrev other : Attempt
other = record first { req = record req { nonce = "m" }; cached_at = from_secs 20 }

abbrev second : Attempt
second = record first { cached_at = from_secs 60; now = from_secs 61 }

first-fresh : (Cache.check_and_set_nonce server "n" 60 (from_secs 10) world.cache).0 ≡ ok false
unfolding Cache.check_and_set_nonce
first-fresh = refl

replay_refused_example :
    let w' = attempts server bytes_eq (other ∷ []) (attempt server bytes_eq first world).1 in
    ((attempt server bytes_eq second w').0 ≡ reject nonce_replay)
    ⊎ ((attempt server bytes_eq second w').0 ≡ unavailable)
replay_refused_example =
    replay_refused server bytes_eq first (other ∷ []) second world first-fresh refl (omega arith)
      (omega arith, tt)

revokes-ok : (revoke_token server 7 none (from_secs 5) (from_secs 6) world).0 ≡ ok tt
unfolding revoke_token Tables.revoke_token Cache.mark_token_revoked
revokes-ok = refl

-- The token is verified under another nonce and then under its own; the replica still has it as live.
abbrev withdrawn : World server
withdrawn = (revoke_token server 7 none (from_secs 5) (from_secs 6) world).1

between-answered : AllAnswered server bytes_eq (other ∷ []) withdrawn
unfolding revoke_token Tables.revoke_token Cache.mark_token_revoked Cache.check_and_set_nonce
between-answered = (refl, tt)

second-answered : LookupAnswered server second (attempts server bytes_eq (other ∷ []) withdrawn)
unfolding revoke_token Tables.revoke_token Cache.mark_token_revoked Cache.check_and_set_nonce
    Cache.get_cached_token verify_token
second-answered = refl

known :
    (t : ℕ)
    → t ≤ from_secs 60
    → (c : Cache.CachedToken) × (server.hmget t 7 world.cache.store ≡ ok (some c))
known t le =
    (record { service_provider_id = 2; expires_at = 900; is_revoked = false }, ground (arith, le))

revoked_refused_example :
    (attempt server bytes_eq second (attempts server bytes_eq (other ∷ []) withdrawn)).0.valid
    ≡ false
revoked_refused_example =
    revoked_refused server bytes_eq none (from_secs 5) (from_secs 6) (other ∷ []) second world
      revokes-ok known (omega arith, tt) between-answered second-answered

-- Redis at the start and from the second probe on, and at the first probe.
abbrev sound : Connection server
sound = record { store = empty; fault = λ n. answers }

abbrev shaky : Connection server
shaky = record { store = empty; fault = λ n. lost_before }

abbrev up : Health.HealthState
up = (Health.start_up server sound Health.new).1

first-probe : (Health.readiness server shaky up).0 ≡ 503
unfolding Health.readiness Health.start_up Health.new agent_auth.Registry.Cache.health_check
first-probe = refl
