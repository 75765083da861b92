-- ===== src/Registry/Tests.antt =====
-- Runs of the registry's services at concrete inputs.
use agent_auth.Prelude.{
  ◌+◌, ℕ, ◌≤◌, ◌≡◌, refl, ◌≢◌, true, false, none, some, [], ◌∷◌, arith, any, All, ok, is_ok,
  from_secs,
}
use agent_auth.Core.Token.{pending, approved}
use agent_auth.Registry.Tables as Tables
use agent_auth.Registry.Tables.{is_token_revoked, is_live}
use agent_auth.Registry.Db.{answers}
use agent_auth.Registry.Cache.{CachedToken}
use agent_auth.Registry.World.{World}
use agent_auth.Registry.Server.{server}
use agent_auth.Registry.Grants.{requests, run, approve_grant, resolve}
use agent_auth.Registry.Grants.Status.{status_of}
use agent_auth.Registry.Grants.Approval.{Approved, Recorded, approve_sound}
use agent_auth.Registry.Tokens.{revoke_token, issue_token}
use agent_auth.Registry.Tokens.Issue.{Request, issue, existing, new_token, stored, issue_idempotent}
use agent_auth.Registry.TokenHandler as TokenHandler
use agent_auth.Registry.TokenHandler.{Details, issue_token_handler}
use agent_auth.Registry.TokenHandler.Provenance.{Source, issue-Source}
use agent_auth.Registry.Health as Health
use agent_auth.Registry.Health.{unready_forever}
use agent_auth.Registry.InFlight as InFlight
use agent_auth.Registry.InFlight.{held, busy, run-held}
use agent_auth.Registry.Tokens.Revocation.{revoke_token_sound, revoke_mark_lost}
use agent_auth.Registry.Samples.{
  db, world, losing, payment, approval, token_config, ask, ask_again, sha, app, simple, handed,
}

approves-approval : (approve_grant 5 9 [] [] none 200 201 202 db).0 ≡ ok approval
unfolding approve_grant agent_auth.Registry.Grants.get_grant Tables.get_grant Tables.join_grant
    agent_auth.Registry.Grants.row_to_grant resolve Tables.approve_grant
approves-approval = refl

approve_sound_example :
    (status_of 5 db.primary ≡ some pending)
    × (status_of 5 (approve_grant 5 9 [] [] none 200 201 202 db).1.primary ≡ some approved)
    × Recorded 5 9 [] []
        (payment ∷ [])
        201
        db.primary.grants
        (approve_grant 5 9 [] [] none 200 201 202 db).1.primary.grants
    × Approved 5 200 202 none db approval
approve_sound_example =
    approve_sound 5 9 [] [] none 200 201 202 db approval (refl, tt) approves-approval

revokes-ok : (revoke_token server 7 none 100 101 world).0 ≡ ok tt
unfolding revoke_token Tables.revoke_token agent_auth.Registry.Cache.mark_token_revoked
revokes-ok = refl

revoke_token_sound_example :
    (any (is_live 7) world.db.primary.tokens ≡ true)
    × (is_token_revoked 7 (revoke_token server 7 none 100 101 world).1.db.primary ≡ true)
    × ((t : ℕ) (c : CachedToken)
        → server.hmget t 7 world.cache.store ≡ ok (some c)
        → server.hmget t 7 (revoke_token server 7 none 100 101 world).1.cache.store
          ≡ ok (some (record c { is_revoked = true })))
revoke_token_sound_example = revoke_token_sound server 7 none 100 101 world revokes-ok

revoke_mark_lost_example :
    let w' = (revoke_token server 7 none 100 101 losing).1 in
    (is_ok (revoke_token server 7 none 100 101 losing).0 ≡ false)
    × (is_token_revoked 7 w'.db.primary ≡ true)
    × (is_ok (revoke_token server 7 none 200 201 w').0 ≡ false)
    × ((revoke_token server 7 none 200 201 w').1.cache.store ≡ losing.cache.store)
revoke_mark_lost_example = revoke_mark_lost server 7 none 100 101 losing none 200 201 refl refl refl

-- A reading of the clock that is no number of microseconds.
abbrev sharp : Request
sharp = record ask { now = from_secs 101 + 7 }

none-existing : existing server token_config "k" 5 sharp world ≡ none
unfolding Tables.find_existing_token
none-existing = refl

issues-ok : (issue server token_config "k" 5 sharp world).0 ≡ ok (new_token token_config "k" sharp)
unfolding issue_token Tables.find_existing_token agent_auth.Registry.Cache.cache_token
issues-ok = refl

answered : (issue server token_config "k" 5 sharp world).1.db.fault 0 ≡ answers
unfolding issue_token Tables.find_existing_token agent_auth.Registry.Cache.cache_token
answered = refl

issue_idempotent_example :
    ((issue server token_config "k" 5 ask_again (issue server token_config "k" 5 sharp world).1).0
      ≡ ok (stored (new_token token_config "k" sharp)))
    × ((issue server token_config "k" 5 ask_again
          (issue server token_config "k" 5 sharp world).1).1.db.primary
        ≡ (issue server token_config "k" 5 sharp world).1.db.primary)
issue_idempotent_example =
    issue_idempotent server token_config "k" 5 sharp ask_again world
      (new_token token_config "k" sharp) none-existing issues-ok (omega arith, tt) (omega arith)
      answered

handler-ok :
    (issue_token_handler server sha token_config "k" simple 8
      (from_secs 100)
      (from_secs 101)
      (from_secs 102)
      9
      (λ b. ok b)
      answers
      app).0
    ≡ ok handed
unfolding issue_token_handler Tables.get_grant Tables.join_grant issue_token
    Tables.find_existing_token agent_auth.Registry.Cache.cache_token
handler-ok = refl

issue-Source_example :
    (d : Details) × (w : World server) × Source server sha simple app.world w d
    × (w.db.primary ≡ app.world.db.primary)
    × ((TokenHandler.issue server sha token_config "k" simple d 8
          (from_secs 100)
          (from_secs 101)
          (from_secs 102)
          w).0
        ≡ ok handed)
issue-Source_example =
    issue-Source server sha token_config "k" simple 8 (from_secs 100) (from_secs 101)
      (from_secs 102) 9 (λ b. ok b) answers app handed handler-ok

-- Three requests and one place: the second comes between the operations of the first, and is turned
-- away; the third gets in after the first has left.
run-held_example :
    (held 1 (InFlight.run 1 (0 ∷ 1 ∷ 0 ∷ 1 ∷ 0 ∷ 2 ∷ 2 ∷ []) (InFlight.new 3)).requests ≤ 1)
    × ((InFlight.run 1 (0 ∷ 1 ∷ 0 ∷ 1 ∷ 0 ∷ 2 ∷ 2 ∷ []) (InFlight.new 3)).current
        ≡ busy 1 (InFlight.run 1 (0 ∷ 1 ∷ 0 ∷ 1 ∷ 0 ∷ 2 ∷ 2 ∷ []) (InFlight.new 3)).requests)
run-held_example = run-held 1 3 (0 ∷ 1 ∷ 0 ∷ 1 ∷ 0 ∷ 2 ∷ 2 ∷ []) (omega arith)

-- The first request to the cache is lost, and by the next probe all is well.
probe-failed : (Health.readiness server 10 losing (Health.start_up Health.new)).0.status_code ≢ 200
unfolding Health.readiness Health.start_up Health.new agent_auth.Registry.Cache.health_check
probe-failed e = ground arith

unready_forever_example :
    All
      (λ code. code ≡ 503)
      (Health.probes server
        ((20, world) ∷ (30, world) ∷ [])
        (Health.readiness server 10 losing (Health.start_up Health.new)).2)
unready_forever_example =
    unready_forever server 10 losing ((20, world) ∷ (30, world) ∷ []) (Health.start_up Health.new)
      probe-failed
