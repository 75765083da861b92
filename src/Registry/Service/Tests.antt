-- ===== src/Registry/Service/Tests.antt =====
-- Runs of the registry at concrete requests.
use agent_auth.Prelude.{
  ◌≡◌, refl, ◌≢◌, ◌⊎◌, true, none, List, [], ◌∷◌, arith, length, All, Result, ok, err, from_secs,
}
use agent_auth.Core.Manifest.{AgentManifest}
use agent_auth.Registry.Error as Error
use agent_auth.Registry.Error.{RegistryError, otp_invalid}
use agent_auth.Registry.Db.{answers, lost_after}
use agent_auth.Registry.Server.{server}
use agent_auth.Registry.App.{AppState, Attempt}
use agent_auth.Registry.AgentHandlers.{BootstrapAgentResponse}
use agent_auth.Registry.Samples.{payment, envelope, app, sha, token_config, config, simple}
use agent_auth.Registry.Service.{
  Request, Setting, run, registers, deletes, requests_grant, denies, issues, revokes_token,
  replicates, attempt_of,
}
use agent_auth.Registry.Service.Authority.{◌⇝*◌, After}
use agent_auth.Registry.Service.Steps.{view}
use agent_auth.Registry.Service.Refinement.{StepEach, run-⇝*, run-After}
use agent_auth.Registry.Service.Chain.{Answered, run-chain_verified}
use agent_auth.Registry.Service.Otp.{bootstrap, otp_once}
use agent_auth.Registry.Audit.{verify_events}

abbrev setting : Setting
setting = record {
  grant_config = config;
  token_config = token_config;
  key_id = "k";
  crypto = record { verify_manifest_bytes = λ m s. ok tt; decode = λ s. ok [] };
  json = record {
    registered = λ n o. "{}";
    bootstrapped = λ n. "{}";
    capabilities_count = λ n. "{}";
    reason = λ o. "{}";
  };
}

abbrev attempt : Attempt
attempt = record { event_id = 9; sign = λ b. ok b; fate = answers }

abbrev manifest : AgentManifest
manifest = record {
  id = 11;
  public_key = "p";
  key_id = "k";
  capabilities_requested = payment ∷ [];
  human_principal_id = 3;
  issued_at = 0;
  expires_at = 1000;
  name = "second";
  description = none;
  model_origin = none;
}

-- A second agent is registered and asks for a grant; a token is issued and revoked, the first
-- agent is deleted, and the grant is denied.
abbrev requests : List Request
requests =
    registers manifest [] 50 attempt
    ∷ replicates
    ∷ requests_grant
        (record {
          agent_id = 11;
          service_provider_id = 2;
          capabilities = payment ∷ [];
          behavioral_envelope = envelope;
        })
        6 100 101 attempt
    ∷ issues simple 8 (from_secs 100) (from_secs 101) (from_secs 102) attempt
    ∷ revokes_token 8 none 200 201 attempt
    ∷ deletes 1 attempt
    ∷ denies 6 300 attempt
    ∷ []

run-⇝*_example :
    (view app.world.db.primary ⇝* view (run server sha setting app requests).world.db.primary)
    × StepEach server sha setting requests app
run-⇝*_example = run-⇝* server sha setting requests app

run-After_example :
    After (view app.world.db.primary) (view (run server sha setting app requests).world.db.primary)
run-After_example = run-After server sha setting requests app

answers-lost_after : answers ≢ lost_after
answers-lost_after e = ground arith

requests-Answered : All (λ q. Answered (attempt_of q)) requests
requests-Answered = let ne = answers-lost_after in (ne, (tt, (ne, (ne, (ne, (ne, (ne, tt)))))))

run-chain_verified_example :
    let rows = (run server sha setting app requests).audit.rows in
    ((verify_events sha rows).valid ≡ true)
    × ((verify_events sha rows).events_verified ≡ length rows)
run-chain_verified_example =
    run-chain_verified server sha setting requests app (tt, refl) requests-Answered

abbrev provision :
    AppState server sha → Result RegistryError BootstrapAgentResponse × AppState server sha
provision = bootstrap server sha setting "otp" manifest (λ m. ok []) "k" 100 101 attempt

otp_once_example :
    let s' = run server sha setting (provision app).1 requests in
    ((provision s').0 ≡ err otp_invalid)
    ⊎ ((provision s').0 ≡ err (Error.cache "failed to validate OTP"))
otp_once_example =
    otp_once server sha setting "otp" manifest manifest (λ m. ok []) "k" 100 101 attempt 100 101
      attempt requests app (λ e. ground arith)
