-- ===== src/Registry/Service/Otp.antt =====
-- The one-time passwords under the handlers: bootstrapping consumes one, and nothing brings it back.
use agent_auth.Prelude.{
  ℕ, String, ◌≡◌, subst, ◌∙◌, ◌≢◌, ◌⊎◌, inl, inr, none, List, [], ◌∷◌, arith, eq_iff, str_eq,
  Bool-cases, Result, err,
}
use agent_auth.Core.Manifest.{AgentManifest}
use agent_auth.Registry.Cache.{
  Redis, CachedToken, otp_key, validate_and_consume_otp, cache_token, mark_token_revoked,
}
use agent_auth.Registry.Error as Error
use agent_auth.Registry.Error.{RegistryError, otp_invalid}
use agent_auth.Registry.Db.{Fault-cases, lost_before}
use agent_auth.Registry.Tokens as Tokens
use agent_auth.Registry.Tokens.{issue_token}
use agent_auth.Registry.Audit.{Bytes, Sha}
use agent_auth.Registry.App.{AppState, Attempt}
use agent_auth.Registry.AgentHandlers.{
  register_agent, register_new, bootstrap_agent, delete_agent, BootstrapAgentResponse,
}
use agent_auth.Registry.GrantHandlers as GrantHandlers
use agent_auth.Registry.TokenHandler.{issue_token_handler, revoke_token_handler, details, lookup}
use agent_auth.Registry.Service.{
  Request, Setting, handle, run, registers, bootstraps, lists_agents, gets_agent, gets_grant,
  deletes, requests_grant, approves, denies, revokes_grant, issues, revokes_token, replicates,
}

module _ (r : Redis) (h : Sha) (c : Setting) where
  -- What Redis holds is left as it was, or gets a token, or has one marked, or loses a password.
  handle_cases :
      (P : r.Store → Type 0) (q : Request) (s : AppState r h)
      → P s.world.cache.store
      → ((now jti : ℕ) (t : CachedToken) (ttl : ℕ)
          → P (r.put_token now jti t ttl s.world.cache.store))
      → ((now jti : ℕ) → P (r.hset_revoked now jti s.world.cache.store))
      → ((now : ℕ) (otp : String) → P (r.getdel now (otp_key r otp) s.world.cache.store).1)
      → P (handle r h c s q).world.cache.store
  unfolding handle register_agent register_new bootstrap_agent delete_agent
      GrantHandlers.request_grant GrantHandlers.approve_grant GrantHandlers.deny_grant
      GrantHandlers.revoke_grant issue_token_handler revoke_token_handler details lookup issue_token
      Tokens.revoke_token Tokens.get_token validate_and_consume_otp cache_token mark_token_revoked
  handle_cases P (registers m signature db_now a) s same puts marks takes = grind arith
  handle_cases P (bootstraps otp m sign key_id now db_now a) s same puts marks takes = grind arith
  handle_cases P lists_agents s same puts marks takes = same
  handle_cases P (gets_agent id) s same puts marks takes = same
  handle_cases P (gets_grant id) s same puts marks takes = same
  handle_cases P (deletes id a) s same puts marks takes = grind arith
  handle_cases P (requests_grant q grant_id now db_now a) s same puts marks takes = grind arith
  handle_cases P (approves id q now db_now later a) s same puts marks takes = grind arith
  handle_cases P (denies id db_now a) s same puts marks takes = grind arith
  handle_cases P (revokes_grant id a) s same puts marks takes = grind arith
  handle_cases P (issues q jti asked_at now cached_at a) s same puts marks takes = grind arith
  handle_cases P (revokes_token jti reason db_now now a) s same puts marks takes = grind arith
  handle_cases P replicates s same puts marks takes = same

  -- A password that Redis does not have, at any time.
  Gone : String → AppState r h → Type 0
  Gone otp s = (t : ℕ) → r.get t (otp_key r otp) s.world.cache.store ≡ none

  handle-Gone :
      (otp : String) (q : Request) (s : AppState r h) → Gone otp s → Gone otp (handle r h c s q)
  unfolding Gone
  handle-Gone otp q s g =
      handle_cases (λ store. (t : ℕ) → r.get t (otp_key r otp) store ≡ none) q s g
        (λ now jti x ttl t. r.get-put_token t now jti x ttl (otp_key r otp) _ ∙ g t)
        (λ now jti t. r.get-hset_revoked t now jti (otp_key r otp) _ ∙ g t)
        (λ now other t. elim (Bool-cases (str_eq (otp_key r otp) (otp_key r other))) [
          | inl e ↦
              subst (λ k. r.get t (otp_key r otp) (r.getdel now k s.world.cache.store).1 ≡ none)
                ((eq_iff (otp_key r otp) (otp_key r other)).0 e)
                (r.get-getdel t now (otp_key r otp) s.world.cache.store)
          | inr e ↦
              r.get-getdel_ne t now (otp_key r otp) (otp_key r other) s.world.cache.store
                (λ x. ground (arith, eq_iff (otp_key r otp) (otp_key r other)))
              ∙ g t
        ])

  run-Gone :
      (otp : String) (qs : List Request) (s : AppState r h) → Gone otp s → Gone otp (run r h c s qs)
  unfolding run
  run-Gone otp [] s g = g
  run-Gone otp (q ∷ qs) s g = run-Gone otp qs (handle r h c s q) (handle-Gone otp q s g)

  -- The bootstrap with a password, by its answer and the state that it leaves.
  abbrev pub bootstrap :
      String
      → AgentManifest
      → (AgentManifest → Result String Bytes)
      → String
      → (now db_now : ℕ) → Attempt
      → AppState r h
      → Result RegistryError BootstrapAgentResponse × AppState r h
  bootstrap otp m sign key_id now db_now a =
      bootstrap_agent r h c.crypto c.json otp m sign key_id now db_now a

  bootstrap-Gone :
      (otp : String) (m : AgentManifest) (sign : AgentManifest → Result String Bytes)
      (key_id : String) (now db_now : ℕ) (a : Attempt) (s : AppState r h)
      → s.world.cache.fault 0 ≢ lost_before
      → Gone otp (bootstrap otp m sign key_id now db_now a s).1
  unfolding Gone bootstrap_agent validate_and_consume_otp
  bootstrap-Gone otp m sign key_id now db_now a s n =
      λ t. grind (arith, r.get-getdel t now (otp_key r otp) s.world.cache.store)

  Gone-refused :
      (otp : String) (m : AgentManifest) (sign : AgentManifest → Result String Bytes)
      (key_id : String) (now db_now : ℕ) (a : Attempt) (s : AppState r h)
      → Gone otp s
      → ((bootstrap otp m sign key_id now db_now a s).0 ≡ err otp_invalid)
        ⊎ ((bootstrap otp m sign key_id now db_now a s).0
            ≡ err (Error.cache "failed to validate OTP"))
  unfolding Gone bootstrap_agent validate_and_consume_otp
  Gone-refused otp m sign key_id now db_now a s g =
      rw (r.getdel_get now (otp_key r otp) s.world.cache.store, g now)
        (ground (arith, Fault-cases (s.world.cache.fault 0)))

  -- After a bootstrap whose request for the password took effect, whatever became of the bootstrap
  -- itself, and after any other requests, a bootstrap with that password is refused: the password is
  -- not valid, or Redis does not answer.
  pub otp_once :
      (otp : String) (m n : AgentManifest) (sign : AgentManifest → Result String Bytes)
      (key_id : String) (now db_now : ℕ) (a : Attempt) (later db_later : ℕ) (b : Attempt)
      (qs : List Request) (s : AppState r h)
      → s.world.cache.fault 0 ≢ lost_before
      → let s' = run r h c (bootstrap otp m sign key_id now db_now a s).1 qs in
        ((bootstrap otp n sign key_id later db_later b s').0 ≡ err otp_invalid)
        ⊎ ((bootstrap otp n sign key_id later db_later b s').0
            ≡ err (Error.cache "failed to validate OTP"))
  otp_once otp m n sign key_id now db_now a later db_later b qs s took =
      Gone-refused otp n sign key_id later db_later b _
        (run-Gone otp qs _ (bootstrap-Gone otp m sign key_id now db_now a s took))
