-- ===== src/Registry/Service.antt =====
-- The registry as a whole: the requests that crates/registry/src/routes.rs sends to the handlers of
-- agents, grants and tokens, and runs of them, one after another.
pub mod Keeping
pub mod Authority
pub mod Steps
pub mod Writes
pub mod Refinement
pub mod Chain
pub mod Otp
mod Tests
use agent_auth.Prelude.{ℕ, String, Option, none, some, List, [], ◌∷◌, Result}
use agent_auth.Core.Manifest.{AgentManifest}
use agent_auth.Registry.Cache.{Redis}
use agent_auth.Registry.Grants.{GrantConfig}
use agent_auth.Registry.Tokens.{TokenConfig}
use agent_auth.Registry.Audit.{Bytes, Sha}
use agent_auth.Registry.App.{AppState, Attempt, Crypto, Json, on_app_db}
use agent_auth.Registry.AgentHandlers
use agent_auth.Registry.AgentHandlers.{register_agent, bootstrap_agent, delete_agent}
use agent_auth.Registry.GrantHandlers
use agent_auth.Registry.GrantHandlers.{RequestGrantRequest, ApproveGrantRequest}
use agent_auth.Registry.TokenHandler.{IssueTokenRequest, issue_token_handler, revoke_token_handler}

-- A request, with the fresh identifiers and the clocks that its handler reads. The last one is the
-- replica catching up.
pub data Request : Type 0 where
  registers : AgentManifest → Bytes → ℕ → Attempt → Request
  bootstraps :
      String
      → AgentManifest
      → (AgentManifest → Result String Bytes)
      → String
      → ℕ
      → ℕ
      → Attempt
      → Request
  lists_agents : Request
  gets_agent gets_grant : ℕ → Request
  deletes : ℕ → Attempt → Request
  requests_grant : RequestGrantRequest → ℕ → ℕ → ℕ → Attempt → Request
  approves : ℕ → ApproveGrantRequest → ℕ → ℕ → ℕ → Attempt → Request
  denies : ℕ → ℕ → Attempt → Request
  revokes_grant : ℕ → Attempt → Request
  issues : IssueTokenRequest → ℕ → ℕ → ℕ → ℕ → Attempt → Request
  revokes_token : ℕ → Option String → ℕ → ℕ → Attempt → Request
  replicates : Request

-- What the handlers share and never change.
pub record Setting : Type 0 where
  pub grant_config : GrantConfig
  pub token_config : TokenConfig
  pub key_id : String
  pub crypto : Crypto
  pub json : Json

-- The audit record of a request.
abbrev pub attempt_of : Request → Option Attempt
attempt_of (registers m signature db_now a) = some a
attempt_of (bootstraps otp m sign key_id now db_now a) = some a
attempt_of lists_agents = none
attempt_of (gets_agent id) = none
attempt_of (gets_grant id) = none
attempt_of (deletes id a) = some a
attempt_of (requests_grant q grant_id now db_now a) = some a
attempt_of (approves id q now db_now later a) = some a
attempt_of (denies id db_now a) = some a
attempt_of (revokes_grant id a) = some a
attempt_of (issues q jti asked_at now cached_at a) = some a
attempt_of (revokes_token jti reason db_now now a) = some a
attempt_of replicates = none

module _ (r : Redis) (h : Sha) (c : Setting) where
  abbrev pub replicate : AppState r h → AppState r h
  replicate s = record s {
    world = record s.world { db = record s.world.db { replica = s.world.db.primary } };
  }

  -- The state after a request is handled.
  unfoldable pub handle : AppState r h → Request → AppState r h
  handle s (registers m signature db_now a) =
      (register_agent r h c.crypto c.json m signature db_now a s).1
  handle s (bootstraps otp m sign key_id now db_now a) =
      (bootstrap_agent r h c.crypto c.json otp m sign key_id now db_now a s).1
  handle s lists_agents = (on_app_db r h AgentHandlers.list_agents s).1
  handle s (gets_agent id) = (on_app_db r h (AgentHandlers.get_agent id) s).1
  handle s (gets_grant id) = (on_app_db r h (GrantHandlers.get_grant id) s).1
  handle s (deletes id a) = (delete_agent r h c.crypto c.json id a s).1
  handle s (requests_grant q grant_id now db_now a) =
      (GrantHandlers.request_grant r h c.json c.grant_config q grant_id now db_now a s).1
  handle s (approves id q now db_now later a) =
      (GrantHandlers.approve_grant r h c.json id q now db_now later a s).1
  handle s (denies id db_now a) = (GrantHandlers.deny_grant r h c.json id db_now a s).1
  handle s (revokes_grant id a) = (GrantHandlers.revoke_grant r h c.json id a s).1
  handle s (issues q jti asked_at now cached_at a) =
      (issue_token_handler r h c.token_config c.key_id q jti asked_at now cached_at a.event_id
        a.sign a.fate s).1
  handle s (revokes_token jti reason db_now now a) =
      (revoke_token_handler r h c.json jti reason db_now now a s).1
  handle s replicates = replicate s

  unfoldable pub run : AppState r h → List Request → AppState r h
  run s [] = s
  run s (q ∷ qs) = run (handle s q) qs
