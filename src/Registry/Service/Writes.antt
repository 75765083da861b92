-- ===== src/Registry/Service/Writes.antt =====
-- What each handler writes to the tables of the primary: one statement at most, whatever fails.
use agent_auth.Prelude.{ℕ, String, Option, List, [], ◌∷◌, arith, Result}
use agent_auth.Core.Manifest.{AgentManifest}
use agent_auth.Core.Token.{AgentAccessToken}
use agent_auth.Registry.Tables as Tables
use agent_auth.Registry.Tables.{Tables, AgentRow, deactivate_agent, insert_token}
use agent_auth.Registry.Tables.Agents as Agents
use agent_auth.Registry.Tables.Agents.{insert_agent}
use agent_auth.Registry.Db.{Fault, ◌>>=◌, pure, read_replica}
use agent_auth.Registry.Cache.{Redis, validate_and_consume_otp}
use agent_auth.Registry.Grants as Grants
use agent_auth.Registry.Grants.{GrantConfig}
use agent_auth.Registry.Tokens as Tokens
use agent_auth.Registry.Tokens.{TokenConfig, issue_token}
use agent_auth.Registry.Audit.{Bytes, Sha}
use agent_auth.Registry.App.{AppState, Attempt, Crypto, Json, on_app_db}
use agent_auth.Registry.AgentHandlers as AgentHandlers
use agent_auth.Registry.AgentHandlers.{
  register_agent, register_new, bootstrap_agent, delete_agent, deactivate, summarize, summarize_all,
}
use agent_auth.Registry.GrantHandlers as GrantHandlers
use agent_auth.Registry.GrantHandlers.{RequestGrantRequest, ApproveGrantRequest}
use agent_auth.Registry.TokenHandler.{
  IssueTokenRequest, issue_token_handler, revoke_token_handler, details, lookup,
}
use agent_auth.Registry.Service.Keeping.{Keeps, bind-Keeps}

module _ (r : Redis) (h : Sha) (crypto : Crypto) (json : Json) (P : Tables → Type 0) where
  pub register_cases :
      (m : AgentManifest) (signature : Bytes) (db_now : ℕ) (a : Attempt) (s : AppState r h)
      → P s.world.db.primary
      → ((key : Bytes) → P (insert_agent m key signature db_now s.world.db.primary).1)
      → P (register_agent r h crypto json m signature db_now a s).1.world.db.primary
  unfolding register_agent register_new AgentHandlers.insert_agent
  register_cases m signature db_now a s same done = grind arith

  pub bootstrap_cases :
      (otp : String) (m : AgentManifest) (sign : AgentManifest → Result String Bytes)
      (key_id : String) (now db_now : ℕ) (a : Attempt) (s : AppState r h)
      → P s.world.db.primary
      → ((key signature : Bytes) → P (insert_agent m key signature db_now s.world.db.primary).1)
      → P (bootstrap_agent r h crypto json otp m sign key_id now db_now a s).1.world.db.primary
  unfolding bootstrap_agent AgentHandlers.insert_agent validate_and_consume_otp
  bootstrap_cases otp m sign key_id now db_now a s same done = grind arith

  pub delete_cases :
      (id : ℕ) (a : Attempt) (s : AppState r h)
      → P s.world.db.primary
      → P (deactivate_agent id s.world.db.primary).1
      → P (delete_agent r h crypto json id a s).1.world.db.primary
  unfolding delete_agent deactivate
  delete_cases id a s same done = grind arith

  pub request_grant_cases :
      (config : GrantConfig) (q : RequestGrantRequest) (grant_id now db_now : ℕ) (a : Attempt)
      (s : AppState r h)
      → P
          (Grants.request_grant config q.agent_id q.service_provider_id q.capabilities
            q.behavioral_envelope grant_id now db_now s.world.db).1.primary
      → P (GrantHandlers.request_grant r h json config q grant_id now db_now a s).1.world.db.primary
  unfolding GrantHandlers.request_grant
  request_grant_cases config q grant_id now db_now a s same = grind arith

  pub approve_grant_cases :
      (id : ℕ) (q : ApproveGrantRequest) (now db_now later : ℕ) (a : Attempt) (s : AppState r h)
      → P
          (Grants.approve_grant id q.approved_by q.approval_nonce q.approval_signature
            q.granted_capabilities now db_now later s.world.db).1.primary
      → P (GrantHandlers.approve_grant r h json id q now db_now later a s).1.world.db.primary
  unfolding GrantHandlers.approve_grant
  approve_grant_cases id q now db_now later a s same = grind arith

  pub deny_grant_cases :
      (id db_now : ℕ) (a : Attempt) (s : AppState r h)
      → P (Grants.deny_grant id db_now s.world.db).1.primary
      → P (GrantHandlers.deny_grant r h json id db_now a s).1.world.db.primary
  unfolding GrantHandlers.deny_grant
  deny_grant_cases id db_now a s same = grind arith

  pub revoke_grant_cases :
      (id : ℕ) (a : Attempt) (s : AppState r h)
      → P s.world.db.primary
      → P (Tables.revoke_grant id s.world.db.primary).1
      → P (GrantHandlers.revoke_grant r h json id a s).1.world.db.primary
  unfolding GrantHandlers.revoke_grant Grants.revoke_grant Grants.get_grant
  revoke_grant_cases id a s same done = grind arith

  pub revoke_token_cases :
      (jti : ℕ) (reason : Option String) (db_now now : ℕ) (a : Attempt) (s : AppState r h)
      → P s.world.db.primary
      → P (Tables.revoke_token jti reason db_now s.world.db.primary).1
      → P (revoke_token_handler r h json jti reason db_now now a s).1.world.db.primary
  unfolding revoke_token_handler Tokens.revoke_token Tokens.get_token
  revoke_token_cases jti reason db_now now a s same done = grind arith

  pub issue_cases :
      (config : TokenConfig) (key_id : String) (q : IssueTokenRequest)
      (jti asked_at now cached_at event_id : ℕ) (sign : Bytes → Result String Bytes) (fate : Fault)
      (s : AppState r h)
      → P s.world.db.primary
      → ((token : AgentAccessToken) (binding : Option (List ℕ))
          → P (insert_token token q.grant_id key_id binding s.world.db.primary).1)
      → P
          (issue_token_handler r h config key_id q jti asked_at now cached_at event_id sign fate
            s).1.world.db.primary
  unfolding issue_token_handler details lookup issue_token
  issue_cases config key_id q jti asked_at now cached_at event_id sign fate s same done =
      grind arith

  summarize-Keeps : (row : AgentRow) → Keeps (λ db. P db.primary) (summarize row)
  unfolding summarize
  summarize-Keeps row db p = ground arith

  summarize_all-Keeps : (rows : List AgentRow) → Keeps (λ db. P db.primary) (summarize_all rows)
  unfolding summarize_all
  summarize_all-Keeps [] = λ db p. p
  summarize_all-Keeps (row ∷ rows) =
      bind-Keeps (λ db. P db.primary) (summarize row)
        (λ summary. summarize_all rows >>= λ rest. pure (summary ∷ rest)) (summarize-Keeps row)
        (λ summary.
          bind-Keeps (λ db. P db.primary) (summarize_all rows) (λ rest. pure (summary ∷ rest))
            (summarize_all-Keeps rows) (λ rest db p. p))

  pub list_cases :
      (s : AppState r h)
      → P s.world.db.primary
      → P (on_app_db r h AgentHandlers.list_agents s).1.world.db.primary
  unfolding AgentHandlers.list_agents
  list_cases s =
      bind-Keeps (λ db. P db.primary) (read_replica Agents.list_agents) summarize_all (λ db p. p)
        summarize_all-Keeps s.world.db

  pub get_agent_cases :
      (id : ℕ) (s : AppState r h)
      → P s.world.db.primary
      → P (on_app_db r h (AgentHandlers.get_agent id) s).1.world.db.primary
  unfolding AgentHandlers.get_agent
  get_agent_cases id s p = ground arith

  pub get_grant_cases :
      (id : ℕ) (s : AppState r h)
      → P s.world.db.primary
      → P (on_app_db r h (GrantHandlers.get_grant id) s).1.world.db.primary
  unfolding GrantHandlers.get_grant
  get_grant_cases id s p = ground arith
