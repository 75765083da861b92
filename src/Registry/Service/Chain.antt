-- ===== src/Registry/Service/Chain.antt =====
-- The audit chain under the handlers: none of them breaks it, as long as no insertion of an audit
-- event takes effect without an answer.
use agent_auth.Prelude.{
  ◌≡◌, subst, ◌≢◌, true, Option, none, some, List, [], ◌∷◌, arith, length, All,
}
use agent_auth.Registry.Db.{lost_after}
use agent_auth.Registry.Cache.{Redis}
use agent_auth.Registry.Audit.{Sha, AuditEvent, AuditService, record_event, verify_events}
use agent_auth.Registry.Audit.Chain.{Kept, record-Kept, Kept-verify}
use agent_auth.Registry.App.{AppState, Attempt}
use agent_auth.Registry.AgentHandlers.{register_agent, register_new, bootstrap_agent, delete_agent}
use agent_auth.Registry.GrantHandlers as GrantHandlers
use agent_auth.Registry.TokenHandler.{issue_token_handler, revoke_token_handler}
use agent_auth.Registry.Service.{
  Request, Setting, attempt_of, handle, run, registers, bootstraps, lists_agents, gets_agent,
  gets_grant, deletes, requests_grant, approves, denies, revokes_grant, issues, revokes_token,
  replicates,
}

-- No insertion of the request's audit event takes effect without an answer.
abbrev pub Answered : Option Attempt → Type 0
Answered none = Unit
Answered (some a) = a.fate ≢ lost_after

module _ (r : Redis) (h : Sha) (c : Setting) where
  -- Every handler leaves the audit service as it was or records one event.
  handle_cases :
      (P : AuditService → Type 0) (q : Request) (s : AppState r h)
      → P s.audit
      → ((a : Attempt) (e : AuditEvent)
          → attempt_of q ≡ some a
          → P (record_event h a.event_id e a.sign a.fate s.audit).1)
      → P (handle r h c s q).audit
  unfolding handle register_agent register_new bootstrap_agent delete_agent
      GrantHandlers.request_grant GrantHandlers.approve_grant GrantHandlers.deny_grant
      GrantHandlers.revoke_grant issue_token_handler revoke_token_handler
  handle_cases P (registers m signature db_now a) s same done = grind arith
  handle_cases P (bootstraps otp m sign key_id now db_now a) s same done = grind arith
  handle_cases P lists_agents s same done = same
  handle_cases P (gets_agent id) s same done = same
  handle_cases P (gets_grant id) s same done = same
  handle_cases P (deletes id a) s same done = grind arith
  handle_cases P (requests_grant q grant_id now db_now a) s same done = grind arith
  handle_cases P (approves id q now db_now later a) s same done = grind arith
  handle_cases P (denies id db_now a) s same done = grind arith
  handle_cases P (revokes_grant id a) s same done = grind arith
  handle_cases P (issues q jti asked_at now cached_at a) s same done = grind arith
  handle_cases P (revokes_token jti reason db_now now a) s same done = grind arith
  handle_cases P replicates s same done = same

  handle-Kept :
      (q : Request) (s : AppState r h)
      → Answered (attempt_of q)
      → Kept h s.audit
      → Kept h (handle r h c s q).audit
  handle-Kept q s n k =
      handle_cases (Kept h) q s k
        (λ a e x. record-Kept h a.event_id e a.sign a.fate s.audit (subst Answered x n) k)

  run-Kept :
      (qs : List Request) (s : AppState r h)
      → All (λ q. Answered (attempt_of q)) qs
      → Kept h s.audit
      → Kept h (run r h c s qs).audit
  unfolding run
  run-Kept [] s n k = k
  run-Kept (q ∷ qs) s n k = run-Kept qs (handle r h c s q) n.1 (handle-Kept q s n.0 k)

  -- From a state whose audit table is linked up to the hash in memory, over any requests in which no
  -- insertion of an audit event takes effect without an answer, whatever else fails, the loop of
  -- the verification accepts the whole audit table, with every row counted.
  pub run-chain_verified :
      (qs : List Request) (s : AppState r h)
      → Kept h s.audit
      → All (λ q. Answered (attempt_of q)) qs
      → let rows = (run r h c s qs).audit.rows in
        ((verify_events h rows).valid ≡ true)
        × ((verify_events h rows).events_verified ≡ length rows)
  run-chain_verified qs s k n = Kept-verify h (run r h c s qs).audit (run-Kept qs s n k)
