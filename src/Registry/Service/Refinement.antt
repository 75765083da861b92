-- ===== src/Registry/Service/Refinement.antt =====
-- The registry's primary implements the authority: each request makes it take at most one step.
use agent_auth.Prelude.{refl, List, [], ◌∷◌}
use agent_auth.Registry.Cache.{Redis}
use agent_auth.Registry.Audit.{Sha}
use agent_auth.Registry.Tables.{Tables}
use agent_auth.Registry.Grants.Status.{request_cases, approve_cases, deny_cases}
use agent_auth.Registry.App.{AppState}
use agent_auth.Registry.Service.{
  Request, Setting, handle, run, registers, bootstraps, lists_agents, gets_agent, gets_grant,
  deletes, requests_grant, approves, denies, revokes_grant, issues, revokes_token, replicates,
}
use agent_auth.Registry.Service.Authority.{◌⇝◌, idle, ◌⇝*◌, done, one_more, After, ⇝*-After}
use agent_auth.Registry.Service.Steps.{
  view, insert_agent-⇝, deactivate-⇝, insert_grant-⇝, approve-⇝, deny-⇝, revoke-⇝, insert_token-⇝,
  revoke_token-⇝,
}
use agent_auth.Registry.Service.Writes.{
  register_cases, bootstrap_cases, list_cases, get_agent_cases, get_grant_cases, delete_cases,
  request_grant_cases, approve_grant_cases, deny_grant_cases, revoke_grant_cases, issue_cases,
  revoke_token_cases,
}

module _ (r : Redis) (h : Sha) (c : Setting) where
  -- The tables that one step leads to.
  abbrev Reached : AppState r h → Tables → Type 0
  Reached s t = view s.world.db.primary ⇝ view t

  -- Each request, and the replica catching up, takes the authority that the primary shows along at
  -- most one of its steps, whatever calls fail and however far the replica lags.
  pub handle-⇝ :
      (q : Request) (s : AppState r h)
      → view s.world.db.primary ⇝ view (handle r h c s q).world.db.primary
  unfolding handle
  handle-⇝ (registers m signature db_now a) s =
      register_cases r h c.crypto c.json (Reached s) m signature db_now a s (idle refl)
        (λ key. insert_agent-⇝ s.world.db.primary m key signature db_now)
  handle-⇝ (bootstraps otp m sign key_id now db_now a) s =
      bootstrap_cases r h c.crypto c.json (Reached s) otp m sign key_id now db_now a s (idle refl)
        (λ key signature. insert_agent-⇝ s.world.db.primary m key signature db_now)
  handle-⇝ lists_agents s = list_cases r h c.crypto c.json (Reached s) s (idle refl)
  handle-⇝ (gets_agent id) s = get_agent_cases r h c.crypto c.json (Reached s) id s (idle refl)
  handle-⇝ (gets_grant id) s = get_grant_cases r h c.crypto c.json (Reached s) id s (idle refl)
  handle-⇝ (deletes id a) s =
      delete_cases r h c.crypto c.json (Reached s) id a s (idle refl)
        (deactivate-⇝ s.world.db.primary id)
  handle-⇝ (requests_grant q grant_id now db_now a) s =
      request_grant_cases r h c.crypto c.json (Reached s) c.grant_config q grant_id now db_now a s (
        request_cases (Reached s) c.grant_config q.agent_id q.service_provider_id q.capabilities
          q.behavioral_envelope grant_id now db_now s.world.db (idle refl)
          (λ expires_at _.
            insert_grant-⇝ s.world.db.primary grant_id q.agent_id q.service_provider_id
              q.capabilities q.behavioral_envelope expires_at db_now))
  handle-⇝ (approves id q now db_now later a) s =
      approve_grant_cases r h c.crypto c.json (Reached s) id q now db_now later a s (
        approve_cases (Reached s) id q.approved_by q.approval_nonce q.approval_signature
          q.granted_capabilities now db_now later s.world.db (idle refl)
          (λ caps.
            approve-⇝ s.world.db.primary id q.approved_by q.approval_nonce q.approval_signature caps
              db_now))
  handle-⇝ (denies id db_now a) s = deny_grant_cases r h c.crypto c.json (Reached s) id db_now a s (
      deny_cases (Reached s) id db_now s.world.db (idle refl) (deny-⇝ s.world.db.primary id db_now))
  handle-⇝ (revokes_grant id a) s =
      revoke_grant_cases r h c.crypto c.json (Reached s) id a s (idle refl)
        (revoke-⇝ s.world.db.primary id)
  handle-⇝ (issues q jti asked_at now cached_at a) s =
      issue_cases r h c.crypto c.json (Reached s) c.token_config c.key_id q jti asked_at now
        cached_at a.event_id a.sign a.fate s (idle refl)
        (λ token binding. insert_token-⇝ s.world.db.primary token q.grant_id c.key_id binding)
  handle-⇝ (revokes_token jti reason db_now now a) s =
      revoke_token_cases r h c.crypto c.json (Reached s) jti reason db_now now a s (idle refl)
        (revoke_token-⇝ s.world.db.primary jti reason db_now)
  handle-⇝ replicates s = idle refl

  -- Each request of a run takes the authority along one step, or leaves it idle.
  abbrev pub StepEach : List Request → AppState r h → Type 0
  StepEach [] s = Unit
  StepEach (q ∷ qs) s =
      (view s.world.db.primary ⇝ view (handle r h c s q).world.db.primary)
      × StepEach qs (handle r h c s q)

  -- A run of requests, whatever calls fail and however far the replica lags, is on the primary a run of
  -- the authority, in which each request, one after another, is one of its steps or leaves it idle.
  pub run-⇝* :
      (qs : List Request) (s : AppState r h)
      → (view s.world.db.primary ⇝* view (run r h c s qs).world.db.primary) × StepEach qs s
  unfolding run
  run-⇝* [] s = (done, tt)
  run-⇝* (q ∷ qs) s =
      let step = handle-⇝ q s in
      let rest = run-⇝* qs (handle r h c s q) in (one_more step rest.0, (step, rest.1))

  -- Over any requests, whatever calls fail, on the primary: no agent, grant or token disappears, an
  -- agent that was deactivated stays so, a token that was revoked stays so, and a grant is decided
  -- at most once.
  pub run-After :
      (qs : List Request) (s : AppState r h)
      → After (view s.world.db.primary) (view (run r h c s qs).world.db.primary)
  run-After qs s = ⇝*-After (run-⇝* qs s).0
