-- ===== src/Registry/Grants/Limits.antt =====
-- The limit on the pending grants of an agent, for calls that come one after another; Overlap/Limit
-- is about those that run at the same time.
use agent_auth.Prelude.{
  ℕ, ◌+◌, ◌≤◌, ◌<◌, ◌≡◌, refl, subst, inl, inr, false, ◌&&◌, List, [], ◌∷◌, ◌++◌, arith, ◌==◌,
  if◌then◌else◌, ==_iff, Bool-cases,
}
use native.Mathlib.Nat.{le_trans}
use agent_auth.Core.Capability.{Capability}
use agent_auth.Core.Envelope.{BehavioralEnvelope}
use agent_auth.Core.Token.{GrantStatus, pending, approved, status_eq}
use agent_auth.Registry.Tables
use agent_auth.Registry.Tables.{
  Tables, GrantEntry, insert_grant, count_pending_grants, count_grants, update_rows, is_at,
}
use agent_auth.Registry.Db.{Db}
use agent_auth.Registry.Grants.{
  GrantConfig, Call, requests, approves, denies, revokes, replicates, step, run,
}
use agent_auth.Registry.Grants.Status.{deny_cases, approve_cases, revoke_cases, request_cases}

-- An update to another state than pending adds no pending grant.
pub count-update-le :
    (f : GrantEntry → GrantEntry) (k agent : ℕ) (from : GrantStatus) (gs : List GrantEntry)
    → ((g : GrantEntry) → status_eq (f g).status pending ≡ false)
    → count_grants pending agent (update_rows (is_at k from) f gs) ≤ count_grants pending agent gs
count-update-le f k agent from [] h = omega arith
count-update-le f k agent from (g ∷ gs) h = ground (arith, h g, count-update-le f k agent from gs h)

pub count-append :
    (agent : ℕ) (gs : List GrantEntry) (g : GrantEntry)
    → count_grants pending agent (gs ++ (g ∷ []))
      ≡ count_grants pending agent gs
        + (if g.agent_id == agent && status_eq g.status pending then 1 else 0)
count-append agent [] g = ground arith
count-append agent (x ∷ gs) g = ground (arith, count-append agent gs g)

insert-limit :
    (limit agent grant_id agent_id sp : ℕ) (caps : List Capability) (envelope : BehavioralEnvelope)
    (expires_at now : ℕ) (t : Tables)
    → count_pending_grants agent t ≤ limit
    → count_pending_grants agent_id t < limit
    → count_pending_grants agent
        (insert_grant grant_id agent_id sp caps envelope expires_at now t).1
      ≤ limit
unfolding insert_grant count_pending_grants
insert-limit limit agent grant_id agent_id sp caps envelope expires_at now t h k =
    rw (count-append agent t.grants) (elim (Bool-cases (agent_id == agent)) [
      | inl e ↦ rw e (
          subst (λ a. count_grants pending a t.grants + 1 ≤ limit) ((==_iff agent_id agent).0 e)
            (omega arith))
      | inr e ↦ rw e (omega arith)
    ])

-- No call brings an agent above the configured number of pending grants.
step-limit :
    (config : GrantConfig) (db : Db) (c : Call) (agent : ℕ)
    → count_pending_grants agent db.primary ≤ config.max_pending_per_agent
    → count_pending_grants agent (step config db c).primary ≤ config.max_pending_per_agent
unfolding step
step-limit config db (requests agent_id sp caps envelope grant_id now db_now) agent h =
    request_cases (λ t. count_pending_grants agent t ≤ config.max_pending_per_agent) config agent_id
      sp caps envelope grant_id now db_now db h
      (λ expires_at k.
        insert-limit _ agent grant_id agent_id sp caps envelope expires_at db_now db.primary h k)
step-limit config db (approves k by nonce signature granted now db_now later) agent h =
    approve_cases (λ t. count_pending_grants agent t ≤ config.max_pending_per_agent) k by nonce
      signature granted now db_now later db h
      (λ caps.
        unfold Tables.approve_grant count_pending_grants in
        le_trans (count-update-le _ k agent pending db.primary.grants (λ g. refl)) h)
step-limit config db (denies k db_now) agent h =
    deny_cases (λ t. count_pending_grants agent t ≤ config.max_pending_per_agent) k db_now db h
      (unfold Tables.deny_grant count_pending_grants in
        le_trans (count-update-le _ k agent pending db.primary.grants (λ g. refl)) h)
step-limit config db (revokes k) agent h =
    revoke_cases (λ t. count_pending_grants agent t ≤ config.max_pending_per_agent) k db h
      (unfold Tables.revoke_grant count_pending_grants in
        le_trans (count-update-le _ k agent approved db.primary.grants (λ g. refl)) h)
step-limit config db replicates agent h = h

-- Over any calls made one after another, whatever calls to the database fail, no agent has more
-- pending grants than the configuration allows, if none had at the start.
pub run-limit :
    (config : GrantConfig) (db : Db) (cs : List Call) (agent : ℕ)
    → count_pending_grants agent db.primary ≤ config.max_pending_per_agent
    → count_pending_grants agent (run config db cs).primary ≤ config.max_pending_per_agent
unfolding run
run-limit config db [] agent h = h
run-limit config db (c ∷ cs) agent h =
    run-limit config (step config db c) cs agent (step-limit config db c agent h)
