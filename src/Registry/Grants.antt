-- ===== src/Registry/Grants.antt =====
-- crates/registry/src/services/grant.rs. Fresh identifiers are arguments, and so
-- is each reading of a clock: `now` and `later` of the service's, `db_now` of the database's.
pub mod Status
pub mod Limits
pub mod Approval
pub mod Overlap
use Prim.Native.String.{◌++◌ as str_append}
use agent_auth.Prelude.{
  ℕ, ◌+◌, String, not, Option, none, some, List, [], ◌∷◌, ltb, leb, str_eq, if◌then◌else◌, any,
  Result, ok, err, fail_if, from_secs,
}
use agent_auth.Core.Capability.{Capability, read, write, transact, delete, custom}
use agent_auth.Core.Envelope.{BehavioralEnvelope}
use agent_auth.Core.Token.{CapabilityGrant, pending, approved, denied, status_eq}
use agent_auth.Registry.Error.{
  RegistryError, agent_not_found, grant_not_found, invalid_capability, grant_not_pending,
  too_many_pending_grants, grant_expired, internal,
}
use agent_auth.Registry.Tables
use agent_auth.Registry.Tables.{GrantRow, AgentRow}
use agent_auth.Registry.Db.{
  Db, M, ◌>>=◌, ◌>>◌, pure, lift, throw_if, or_throw, read_primary, read_replica, write_primary,
}

-- The fields of `GrantConfig` that the service reads.
pub record GrantConfig : Type 0 where
  pub max_pending_per_agent : ℕ  -- u32
  pub expiry_secs : ℕ  -- u64

-- The texts are those that the source formats.
unfoldable pub capability_type_key : Capability → String
capability_type_key (read res _) = str_append "read:" res
capability_type_key (write res _) = str_append "write:" res
capability_type_key (delete res _) = str_append "delete:" res
capability_type_key (transact res _ _) = str_append "transact:" res
capability_type_key (custom namespace name _) =
    str_append "custom:" (str_append namespace (str_append ":" name))

-- A column that does not parse is an internal error. The status column has the type grant_status
-- of the schema, so the branch for an unknown status is never taken.
parse_grant :
    GrantRow
    → Option (List Capability)
    → Option BehavioralEnvelope
    → Result RegistryError CapabilityGrant
parse_grant r none _ = err (internal "failed to parse capabilities")
parse_grant r (some caps) none = err (internal "failed to parse envelope")
parse_grant r (some caps) (some envelope) = ok (record {
  id = r.grant.id;
  agent_id = r.grant.agent_id;
  service_provider_id = r.grant.service_provider_id;
  human_principal_id = r.human_principal_id;
  requested_capabilities = caps;
  requested_envelope = envelope;
  status = r.grant.status;
  created_at = r.grant.requested_at;
  expires_at = r.grant.expires_at;
  approved_at = r.grant.decided_at;
  approval_assertion = none;
})

unfoldable pub row_to_grant : GrantRow → Result RegistryError CapabilityGrant
unfolding parse_grant
row_to_grant row = parse_grant row row.grant.granted_capabilities row.grant.behavioral_envelope

create_grant :
    GrantConfig
    → ℕ
    → ℕ
    → List Capability
    → BehavioralEnvelope
    → AgentRow
    → ℕ
    → ℕ
    → ℕ
    → M CapabilityGrant
create_grant config agent_id sp caps envelope agent grant_id now db_now = do
  let expires_at = now + from_secs config.expiry_secs
  write_primary (Tables.insert_grant grant_id agent_id sp caps envelope expires_at db_now)
  pure (record {
    id = grant_id;
    agent_id = agent_id;
    service_provider_id = sp;
    human_principal_id = agent.human_principal_id;
    requested_capabilities = caps;
    requested_envelope = envelope;
    status = pending;
    created_at = now;
    expires_at = expires_at;
    approved_at = none;
    approval_assertion = none;
  })

-- `Some(existing)` returns the pending grant that is there, `None` makes one.
reuse_or : Option GrantRow → M CapabilityGrant → M CapabilityGrant
unfolding row_to_grant
reuse_or (some row) create = lift (row_to_grant row)
reuse_or none create = create

unfoldable pub request_grant :
    GrantConfig → ℕ → ℕ → List Capability → BehavioralEnvelope → ℕ → ℕ → ℕ → M CapabilityGrant
unfolding create_grant reuse_or
request_grant config agent_id sp caps envelope grant_id now db_now = do
  pending_count ← read_primary (Tables.count_pending_grants agent_id)
  throw_if (leb config.max_pending_per_agent pending_count) too_many_pending_grants
  found ← read_replica (Tables.get_agent agent_id)
  agent ← or_throw found (agent_not_found agent_id)
  existing ← read_replica (Tables.get_pending_grant_for_agent_sp agent_id sp)
  reuse_or existing (create_grant config agent_id sp caps envelope agent grant_id now db_now)

-- `row.map(row_to_grant).transpose()`
parse_row : Option GrantRow → Result RegistryError (Option CapabilityGrant)
parse_row none = ok none
parse_row (some row) = elim (row_to_grant row) [ ok g ↦ ok (some g) | err e ↦ err e ]

unfoldable pub get_grant : ℕ → M (Option CapabilityGrant)
unfolding parse_row
get_grant id = do row ← read_replica (Tables.get_grant id); lift (parse_row row)

-- The loop over the capabilities that the approver names.
check_subset : List Capability → List Capability → Result RegistryError (Unit {0})
check_subset requested [] = ok tt
check_subset requested (c ∷ cs) =
    if any (λ r. str_eq (capability_type_key r) (capability_type_key c)) requested
    then check_subset requested cs
    else err (invalid_capability "cannot grant capability not in original request")

-- The capabilities to persist: those named, each checked, or all that were requested.
unfoldable pub resolve :
    List Capability → Option (List Capability) → Result RegistryError (List Capability)
unfolding check_subset
resolve requested none = ok requested
resolve requested (some []) = err (invalid_capability "must grant at least one capability")
resolve requested (some (c ∷ cs)) = elim (check_subset requested (c ∷ cs)) [
  | ok _ ↦ ok (c ∷ cs)
  | err e ↦ err e
]

unfoldable pub approve_grant :
    ℕ → ℕ → List ℕ → List ℕ → Option (List Capability) → ℕ → ℕ → ℕ → M CapabilityGrant
approve_grant id approved_by nonce signature granted now db_now later = do
  found ← get_grant id
  grant ← or_throw found (grant_not_found id)
  throw_if (not (status_eq grant.status pending)) grant_not_pending
  throw_if (ltb grant.expires_at now) grant_expired
  caps ← lift (resolve grant.requested_capabilities granted)
  done ← write_primary (Tables.approve_grant id approved_by nonce signature caps db_now)
  throw_if (not done) grant_not_pending
  pure (record grant { status = approved; approved_at = some later; requested_capabilities = caps })

unfoldable pub deny_grant : ℕ → ℕ → M CapabilityGrant
deny_grant id db_now = do
  found ← get_grant id
  grant ← or_throw found (grant_not_found id)
  throw_if (not (status_eq grant.status pending)) grant_not_pending
  done ← write_primary (Tables.deny_grant id db_now)
  throw_if (not done) grant_not_pending
  pure (record grant { status = denied })

-- What `revoke_grant` answers when no row was affected.
explain_unrevoked : ℕ → Option CapabilityGrant → Result RegistryError (Unit {0})
explain_unrevoked id none = err (grant_not_found id)
explain_unrevoked id (some g) = fail_if (not (status_eq g.status approved)) grant_not_pending

unfoldable pub revoke_grant : ℕ → M (Unit {0})
unfolding explain_unrevoked
revoke_grant id = do
  done ← write_primary (Tables.revoke_grant id)
  if done then pure tt else (get_grant id >>= λ found. lift (explain_unrevoked id found))

-- The calls of the service, and the replica catching up with the primary.
pub data Call : Type 0 where
  requests : ℕ → ℕ → List Capability → BehavioralEnvelope → ℕ → ℕ → ℕ → Call
  approves : ℕ → ℕ → List ℕ → List ℕ → Option (List Capability) → ℕ → ℕ → ℕ → Call
  denies : ℕ → ℕ → Call
  revokes : ℕ → Call
  replicates : Call

unfoldable pub step : GrantConfig → Db → Call → Db
step config db (requests agent_id sp caps envelope grant_id now db_now) =
    (request_grant config agent_id sp caps envelope grant_id now db_now db).1
step config db (approves id by nonce signature granted now db_now later) =
    (approve_grant id by nonce signature granted now db_now later db).1
step config db (denies id db_now) = (deny_grant id db_now db).1
step config db (revokes id) = (revoke_grant id db).1
step config db replicates = record db { replica = db.primary }

unfoldable pub run : GrantConfig → Db → List Call → Db
run config db [] = db
run config db (c ∷ cs) = run config (step config db c) cs
