-- ===== src/Registry/Grants/Overlap.antt =====
-- crates/registry/src/services/grant.rs, for calls that run at the same time: the service's functions
-- cut at their statements, between which those of other calls may come. `alone` runs them
-- one after another, `interleave` in the order in which the calls take their turns.
pub mod Alone
pub mod Statements
pub mod Status
pub mod Limit
mod Tests
use agent_auth.Prelude.{
  ℕ, zero, suc, ◌+◌, Bool, not, Option, none, some, List, [], ◌∷◌, ltb, leb, if◌then◌else◌, Result,
  ok, err, fail_if, ok_or, from_secs,
}
use agent_auth.Core.Capability.{Capability}
use agent_auth.Core.Envelope.{BehavioralEnvelope}
use agent_auth.Core.Token.{CapabilityGrant, pending, approved, denied, status_eq}
use agent_auth.Registry.Error.{
  RegistryError, agent_not_found, grant_not_found, grant_not_pending, too_many_pending_grants,
  grant_expired,
}
use agent_auth.Registry.Tables
use agent_auth.Registry.Tables.{Tables, GrantRow, AgentRow}
use agent_auth.Registry.Db as Db
use agent_auth.Registry.Db.{Db, M}
use agent_auth.Registry.Grants
use agent_auth.Registry.Grants.{
  GrantConfig, Call, requests, approves, denies, revokes, replicates, resolve, row_to_grant,
  parse_row, explain_unrevoked,
}

-- What is left of a call: its result, or a statement and what follows when it is answered.
pub data Handler (A : Type 0) : Type 1 where
  returns : Result RegistryError A → Handler A
  performs : {R : Type 0} → M R → (R → Handler A) → Handler A

infixl 5 ◌>>=◌ ◌>>◌
abbrev pub ◌>>=◌ : {A B : Type 0} → Handler A → (A → Handler B) → Handler B
returns (ok a) >>= f = f a
returns (err e) >>= f = returns (err e)
performs m k >>= f = performs m (λ r. k r >>= f)

abbrev pub ◌>>◌ : {B : Type 0} → Handler (Unit {0}) → Handler B → Handler B
h >> k = h >>= λ _. k

abbrev pub pure : {A : Type 0} → A → Handler A
pure a = returns (ok a)

abbrev pub throw_if : Bool → RegistryError → Handler (Unit {0})
throw_if b e = returns (fail_if b e)

abbrev pub or_throw : {A : Type 0} → Option A → RegistryError → Handler A
or_throw o e = returns (ok_or o e)

-- One statement.
abbrev pub statement : {R : Type 0} → M R → Handler R
statement m = performs m pure

-- The statements one after another, with none of another call between them.
abbrev pub alone : {A : Type 0} → Handler A → M A
alone (returns r) db = (r, db)
alone (performs m k) db = Db.continue (m db).0 (m db).1 (λ r. alone (k r))

abbrev create_grant :
    GrantConfig
    → ℕ
    → ℕ
    → List Capability
    → BehavioralEnvelope
    → AgentRow
    → ℕ
    → ℕ
    → ℕ
    → Handler CapabilityGrant
create_grant config agent_id sp caps envelope agent grant_id now db_now =
    performs
      (Db.write_primary (
        Tables.insert_grant grant_id agent_id sp caps envelope (now + from_secs config.expiry_secs)
          db_now))
      (λ _. pure (record {
        id = grant_id;
        agent_id = agent_id;
        service_provider_id = sp;
        human_principal_id = agent.human_principal_id;
        requested_capabilities = caps;
        requested_envelope = envelope;
        status = pending;
        created_at = now;
        expires_at = now + from_secs config.expiry_secs;
        approved_at = none;
        approval_assertion = none;
      }))

abbrev pub reuse_or : Option GrantRow → Handler CapabilityGrant → Handler CapabilityGrant
reuse_or (some row) create = returns (row_to_grant row)
reuse_or none create = create

unfoldable pub request_grant :
    GrantConfig → ℕ → ℕ → List Capability → BehavioralEnvelope → ℕ → ℕ → ℕ → Handler CapabilityGrant
request_grant config agent_id sp caps envelope grant_id now db_now = do
  pending_count ← statement (Db.read_primary (Tables.count_pending_grants agent_id))
  throw_if (leb config.max_pending_per_agent pending_count) too_many_pending_grants
  found ← statement (Db.read_replica (Tables.get_agent agent_id))
  agent ← or_throw found (agent_not_found agent_id)
  existing ← statement (Db.read_replica (Tables.get_pending_grant_for_agent_sp agent_id sp))
  reuse_or existing (create_grant config agent_id sp caps envelope agent grant_id now db_now)

unfoldable pub get_grant : ℕ → Handler (Option CapabilityGrant)
unfolding parse_row
get_grant id = do row ← statement (Db.read_replica (Tables.get_grant id)); returns (parse_row row)

unfoldable pub approve_grant :
    ℕ → ℕ → List ℕ → List ℕ → Option (List Capability) → ℕ → ℕ → ℕ → Handler CapabilityGrant
unfolding get_grant
approve_grant id approved_by nonce signature granted now db_now later = do
  found ← get_grant id
  grant ← or_throw found (grant_not_found id)
  throw_if (not (status_eq grant.status pending)) grant_not_pending
  throw_if (ltb grant.expires_at now) grant_expired
  caps ← returns (resolve grant.requested_capabilities granted)
  done ←
      statement (Db.write_primary (Tables.approve_grant id approved_by nonce signature caps db_now))
  throw_if (not done) grant_not_pending
  pure (record grant { status = approved; approved_at = some later; requested_capabilities = caps })

unfoldable pub deny_grant : ℕ → ℕ → Handler CapabilityGrant
unfolding get_grant
deny_grant id db_now = do
  found ← get_grant id
  grant ← or_throw found (grant_not_found id)
  throw_if (not (status_eq grant.status pending)) grant_not_pending
  done ← statement (Db.write_primary (Tables.deny_grant id db_now))
  throw_if (not done) grant_not_pending
  pure (record grant { status = denied })

unfoldable pub revoke_grant : ℕ → Handler (Unit {0})
unfolding get_grant explain_unrevoked
revoke_grant id = do
  done ← statement (Db.write_primary (Tables.revoke_grant id))
  if done then pure tt else (get_grant id >>= λ found. returns (explain_unrevoked id found))

-- The replica catches up.
unfoldable pub replicate : Handler (Unit {0})
replicate = statement (λ db. (ok tt, record db { replica = db.primary }))

pub data Answer : Type 0 where
  grant : CapabilityGrant → Answer
  done : Answer

unfoldable pub handler : GrantConfig → Call → Handler Answer
handler config (requests agent_id sp caps envelope grant_id now db_now) =
    request_grant config agent_id sp caps envelope grant_id now db_now >>= λ g. pure (grant g)
handler config (approves id by nonce signature granted now db_now later) =
    approve_grant id by nonce signature granted now db_now later >>= λ g. pure (grant g)
handler config (denies id db_now) = deny_grant id db_now >>= λ g. pure (grant g)
handler config (revokes id) = revoke_grant id >> pure done
handler config replicates = replicate >> pure done

-- What a call is at after its next statement: an error ends it.
abbrev pub resume : {R A : Type 0} → Result RegistryError R → (R → Handler A) → Handler A
resume (ok r) k = k r
resume (err e) k = returns (err e)

abbrev pub turn : {A : Type 0} → Handler A → Db → Handler A × Db
turn (returns r) db = (returns r, db)
turn (performs m k) db = (resume (m db).0 k, (m db).1)

-- The call at a place of the list takes its turn.
abbrev pub take_turn : ℕ → List (Handler Answer) → Db → List (Handler Answer) × Db
take_turn i [] db = ([], db)
take_turn zero (h ∷ hs) db = let r = turn h db in (r.0 ∷ hs, r.1)
take_turn (suc i) (h ∷ hs) db = let r = take_turn i hs db in (h ∷ r.0, r.1)

-- The statements in the order in which the calls take their turns.
unfoldable pub interleave : List ℕ → List (Handler Answer) → Db → List (Handler Answer) × Db
interleave [] hs db = (hs, db)
interleave (i ∷ is) hs db = let r = take_turn i hs db in interleave is r.0 r.1

abbrev pub start : GrantConfig → List Call → List (Handler Answer)
start config [] = []
start config (c ∷ cs) = handler config c ∷ start config cs
