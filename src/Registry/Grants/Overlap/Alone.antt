-- ===== src/Registry/Grants/Overlap/Alone.antt =====
-- A call whose statements come one after another, beside the call of Grants.
use agent_auth.Prelude.{ℕ, ◌≡◌, refl, inl, inr, Option, List, arith, ok, err, Result-cases}
use agent_auth.Core.Capability.{Capability}
use agent_auth.Core.Envelope.{BehavioralEnvelope}
use agent_auth.Registry.Db.{Db, M, ◌>>=◌, ◌>>◌, pure}
use agent_auth.Registry.Grants
use agent_auth.Registry.Grants.{
  GrantConfig, Call, requests, approves, denies, revokes, replicates, step,
}
use agent_auth.Registry.Grants.Overlap as Overlap
use agent_auth.Registry.Grants.Overlap.{handler, alone, Answer, grant, done}

alone-request_grant :
    (config : GrantConfig) (agent_id sp : ℕ) (caps : List Capability)
    (envelope : BehavioralEnvelope) (grant_id now db_now : ℕ) (db : Db)
    → alone (Overlap.request_grant config agent_id sp caps envelope grant_id now db_now) db
      ≡ Grants.request_grant config agent_id sp caps envelope grant_id now db_now db
unfolding Overlap.request_grant Grants.request_grant
alone-request_grant config agent_id sp caps envelope grant_id now db_now db = grind arith

alone-approve_grant :
    (id by : ℕ) (nonce signature : List ℕ) (granted : Option (List Capability))
    (now db_now later : ℕ) (db : Db)
    → alone (Overlap.approve_grant id by nonce signature granted now db_now later) db
      ≡ Grants.approve_grant id by nonce signature granted now db_now later db
unfolding Overlap.approve_grant Grants.approve_grant Grants.get_grant
alone-approve_grant id by nonce signature granted now db_now later db = grind arith

alone-deny_grant :
    (id db_now : ℕ) (db : Db)
    → alone (Overlap.deny_grant id db_now) db ≡ Grants.deny_grant id db_now db
unfolding Overlap.deny_grant Grants.deny_grant Grants.get_grant
alone-deny_grant id db_now db = grind arith

alone-revoke_grant :
    (id : ℕ) (db : Db) → alone (Overlap.revoke_grant id) db ≡ Grants.revoke_grant id db
unfolding Overlap.revoke_grant Grants.revoke_grant Grants.get_grant
alone-revoke_grant id db = grind arith

alone-bind :
    {A B : Type 0} (h : Overlap.Handler A) (f : A → Overlap.Handler B) (db : Db)
    → alone (Overlap.◌>>=◌ h f) db ≡ (alone h >>= λ a. alone (f a)) db
alone-bind (Overlap.returns (ok a)) f db = refl
alone-bind (Overlap.returns (err e)) f db = refl
alone-bind (Overlap.performs m k) f db = elim (Result-cases (m db).0) [
  | inl (r, e) ↦ rw e (alone-bind (k r) f (m db).1)
  | inr (x, e) ↦ rw e refl
]

-- What the service answers to a call, and what it leaves.
abbrev pub outcome : GrantConfig → Call → M Answer
outcome config (requests agent_id sp caps envelope grant_id now db_now) =
    Grants.request_grant config agent_id sp caps envelope grant_id now db_now >>= λ g.
    pure (grant g)
outcome config (approves id by nonce signature granted now db_now later) =
    Grants.approve_grant id by nonce signature granted now db_now later >>= λ g. pure (grant g)
outcome config (denies id db_now) = Grants.deny_grant id db_now >>= λ g. pure (grant g)
outcome config (revokes id) = Grants.revoke_grant id >> pure done
outcome config replicates = λ db. (ok done, step config db replicates)

-- The statements of a call, one after another with none of another call between them, answer and
-- leave what the call of the service does.
alone-handler :
    (config : GrantConfig) (c : Call) (db : Db) → alone (handler config c) db ≡ outcome config c db
unfolding handler Overlap.replicate step
alone-handler config (requests agent_id sp caps envelope grant_id now db_now) db =
    rw
      (
        alone-bind (Overlap.request_grant config agent_id sp caps envelope grant_id now db_now)
            (λ g. Overlap.pure (grant g)) db,
        alone-request_grant config agent_id sp caps envelope grant_id now db_now db,
      )
      refl
alone-handler config (approves id by nonce signature granted now db_now later) db =
    rw
      (
        alone-bind (Overlap.approve_grant id by nonce signature granted now db_now later)
            (λ g. Overlap.pure (grant g)) db,
        alone-approve_grant id by nonce signature granted now db_now later db,
      )
      refl
alone-handler config (denies id db_now) db =
    rw
      (
        alone-bind (Overlap.deny_grant id db_now) (λ g. Overlap.pure (grant g)) db,
        alone-deny_grant id db_now db,
      )
      refl
alone-handler config (revokes id) db =
    rw (alone-bind (Overlap.revoke_grant id) (λ _. Overlap.pure done) db, alone-revoke_grant id db)
      refl
alone-handler config replicates db = refl
