-- ===== src/Registry/Grants/Status.antt =====
-- The life of a grant: what the service's calls may do to its state, on the primary, whatever calls
-- to the database fail and however far the replica lags.
use agent_auth.Prelude.{
  ℕ, ◌<◌, ◌≡◌, refl, sym, subst, ◌≢◌, ◌⊎◌, inl, inr, Bool, true, false, Option, none, some, List,
  [], ◌∷◌, arith, ◌==◌, if◌then◌else◌,
}
use agent_auth.Core.Token.{GrantStatus, pending, approved, denied, revoked, expired}
use agent_auth.Core.Capability.{Capability}
use agent_auth.Core.Envelope.{BehavioralEnvelope}
use agent_auth.Registry.Tables
use agent_auth.Registry.Tables.{Tables, insert_grant, approve_grant, deny_grant, revoke_grant}
use agent_auth.Registry.Tables.Rows.{status_in, status_in-update, status_in-append}
use agent_auth.Registry.Db.{Db}
use agent_auth.Registry.Grants
use agent_auth.Registry.Grants.{
  GrantConfig, Call, requests, approves, denies, revokes, replicates, step, run, request_grant,
}

-- The transitions: a request makes a pending grant, a pending grant is decided, an approved one is
-- revoked.
infix 40 ◌⟶◌
pub data ◌⟶◌ : Option GrantStatus → Option GrantStatus → Type 0 where
  stays : {s : Option GrantStatus} → s ⟶ s
  requested : none ⟶ some pending
  approval : some pending ⟶ some approved
  denial : some pending ⟶ some denied
  revocation : some approved ⟶ some revoked

-- The state of a grant on the primary.
abbrev pub status_of : ℕ → Tables → Option GrantStatus
status_of id t = status_in id t.grants

-- Whatever fails, the primary is left as it was or gets the one statement of the call.
pub deny_cases :
    (P : Tables → Type 0) (id db_now : ℕ) (db : Db)
    → P db.primary
    → P (Tables.deny_grant id db_now db.primary).1
    → P (Grants.deny_grant id db_now db).1.primary
unfolding Grants.deny_grant Grants.get_grant
deny_cases P id db_now db same done = ground arith

pub approve_cases :
    (P : Tables → Type 0) (id by : ℕ) (nonce signature : List ℕ)
    (granted : Option (List Capability)) (now db_now later : ℕ) (db : Db)
    → P db.primary
    → ((caps : List Capability)
        → P (Tables.approve_grant id by nonce signature caps db_now db.primary).1)
    → P (Grants.approve_grant id by nonce signature granted now db_now later db).1.primary
unfolding Grants.approve_grant Grants.get_grant
approve_cases P id by nonce signature granted now db_now later db same done = grind arith

pub revoke_cases :
    (P : Tables → Type 0) (id : ℕ) (db : Db)
    → P db.primary
    → P (Tables.revoke_grant id db.primary).1
    → P (Grants.revoke_grant id db).1.primary
unfolding Grants.revoke_grant Grants.get_grant
revoke_cases P id db same done = ground arith

pub request_cases :
    (P : Tables → Type 0) (config : GrantConfig) (agent_id sp : ℕ) (caps : List Capability)
    (envelope : BehavioralEnvelope) (grant_id now db_now : ℕ) (db : Db)
    → P db.primary
    → ((expires_at : ℕ)
        → Tables.count_pending_grants agent_id db.primary < config.max_pending_per_agent
        → P (Tables.insert_grant grant_id agent_id sp caps envelope expires_at db_now db.primary).1)
    → P (Grants.request_grant config agent_id sp caps envelope grant_id now db_now db).1.primary
unfolding Grants.request_grant
request_cases P config agent_id sp caps envelope grant_id now db_now db same done = grind arith

pub insert-⟶ :
    (id grant_id agent_id sp : ℕ) (caps : List Capability) (envelope : BehavioralEnvelope)
    (expires_at now : ℕ) (t : Tables)
    → status_of id t
      ⟶ status_of id (insert_grant grant_id agent_id sp caps envelope expires_at now t).1
unfolding insert_grant
insert-⟶ id grant_id agent_id sp caps envelope expires_at now t =
    subst (λ s. status_of id t ⟶ s) (sym (status_in-append id t.grants _))
      (added (status_of id t) (grant_id == id))
  where
    added :
        (s : Option GrantStatus) (b : Bool)
        → s ⟶ elim s [ none ↦ if b then some pending else none | some x ↦ some x ]
    added none true = requested
    added none false = stays
    added (some x) b = stays

pub moved :
    {id k : ℕ} {s s' : Option GrantStatus} {from to : GrantStatus}
    → (some from ⟶ some to)
    → (s' ≡ s) ⊎ ((id ≡ k) × (s ≡ some from) × (s' ≡ some to))
    → s ⟶ s'
moved {s} r (inl e) = subst (λ x. s ⟶ x) (sym e) stays
moved r (inr (_, e, f)) = rw (e, f) r

-- Each call of the service, and the replica catching up, moves the state of every grant along one
-- transition or none, whichever calls to the database fail and however far the replica lags.
pub step-⟶ :
    (config : GrantConfig) (db : Db) (c : Call) (id : ℕ)
    → status_of id db.primary ⟶ status_of id (step config db c).primary
unfolding step
step-⟶ config db (requests agent_id sp caps envelope grant_id now db_now) id =
    request_cases (λ t. status_of id db.primary ⟶ status_of id t) config agent_id sp caps envelope
      grant_id now db_now db stays
      (λ expires_at _. insert-⟶ id grant_id agent_id sp caps envelope expires_at db_now db.primary)
step-⟶ config db (approves k by nonce signature granted now db_now later) id =
    approve_cases (λ t. status_of id db.primary ⟶ status_of id t) k by nonce signature granted now
      db_now later db stays
      (λ caps.
        unfold Tables.approve_grant in
        moved {id = id} {k = k} approval
          (status_in-update _ approved pending k id db.primary.grants (λ g. (refl, refl))))
step-⟶ config db (denies k db_now) id =
    deny_cases (λ t. status_of id db.primary ⟶ status_of id t) k db_now db stays
      (unfold Tables.deny_grant in
        moved {id = id} {k = k} denial
          (status_in-update _ denied pending k id db.primary.grants (λ g. (refl, refl))))
step-⟶ config db (revokes k) id =
    revoke_cases (λ t. status_of id db.primary ⟶ status_of id t) k db stays
      (unfold Tables.revoke_grant in
        moved {id = id} {k = k} revocation
          (status_in-update _ revoked approved k id db.primary.grants (λ g. (refl, refl))))
step-⟶ config db replicates id = stays

-- What a state allows ever after.
abbrev pub Allows : Option GrantStatus → Option GrantStatus → Type 0
Allows none later = Unit
Allows (some pending) later = later ≢ none
Allows (some approved) later = (later ≡ some approved) ⊎ (later ≡ some revoked)
Allows (some denied) later = later ≡ some denied
Allows (some revoked) later = later ≡ some revoked
Allows (some expired) later = later ≡ some expired

pub ⟶-Allows : {s t : Option GrantStatus} (u : Option GrantStatus) → s ⟶ t → Allows t u → Allows s u
⟶-Allows u stays a = a
⟶-Allows u requested a = tt
⟶-Allows u approval a = ground arith
⟶-Allows u denial a = ground arith
⟶-Allows u revocation a = inr a

pub Allows-refl : (s : Option GrantStatus) → Allows s s
Allows-refl none = tt
Allows-refl (some pending) = ground arith
Allows-refl (some approved) = inl refl
Allows-refl (some denied) = refl
Allows-refl (some revoked) = refl
Allows-refl (some expired) = refl

-- Over any calls, a grant is decided at most once: one that is denied, revoked or expired stays
-- so, an approved one is still approved or is revoked, and no grant disappears.
pub run-Allows :
    (config : GrantConfig) (db : Db) (cs : List Call) (id : ℕ)
    → Allows (status_of id db.primary) (status_of id (run config db cs).primary)
unfolding run
run-Allows config db [] id = Allows-refl (status_of id db.primary)
run-Allows config db (c ∷ cs) id =
    ⟶-Allows _ (step-⟶ config db c id) (run-Allows config (step config db c) cs id)
