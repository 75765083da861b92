-- ===== src/Registry/Grants/Overlap/Statements.antt =====
-- What each statement of a call does to the primary, for any relation between what it was and what it
-- is after the statement.
use agent_auth.Prelude.{
  ℕ, inl, inr, Option, List, arith, leb, Bool-cases, Option-cases, ok, err, Result-cases,
}
use agent_auth.Core.Capability.{Capability}
use agent_auth.Core.Envelope.{BehavioralEnvelope}
use agent_auth.Registry.Tables
use agent_auth.Registry.Tables.{Tables}
use agent_auth.Registry.Db as Db
use agent_auth.Registry.Db.{Db, Fault, answers, lost_before, lost_after}
use agent_auth.Registry.Grants.{GrantConfig, Call, requests, approves, denies, revokes, replicates}
use agent_auth.Registry.Grants.Overlap as Overlap
use agent_auth.Registry.Grants.Overlap.{Handler, returns, performs, Answer, handler}

-- Every statement that may come keeps a relation between what the primary was and what it is then.
abbrev pub Each : {A : Type 0} → (Tables → Tables → Type 0) → Handler A → Type 0
Each I (returns r) = Unit
Each I (performs {R} m k) = ((db : Db) → I db.primary (m db).1.primary) × ((r : R) → Each I (k r))

pub Each-bind :
    {A B : Type 0} (I : Tables → Tables → Type 0) (h : Handler A) (f : A → Handler B)
    → Each I h
    → ((a : A) → Each I (f a))
    → Each I (Overlap.◌>>=◌ h f)
Each-bind I (returns (ok a)) f e g = g a
Each-bind I (returns (err x)) f e g = tt
Each-bind I (performs m k) f e g = (e.0, λ r. Each-bind I (k r) f (e.1 r) g)

pub written-kept :
    (I : Tables → Tables → Type 0) (fault : Fault) (t t' : Tables)
    → I t t
    → I t t'
    → I t (Db.written fault t t')
written-kept I answers t t' same new = new
written-kept I lost_before t t' same new = same
written-kept I lost_after t t' same new = new

-- The four statements that write, each made or lost.
pub record Keeps (I : Tables → Tables → Type 0) : Type 0 where
  pub same : (t : Tables) → I t t
  pub approval_kept :
      (k by : ℕ) (nonce signature : List ℕ) (caps : List Capability) (db_now : ℕ) (t : Tables)
      → I t (Tables.approve_grant k by nonce signature caps db_now t).1
  pub denial_kept : (k db_now : ℕ) (t : Tables) → I t (Tables.deny_grant k db_now t).1
  pub revocation_kept : (k : ℕ) (t : Tables) → I t (Tables.revoke_grant k t).1

abbrev pub InsertKept : (Tables → Tables → Type 0) → ℕ → Type 0
InsertKept I agent_id =
    (grant_id sp : ℕ) (caps : List Capability) (envelope : BehavioralEnvelope) (expires_at now : ℕ)
    (t : Tables)
    → I t (Tables.insert_grant grant_id agent_id sp caps envelope expires_at now t).1

abbrev pub Insertion : (Tables → Tables → Type 0) → Call → Type 0
Insertion I (requests agent_id _ _ _ _ _ _) = InsertKept I agent_id
Insertion I _ = Unit

module _ (I : Tables → Tables → Type 0) (keeps : Keeps I) where
  stays : (t : Tables) → I t t
  stays t = keeps.same t

  approved_kept :
      (k by : ℕ) (nonce signature : List ℕ) (caps : List Capability) (db_now : ℕ) (fault : Fault)
      (t : Tables)
      → I t (Db.written fault t (Tables.approve_grant k by nonce signature caps db_now t).1)
  approved_kept k by nonce signature caps db_now fault t =
      written-kept I fault t _ (stays t) (keeps.approval_kept k by nonce signature caps db_now t)

  denied_kept :
      (k db_now : ℕ) (fault : Fault) (t : Tables)
      → I t (Db.written fault t (Tables.deny_grant k db_now t).1)
  denied_kept k db_now fault t = written-kept I fault t _ (stays t) (keeps.denial_kept k db_now t)

  revoked_kept :
      (k : ℕ) (fault : Fault) (t : Tables) → I t (Db.written fault t (Tables.revoke_grant k t).1)
  revoked_kept k fault t = written-kept I fault t _ (stays t) (keeps.revocation_kept k t)

  request-Each :
      (config : GrantConfig) (agent_id sp : ℕ) (caps : List Capability)
      (envelope : BehavioralEnvelope) (grant_id now db_now : ℕ)
      → InsertKept I agent_id
      → Each I (Overlap.request_grant config agent_id sp caps envelope grant_id now db_now)
  unfolding Overlap.request_grant
  request-Each config agent_id sp caps envelope grant_id now db_now inserted = (
    λ db. stays db.primary,
    λ count. elim (Bool-cases (leb config.max_pending_per_agent count)) [
      | inl e ↦ rw e tt
      | inr e ↦ rw e (
        λ db. stays db.primary,
        λ found. elim (Option-cases found) [
          | inl n ↦ rw n tt
          | inr (agent, q) ↦ rw q (
            λ db. stays db.primary,
            λ existing. elim (Option-cases existing) [
              | inl n ↦ rw n (
                λ db.
                    written-kept I (db.fault 0) db.primary _ (stays db.primary)
                      (inserted _ _ _ _ _ _ _),
                λ _. tt,
              )
              | inr (row, x) ↦ rw x tt
            ],
          )
        ],
      )
    ],
  )

  deny-Each : (k db_now : ℕ) → Each I (Overlap.deny_grant k db_now)
  unfolding Overlap.deny_grant
  deny-Each k db_now = grind (arith, stays, denied_kept)

  approve-Each :
      (k by : ℕ) (nonce signature : List ℕ) (granted : Option (List Capability))
      (now db_now later : ℕ)
      → Each I (Overlap.approve_grant k by nonce signature granted now db_now later)
  unfolding Overlap.approve_grant
  approve-Each k by nonce signature granted now db_now later = grind (arith, stays, approved_kept)

  revoke-Each : (k : ℕ) → Each I (Overlap.revoke_grant k)
  unfolding Overlap.revoke_grant
  revoke-Each k = grind (arith, stays, revoked_kept)

  pub handler-Each : (config : GrantConfig) (c : Call) → Insertion I c → Each I (handler config c)
  unfolding handler Overlap.replicate
  handler-Each config (requests agent_id sp caps envelope grant_id now db_now) inserted =
      Each-bind I (Overlap.request_grant config agent_id sp caps envelope grant_id now db_now) _
        (request-Each config agent_id sp caps envelope grant_id now db_now inserted) (λ _. tt)
  handler-Each config (approves k by nonce signature granted now db_now later) u =
      Each-bind I (Overlap.approve_grant k by nonce signature granted now db_now later) _
        (approve-Each k by nonce signature granted now db_now later) (λ _. tt)
  handler-Each config (denies k db_now) u =
      Each-bind I (Overlap.deny_grant k db_now) _ (deny-Each k db_now) (λ _. tt)
  handler-Each config (revokes k) u =
      Each-bind I (Overlap.revoke_grant k) _ (revoke-Each k) (λ _. tt)
  handler-Each config replicates u = (λ db. stays db.primary, λ _. tt)

  pub turn-Each :
      (h : Handler Answer) (db : Db)
      → Each I h
      → I db.primary (Overlap.turn h db).1.primary × Each I (Overlap.turn h db).0
  turn-Each (returns r) db e = (stays db.primary, tt)
  turn-Each (performs m k) db e =
      (e.0 db, elim (Result-cases (m db).0) [ inl (r, q) ↦ rw q (e.1 r) | inr (x, q) ↦ rw q tt ])
