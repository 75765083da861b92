-- ===== src/Archiver/Lock.antt =====
-- services/audit-archiver/src/leader.rs and the part of main.rs that takes and releases the advisory lock,
-- for any number of archivers. The lock belongs to a session of PostgreSQL, and each query of an archiver
-- goes through its pool, which picks one of its sessions. PostgreSQL is modelled by its documented
-- behaviour: a session may take the lock again, gives up one taking with each release, and all when it ends.
pub mod Exclusion
mod Tests
use agent_auth.Prelude.{
  ℕ, zero, suc, ◌+◌, Bool, true, false, Option, none, some, List, [], ◌∷◌, ◌==◌, if◌then◌else◌,
  Result, ok, err,
}
use agent_auth.Registry.Db.{Fault, answers, lost_before, lost_after}

-- The session that has the lock, and how often it took it.
abbrev pub Holder : Type 0
Holder = Option (ℕ × ℕ)

-- `pg_try_advisory_lock`, asked by a session.
unfoldable pub pg_try_advisory_lock : ℕ → Holder → Bool × Holder
pg_try_advisory_lock s none = (true, some (s, 1))
pg_try_advisory_lock s (some (t, n)) =
    if s == t then (true, some (t, n + 1)) else (false, some (t, n))

-- What is left after one release.
abbrev pub released : ℕ → ℕ → Holder
released t zero = none
released t (suc zero) = none
released t (suc (suc n)) = some (t, suc n)

-- `pg_advisory_unlock`
unfoldable pub pg_advisory_unlock : ℕ → Holder → Bool × Holder
pg_advisory_unlock s none = (false, none)
pg_advisory_unlock s (some (t, n)) = if s == t then (true, released t n) else (false, some (t, n))

-- The end of a session.
unfoldable pub end_session : ℕ → Holder → Holder
end_session s none = none
end_session s (some (t, n)) = if s == t then none else some (t, n)

pub data LockError : Type 0 where
  database : LockError

pub record AdvisoryLock : Type 0 where
  pub held : Bool

-- A query and its fate.
abbrev pub query :
    {A : Type 0} → Fault → (Holder → A × Holder) → Holder → Result LockError A × Holder
query answers f h = (ok (f h).0, (f h).1)
query lost_before f h = (err database, h)
query lost_after f h = (err database, (f h).1)

abbrev pub if_acquired : Bool → Option AdvisoryLock
if_acquired true = some (record { held = true })
if_acquired false = none

abbrev pub row_to_lock : Result LockError Bool → Result LockError (Option AdvisoryLock)
row_to_lock (ok row) = ok (if_acquired row)
row_to_lock (err e) = err e

-- `AdvisoryLock::try_acquire`, on the session that the pool picks.
unfoldable pub try_acquire : ℕ → Fault → Holder → Result LockError (Option AdvisoryLock) × Holder
unfolding pg_try_advisory_lock
try_acquire s f h = let r = query f (pg_try_advisory_lock s) h in (row_to_lock r.0, r.1)

abbrev pub ignore_row : Result LockError Bool → Result LockError (Unit {0})
ignore_row (ok row) = ok tt
ignore_row (err e) = err e

-- `AdvisoryLock::release`; what the server answers is not looked at.
unfoldable pub release : AdvisoryLock → ℕ → Fault → Holder → Result LockError (Unit {0}) × Holder
unfolding pg_advisory_unlock
release lock s f h =
    if lock.held
    then (let r = query f (pg_advisory_unlock s) h in (ignore_row r.0, r.1))
    else (ok tt, h)

-- An archiver before it has asked for the lock, at work, and when it is about to exit.
pub data Phase : Type 0 where
  waiting exiting : Phase
  working : AdvisoryLock → Phase

-- The lock and the archivers.
pub record Cluster : Type 0 where
  pub holder : Holder
  pub phases : ℕ → Phase

abbrev pub after_acquire : Result LockError (Option AdvisoryLock) → Phase
after_acquire (ok (some lock)) = working lock
after_acquire (ok none) = exiting
after_acquire (err e) = exiting

-- What happens next: an archiver's next query on one of its sessions, or the end of a session.
pub data Event : Type 0 where
  ask : (session : ℕ) → Fault → Event
  close : (session : ℕ) → Event

-- `owner` is the archiver whose pool has the session.
module _ (owner : ℕ → ℕ) where
  abbrev pub set_phase : ℕ → Phase → (ℕ → Phase) → ℕ → Phase
  set_phase p x phases q = if q == p then x else phases q

  -- `main`: the lock is taken before the pipeline runs, and released after it.
  unfoldable pub proceed : Phase → ℕ → Fault → Cluster → Cluster
  unfolding try_acquire release
  proceed waiting s f c =
      let r = try_acquire s f c.holder in
      record { holder = r.1; phases = set_phase (owner s) (after_acquire r.0) c.phases }
  proceed (working lock) s f c =
      let r = release lock s f c.holder in
      record { holder = r.1; phases = set_phase (owner s) exiting c.phases }
  proceed exiting s f c = c

  unfoldable pub step : Event → Cluster → Cluster
  unfolding proceed end_session
  step (ask s f) c = proceed (c.phases (owner s)) s f c
  step (close s) c = record c { holder = end_session s c.holder }

  unfoldable pub run : List Event → Cluster → Cluster
  unfolding step
  run [] c = c
  run (e ∷ es) c = run es (step e c)

-- Nobody has asked yet.
abbrev pub start : Cluster
start = record { holder = none; phases = λ p. waiting }
