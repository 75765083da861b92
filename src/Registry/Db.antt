-- ===== src/Registry/Db.antt =====
-- crates/registry/src/db/pool.rs: the database as a handler meets it, a primary that takes the
-- writes, a replica that may lag behind it, and calls that may fail. The replicas are taken to show
-- one state; the choice among them in turn, and the fallback to the primary where there is none, are
-- left out. A handler is a state-passing function over both; an error leaves in place what was
-- written before it, since the handlers open no transaction.
use agent_auth.Prelude.{
  ℕ, suc, ◌≡◌, refl, ◌⊎◌, inl, inr, Bool, Option, Result, ok, err, fail_if, ok_or,
}
use agent_auth.Registry.Error.{RegistryError, database}
use agent_auth.Registry.Tables.{Tables}

-- What becomes of a call: it is answered, or it fails before or after it took effect.
pub data Fault : Type 0 where
  answers lost_before lost_after : Fault

pub Fault-cases : (f : Fault) → (f ≡ answers) ⊎ ((f ≡ lost_before) ⊎ (f ≡ lost_after))
Fault-cases answers = inl refl
Fault-cases lost_before = inr (inl refl)
Fault-cases lost_after = inr (inr refl)

-- `fault n` is the fate of the n-th call from here on.
pub record Db : Type 0 where
  pub primary : Tables
  pub replica : Tables
  pub fault : ℕ → Fault

-- A program over a state that may fail; `?` of the source is its bind.
abbrev pub Prog {ℓ κ} : Type κ → Type ℓ → Type (ℓ ⊔ κ)
Prog S A = S → Result RegistryError A × S

abbrev pub continue {ℓ κ μ} :
    {S : Type μ} {A : Type ℓ} {B : Type κ}
    → Result RegistryError A
    → S
    → (A → Prog S B)
    → Result RegistryError B × S
continue (ok a) s f = f a s
continue (err e) s f = (err e, s)

infixl 5 ◌>>=◌ ◌>>◌
abbrev pub ◌>>=◌ {ℓ κ μ} :
    {S : Type μ} {A : Type ℓ} {B : Type κ} → Prog S A → (A → Prog S B) → Prog S B
◌>>=◌ m f s = continue (m s).0 (m s).1 f

abbrev pub ◌>>◌ {ℓ μ} : {S : Type μ} {B : Type ℓ} → Prog S (Unit {0}) → Prog S B → Prog S B
m >> k = m >>= λ _. k

abbrev pub pure {ℓ μ} : {S : Type μ} {A : Type ℓ} → A → Prog S A
pure a s = (ok a, s)

abbrev pub throw {ℓ μ} : {S : Type μ} {A : Type ℓ} → RegistryError → Prog S A
throw e s = (err e, s)

abbrev pub lift {ℓ μ} : {S : Type μ} {A : Type ℓ} → Result RegistryError A → Prog S A
lift r s = (r, s)

abbrev pub throw_if {μ} : {S : Type μ} → Bool → RegistryError → Prog S (Unit {0})
throw_if b e s = (fail_if b e, s)

-- `.ok_or_else(…)?`
abbrev pub or_throw {ℓ μ} : {S : Type μ} {A : Type ℓ} → Option A → RegistryError → Prog S A
or_throw o e s = (ok_or o e, s)

abbrev pub M {ℓ} : Type ℓ → Type ℓ
M A = Prog Db A

abbrev pub next : Db → Db
next db = record db { fault = λ n. db.fault (suc n) }

abbrev pub answer {ℓ} : {A : Type ℓ} → Fault → A → Result RegistryError A
answer answers a = ok a
answer lost_before a = err database
answer lost_after a = err database

-- A query on one of the two pools.
abbrev pub read_primary {ℓ} : {A : Type ℓ} → (Tables → A) → M A
read_primary f db = (answer (db.fault 0) (f db.primary), next db)

abbrev pub read_replica {ℓ} : {A : Type ℓ} → (Tables → A) → M A
read_replica f db = (answer (db.fault 0) (f db.replica), next db)

abbrev pub written : Fault → Tables → Tables → Tables
written answers old new = new
written lost_before old new = old
written lost_after old new = new

-- A statement that writes, always on the primary.
abbrev pub write_primary {ℓ} : {A : Type ℓ} → (Tables → A × Tables) → M A
write_primary f db = (
  answer (db.fault 0) (f db.primary).0,
  record (next db) { primary = written (db.fault 0) db.primary (f db.primary).1 },
)
