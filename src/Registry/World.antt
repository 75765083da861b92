-- ===== src/Registry/World.antt =====
-- The database and the cache together, as the token service and the verifier hold them.
use agent_auth.Registry.Db.{Db, Prog}
use agent_auth.Registry.Cache.{Redis, Connection}

pub record World (r : Redis) : Type 0 where
  pub db : Db
  pub cache : Connection r

module _ {r : Redis} where
  abbrev pub on_db {ℓ} : {A : Type ℓ} → Prog Db A → Prog (World r) A
  on_db m w = ((m w.db).0, record w { db = (m w.db).1 })

  abbrev pub on_cache {ℓ} : {A : Type ℓ} → Prog (Connection r) A → Prog (World r) A
  on_cache m w = ((m w.cache).0, record w { cache = (m w.cache).1 })
