-- ===== src/Registry/Health.antt =====
-- crates/registry/src/handlers/health.rs and the health state of crates/registry/src/state.rs: the
-- probes of the registry.
use agent_auth.Prelude.{
  ℕ, String, ◌≡◌, ◌≢◌, ◌⊎◌, inl, inr, Bool, true, false, Option, none, some, List, [], ◌∷◌, arith,
  if◌then◌else◌, All, is_ok,
}
use agent_auth.Registry.Db.{M, read_primary}
use agent_auth.Registry.Cache.{Redis, health_check}
use agent_auth.Registry.World.{World, on_db, on_cache}

-- An instant stands for the reading of the clock.
pub record HealthState : Type 0 where
  pub ready : Bool
  pub started : Bool
  pub last_db_check : Option ℕ
  pub last_cache_check : Option ℕ

unfoldable pub new : HealthState
new = record { ready = false; started = false; last_db_check = none; last_cache_check = none }

-- The marks that the start of the process makes.
unfoldable pub start_up : HealthState → HealthState
start_up h = record h { started = true; ready = true }

pub record HealthResponse : Type 0 where
  pub status_code : ℕ
  pub status : String

-- SELECT 1
abbrev check_primary_health : M (Unit {0})
check_primary_health = read_primary (λ t. tt)

module _ (r : Redis) where
  -- The checks, each with its answer: the first that fails takes the mark away.
  cache_checked : (at : ℕ) → Bool → World r → HealthState → HealthResponse × World r × HealthState
  cache_checked at true w h =
      (record { status_code = 200; status = "healthy" }, w, record h { last_cache_check = some at })
  cache_checked at false w h =
      (record { status_code = 503; status = "unhealthy" }, w, record h { ready = false })

  db_checked : (at : ℕ) → Bool → World r → HealthState → HealthResponse × World r × HealthState
  unfolding cache_checked
  db_checked at true w h =
      let c = on_cache (health_check r) w in
      cache_checked at (is_ok c.0) c.1 (record h { last_db_check = some at })
  db_checked at false w h =
      (record { status_code = 503; status = "unhealthy" }, w, record h { ready = false })

  unfoldable pub readiness :
      (at : ℕ) → World r → HealthState → HealthResponse × World r × HealthState
  unfolding db_checked
  readiness at w h =
      let d = on_db check_primary_health w in
      if h.ready
      then db_checked at (is_ok d.0) d.1 h
      else (record { status_code = 503; status = "not_ready" }, w, h)

  -- Probes one after another, and the codes that they answer with. Between two of them the
  -- dependencies may have changed in any way.
  unfoldable pub probes : List (ℕ × World r) → HealthState → List ℕ
  unfolding readiness
  probes [] h = []
  probes ((at, w) ∷ ps) h = let p = readiness at w h in p.0.status_code ∷ probes ps p.2

  -- A probe takes the mark away or answers 200, and it never sets the mark.
  readiness-ready :
      (at : ℕ) (w : World r) (h : HealthState)
      → (((readiness at w h).0.status_code ≡ 200) × ((readiness at w h).2.ready ≡ true))
        ⊎ (((readiness at w h).0.status_code ≡ 503) × ((readiness at w h).2.ready ≡ false))
  unfolding readiness db_checked cache_checked
  readiness-ready at w h = ground arith

  unready-readiness :
      (at : ℕ) (w : World r) (h : HealthState)
      → h.ready ≡ false
      → ((readiness at w h).0.status_code ≡ 503) × ((readiness at w h).2.ready ≡ false)
  unfolding readiness
  unready-readiness at w h e = ground arith

  unready-probes :
      (ps : List (ℕ × World r)) (h : HealthState)
      → h.ready ≡ false
      → All (λ code. code ≡ 503) (probes ps h)
  unfolding probes
  unready-probes [] h e = tt
  unready-probes ((at, w) ∷ ps) h e =
      let (code, unready) = unready-readiness at w h e in
      (code, unready-probes ps (readiness at w h).2 unready)

  -- Once a readiness probe has not answered 200, none does any more, however well the database and
  -- the cache are by then.
  pub unready_forever :
      (at : ℕ) (w : World r) (ps : List (ℕ × World r)) (h : HealthState)
      → (readiness at w h).0.status_code ≢ 200
      → All (λ code. code ≡ 503) (probes ps (readiness at w h).2)
  unready_forever at w ps h n = elim (readiness-ready at w h) [
    | inl (code, _) ↦ absurd (n code)
    | inr (_, unready) ↦ unready-probes ps (readiness at w h).2 unready
  ]
