-- ===== src/Verifier/Health.antt =====
-- The health state of services/verifier/src/state.rs, the probes of services/verifier/src/handlers.rs,
-- and the marks that services/verifier/src/main.rs makes.
use agent_auth.Prelude.{
  ℕ, ◌≡◌, refl, ◌⊎◌, inl, inr, Bool, true, false, ◌&&◌, List, [], ◌∷◌, arith, if◌then◌else◌, All,
  is_ok,
}
use agent_auth.Registry.Cache.{Redis, Connection, health_check}

pub record HealthState : Type 0 where
  pub ready : Bool
  pub started : Bool
  pub cache_ready : Bool

unfoldable pub new : HealthState
new = record { ready = false; started = false; cache_ready = false }

unfoldable pub mark_cache_not_ready : HealthState → HealthState
mark_cache_not_ready h = record h { cache_ready = false; ready = false }

-- 200 or 503.
unfoldable pub startup : HealthState → ℕ
startup h = if h.started then 200 else 503

module _ (r : Redis) where
  abbrev warmed : Bool → HealthState → HealthState
  warmed true h = record h { cache_ready = true }
  warmed false h = h

  -- The start of the process: a check of Redis, and the marks.
  unfoldable pub start_up : Connection r → HealthState → Connection r × HealthState
  start_up c h =
      let p = health_check r c in
      let s = record (warmed (is_ok p.0) h) { started = true } in
      (p.1, if s.cache_ready then record s { ready = true } else s)

  answer : Bool → HealthState → ℕ × HealthState
  unfolding mark_cache_not_ready
  answer true h = (200, h)
  answer false h = (503, mark_cache_not_ready h)

  unfoldable pub readiness : Connection r → HealthState → ℕ × HealthState
  unfolding answer
  readiness c h =
      if h.ready && h.cache_ready then answer (is_ok (health_check r c).0) h else (503, h)

  -- Probes one after another, whatever Redis is like at each of them.
  unfoldable pub probes : List (Connection r) → HealthState → List ℕ
  unfolding readiness
  probes [] h = []
  probes (c ∷ cs) h = let p = readiness c h in p.0 ∷ probes cs p.1

  abbrev marked : HealthState → Bool
  marked h = h.ready && h.cache_ready

  readiness-marked :
      (c : Connection r) (h : HealthState)
      → (((readiness c h).0 ≡ 200) × (marked (readiness c h).1 ≡ true))
        ⊎ (((readiness c h).0 ≡ 503) × (marked (readiness c h).1 ≡ false))
  unfolding readiness answer mark_cache_not_ready
  readiness-marked c h = ground arith

  unmarked-probes :
      (cs : List (Connection r)) (h : HealthState)
      → marked h ≡ false
      → All (λ code. code ≡ 503) (probes cs h)
  unfolding probes readiness
  unmarked-probes [] h e = tt
  unmarked-probes (c ∷ cs) h e = rw e (refl, unmarked-probes cs h e)

  -- Once a readiness probe of the verifier has answered 503, every later one does, however well Redis
  -- is by then.
  pub probe_failed_forever :
      (c : Connection r) (cs : List (Connection r)) (h : HealthState)
      → (readiness c h).0 ≡ 503
      → All (λ code. code ≡ 503) (probes cs (readiness c h).1)
  probe_failed_forever c cs h e = elim (readiness-marked c h) [
    | inl (code, _) ↦ absurd (ground arith)
    | inr (_, unmarked) ↦ unmarked-probes cs (readiness c h).1 unmarked
  ]
