-- ===== src/Archiver/Lock/Tests.antt =====
-- Two archivers, each with two sessions, at concrete inputs.
use agent_auth.Prelude.{ℕ, ◌/◌, ◌≡◌, refl, true, List, [], ◌∷◌, arith}
use agent_auth.Registry.Db.{answers}
use agent_auth.Archiver.Lock.{working, exiting, Event, ask, close, run, start}
use agent_auth.Archiver.Lock.Exclusion.{archivers_exclusive}

-- Sessions 0 and 1 are of the first, 2 and 3 of the second.
abbrev owner : ℕ → ℕ
owner s = s / 2

-- The first takes the lock and the second does not get it.
abbrev both_ask : List Event
both_ask = ask 0 answers ∷ ask 2 answers ∷ []

both_ask-run :
    ((run owner both_ask start).phases 0 ≡ working (record { held = true }))
    × ((run owner both_ask start).phases 1 ≡ exiting)
unfolding run
both_ask-run = (refl, refl)

archivers_exclusive_example : ◌≡◌ {A = ℕ} 0 0
archivers_exclusive_example =
    archivers_exclusive owner both_ask 0 0 (record { held = true }) (record { held = true })
      (omega arith) both_ask-run.0 both_ask-run.0

-- Where the session that has the lock ends, both are at work.
both_work :
    ((run owner (ask 0 answers ∷ close 0 ∷ ask 2 answers ∷ []) start).phases 0
      ≡ working (record { held = true }))
    × ((run owner (ask 0 answers ∷ close 0 ∷ ask 2 answers ∷ []) start).phases 1
        ≡ working (record { held = true }))
unfolding run
both_work = (refl, refl)
