-- ===== src/Sdk/RefreshGuard/Tests.antt =====
-- Guards at concrete inputs.
use agent_auth.Prelude.{◌≡◌, refl, none, some, List, [], ◌∷◌}
use agent_auth.Sdk.RefreshGuard.{
  Operation, acquires, releases, guard_for, try_acquire, release, run,
}

-- Another provider is refreshed meanwhile.
abbrev others : List Operation
others = acquires 2 ∷ releases (guard_for 2) ∷ acquires 1 ∷ []

still_refused : (try_acquire 1 (run (try_acquire 1 []).1 others)).0 ≡ none
unfolding try_acquire run release
still_refused = refl

acquired_again :
    (try_acquire 1 (release (guard_for 1) (run (try_acquire 1 []).1 others))).0 ≡ some (guard_for 1)
unfolding try_acquire run release
acquired_again = refl
