-- ===== src/Sdk/RefreshGuard.antt =====
-- crates/sdk/src/cache.rs: the guards of refreshes. `in_progress` is the set behind the lock, which is
-- taken for the whole of each operation.
mod Tests
use agent_auth.Prelude.{
  ℕ, ◌≡◌, refl, sym, ◌≢◌, Bool, true, false, not, Option, none, some, List, [], ◌∷◌, arith, ◌==◌,
  if◌then◌else◌, any, keep, All,
}

pub record RefreshGuard : Type 0 where
  pub service_provider_id : ℕ

-- `HashSet::contains`, `insert` and `remove`.
abbrev pub set_contains : ℕ → List ℕ → Bool
set_contains p set = any (λ q. q == p) set

abbrev set_remove : ℕ → List ℕ → List ℕ
set_remove p set = keep (λ q. not (q == p)) set

unfoldable pub try_acquire : ℕ → List ℕ → Option RefreshGuard × List ℕ
try_acquire p in_progress =
    if set_contains p in_progress
    then (none, in_progress)
    else (some (record { service_provider_id = p }), p ∷ in_progress)

unfoldable pub release : RefreshGuard → List ℕ → List ℕ
release guard in_progress = set_remove guard.service_provider_id in_progress

-- What the tasks of the client do; a guard that goes out of scope without `release` leaves the set as
-- it is, since there is no `Drop`.
pub data Operation : Type 0 where
  acquires : ℕ → Operation
  releases : RefreshGuard → Operation

abbrev operate : List ℕ → Operation → List ℕ
operate set (acquires p) = (try_acquire p set).1
operate set (releases guard) = release guard set

unfoldable pub run : List ℕ → List Operation → List ℕ
run set [] = set
run set (o ∷ os) = run (operate set o) os

abbrev pub Spares : ℕ → Operation → Type 0
Spares p (acquires q) = Unit
Spares p (releases guard) = guard.service_provider_id ≢ p

set_contains-set_remove :
    (p q : ℕ) (set : List ℕ)
    → p ≢ q
    → set_contains p set ≡ true
    → set_contains p (set_remove q set) ≡ true
set_contains-set_remove p q [] ne h = h
set_contains-set_remove p q (x ∷ set) ne h = ground (arith, set_contains-set_remove p q set ne)

operate-set_contains :
    (p : ℕ) (set : List ℕ) (o : Operation)
    → Spares p o
    → set_contains p set ≡ true
    → set_contains p (operate set o) ≡ true
unfolding try_acquire release
operate-set_contains p set (acquires q) sp h = ground arith
operate-set_contains p set (releases guard) sp h =
    set_contains-set_remove p guard.service_provider_id set (λ e. sp (sym e)) h

run-set_contains :
    (p : ℕ) (set : List ℕ) (os : List Operation)
    → All (Spares p) os
    → set_contains p set ≡ true
    → set_contains p (run set os) ≡ true
unfolding run
run-set_contains p set [] sp h = h
run-set_contains p set (o ∷ os) sp h =
    run-set_contains p (operate set o) os sp.1 (operate-set_contains p set o sp.0 h)

acquired-set_contains : (p : ℕ) (set : List ℕ) → set_contains p (try_acquire p set).1 ≡ true
unfolding try_acquire
acquired-set_contains p set = ground arith

refused : (p : ℕ) (set : List ℕ) → set_contains p set ≡ true → (try_acquire p set).0 ≡ none
unfolding try_acquire
refused p set h = rw h refl

released : (p : ℕ) (set : List ℕ) → set_contains p (set_remove p set) ≡ false
released p [] = refl
released p (x ∷ set) = ground (arith, released p set)

-- The guard of a provider.
abbrev pub guard_for : ℕ → RefreshGuard
guard_for p = record { service_provider_id = p }

-- After an attempt to start a refresh for a provider, over any attempts, and releases of other
-- guards, in any order, every further attempt for it is refused; the first one after a release of its
-- guard gets a guard.
pub refused_until_released :
    (p : ℕ) (in_progress : List ℕ) (os : List Operation)
    → All (Spares p) os
    → ((try_acquire p (run (try_acquire p in_progress).1 os)).0 ≡ none)
      × ((try_acquire p (release (guard_for p) (run (try_acquire p in_progress).1 os))).0
          ≡ some (guard_for p))
unfolding release try_acquire
refused_until_released p in_progress os sp = (
  refused p _ (run-set_contains p _ os sp (acquired-set_contains p in_progress)),
  rw (released p (run (try_acquire p in_progress).1 os)) refl,
)
