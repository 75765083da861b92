-- ===== src/Registry/RateLimit/Window.antt =====
-- What is asked of the sliding window of crates/registry/src/services/cache.rs: over checks on any keys in
-- a row, each an atomic step on the server, the admissions on one key in any window of time.
pub mod Kept
pub mod Bound
use agent_auth.Prelude.{
  ℕ, ◌+◌, ◌*◌, ◌≤◌, String, ◌≢◌, Bool, false, ◌&&◌, List, [], ◌∷◌, ltb, leb, str_eq, if◌then◌else◌,
  length, keep, All, Result, ok, err,
}
use agent_auth.Registry.Error.{RegistryError}
use agent_auth.Registry.RateLimit.{Member, SortedSets, Attempt, check_rate_limit}

-- In milliseconds.
abbrev pub window : (window_secs : ℕ) → ℕ
window window_secs = window_secs * 1000

module _ (window_secs : ℕ) where
  -- Whether an instant is one of the window that ends at `x`.
  abbrev pub within : (x now : ℕ) → Bool
  within x now = leb now x && ltb x (now + window window_secs)

  -- How many instants are.
  abbrev pub tally : ℕ → List ℕ → ℕ
  tally x log = length (keep (within x) log)

  -- Whether a window that ends at `m` still counts a member.
  abbrev pub recent : ℕ → Member → Bool
  recent m x = ltb m (x.score + window window_secs)

abbrev pub granted : Result RegistryError (Bool × ℕ × ℕ) → Bool
granted (ok (allowed, count, l)) = allowed
granted (err e) = false

module _ (r : SortedSets) where
  open r use {Store}

  abbrev pub Call : Type 0
  Call = String × Attempt r

  -- From each check to the next, whichever registry makes it, its reading of the clock does not go
  -- back, nor does the server's, which advances by no more than the readings do.
  abbrev pub Steady : (server_now now : ℕ) → List Call → Type 0
  Steady t n [] = Unit {0}
  Steady t n ((k, a) ∷ cs) =
      (t ≤ a.server_now)
      × (n ≤ a.now)
      × (a.server_now + n ≤ t + a.now)
      × Steady a.server_now a.now cs

  -- Identifiers are not used twice.
  abbrev pub Fresh : (used : List ℕ) → List Call → Type 0
  Fresh used [] = Unit {0}
  Fresh used ((k, a) ∷ cs) = All (λ i. i ≢ a.req_id) used × Fresh (a.req_id ∷ used) cs

  -- The instants of the checks on a key that told their caller that it is allowed.
  abbrev pub admissions : (window_secs limit : ℕ) → String → List Call → Store → List ℕ
  admissions window_secs limit key [] s = []
  admissions window_secs limit key ((k, a) ∷ cs) s =
      let (reply, s') = check_rate_limit r k window_secs limit a s in
      let rest = admissions window_secs limit key cs s' in
      if str_eq k key && granted reply then a.now ∷ rest else rest
