-- ===== src/Registry/InFlight.antt =====
-- crates/registry/src/middleware.rs: the limit on the requests in flight, with the two atomic
-- operations of an attempt as two steps, which those of other requests may come between.
use agent_auth.Prelude.{
  ℕ, zero, suc, ◌+◌, ◌-◌, ◌%◌, ◌≤◌, ◌<◌, ◌≡◌, refl, sym, List, [], ◌∷◌, arith, ltb, leb,
  if◌then◌else◌, length,
}

-- What a request is at: before its attempt or after its guard is dropped, between the two operations
-- of its attempt with the value that the first one read, or holding a guard.
pub data Phase : Type 0 where
  idle holding : Phase
  added : ℕ → Phase

abbrev pub usize : ℕ
usize = 18446744073709551616

-- `fetch_add(1)` and `fetch_sub(1)` wrap around.
abbrev pub fetch_add : ℕ → ℕ
fetch_add current = (current + 1) % usize

abbrev pub fetch_sub : ℕ → ℕ
fetch_sub current = (current + (usize - 1)) % usize

-- The limiter's counter and the requests.
pub record InFlightLimiter : Type 0 where
  pub current : ℕ
  pub requests : List Phase

-- `InFlightLimiter::new`, with a number of requests to come.
abbrev idles : ℕ → List Phase
idles zero = []
idles (suc n) = idle ∷ idles n

unfoldable pub new : ℕ → InFlightLimiter
new n = record { current = 0; requests = idles n }

module _ (max_requests : ℕ) where
  -- The next operation of a request: the two of `try_acquire`, and the drop of the guard.
  unfoldable pub next_operation : ℕ → Phase → ℕ × Phase
  next_operation current idle = (fetch_add current, added current)
  next_operation current (added before) =
      if leb max_requests before then (fetch_sub current, idle) else (current, holding)
  next_operation current holding = (fetch_sub current, idle)

  unfoldable pub operate : ℕ → ℕ → List Phase → ℕ × List Phase
  unfolding next_operation
  operate i current [] = (current, [])
  operate zero current (p ∷ ps) = let r = next_operation current p in (r.0, r.1 ∷ ps)
  operate (suc i) current (p ∷ ps) = let r = operate i current ps in (r.0, p ∷ r.1)

  -- The operations in the order in which the requests take their turns.
  unfoldable pub run : List ℕ → InFlightLimiter → InFlightLimiter
  unfolding operate
  run [] s = s
  run (i ∷ is) s =
      let r = operate i s.current s.requests in run is (record { current = r.0; requests = r.1 })

  abbrev busy_one : Phase → ℕ
  busy_one idle = 0
  busy_one holding = 1
  busy_one (added before) = 1

  -- The requests whose increment stands.
  abbrev pub busy : List Phase → ℕ
  busy [] = 0
  busy (p ∷ ps) = busy_one p + busy ps

  abbrev admitted_one : Phase → ℕ
  admitted_one idle = 0
  admitted_one holding = 1
  admitted_one (added before) = if ltb before max_requests then 1 else 0

  -- The requests that hold a guard or are about to.
  abbrev pub admitted : List Phase → ℕ
  admitted [] = 0
  admitted (p ∷ ps) = admitted_one p + admitted ps

  admitted_one-le : (p : Phase) → admitted_one p ≤ busy_one p
  admitted_one-le idle = omega arith
  admitted_one-le holding = omega arith
  admitted_one-le (added before) = ground arith

  admitted-le : (ps : List Phase) → admitted ps ≤ busy ps
  admitted-le [] = omega arith
  admitted-le (p ∷ ps) = omega (arith, admitted_one-le p, admitted-le ps)

  busy_one-le : (p : Phase) → busy_one p ≤ 1
  busy_one-le p = ground arith

  busy-le : (ps : List Phase) → busy ps ≤ length ps
  busy-le [] = omega arith
  busy-le (p ∷ ps) = omega (arith, busy_one-le p, busy-le ps)

  -- One operation, where `b` other requests are busy and at most `a` are admitted besides.
  next-Inv :
      (current b a : ℕ) (p : Phase)
      → current ≡ busy_one p + b
      → a ≤ b
      → b + 1 < usize
      → admitted_one p + a ≤ max_requests
      → ((next_operation current p).0 ≡ busy_one (next_operation current p).1 + b)
        × (admitted_one (next_operation current p).1 + a ≤ max_requests)
  unfolding next_operation
  next-Inv current b a idle e le lt h = ground arith
  next-Inv current b a holding e le lt h = ground arith
  next-Inv current b a (added before) e le lt h = ground arith

  operate-Inv :
      (i current b a : ℕ) (ps : List Phase)
      → current ≡ b + busy ps
      → a ≤ b
      → b + length ps < usize
      → a + admitted ps ≤ max_requests
      → ((operate i current ps).0 ≡ b + busy (operate i current ps).1)
        × (a + admitted (operate i current ps).1 ≤ max_requests)
        × (length (operate i current ps).1 ≡ length ps)
  unfolding operate
  operate-Inv i current b a [] e le lt h = (e, h, refl)
  operate-Inv zero current b a (p ∷ ps) e le lt h =
      let r : ((next_operation current p).0 ≡ busy_one (next_operation current p).1 + (b + busy ps))
          × (admitted_one (next_operation current p).1 + (a + admitted ps) ≤ max_requests) =
        next-Inv current (b + busy ps) (a + admitted ps) p (omega arith)
          (omega (arith, admitted-le ps)) (omega (arith, busy-le ps)) (omega arith) in
      (omega (arith, r.0), omega (arith, r.1), refl)
  operate-Inv (suc i) current b a (p ∷ ps) e le lt h =
      let r =
        operate-Inv i current (busy_one p + b) (admitted_one p + a) ps (omega arith)
          (omega (arith, admitted_one-le p)) (omega (arith, busy_one-le p)) (omega arith) in
      (omega (arith, r.0), omega (arith, r.1), omega (arith, r.2))

  -- The counter counts the requests whose increment stands, and no more are admitted than allowed.
  pub record Inv (s : InFlightLimiter) : Type 0 where
    pub counted : s.current ≡ busy s.requests
    pub few : length s.requests < usize
    pub allowed : admitted s.requests ≤ max_requests

  run-Inv : (is : List ℕ) (s : InFlightLimiter) → Inv s → Inv (run is s)
  unfolding run
  run-Inv [] s v = v
  run-Inv (i ∷ is) s v =
      let r =
        operate-Inv i s.current 0 0 s.requests (omega (arith, v.counted)) (omega arith)
          (omega (arith, v.few)) (omega (arith, v.allowed)) in
      run-Inv is _ (record {
        counted = omega (arith, r.0);
        few = omega (arith, r.2, v.few);
        allowed = omega (arith, r.1);
      })

  -- The requests that hold a guard.
  abbrev pub held : List Phase → ℕ
  held [] = 0
  held (idle ∷ ps) = held ps
  held (holding ∷ ps) = suc (held ps)
  held (added before ∷ ps) = held ps

  held-le : (ps : List Phase) → held ps ≤ admitted ps
  held-le [] = omega arith
  held-le (idle ∷ ps) = omega (arith, held-le ps)
  held-le (holding ∷ ps) = omega (arith, held-le ps)
  held-le (added before ∷ ps) = ground (arith, held-le ps)

  idles-Inv : (n : ℕ) → n < usize → Inv (new n)
  unfolding new
  idles-Inv n lt = record {
    counted = sym (counts n).0;
    few = omega (arith, (counts n).1);
    allowed = omega (arith, admitted-le (idles n), (counts n).0);
  }
    where
      counts : (n : ℕ) → (busy (idles n) ≡ 0) × (length (idles n) ≡ n)
      counts zero = (refl, refl)
      counts (suc n) = (omega (arith, (counts n).0), omega (arith, (counts n).1))

  -- In whatever order the operations of fewer than 2^64 requests take effect, no more of them hold a
  -- guard at one time than the limit, and the counter is the number of those whose increment stands.
  pub run-held :
      (n : ℕ) (is : List ℕ)
      → n < usize
      → (held (run is (new n)).requests ≤ max_requests)
        × ((run is (new n)).current ≡ busy (run is (new n)).requests)
  run-held n is lt =
      let v = run-Inv is (new n) (idles-Inv n lt) in
      (omega (arith, held-le (run is (new n)).requests, v.allowed), v.counted)
