-- ===== src/Registry/RateLimit.antt =====
-- crates/registry/src/services/cache.rs: the sliding window of rate limits, a script that Redis runs as
-- one step on a sorted set. Redis enters as an interface, with the documented behaviour of the commands
-- of the script. Times are milliseconds, `window_secs * 1000` and the limit are taken to be below
-- 2^53, where the casts of the code and the numbers of the script are exact.
pub mod Window
mod Tests
use agent_auth.Prelude.{
  ℕ, ◌+◌, ◌-◌, ◌*◌, ◌≤◌, ◌<◌, String, ◌≡◌, ◌≢◌, Bool, true, false, List, [], ◌∷◌, ltb,
  if◌then◌else◌, length, keep, All, Result, ok, err,
}
use agent_auth.Registry.Error.{RegistryError, cache}
use agent_auth.Registry.Db.{Fault, answers, lost_before, lost_after}

-- An entry of a sorted set; its name is the identifier of a request.
pub record Member : Type 0 where
  pub req_id : ℕ
  pub score : ℕ

pub record SortedSets : Type 1 where
  -- What the server holds, and the set of a key at an instant of the server's clock.
  pub Store : Type 0
  pub members : ℕ → String → Store → List Member
  -- ZREMRANGEBYSCORE from 0, ZCARD, ZADD and PEXPIRE at an instant.
  pub zremrangebyscore : (t : ℕ) → String → (highest : ℕ) → Store → Store
  pub zcard : (t : ℕ) → String → Store → ℕ
  pub zadd : (t : ℕ) → String → Member → Store → Store
  pub pexpire : (t : ℕ) → String → (ttl : ℕ) → Store → Store
  -- The entries up to a score go, ZCARD counts what is there.
  pub members-zremrangebyscore :
      (u t : ℕ) (k : String) (highest : ℕ) (s : Store)
      → members u k (zremrangebyscore t k highest s)
        ≡ keep (λ m. ltb highest m.score) (members u k s)
  pub zcard_lem : (t : ℕ) (k : String) (s : Store) → zcard t k s ≡ length (members t k s)
  -- A new name is one more entry, wherever it stands in the order.
  pub members-zadd :
      (t : ℕ) (k : String) (m : Member) (s : Store)
      → All (λ x. x.req_id ≢ m.req_id) (members t k s)
      → (p : Member → Bool)
      → length (keep p (members t k (zadd t k m s))) ≡ length (keep p (m ∷ members t k s))
  pub All-zadd :
      (t : ℕ) (k : String) (m : Member) (s : Store) (P : Member → Type 0)
      → All P (m ∷ members t k s)
      → All P (members t k (zadd t k m s))
  -- A key keeps its set until its time is over, and no command adds to the set that comes after.
  pub members-pexpire :
      (u t : ℕ) (k : String) (ttl : ℕ) (s : Store)
      → t ≤ u
      → u < t + ttl
      → members u k (pexpire t k ttl s) ≡ members t k s
  pub members-pexpire_over :
      (u t : ℕ) (k : String) (ttl : ℕ) (s : Store)
      → t + ttl ≤ u
      → members u k (pexpire t k ttl s) ≡ []
  -- No command on one key touches another.
  pub members-zremrangebyscore_ne :
      (u t : ℕ) (k j : String) (highest : ℕ) (s : Store)
      → k ≢ j
      → members u k (zremrangebyscore t j highest s) ≡ members u k s
  pub members-zadd_ne :
      (u t : ℕ) (k j : String) (m : Member) (s : Store)
      → k ≢ j
      → members u k (zadd t j m s) ≡ members u k s
  pub members-pexpire_ne :
      (u t : ℕ) (k j : String) (ttl : ℕ) (s : Store)
      → k ≢ j
      → members u k (pexpire t j ttl s) ≡ members u k s

module _ (r : SortedSets) where
  open r use {Store, zremrangebyscore, zcard, zadd, pexpire}

  -- The first command. Below score 0 there is nothing.
  unfoldable pub forget : (t : ℕ) → String → (window now : ℕ) → Store → Store
  forget t key window now s = if ltb now window then s else zremrangebyscore t key (now - window) s

  unfoldable pub admit : (t : ℕ) → String → (window now req_id : ℕ) → Store → Store
  admit t key window now req_id s =
      pexpire t key window (zadd t key (record { req_id = req_id; score = now }) s)

  -- The script: whether the request is allowed, the count, the limit, and what the server holds then.
  unfoldable pub sliding_window :
      (t : ℕ) → String → (window limit now req_id : ℕ) → Store → (Bool × ℕ × ℕ) × Store
  unfolding forget admit
  sliding_window t key window limit now req_id s =
      let kept = forget t key window now s in
      if ltb (zcard t key kept) limit
      then ((true, zcard t key kept + 1, limit), admit t key window now req_id kept)
      else ((false, zcard t key kept, limit), kept)

  -- What a check meets: the server's clock, the registry's, a fresh identifier and the fate of the call.
  pub record Attempt : Type 0 where
    pub server_now : ℕ
    pub now : ℕ
    pub req_id : ℕ
    pub fate : Fault

  abbrev pub settle :
      Fault → (Bool × ℕ × ℕ) × Store → Store → Result RegistryError (Bool × ℕ × ℕ) × Store
  settle answers (reply, s') s = (ok reply, s')
  settle lost_before (reply, s') s = (err (cache "rate limit check failed"), s)
  settle lost_after (reply, s') s = (err (cache "rate limit check failed"), s')

  -- The key is the prefix of rate limits with the suffix that the caller names.
  unfoldable pub check_rate_limit :
      (key : String)
      → (window_secs limit : ℕ) → Attempt
      → Store
      → Result RegistryError (Bool × ℕ × ℕ) × Store
  check_rate_limit key window_secs limit a s =
      settle a.fate (sliding_window a.server_now key (window_secs * 1000) limit a.now a.req_id s) s
