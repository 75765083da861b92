-- ===== src/Registry/RateLimit/Tests.antt =====
-- The sliding window on a concrete server, at concrete inputs.
use agent_auth.Prelude.{
  ℕ, ◌+◌, ◌≤◌, String, ◌≡◌, refl, ◌≢◌, Bool, not, List, [], ◌∷◌, arith, eq_iff, eq_refl, ltb, leb,
  ◌==◌, str_eq, if◌then◌else◌, lt→ltb, le→leb, length, keep, All, All-keep,
}
use agent_auth.Registry.Db.{answers}
use agent_auth.Registry.RateLimit.{Member, SortedSets, Attempt, sliding_window, check_rate_limit}
use agent_auth.Registry.RateLimit.Window.{Call, within, admissions}
use agent_auth.Registry.RateLimit.Window.Bound.{window_limit}

-- The sets, each as it is at an instant.
abbrev Sets : Type 0
Sets = ℕ → String → List Member

abbrev others : Member → Member → Bool
others m x = not (x.req_id == m.req_id)

keep-others :
    (m : Member) (xs : List Member) → All (λ x. x.req_id ≢ m.req_id) xs → keep (others m) xs ≡ xs
keep-others m [] h = refl
keep-others m (x ∷ xs) h = ground (arith, keep-others m xs h.1)

abbrev server : SortedSets
server = record {
  Store = Sets;
  members = λ u k s. s u k;
  zremrangebyscore =
      λ t j highest s u k. if str_eq j k then keep (λ m. ltb highest m.score) (s u k) else s u k;
  zcard = λ t k s. length (s t k);
  zadd = λ t j m s u k. if str_eq j k then m ∷ keep (others m) (s u k) else s u k;
  pexpire = λ t j ttl s u k.
      if str_eq j k
      then (if ltb u (t + ttl) then (if leb t u then s t k else s u k) else [])
      else s u k;
  members-zremrangebyscore = λ u t k highest s. rw (eq_refl k);
  zcard_lem = λ t k s. refl;
  members-zadd = λ t k m s new p. rw (eq_refl k) (rw (keep-others m (s t k) new) refl);
  All-zadd = λ t k m s P h. rw (eq_refl k) (h.0, All-keep P (others m) (s t k) h.1);
  members-pexpire = λ u t k ttl s le lt. rw (eq_refl k) (rw (lt→ltb _ _ lt, le→leb _ _ le) refl);
  members-pexpire_over = λ u t k ttl s over. ground (arith, eq_refl k);
  members-zremrangebyscore_ne = λ u t k j highest s ne. ground (arith, eq_iff j k);
  members-zadd_ne = λ u t k j m s ne. ground (arith, eq_iff j k);
  members-pexpire_ne = λ u t k j ttl s ne. ground (arith, eq_iff j k);
}

abbrev empty : Sets
empty u k = []

abbrev at : ℕ → ℕ → String × Attempt server
at now i = ("agent", record { server_now = now; now = now; req_id = i; fate = answers })

-- Two checks in a second are allowed, the third is not; a second after the first one is again.
abbrev checks : List (Call server)
checks = at 5000 1 ∷ at 5400 2 ∷ at 5900 3 ∷ at 6000 4 ∷ []

admissions_run : admissions server 1 2 "agent" checks empty ≡ 5000 ∷ 5400 ∷ 6000 ∷ []
unfolding check_rate_limit sliding_window
admissions_run = refl

-- Two registries whose clocks differ, each with a clock that does not go back: the check that one brings
-- at 10001 makes the server forget those of the other, which is allowed three in one second.
abbrev skewed : List (Call server)
skewed = at 9000 1 ∷ at 9001 2 ∷ at 10001 3 ∷ at 9500 4 ∷ []

skewed_run : admissions server 1 2 "agent" skewed empty ≡ 9000 ∷ 9001 ∷ 10001 ∷ 9500 ∷ []
unfolding check_rate_limit sliding_window
skewed_run = refl

window_limit_example :
    length (keep (within 1 6000) (admissions server 1 2 "agent" checks empty)) ≤ 2
window_limit_example =
    window_limit server 1 2 "agent" checks empty 4000 4000 (λ u. refl) (omega arith) (omega arith)
      6000
