-- ===== src/Registry/Grants/Overlap/Limit.antt =====
-- The limit on the pending grants of an agent, where the statements of the calls come in any order.
use agent_auth.Prelude.{
  ℕ, zero, suc, ◌+◌, ◌-◌, ◌≤◌, max, ◌≡◌, refl, sym, subst, inl, inr, false, List, [], ◌∷◌, arith,
  leb, ◌==◌, if◌then◌else◌, ==_iff, Bool-cases, Option-cases, Result, ok, err, Result-cases,
}
use native.Mathlib.Nat.{le_trans, le_refl}
use agent_auth.Core.Capability.{Capability}
use agent_auth.Core.Envelope.{BehavioralEnvelope}
use agent_auth.Core.Token.{CapabilityGrant, pending, approved}
use agent_auth.Registry.Error.{RegistryError}
use agent_auth.Registry.Tables
use agent_auth.Registry.Tables.{Tables, count_pending_grants}
use agent_auth.Registry.Db as Db
use agent_auth.Registry.Db.{Db}
use agent_auth.Registry.Grants.{
  GrantConfig, Call, row_to_grant, requests, approves, denies, revokes, replicates,
}
use agent_auth.Registry.Grants.Limits.{count-update-le, count-append}
use agent_auth.Registry.Grants.Overlap as Overlap
use agent_auth.Registry.Grants.Overlap.{
  Handler, returns, performs, Answer, grant, handler, turn, take_turn, interleave, start,
}
use agent_auth.Registry.Grants.Overlap.Statements.{
  Each, Keeps, Insertion, InsertKept, written-kept, handler-Each,
}

-- How many calls ask for a grant of an agent.
abbrev asks_for : ℕ → Call → ℕ
asks_for agent (requests agent_id _ _ _ _ _ _) = if agent_id == agent then 1 else 0
asks_for agent _ = 0

abbrev pub requests_of : ℕ → List Call → ℕ
requests_of agent [] = 0
requests_of agent (c ∷ cs) = asks_for agent c + requests_of agent cs

module _ (agent : ℕ) where
  abbrev NoMore : Tables → Tables → Type 0
  NoMore t t' = count_pending_grants agent t' ≤ count_pending_grants agent t

  NoMore-Keeps : Keeps NoMore
  unfolding Tables.approve_grant Tables.deny_grant Tables.revoke_grant count_pending_grants
  NoMore-Keeps = record {
    same = λ t. le_refl _;
    approval_kept = λ k by nonce signature caps db_now t.
        count-update-le _ k agent pending t.grants (λ g. refl);
    denial_kept = λ k db_now t. count-update-le _ k agent pending t.grants (λ g. refl);
    revocation_kept = λ k t. count-update-le _ k agent approved t.grants (λ g. refl);
  }

  insert-le :
      (agent_id grant_id sp : ℕ) (caps : List Capability) (envelope : BehavioralEnvelope)
      (expires_at now : ℕ) (t : Tables)
      → count_pending_grants agent
          (Tables.insert_grant grant_id agent_id sp caps envelope expires_at now t).1
        ≤ count_pending_grants agent t + (if agent_id == agent then 1 else 0)
  unfolding Tables.insert_grant count_pending_grants
  insert-le agent_id grant_id sp caps envelope expires_at now t =
      rw (count-append agent t.grants) (ground arith)

  -- At most so many grants are still to be inserted for the agent.
  abbrev Left : ℕ → Handler Answer → Type 0
  Left w (returns r) = Unit
  Left w (performs {R} m k) =
      (w' : ℕ) × (w' ≤ w)
      × ((db : Db)
          → count_pending_grants agent (m db).1.primary + w'
            ≤ count_pending_grants agent db.primary + w)
      × ((r : R) → Left w' (k r))

  Each-Left : (h : Handler Answer) → Each NoMore h → Left 0 h
  Each-Left (returns r) e = tt
  Each-Left (performs m k) e =
      (0, le_refl 0, λ db. omega (arith, e.0 db), λ r. Each-Left (k r) (e.1 r))

  turn-Left :
      (w : ℕ) (h : Handler Answer) (db : Db)
      → Left w h
      → (w' : ℕ) × (w' ≤ w)
        × (count_pending_grants agent (turn h db).1.primary + w'
            ≤ count_pending_grants agent db.primary + w)
        × Left w' (turn h db).0
  turn-Left w (returns r) db l = (w, le_refl w, le_refl _, tt)
  turn-Left w (performs m k) db (w', le, bound, next) = (
    w',
    le,
    bound db,
    elim (Result-cases (m db).0) [ inl (r, q) ↦ rw q (next r) | inr (x, q) ↦ rw q tt ],
  )

  -- The next statement counts, and one grant may follow if the count is below the limit.
  abbrev Counts : ℕ → Handler Answer → Type 0
  Counts limit (returns r) = ⊥
  Counts limit (performs {R} m k) =
      ((db : Db) → NoMore db.primary (m db).1.primary)
      × ((db : Db) (r : R)
          → (m db).0 ≡ ok r
          → (w : ℕ) × (w ≤ 1)
            × (count_pending_grants agent db.primary + w
                ≤ max (count_pending_grants agent db.primary) limit)
            × Left w (k r))

  turn-Counts :
      (limit : ℕ) (h : Handler Answer) (db : Db)
      → Counts limit h
      → (w : ℕ) × (w ≤ 1)
        × (count_pending_grants agent (turn h db).1.primary + w
            ≤ max (count_pending_grants agent db.primary) limit)
        × Left w (turn h db).0
  turn-Counts limit (returns r) db x = elim x [ ]
  turn-Counts limit (performs m k) db (same, c) = elim (Result-cases (m db).0) [
    | inl (r, q) ↦
        let (w, one, bound, next) = c db r q in (w, one, ground (arith, same db, bound), rw q next)
    | inr (x, q) ↦ (0, omega arith, ground (arith, same db), rw q tt)
  ]

  answer-ok : {a r : ℕ} (f : Db.Fault) → Db.answer f a ≡ ok r → r ≡ a
  answer-ok f e = ground arith

  -- What the calls may still insert: so many grants by those that have counted, of as many calls.
  data Stages (limit : ℕ) : List (Handler Answer) → ℕ → ℕ → Type 1 where
    ended : Stages limit [] 0 0
    counts :
        {h : Handler Answer} {hs : List (Handler Answer)} {w n : ℕ}
        → Counts limit h
        → Stages limit hs w n
        → Stages limit (h ∷ hs) w (1 + n)
    left :
        {h : Handler Answer} {hs : List (Handler Answer)} {w n v c : ℕ}
        → v ≤ c
        → Left v h
        → Stages limit hs w n
        → Stages limit (h ∷ hs) (v + w) (c + n)

  Stages-le : {limit : ℕ} {hs : List (Handler Answer)} {w n : ℕ} → Stages limit hs w n → w ≤ n
  Stages-le ended = le_refl 0
  Stages-le (counts c s) = omega (arith, Stages-le s)
  Stages-le (left le l s) = omega (arith, le, Stages-le s)

  -- The bound, with calls beside the list that may insert `a` grants and are `m`.
  Bounded : ℕ → ℕ → ℕ → Tables → Type 0
  Bounded limit n w t = count_pending_grants agent t + w ≤ limit + (n - 1)

  take_turn-Bounded :
      (limit i : ℕ) (hs : List (Handler Answer)) (db : Db) (w n a m : ℕ)
      → Stages limit hs w n
      → a ≤ m
      → Bounded limit (m + n) (a + w) db.primary
      → (w' : ℕ) × Stages limit (take_turn i hs db).0 w' n
        × Bounded limit (m + n) (a + w') (take_turn i hs db).1.primary
  unfolding Bounded
  take_turn-Bounded limit i [] db w n a m s le b = (w, s, b)
  take_turn-Bounded limit zero (h ∷ hs) db w _ a m (counts c s) le b =
      let (w', one, bound, next) = turn-Counts limit h db c in
      (w' + w, left one next s, omega (arith, bound, b, le, Stages-le s))
  take_turn-Bounded limit zero (h ∷ hs) db _ _ a m (left {v = v} lt l s) le b =
      let (v', fewer, bound, next) = turn-Left v h db l in
      (_, left (le_trans fewer lt) next s, omega (arith, bound, b))
  take_turn-Bounded limit (suc i) (h ∷ hs) db w _ a m (counts {n = n} c s) le b =
      let (w', s', b') =
        take_turn-Bounded limit i hs db w n a (m + 1) s (omega arith) (omega (arith, b)) in
      (w', counts c s', omega (arith, b'))
  take_turn-Bounded limit (suc i) (h ∷ hs) db _ _ a m (left {w = w} {n} {v} {c} lt l s) le b =
      let (w', s', b') =
        take_turn-Bounded limit i hs db w n (a + v) (m + c) s (omega arith) (omega (arith, b)) in
      (v + w', left lt l s', omega (arith, b'))

  interleave-Bounded :
      (limit : ℕ) (is : List ℕ) (hs : List (Handler Answer)) (db : Db) (w n : ℕ)
      → Stages limit hs w n
      → Bounded limit n w db.primary
      → count_pending_grants agent (interleave is hs db).1.primary ≤ limit + (n - 1)
  unfolding interleave Bounded
  interleave-Bounded limit [] hs db w n s b = omega (arith, b)
  interleave-Bounded limit (i ∷ is) hs db w n s b =
      let (w', s', b') = take_turn-Bounded limit i hs db w n 0 0 s (le_refl 0) (omega (arith, b)) in
      interleave-Bounded limit is _ _ w' n s' (omega (arith, b'))

  OneMore : Tables → Tables → Type 0
  OneMore t t' = count_pending_grants agent t' + 0 ≤ count_pending_grants agent t + 1

  inserts-OneMore :
      (agent_id grant_id sp : ℕ) (caps : List Capability) (envelope : BehavioralEnvelope)
      (expires_at now : ℕ) (db : Db)
      → OneMore db.primary (
          Db.written
            (db.fault 0)
            db.primary
            (Tables.insert_grant grant_id agent_id sp caps envelope expires_at now db.primary).1)
  unfolding OneMore
  inserts-OneMore agent_id grant_id sp caps envelope expires_at now db =
      written-kept OneMore (db.fault 0) db.primary _ (omega arith)
        (ground (arith, insert-le agent_id grant_id sp caps envelope expires_at now db.primary))

  Left-answered :
      (w : ℕ) (r : Result RegistryError CapabilityGrant)
      → Left w (Overlap.◌>>=◌ (returns r) (λ g. Overlap.pure (grant g)))
  Left-answered w (ok g) = tt
  Left-answered w (err e) = tt

  request-Counts :
      (config : GrantConfig) (sp : ℕ) (caps : List Capability) (envelope : BehavioralEnvelope)
      (grant_id now db_now : ℕ)
      → Counts config.max_pending_per_agent
          (handler config (requests agent sp caps envelope grant_id now db_now))
  unfolding handler Overlap.request_grant OneMore
  request-Counts config sp caps envelope grant_id now db_now = (
    λ db. le_refl _,
    λ db count a. elim (Bool-cases (leb config.max_pending_per_agent count)) [
      | inl e ↦ (0, omega arith, omega arith, rw e tt)
      | inr e ↦ (
        1,
        omega arith,
        ground (arith, answer-ok (db.fault 0) a, e),
        rw e (
          1,
          omega arith,
          λ db. omega arith,
          λ found. elim (Option-cases found) [
            | inl n ↦ rw n tt
            | inr (x, q) ↦ rw q (
              1,
              omega arith,
              λ db. omega arith,
              λ existing. elim (Option-cases existing) [
                | inl n ↦ rw n (0, omega arith, λ db. inserts-OneMore _ _ _ _ _ _ _ db, λ _. tt)
                | inr (row, y) ↦ rw y (Left-answered 1 (row_to_grant row))
              ],
            )
          ],
        ),
      )
    ],
  )

  other-Insertion : (agent_id : ℕ) → (agent_id == agent) ≡ false → InsertKept NoMore agent_id
  other-Insertion agent_id e grant_id sp caps envelope expires_at now t =
      ground (arith, e, insert-le agent_id grant_id sp caps envelope expires_at now t)

  others :
      (config : GrantConfig) (c : Call) (cs : List Call)
      → Insertion NoMore c
      → Stages config.max_pending_per_agent (start config cs) 0 (requests_of agent cs)
      → Stages config.max_pending_per_agent
          (handler config c ∷ start config cs)
          0
          (0 + requests_of agent cs)
  others config c cs i s =
      left {v = 0} {c = 0} (le_refl 0) (Each-Left _ (handler-Each NoMore NoMore-Keeps config c i)) s

  start-Stages :
      (config : GrantConfig) (cs : List Call)
      → Stages config.max_pending_per_agent (start config cs) 0 (requests_of agent cs)
  start-Stages config [] = ended
  start-Stages config (requests agent_id sp caps envelope grant_id now db_now ∷ cs) =
      elim (Bool-cases (agent_id == agent)) [
        | inl e ↦ rw e (
            counts
              (subst
                (λ a.
                  Counts config.max_pending_per_agent
                    (handler config (requests a sp caps envelope grant_id now db_now)))
                (sym ((==_iff agent_id agent).0 e))
                (request-Counts config sp caps envelope grant_id now db_now))
              (start-Stages config cs))
        | inr e ↦ rw e (
            others config (requests agent_id sp caps envelope grant_id now db_now) cs
              (other-Insertion agent_id e) (start-Stages config cs))
      ]
  start-Stages config (approves k by nonce signature granted now db_now later ∷ cs) =
      others config (approves k by nonce signature granted now db_now later) cs tt
        (start-Stages config cs)
  start-Stages config (denies k db_now ∷ cs) =
      others config (denies k db_now) cs tt (start-Stages config cs)
  start-Stages config (revokes k ∷ cs) = others config (revokes k) cs tt (start-Stages config cs)
  start-Stages config (replicates ∷ cs) = others config replicates cs tt (start-Stages config cs)

-- In whatever order the statements of any calls take effect, whichever of them fail and however far
-- the replica lags, an agent has at most one pending grant more than the configured number for each
-- call beyond the first that asks for a grant of it, if it had no more than that number at first.
pub interleave-limit :
    (config : GrantConfig) (cs : List Call) (is : List ℕ) (db : Db) (agent : ℕ)
    → count_pending_grants agent db.primary ≤ config.max_pending_per_agent
    → count_pending_grants agent (interleave is (start config cs) db).1.primary
      ≤ config.max_pending_per_agent + (requests_of agent cs - 1)
interleave-limit config cs is db agent h =
    interleave-Bounded agent config.max_pending_per_agent is (start config cs) db 0
      (requests_of agent cs) (start-Stages agent config cs) (unfold Bounded in omega (arith, h))
