-- ===== src/Registry/Grants/Overlap/Status.antt =====
-- The life of a grant, where the statements of the calls come in any order.
use agent_auth.Prelude.{ℕ, zero, suc, refl, List, [], ◌∷◌}
use agent_auth.Core.Token.{approved, denied, pending, revoked}
use agent_auth.Registry.Tables
use agent_auth.Registry.Tables.{Tables}
use agent_auth.Registry.Tables.Rows.{status_in-update}
use agent_auth.Registry.Db.{Db}
use agent_auth.Registry.Grants.{GrantConfig, Call, requests, approves, denies, revokes, replicates}
use agent_auth.Registry.Grants.Status.{
  status_of, ◌⟶◌, stays, approval, denial, revocation, Allows, ⟶-Allows, Allows-refl, moved,
  insert-⟶,
}
use agent_auth.Registry.Grants.Overlap.{Handler, Answer, take_turn, interleave, start}
use agent_auth.Registry.Grants.Overlap.Statements.{Each, Keeps, Insertion, handler-Each, turn-Each}

-- The relation that a call's statements keep for the grant with an identifier.
abbrev Step : ℕ → Tables → Tables → Type 0
Step id t t' = status_of id t ⟶ status_of id t'

module _ (id : ℕ) where
  Step-Keeps : Keeps (Step id)
  unfolding Tables.approve_grant Tables.deny_grant Tables.revoke_grant
  Step-Keeps = record {
    same = λ t. stays;
    approval_kept = λ k by nonce signature caps db_now t.
        moved {id = id} {k = k} approval
          (status_in-update _ approved pending k id t.grants (λ g. (refl, refl)));
    denial_kept = λ k db_now t.
        moved {id = id} {k = k} denial
          (status_in-update _ denied pending k id t.grants (λ g. (refl, refl)));
    revocation_kept = λ k t.
        moved {id = id} {k = k} revocation
          (status_in-update _ revoked approved k id t.grants (λ g. (refl, refl)));
  }

  inserts : (c : Call) → Insertion (Step id) c
  inserts (requests agent_id _ _ _ _ _ _) = λ grant_id sp caps envelope expires_at now t.
      insert-⟶ id grant_id agent_id sp caps envelope expires_at now t
  inserts (approves _ _ _ _ _ _ _ _) = tt
  inserts (denies _ _) = tt
  inserts (revokes _) = tt
  inserts replicates = tt

  abbrev AllEach : List (Handler Answer) → Type 0
  AllEach [] = Unit
  AllEach (h ∷ hs) = Each (Step id) h × AllEach hs

  take_turn-⟶ :
      (i : ℕ) (hs : List (Handler Answer)) (db : Db)
      → AllEach hs
      → (status_of id db.primary ⟶ status_of id (take_turn i hs db).1.primary)
        × AllEach (take_turn i hs db).0
  take_turn-⟶ i [] db es = (stays, tt)
  take_turn-⟶ zero (h ∷ hs) db es =
      let r = turn-Each (Step id) Step-Keeps h db es.0 in (r.0, (r.1, es.1))
  take_turn-⟶ (suc i) (h ∷ hs) db es = let r = take_turn-⟶ i hs db es.1 in (r.0, (es.0, r.1))

  interleave-each :
      (is : List ℕ) (hs : List (Handler Answer)) (db : Db)
      → AllEach hs
      → Allows (status_of id db.primary) (status_of id (interleave is hs db).1.primary)
  unfolding interleave
  interleave-each [] hs db es = Allows-refl (status_of id db.primary)
  interleave-each (i ∷ is) hs db es =
      let r = take_turn-⟶ i hs db es in
      ⟶-Allows _ r.0 (interleave-each is (take_turn i hs db).0 (take_turn i hs db).1 r.1)

  start-each : (config : GrantConfig) (cs : List Call) → AllEach (start config cs)
  start-each config [] = tt
  start-each config (c ∷ cs) =
      (handler-Each (Step id) Step-Keeps config c (inserts c), start-each config cs)

-- In whatever order the statements of any calls take effect, whichever of them fail and however far
-- the replica lags, a grant is decided at most once: one that is denied, revoked or expired stays
-- so, an approved one is still approved or is revoked, and no grant disappears.
pub interleave-Allows :
    (config : GrantConfig) (cs : List Call) (is : List ℕ) (db : Db) (id : ℕ)
    → Allows (status_of id db.primary) (status_of id (interleave is (start config cs) db).1.primary)
interleave-Allows config cs is db id =
    interleave-each id is (start config cs) db (start-each id config cs)
