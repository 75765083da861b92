-- ===== src/Registry/TokenHandler/Provenance.antt =====
-- Where a token comes from that the issuing handler of crates/registry/src/handlers/tokens.rs returns.
use agent_auth.Prelude.{
  ℕ, String, ◌≡◌, refl, ◌∙◌, ◌⊎◌, inl, inr, Option, none, some, arith, Option-cases, Result, ok,
  Result-cases,
}
use agent_auth.Core.Token.{AgentAccessToken, approved}
use agent_auth.Registry.Tables
use agent_auth.Registry.Tables.{GrantRow}
use agent_auth.Registry.Db.{Fault, Fault-cases}
use agent_auth.Registry.Tables.Rows.{status_eq_iff}
use agent_auth.Registry.Cache.{Redis}
use agent_auth.Registry.App.{AppState}
use agent_auth.Registry.World.{World}
use agent_auth.Registry.Tokens.{TokenConfig}
use agent_auth.Registry.Audit.{Bytes, Sha}
use agent_auth.Registry.TokenHandler.{
  IssueTokenRequest, Details, named, issue, issue_token_handler, details,
}

module _ (r : Redis) (h : Sha) where
  -- The details come from an approved grant that the replica shows.
  abbrev pub FromGrant : ℕ → World r → Details → Type 0
  FromGrant grant_id w d =
      (row : GrantRow) × (Tables.get_grant grant_id w.db.replica ≡ some row)
      × (row.grant.status ≡ approved)
      × (d.agent ≡ row.grant.agent_id)
      × (d.provider ≡ row.grant.service_provider_id)
      × (d.human ≡ row.human_principal_id)
      × (row.grant.granted_capabilities ≡ some d.caps)
      × (row.grant.behavioral_envelope ≡ some d.envelope)

  details_ok :
      (grant_id : ℕ) (o : Option Details) (w : World r) (d : Details)
      → (details r h grant_id o w).0 ≡ ok d
      → ((o ≡ some d) × ((details r h grant_id o w).1 ≡ w)) ⊎ ((o ≡ none) × FromGrant grant_id w d)
  unfolding details
  details_ok grant_id (some x) w d k = ground arith
  details_ok grant_id none w d k = inr (
    refl,
    elim (Option-cases (Tables.get_grant grant_id w.db.replica)) [
      | inl e ↦ ground (arith, Fault-cases (w.db.fault 0))
      | inr (row, e) ↦ (
        row,
        e,
        ground (arith, Fault-cases (w.db.fault 0), status_eq_iff row.grant.status approved),
        ground (arith, Fault-cases (w.db.fault 0)),
        ground (arith, Fault-cases (w.db.fault 0)),
        ground (arith, Fault-cases (w.db.fault 0)),
        ground (arith, Fault-cases (w.db.fault 0)),
        ground (arith, Fault-cases (w.db.fault 0)),
      )
    ],
  )

  -- Where the details of a token come from, `w'` being what is left after they were looked up: the
  -- request names them all and nothing is called, or it does not and they are those of a grant.
  abbrev pub Source : IssueTokenRequest → (w w' : World r) → Details → Type 0
  Source q w w' d = ((named q ≡ some d) × (w' ≡ w)) ⊎ ((named q ≡ none) × FromGrant q.grant_id w d)

  details_kept :
      (grant_id : ℕ) (o : Option Details) (w : World r)
      → (details r h grant_id o w).1.db.primary ≡ w.db.primary
  unfolding details
  details_kept grant_id (some x) w = refl
  details_kept grant_id none w = elim (Option-cases (Tables.get_grant grant_id w.db.replica)) [
    | inl e ↦ ground (arith, Fault-cases (w.db.fault 0))
    | inr (row, e) ↦ ground (
      arith,
      Fault-cases (w.db.fault 0),
      Option-cases row.grant.granted_capabilities,
      Option-cases row.grant.behavioral_envelope,
    )
  ]

  -- A token that the handler returns is the service's answer for some details, on the same primary. If
  -- the request names them all, they are these, and no call comes before that of the service, so
  -- no grant is looked at; else they are the agent, the provider, the person, the capabilities and the
  -- envelope of the grant that the request names, which the replica shows as approved.
  pub issue-Source :
      (config : TokenConfig) (key_id : String) (q : IssueTokenRequest)
      (jti asked_at now cached_at event_id : ℕ) (sign : Bytes → Result String Bytes) (fate : Fault)
      (s : AppState r h) (t : AgentAccessToken)
      → (issue_token_handler r h config key_id q jti asked_at now cached_at event_id sign fate s).0
        ≡ ok t
      → (d : Details) × (w : World r) × Source q s.world w d
        × (w.db.primary ≡ s.world.db.primary)
        × ((issue r h config key_id q d jti asked_at now cached_at w).0 ≡ ok t)
  unfolding issue_token_handler
  issue-Source config key_id q jti asked_at now cached_at event_id sign fate s t k =
      elim (Result-cases (details r h q.grant_id (named q) s.world).0) [
        | inr (x, e) ↦ ground arith
        | inl (d, e) ↦
            elim (Result-cases
              (issue r h config key_id q d jti asked_at now cached_at
                (details r h q.grant_id (named q) s.world).1).0) [
                  | inr (x, f) ↦ ground arith
                  | inl (u, f) ↦ (
                    d,
                    (details r h q.grant_id (named q) s.world).1,
                    details_ok q.grant_id (named q) s.world d e,
                    details_kept q.grant_id (named q) s.world,
                    f ∙ ground arith,
                  )
                ]
      ]
