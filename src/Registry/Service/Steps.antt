-- ===== src/Registry/Service/Steps.antt =====
-- Each statement that writes to the registry's tables is a step of the authority.
use mathlib.Core.Path.{fun_ext}
use agent_auth.Prelude.{
  ℕ, String, ◌≡◌, refl, sym, ap, subst, ◌⊎◌, inl, inr, true, false, Option, none, some, List, [],
  ◌∷◌, ◌++◌, arith, ◌==◌, ==_iff, Bool-cases,
}
use agent_auth.Core.Capability.{Capability}
use agent_auth.Core.Envelope.{BehavioralEnvelope}
use agent_auth.Core.Manifest.{AgentManifest}
use agent_auth.Core.Token.{GrantStatus, pending, approved, denied, revoked, AgentAccessToken}
use agent_auth.Registry.Tables as Tables
use agent_auth.Registry.Tables.{
  to_micros, Tables, GrantEntry, deactivate_agent, insert_grant, insert_token,
}
use agent_auth.Registry.Tables.Agents.{insert_agent}
use agent_auth.Registry.Tables.Rows.{
  status_in, status_in-update, status_in-append, first_in, first_in-update, first_in-append,
}
use agent_auth.Registry.Grants.Status.{◌⟶◌, requested, approval, denial, revocation, status_of}
use agent_auth.Registry.Service.Authority.{
  Authority, put, ◌⇝◌, idle, enrols, retires, decides, issues, withdraws,
}

-- What the primary says, whatever the order of its rows and whatever else is in them.
abbrev pub view : Tables → Authority
view t = record {
  agent = λ id. first_in (λ a. a.id) (λ a. a.is_active) id t.agents;
  grant = λ id. status_of id t;
  token = λ id. first_in (λ r. r.jti) (λ r. r.is_revoked) id t.tokens;
}

-- A map that differs at one identifier at most.
put_or_same :
    {B : Type 0} (m m' : ℕ → Option B) (k : ℕ) (from : Option B) (to : B)
    → ((id : ℕ) → (m' id ≡ m id) ⊎ ((id ≡ k) × (m id ≡ from) × (m' id ≡ some to)))
    → (m' ≡ m) ⊎ ((m k ≡ from) × (m' ≡ put k to m))
put_or_same m m' k from to h = elim (h k) [
  | inl e ↦ inl (
      fun_ext (λ id. elim (h id) [ inl f ↦ f | inr (f, _, _) ↦ subst (λ j. m' j ≡ m j) (sym f) e ]))
  | inr (_, p, e) ↦ inr (
    p,
    fun_ext (λ id. elim (Bool-cases (id == k)) [
      | inl f ↦ rw f (subst (λ j. m' j ≡ some to) (sym ((==_iff id k).0 f)) e)
      | inr f ↦
          rw f (elim (h id) [ inl g ↦ g | inr (g, _, _) ↦ absurd (ground (arith, ==_iff id k)) ])
    ]),
  )
]

-- An insertion changes the state of the inserted grant alone, and only if it is new.
inserted :
    (id : ℕ) (gs : List GrantEntry) (g : GrantEntry)
    → (status_in id (gs ++ (g ∷ [])) ≡ status_in id gs)
      ⊎ ((id ≡ g.id) × (status_in id gs ≡ none) × (status_in id (gs ++ (g ∷ [])) ≡ some g.status))
inserted id gs g = ground (arith, status_in-append id gs g)

module _ (t : Tables) where
  pub insert_agent-⇝ :
      (m : AgentManifest) (key signature : List ℕ) (now : ℕ)
      → view t ⇝ view (insert_agent m key signature now t).1
  unfolding insert_agent
  insert_agent-⇝ m key signature now =
      elim (put_or_same (view t).agent _ m.id none true
        (λ id. first_in-append (λ a. a.id) (λ a. a.is_active) id t.agents _)) [
          | inl e ↦ idle (ap (λ f. record (view t) { agent = f }) e)
          | inr (p, e) ↦ enrols m.id p (ap (λ f. record (view t) { agent = f }) e)
        ]

  pub deactivate-⇝ : (k : ℕ) → view t ⇝ view (deactivate_agent k t).1
  unfolding deactivate_agent
  deactivate-⇝ k =
      elim (put_or_same (view t).agent _ k (some true) false (λ id.
        first_in-update (λ a. a.id) (λ a. a.is_active) _ _ true false k id t.agents (λ a. refl)
          (λ a p. ground (arith, ==_iff a.id k)))) [
            | inl e ↦ idle (ap (λ f. record (view t) { agent = f }) e)
            | inr (p, e) ↦ retires k p (ap (λ f. record (view t) { agent = f }) e)
          ]

  -- A change of one grant along a transition.
  grant-⇝ :
      (t' : Tables) (k : ℕ) (from : Option GrantStatus) (to : GrantStatus)
      → t'.agents ≡ t.agents
      → t'.tokens ≡ t.tokens
      → (from ⟶ some to)
      → ((id : ℕ)
          → (status_of id t' ≡ status_of id t)
            ⊎ ((id ≡ k) × (status_of id t ≡ from) × (status_of id t' ≡ some to)))
      → view t ⇝ view t'
  grant-⇝ t' k from to p q s h = elim (put_or_same (view t).grant (view t').grant k from to h) [
    | inl e ↦ idle (rw (p, q, e) refl)
    | inr (f, e) ↦ decides k to (rw f s) (rw (p, q, e) refl)
  ]

  pub insert_grant-⇝ :
      (grant_id agent_id sp : ℕ) (caps : List Capability) (envelope : BehavioralEnvelope)
      (expires_at now : ℕ)
      → view t ⇝ view (insert_grant grant_id agent_id sp caps envelope expires_at now t).1
  unfolding insert_grant
  insert_grant-⇝ grant_id agent_id sp caps envelope expires_at now =
      grant-⇝ (insert_grant grant_id agent_id sp caps envelope expires_at now t).1 grant_id none
        pending refl refl requested
        (λ id. inserted id t.grants (record {
          id = grant_id;
          agent_id = agent_id;
          service_provider_id = sp;
          approved_by = none;
          granted_capabilities = some caps;
          behavioral_envelope = some envelope;
          status = pending;
          approval_nonce = none;
          approval_signature = none;
          requested_at = now;
          decided_at = none;
          expires_at = to_micros expires_at;
        }))

  pub approve-⇝ :
      (k by : ℕ) (nonce signature : List ℕ) (caps : List Capability) (now : ℕ)
      → view t ⇝ view (Tables.approve_grant k by nonce signature caps now t).1
  unfolding Tables.approve_grant
  approve-⇝ k by nonce signature caps now =
      grant-⇝ (Tables.approve_grant k by nonce signature caps now t).1 k (some pending) approved
        refl refl approval
        (λ id. status_in-update _ approved pending k id t.grants (λ g. (refl, refl)))

  pub deny-⇝ : (k now : ℕ) → view t ⇝ view (Tables.deny_grant k now t).1
  unfolding Tables.deny_grant
  deny-⇝ k now =
      grant-⇝ (Tables.deny_grant k now t).1 k (some pending) denied refl refl denial
        (λ id. status_in-update _ denied pending k id t.grants (λ g. (refl, refl)))

  pub revoke-⇝ : (k : ℕ) → view t ⇝ view (Tables.revoke_grant k t).1
  unfolding Tables.revoke_grant
  revoke-⇝ k =
      grant-⇝ (Tables.revoke_grant k t).1 k (some approved) revoked refl refl revocation
        (λ id. status_in-update _ revoked approved k id t.grants (λ g. (refl, refl)))

  pub insert_token-⇝ :
      (token : AgentAccessToken) (grant_id : ℕ) (key_id : String) (binding : Option (List ℕ))
      → view t ⇝ view (insert_token token grant_id key_id binding t).1
  unfolding insert_token
  insert_token-⇝ token grant_id key_id binding =
      elim (put_or_same (view t).token _ token.jti none false
        (λ id. first_in-append (λ r. r.jti) (λ r. r.is_revoked) id t.tokens _)) [
          | inl e ↦ idle (ap (λ f. record (view t) { token = f }) e)
          | inr (p, e) ↦ issues token.jti p (ap (λ f. record (view t) { token = f }) e)
        ]

  pub revoke_token-⇝ :
      (k : ℕ) (reason : Option String) (now : ℕ)
      → view t ⇝ view (Tables.revoke_token k reason now t).1
  unfolding Tables.revoke_token
  revoke_token-⇝ k reason now =
      elim (put_or_same (view t).token _ k (some false) true (λ id.
        first_in-update (λ r. r.jti) (λ r. r.is_revoked) _ _ false true k id t.tokens (λ r. refl)
          (λ r p. ground (arith, ==_iff r.jti k)))) [
            | inl e ↦ idle (ap (λ f. record (view t) { token = f }) e)
            | inr (p, e) ↦ withdraws k p (ap (λ f. record (view t) { token = f }) e)
          ]
