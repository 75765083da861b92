-- ===== src/Registry/Tables/Agents.antt =====
-- crates/registry/src/db/queries.rs: the statements on agents that the handlers of agents send, and
-- the lists they read. Rows that tie in an ORDER BY stand in the order of insertion.
use agent_auth.Prelude.{
  ℕ, true, ◌&&◌, Option, none, some, List, [], ◌∷◌, ◌++◌, leb, ◌==◌, if◌then◌else◌, keep,
}
use agent_auth.Core.Envelope.{default_restrictive}
use agent_auth.Core.Token.{pending, status_eq}
use agent_auth.Core.Manifest.{AgentManifest}
use agent_auth.Registry.Tables.{
  Tables, AgentRow, to_micros, GrantEntry, GrantRow, latest, join_grant,
}

-- ORDER BY … DESC
module _ {A : Type 0} (key : A → ℕ) where
  abbrev insert_desc : A → List A → List A
  insert_desc x [] = x ∷ []
  insert_desc x (y ∷ ys) = if leb (key y) (key x) then x ∷ y ∷ ys else y ∷ insert_desc x ys

  abbrev pub order_desc : List A → List A
  order_desc [] = []
  order_desc (x ∷ xs) = insert_desc x (order_desc xs)

-- The public key comes decoded; the column of the envelope gets the restrictive default.
unfoldable pub insert_agent :
    AgentManifest → (public_key signature : List ℕ) → (db_now : ℕ) → Tables → Unit {0} × Tables
insert_agent m public_key signature db_now t = (
  tt,
  record t {
    agents =
        t.agents
        ++ (record {
          id = m.id;
          human_principal_id = m.human_principal_id;
          name = m.name;
          description = m.description;
          public_key = public_key;
          key_id = m.key_id;
          requested_capabilities = some m.capabilities_requested;
          default_behavioral_envelope = some default_restrictive;
          model_origin = m.model_origin;
          signature = signature;
          issued_at = to_micros m.issued_at;
          expires_at = to_micros m.expires_at;
          is_active = true;
          created_at = db_now;
        }
            ∷ []);
  },
)

unfoldable pub list_agents : Tables → List AgentRow
list_agents t = order_desc (λ a. a.created_at) t.agents

-- The grants that the joins return.
joined : Tables → List GrantEntry → List GrantRow
joined t [] = []
joined t (g ∷ gs) = elim (join_grant t g) [ none ↦ joined t gs | some row ↦ row ∷ joined t gs ]

unfoldable pub list_grants_for_agent : ℕ → Tables → List GrantRow
unfolding joined
list_grants_for_agent agent_id t =
    joined t (order_desc (λ g. g.requested_at) (keep (λ g. g.agent_id == agent_id) t.grants))

unfoldable pub get_pending_grant_id : ℕ → Tables → Option ℕ
unfolding latest
get_pending_grant_id agent_id t =
    elim (latest (keep (λ g. g.agent_id == agent_id && status_eq g.status pending) t.grants)) [
      | none ↦ none
      | some g ↦ some g.id
    ]
