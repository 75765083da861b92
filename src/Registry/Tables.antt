-- ===== src/Registry/Tables.antt =====
-- The tables of the registry (migrations/) and the statements of crates/registry/src/db/queries.rs
-- on them. A table is the list of its rows in the order of insertion; a statement that the schema
-- refuses (a key that is taken, a reference that dangles) is a failure of the call, see Db.
-- A column of the type TIMESTAMPTZ counts microseconds: what is bound to it or compared with it is
-- cut to them.
-- A JSON column holds what the code reads from it: `none` for a value that does not parse.
pub mod Rows
pub mod Agents
use agent_auth.Prelude.{
  ℕ, ◌*◌, ◌/◌, String, Bool, true, false, not, ◌&&◌, Option, none, some, List, [], ◌∷◌, ◌++◌, leb,
  ◌==◌, if◌then◌else◌, length, any, keep, find,
}
use agent_auth.Core.Capability.{Capability}
use agent_auth.Core.Envelope.{BehavioralEnvelope}
use agent_auth.Core.Token.{
  GrantStatus, pending, approved, denied, revoked, status_eq, AgentAccessToken,
}

-- An instant as the database takes it.
abbrev pub to_micros : ℕ → ℕ
to_micros instant = instant / 1000 * 1000

pub record AgentRow : Type 0 where
  pub id : ℕ
  pub human_principal_id : ℕ
  pub name : String
  pub description : Option String
  pub public_key : List ℕ
  pub key_id : String
  pub requested_capabilities : Option (List Capability)
  pub default_behavioral_envelope : Option BehavioralEnvelope
  pub model_origin : Option String
  pub signature : List ℕ
  pub issued_at : ℕ
  pub expires_at : ℕ
  pub is_active : Bool
  pub created_at : ℕ

-- A row of capability_grants.
pub record GrantEntry : Type 0 where
  pub id : ℕ
  pub agent_id : ℕ
  pub service_provider_id : ℕ
  pub approved_by : Option ℕ
  pub granted_capabilities : Option (List Capability)
  pub behavioral_envelope : Option BehavioralEnvelope
  pub status : GrantStatus
  pub approval_nonce : Option (List ℕ)
  pub approval_signature : Option (List ℕ)
  pub requested_at : ℕ
  pub decided_at : Option ℕ
  pub expires_at : ℕ

-- `GrantRow`: a grant joined with the names and the owner of its agent.
pub record GrantRow : Type 0 where
  pub grant : GrantEntry
  pub agent_name : String
  pub service_provider_name : String
  pub human_principal_id : ℕ

pub record TokenRow : Type 0 where
  pub jti : ℕ
  pub grant_id : ℕ
  pub agent_id : ℕ
  pub service_provider_id : ℕ
  pub human_principal_id : ℕ
  pub key_id : String
  pub token_binding : Option (List ℕ)
  pub granted_capabilities : Option (List Capability)
  pub behavioral_envelope : Option BehavioralEnvelope
  pub issued_at : ℕ
  pub expires_at : ℕ
  pub is_revoked : Bool
  pub revoked_at : Option ℕ
  pub revocation_reason : Option String

pub record Tables : Type 0 where
  pub agents : List AgentRow
  pub service_providers : List (ℕ × String)
  pub grants : List GrantEntry
  pub tokens : List TokenRow

unfoldable pub get_agent : ℕ → Tables → Option AgentRow
get_agent id t = find (λ a. a.id == id) t.agents

unfoldable pub agent_exists : ℕ → Tables → Bool
agent_exists id t = any (λ a. a.id == id) t.agents

-- UPDATE … SET … WHERE: the rows, and whether any was affected.
module _ {A : Type 0} where
  abbrev pub update_rows : (A → Bool) → (A → A) → List A → List A
  update_rows p f [] = []
  update_rows p f (x ∷ xs) = (if p x then f x else x) ∷ update_rows p f xs

unfoldable pub deactivate_agent : ℕ → Tables → Bool × Tables
deactivate_agent id t =
    let hit = λ (a : AgentRow). a.id == id && a.is_active in
    (
      any hit t.agents,
      record t { agents = update_rows hit (λ a. record a { is_active = false }) t.agents },
    )

unfoldable pub insert_grant :
    ℕ → ℕ → ℕ → List Capability → BehavioralEnvelope → ℕ → ℕ → Tables → Unit {0} × Tables
insert_grant grant_id agent_id sp caps envelope expires_at now t = (
  tt,
  record t {
    grants =
        t.grants
        ++ (record {
          id = grant_id;
          agent_id = agent_id;
          service_provider_id = sp;
          approved_by = none;
          granted_capabilities = some caps;
          behavioral_envelope = some envelope;
          status = pending;
          approval_nonce = none;
          approval_signature = none;
          requested_at = now;
          decided_at = none;
          expires_at = to_micros expires_at;
        }
            ∷ []);
  },
)

-- The two inner joins: a grant whose agent or service provider is missing is not returned.
unfoldable pub join_grant : Tables → GrantEntry → Option GrantRow
join_grant t g = elim (find (λ a. a.id == g.agent_id) t.agents) [
  | none ↦ none
  | some a ↦ elim (find (λ sp. sp.0 == g.service_provider_id) t.service_providers) [
    | none ↦ none
    | some sp ↦ some (record {
      grant = g;
      agent_name = a.name;
      service_provider_name = sp.1;
      human_principal_id = a.human_principal_id;
    })
  ]
]

abbrev pub then_join : Tables → Option GrantEntry → Option GrantRow
then_join t none = none
then_join t (some g) = join_grant t g

-- ORDER BY requested_at DESC LIMIT 1
unfoldable pub latest : List GrantEntry → Option GrantEntry
latest [] = none
latest (g ∷ gs) = elim (latest gs) [
  | none ↦ some g
  | some h ↦ some (if leb h.requested_at g.requested_at then g else h)
]

unfoldable pub get_pending_grant_for_agent_sp : ℕ → ℕ → Tables → Option GrantRow
unfolding latest
get_pending_grant_for_agent_sp agent_id sp t = then_join t (
    latest (
      keep
        (λ g. g.agent_id == agent_id && g.service_provider_id == sp && status_eq g.status pending)
        t.grants))

unfoldable pub get_grant : ℕ → Tables → Option GrantRow
get_grant id t = then_join t (find (λ g. g.id == id) t.grants)

-- COUNT(*) of the grants of an agent in a state.
abbrev pub count_grants : GrantStatus → ℕ → List GrantEntry → ℕ
count_grants status agent_id gs =
    length (keep (λ g. g.agent_id == agent_id && status_eq g.status status) gs)

unfoldable pub count_active_grants : ℕ → Tables → ℕ
count_active_grants agent_id t = count_grants approved agent_id t.grants

unfoldable pub count_pending_grants : ℕ → Tables → ℕ
count_pending_grants agent_id t = count_grants pending agent_id t.grants

abbrev pub is_at : ℕ → GrantStatus → GrantEntry → Bool
is_at id status g = g.id == id && status_eq g.status status

unfoldable pub approve_grant :
    ℕ → ℕ → List ℕ → List ℕ → List Capability → ℕ → Tables → Bool × Tables
approve_grant id approved_by nonce signature caps now t = (
  any (is_at id pending) t.grants,
  record t { grants = update_rows (is_at id pending) set t.grants },
)
  where
    set : GrantEntry → GrantEntry
    set g = record g {
      status = approved;
      approved_by = some approved_by;
      approval_nonce = some nonce;
      approval_signature = some signature;
      granted_capabilities = some caps;
      decided_at = some now;
    }

unfoldable pub deny_grant : ℕ → ℕ → Tables → Bool × Tables
deny_grant id now t = (
  any (is_at id pending) t.grants,
  record t {
    grants =
        update_rows (is_at id pending) (λ g. record g { status = denied; decided_at = some now })
          t.grants;
  },
)

unfoldable pub revoke_grant : ℕ → Tables → Bool × Tables
revoke_grant id t = (
  any (is_at id approved) t.grants,
  record t {
    grants = update_rows (is_at id approved) (λ g. record g { status = revoked }) t.grants;
  },
)

unfoldable pub insert_token :
    AgentAccessToken → ℕ → String → Option (List ℕ) → Tables → Unit {0} × Tables
insert_token token grant_id key_id token_binding t = (
  tt,
  record t {
    tokens =
        t.tokens
        ++ (record {
          jti = token.jti;
          grant_id = grant_id;
          agent_id = token.agent_id;
          service_provider_id = token.service_provider_id;
          human_principal_id = token.human_principal_id;
          key_id = key_id;
          token_binding = token_binding;
          granted_capabilities = some token.granted_capabilities;
          behavioral_envelope = some token.behavioral_envelope;
          issued_at = to_micros token.issued_at;
          expires_at = to_micros token.expires_at;
          is_revoked = false;
          revoked_at = none;
          revocation_reason = none;
        }
            ∷ []);
  },
)

unfoldable pub get_token : ℕ → Tables → Option TokenRow
get_token jti t = find (λ r. r.jti == jti) t.tokens

-- ORDER BY issued_at DESC LIMIT 1
unfoldable pub latest_token : List TokenRow → Option TokenRow
latest_token [] = none
latest_token (r ∷ rs) = elim (latest_token rs) [
  | none ↦ some r
  | some h ↦ some (if leb h.issued_at r.issued_at then r else h)
]

unfoldable pub find_existing_token : ℕ → ℕ → Tables → Option TokenRow
unfolding latest_token
find_existing_token grant_id window_start t = latest_token (
    keep
      (λ r. r.grant_id == grant_id && leb (to_micros window_start) r.issued_at && not r.is_revoked)
      t.tokens)

abbrev pub is_live : ℕ → TokenRow → Bool
is_live jti r = r.jti == jti && not r.is_revoked

unfoldable pub revoke_token : ℕ → Option String → ℕ → Tables → Bool × Tables
revoke_token jti reason now t = (
  any (is_live jti) t.tokens,
  record t {
    tokens =
        update_rows (is_live jti)
          (λ r. record r { is_revoked = true; revoked_at = some now; revocation_reason = reason })
          t.tokens;
  },
)

-- A token that is not found counts as revoked.
unfoldable pub is_token_revoked : ℕ → Tables → Bool
unfolding get_token
is_token_revoked jti t = elim (get_token jti t) [ none ↦ true | some r ↦ r.is_revoked ]
