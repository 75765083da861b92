-- ===== src/Registry/Grants/Overlap/Tests.antt =====
-- Calls that overlap, at concrete inputs.
use agent_auth.Prelude.{ℕ, ◌≤◌, ◌≡◌, refl, none, some, List, [], ◌∷◌, arith}
use agent_auth.Core.Token.{denied}
use agent_auth.Registry.Tables as Tables
use agent_auth.Registry.Tables.{Tables, count_pending_grants}
use agent_auth.Registry.Db.{Db, answers}
use agent_auth.Registry.Grants.{Call, requests, approves, denies}
use agent_auth.Registry.Grants.Status.{Allows, status_of}
use agent_auth.Registry.Grants.Overlap as Overlap
use agent_auth.Registry.Grants.Overlap.{handler, interleave, start}
use agent_auth.Registry.Grants.Overlap.Status.{interleave-Allows}
use agent_auth.Registry.Grants.Overlap.Limit.{interleave-limit}
use agent_auth.Registry.Samples.{config, db, envelope, payment, tables}

-- An approval and a denial, which both read the pending grant before either writes.
abbrev decisions : List Call
decisions = approves 5 9 [] [] none 200 201 202 ∷ denies 5 203 ∷ []

abbrev turns : List ℕ
turns = 0 ∷ 1 ∷ 1 ∷ 0 ∷ []

denied_first : status_of 5 (interleave turns (start config decisions) db).1.primary ≡ some denied
unfolding interleave handler Overlap.approve_grant Overlap.deny_grant Tables.get_grant
    Tables.join_grant agent_auth.Registry.Grants.row_to_grant agent_auth.Registry.Grants.resolve
    Tables.approve_grant Tables.deny_grant
denied_first = refl

interleave-Allows_example :
    Allows
      (status_of 5 db.primary)
      (status_of 5 (interleave turns (start config decisions) db).1.primary)
interleave-Allows_example = interleave-Allows config decisions turns db 5

-- Two requests for an agent that has no grant, to two providers, which both count before either inserts.
abbrev bare : Db
bare = record {
  primary = record tables { service_providers = (2, "provider") ∷ (3, "shop") ∷ []; grants = [] };
  replica = record tables { service_providers = (2, "provider") ∷ (3, "shop") ∷ []; grants = [] };
  fault = λ n. answers;
}

abbrev two_requests : List Call
two_requests =
    requests 1 2 (payment ∷ []) envelope 6 300 301
    ∷ requests 1 3 (payment ∷ []) envelope 7 300 301
    ∷ []

abbrev in_step : List ℕ
in_step = 0 ∷ 1 ∷ 0 ∷ 1 ∷ 0 ∷ 1 ∷ 0 ∷ 1 ∷ []

limit_exceeded :
    count_pending_grants 1 (interleave in_step (start config two_requests) bare).1.primary ≡ 2
unfolding interleave handler Overlap.request_grant Tables.get_agent
    Tables.get_pending_grant_for_agent_sp count_pending_grants Tables.insert_grant
limit_exceeded = refl

interleave-limit_example :
    count_pending_grants 1 (interleave in_step (start config two_requests) bare).1.primary ≤ 2
interleave-limit_example =
    interleave-limit config two_requests in_step bare 1 (unfold count_pending_grants in omega arith)
