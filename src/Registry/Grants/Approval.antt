-- ===== src/Registry/Grants/Approval.antt =====
-- What an approval that succeeds has checked, and what its check lets through.
use agent_auth.Prelude.{
  ℕ, ◌≤◌, String, ◌≡◌, refl, sym, subst, ◌↔◌, inl, inr, true, false, Option, some, List, [], ◌∷◌,
  arith, eq_refl, ◌==◌, str_eq, Bool-cases, Option-cases, null, any, find, ◌≢◌, All, ok,
  Result-cases,
}
use agent_auth.Core.Capability.{Capability, transact}
use agent_auth.Core.Token.{CapabilityGrant, GrantStatus, pending, approved}
use agent_auth.Registry.Tables
use agent_auth.Registry.Tables.{Tables, GrantEntry, GrantRow, update_rows, is_at}
use agent_auth.Registry.Tables.Rows.{status_in, status_eq_iff}
use agent_auth.Registry.Db.{Db}
use agent_auth.Registry.Grants.{
  approve_grant, get_grant, resolve, check_subset, capability_type_key, row_to_grant,
}
use agent_auth.Registry.Grants.Status.{status_of}

-- A capability of the same type on the same resource was requested.
abbrev pub InRequest : List Capability → Capability → Type 0
InRequest requested c =
    any (λ r. str_eq (capability_type_key r) (capability_type_key c)) requested ≡ true

check_subset_iff :
    (requested cs : List Capability)
    → (check_subset requested cs ≡ ok tt) ↔ All (InRequest requested) cs
unfolding check_subset
check_subset_iff requested [] = (λ _. tt, λ _. refl)
check_subset_iff requested (c ∷ cs) = ground (arith, check_subset_iff requested cs)

-- The capabilities that an approver names are accepted exactly when there is one and each has the
-- type and the resource of a requested one; they are then granted as named.
pub resolve_iff :
    (requested cs granted : List Capability)
    → (resolve requested (some cs) ≡ ok granted)
      ↔ ((granted ≡ cs) × (null cs ≡ false) × All (InRequest requested) cs)
unfolding resolve
resolve_iff requested [] granted = ground arith
resolve_iff requested (c ∷ cs) granted = ground (arith, check_subset_iff requested (c ∷ cs))

-- Where a transaction with a limit on some resource was requested, an approver may grant one on
-- that resource with any other limit and currency: the check does not see them.
pub resolve_any_limit :
    (res : String) (asked given : ℕ) (currency currency' : Option String) (others : List Capability)
    → resolve (transact res asked currency ∷ others) (some (transact res given currency' ∷ []))
      ≡ ok (transact res given currency' ∷ [])
unfolding capability_type_key
resolve_any_limit res asked given currency currency' others =
    (resolve_iff (transact res asked currency ∷ others) (transact res given currency' ∷ []) _).1
      (refl, refl, (rw (eq_refl (capability_type_key (transact res given currency'))) refl, tt))

-- The primary key of the table: no two rows have one id.
abbrev pub UniqueIds : List GrantEntry → Type 0
UniqueIds [] = Unit
UniqueIds (g ∷ gs) = (any (λ h. h.id == g.id) gs ≡ false) × UniqueIds gs

absent :
    (id : ℕ) (from : GrantStatus) (gs : List GrantEntry)
    → any (λ h. h.id == id) gs ≡ false
    → any (is_at id from) gs ≡ false
absent id from [] h = refl
absent id from (g ∷ gs) h = ground (arith, absent id from gs)

-- What an approval that succeeds makes of a row.
abbrev pub approved_row : ℕ → List ℕ → List ℕ → List Capability → ℕ → GrantEntry → GrantEntry
approved_row by nonce signature caps now g = record g {
  status = approved;
  approved_by = some by;
  approval_nonce = some nonce;
  approval_signature = some signature;
  granted_capabilities = some caps;
  decided_at = some now;
}

-- The rows before and after: the one with the identifier was pending and is approved with these
-- columns, and all others are as they were.
pub record Recorded (id by : ℕ) (nonce signature : List ℕ) (caps : List Capability) (now : ℕ)
    (gs gs' : List GrantEntry) : Type 0 where
  pub entry : GrantEntry
  pub was : find (λ g. g.id == id) gs ≡ some entry
  pub undecided : entry.status ≡ pending
  pub becomes : find (λ g. g.id == id) gs' ≡ some (approved_row by nonce signature caps now entry)
  pub others : (k : ℕ) → k ≢ id → find (λ g. g.id == k) gs' ≡ find (λ g. g.id == k) gs

find-update_ne :
    (f : GrantEntry → GrantEntry) (id k : ℕ) (from : GrantStatus) (gs : List GrantEntry)
    → ((g : GrantEntry) → (f g).id ≡ g.id)
    → k ≢ id
    → find (λ g. g.id == k) (update_rows (is_at id from) f gs) ≡ find (λ g. g.id == k) gs
find-update_ne f id k from [] h ne = refl
find-update_ne f id k from (g ∷ gs) h ne = ground (arith, h g, find-update_ne f id k from gs h ne)

find-update :
    (f : GrantEntry → GrantEntry) (id : ℕ) (from : GrantStatus) (gs : List GrantEntry)
    → ((g : GrantEntry) → (f g).id ≡ g.id)
    → UniqueIds gs
    → any (is_at id from) gs ≡ true
    → (entry : GrantEntry) × (find (λ g. g.id == id) gs ≡ some entry)
      × (entry.status ≡ from)
      × (find (λ g. g.id == id) (update_rows (is_at id from) f gs) ≡ some (f entry))
find-update f id from [] h u a = cc
find-update f id from (g ∷ gs) h u a = elim (Bool-cases (g.id == id)) [
  | inl e ↦ (
    g,
    ground (arith, e),
    ground (arith, status_eq_iff g.status from, absent g.id from gs u.0),
    ground (arith, h g, status_eq_iff g.status from, absent g.id from gs u.0),
  )
  | inr e ↦
      let (entry, was, at, becomes) = find-update f id from gs h u.1 (ground arith) in
      (entry, ground (arith, was), at, ground (arith, becomes))
]

hit-status :
    (id : ℕ) (from : GrantStatus) (gs : List GrantEntry)
    → UniqueIds gs
    → any (is_at id from) gs ≡ true
    → status_in id gs ≡ some from
hit-status id from [] u h = cc
hit-status id from (g ∷ gs) u h = elim (Bool-cases (g.id == id)) [
  | inl e ↦ ground (arith, status_eq_iff g.status from, absent g.id from gs u.0)
  | inr e ↦ ground (arith, hit-status id from gs u.1)
]

hit-updated :
    (f : GrantEntry → GrantEntry) (to : GrantStatus) (id : ℕ) (from : GrantStatus)
    (gs : List GrantEntry)
    → ((g : GrantEntry) → ((f g).id ≡ g.id) × ((f g).status ≡ to))
    → UniqueIds gs
    → any (is_at id from) gs ≡ true
    → status_in id (update_rows (is_at id from) f gs) ≡ some to
hit-updated f to id from [] h u a = cc
hit-updated f to id from (g ∷ gs) h u a = elim (Bool-cases (g.id == id)) [
  | inl e ↦ ground (arith, h g, absent g.id from gs u.0)
  | inr e ↦ ground (arith, h g, hit-updated f to id from gs h u.1)
]

approve-Recorded :
    (id by : ℕ) (nonce signature : List ℕ) (caps : List Capability) (now : ℕ) (t : Tables)
    → UniqueIds t.grants
    → (Tables.approve_grant id by nonce signature caps now t).0 ≡ true
    → (status_of id t ≡ some pending)
      × (status_of id (Tables.approve_grant id by nonce signature caps now t).1 ≡ some approved)
      × Recorded id by nonce signature caps now t.grants
          (Tables.approve_grant id by nonce signature caps now t).1.grants
unfolding Tables.approve_grant
approve-Recorded id by nonce signature caps now t u h =
    let set = approved_row by nonce signature caps now in
    let (entry, was, undecided, becomes) = find-update set id pending t.grants (λ g. refl) u h in
    (
      hit-status id pending t.grants u h,
      hit-updated set approved id pending t.grants (λ g. (refl, refl)) u h,
      record {
        entry = entry;
        was = was;
        undecided = undecided;
        becomes = becomes;
        others = λ k ne. find-update_ne set id k pending t.grants (λ g. refl) ne;
      },
    )

-- The facts behind an approval: the row that the replica showed, the capabilities resolved from it,
-- and the answer.
pub record Approved (id now later : ℕ) (granted : Option (List Capability)) (db : Db)
    (g : CapabilityGrant) : Type 0 where
  pub row : GrantRow
  pub shown : CapabilityGrant
  pub found : Tables.get_grant id db.replica ≡ some row
  pub parsed : row_to_grant row ≡ ok shown
  pub was_pending : shown.status ≡ pending
  pub in_time : now ≤ shown.expires_at
  pub resolved : resolve shown.requested_capabilities granted ≡ ok g.requested_capabilities
  pub answer : g ≡ record shown {
    status = approved;
    approved_at = some later;
    requested_capabilities = g.requested_capabilities;
  }

approve_facts :
    (id by : ℕ) (nonce signature : List ℕ) (granted : Option (List Capability))
    (now db_now later : ℕ) (db : Db) (g : CapabilityGrant)
    → (approve_grant id by nonce signature granted now db_now later db).0 ≡ ok g
    → Approved id now later granted db g
      × ((Tables.approve_grant id by nonce signature g.requested_capabilities db_now db.primary).0
          ≡ true)
      × ((approve_grant id by nonce signature granted now db_now later db).1.primary
          ≡ (Tables.approve_grant id by nonce signature g.requested_capabilities db_now
              db.primary).1)
unfolding approve_grant get_grant
approve_facts id by nonce signature granted now db_now later db g h =
    elim (Option-cases (Tables.get_grant id db.replica)) [
      | inl e ↦ ground arith
      | inr (row, e) ↦ elim (Result-cases (row_to_grant row)) [
        | inr (x, f) ↦ ground arith
        | inl (shown, f) ↦ elim (Result-cases (resolve shown.requested_capabilities granted)) [
          | inr (x, r) ↦ ground arith
          | inl (caps, r) ↦ (
            record {
              row = row;
              shown = shown;
              found = e;
              parsed = f;
              was_pending = ground arith;
              in_time = ground arith;
              resolved = ground arith;
              answer = ground arith;
            },
            ground arith,
            ground arith,
          )
        ]
      ]
    ]

-- Where no two grants of the primary have one identifier, an approval that succeeds found the grant
-- pending on the primary and leaves it approved, with the approver, the nonce, the signature, the time of
-- the database and the capabilities of the answer, and no other grant changed; these capabilities were
-- resolved from a pending, unexpired grant that the replica showed.
pub approve_sound :
    (id by : ℕ) (nonce signature : List ℕ) (granted : Option (List Capability))
    (now db_now later : ℕ) (db : Db) (g : CapabilityGrant)
    → UniqueIds db.primary.grants
    → (approve_grant id by nonce signature granted now db_now later db).0 ≡ ok g
    → (status_of id db.primary ≡ some pending)
      × (status_of id (approve_grant id by nonce signature granted now db_now later db).1.primary
          ≡ some approved)
      × Recorded id by nonce signature g.requested_capabilities db_now db.primary.grants
          (approve_grant id by nonce signature granted now db_now later db).1.primary.grants
      × Approved id now later granted db g
approve_sound id by nonce signature granted now db_now later db g u h =
    let (facts, hit, e) = approve_facts id by nonce signature granted now db_now later db g h in
    let (before, after, kept) =
      approve-Recorded id by nonce signature g.requested_capabilities db_now db.primary u hit in
    (
      before,
      subst (λ t. status_of id t ≡ some approved) (sym e) after,
      subst
          (λ t.
            Recorded id by nonce signature g.requested_capabilities db_now db.primary.grants
              t.grants)
          (sym e) kept,
      facts,
    )
