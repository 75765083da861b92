-- ===== src/Registry/Service/Authority.antt =====
-- What the registry promises, apart from how it keeps it: an authority that knows which agents
-- are active, what became of each grant, and which tokens are withdrawn.
use agent_auth.Prelude.{
  ℕ, ◌≡◌, sym, subst, ◌≢◌, inl, inr, Bool, true, false, Option, none, some, arith, ◌==◌,
  if◌then◌else◌, ==_iff, Bool-cases,
}
use agent_auth.Core.Token.{GrantStatus}
use agent_auth.Registry.Grants.Status.{◌⟶◌, Allows, ⟶-Allows, Allows-refl}

pub record Authority : Type 0 where
  -- Whether an agent is active.
  pub agent : ℕ → Option Bool
  pub grant : ℕ → Option GrantStatus
  -- Whether a token is withdrawn.
  pub token : ℕ → Option Bool

-- A map with another entry.
abbrev pub put : {B : Type 0} → ℕ → B → (ℕ → Option B) → ℕ → Option B
put k b m id = if id == k then some b else m id

-- What the authority may do in one step.
infix 40 ◌⇝◌
pub data ◌⇝◌ (a : Authority) : Authority → Type 0 where
  idle : {b : Authority} → b ≡ a → a ⇝ b
  enrols :
      {b : Authority} (id : ℕ)
      → a.agent id ≡ none
      → b ≡ record a { agent = put id true a.agent }
      → a ⇝ b
  retires :
      {b : Authority} (id : ℕ)
      → a.agent id ≡ some true
      → b ≡ record a { agent = put id false a.agent }
      → a ⇝ b
  decides :
      {b : Authority} (id : ℕ) (s : GrantStatus)
      → (a.grant id ⟶ some s)
      → b ≡ record a { grant = put id s a.grant }
      → a ⇝ b
  issues :
      {b : Authority} (id : ℕ)
      → a.token id ≡ none
      → b ≡ record a { token = put id false a.token }
      → a ⇝ b
  withdraws :
      {b : Authority} (id : ℕ)
      → a.token id ≡ some false
      → b ≡ record a { token = put id true a.token }
      → a ⇝ b

-- Any number of steps.
infix 40 ◌⇝*◌
pub data ◌⇝*◌ : Authority → Authority → Type 0 where
  done : {a : Authority} → a ⇝* a
  one_more : {a b c : Authority} → (a ⇝ b) → (b ⇝* c) → a ⇝* c

-- An agent that is there stays there, and an inactive one stays inactive.
abbrev pub Falls : Option Bool → Option Bool → Type 0
Falls none later = Unit
Falls (some true) later = later ≢ none
Falls (some false) later = later ≡ some false

-- A token that is there stays there, and a withdrawn one stays withdrawn.
abbrev pub Rises : Option Bool → Option Bool → Type 0
Rises none later = Unit
Rises (some false) later = later ≢ none
Rises (some true) later = later ≡ some true

-- What holds of any later authority.
pub record After (a b : Authority) : Type 0 where
  pub agents : (id : ℕ) → Falls (a.agent id) (b.agent id)
  pub grants : (id : ℕ) → Allows (a.grant id) (b.grant id)
  pub tokens : (id : ℕ) → Rises (a.token id) (b.token id)

-- Before an entry is put, where the new entry and those left alone allow what comes later.
put-before :
    {B : Type 0} (R : Option B → Option B → Type 0) (k : ℕ) (x : B) (m : ℕ → Option B) (id : ℕ)
    (later : Option B)
    → (R (some x) later → R (m k) later)
    → R (put k x m id) later
    → R (m id) later
put-before R k x m id later f p = elim (Bool-cases (id == k)) [
  | inl e ↦
      subst (λ j. R (m j) later) (sym ((==_iff id k).0 e))
        (f (subst (λ b. R (if b then some x else m id) later) e p))
  | inr e ↦ subst (λ b. R (if b then some x else m id) later) e p
]

Falls-refl : (s : Option Bool) → Falls s s
Falls-refl s = ground arith

Rises-refl : (s : Option Bool) → Rises s s
Rises-refl s = ground arith

After-refl : (a : Authority) → After a a
After-refl a = record {
  agents = λ id. Falls-refl (a.agent id);
  grants = λ id. Allows-refl (a.grant id);
  tokens = λ id. Rises-refl (a.token id);
}

step-After : {a b : Authority} (c : Authority) → (a ⇝ b) → After b c → After a c
step-After {a} c (idle e) w = subst (λ b. After b c) e w
step-After {a} c (enrols id p e) w =
    let v = subst (λ b. After b c) e w in
    record {
      agents = λ k. put-before Falls id true a.agent k (c.agent k) (λ _. rw p tt) (v.agents k);
      grants = v.grants;
      tokens = v.tokens;
    }
step-After {a} c (retires id p e) w =
    let v = subst (λ b. After b c) e w in
    record {
      agents = λ k.
          put-before Falls id false a.agent k (c.agent k) (λ f. rw p (ground arith)) (v.agents k);
      grants = v.grants;
      tokens = v.tokens;
    }
step-After {a} c (decides id s p e) w =
    let v = subst (λ b. After b c) e w in
    record {
      agents = v.agents;
      grants =
          λ k. put-before Allows id s a.grant k (c.grant k) (⟶-Allows (c.grant k) p) (v.grants k);
      tokens = v.tokens;
    }
step-After {a} c (issues id p e) w =
    let v = subst (λ b. After b c) e w in
    record {
      agents = v.agents;
      grants = v.grants;
      tokens = λ k. put-before Rises id false a.token k (c.token k) (λ _. rw p tt) (v.tokens k);
    }
step-After {a} c (withdraws id p e) w =
    let v = subst (λ b. After b c) e w in
    record {
      agents = v.agents;
      grants = v.grants;
      tokens = λ k.
          put-before Rises id true a.token k (c.token k) (λ f. rw p (ground arith)) (v.tokens k);
    }

-- The authority keeps its word: over any steps, no agent, grant or token disappears, an inactive
-- agent and a withdrawn token stay so, and a grant is decided at most once.
pub ⇝*-After : {a b : Authority} → (a ⇝* b) → After a b
⇝*-After {a} done = After-refl a
⇝*-After (one_more s r) = step-After _ s (⇝*-After r)
