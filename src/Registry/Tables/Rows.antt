-- ===== src/Registry/Tables/Rows.antt =====
-- Lemmas on the statements: what an update or an insertion does to the state of each grant, or to
-- what a table of any rows says of an identifier.
use agent_auth.Prelude.{
  ℕ, ◌≡◌, refl, ◌↔◌, ◌⊎◌, inl, Bool, true, Option, none, some, List, [], ◌∷◌, ◌++◌, arith, ◌==◌,
  if◌then◌else◌,
}
use agent_auth.Core.Token.{GrantStatus, status_eq}
use agent_auth.Registry.Tables.{GrantEntry, update_rows, is_at}

-- The state of a grant, as far as its row is there.
abbrev pub status_in : ℕ → List GrantEntry → Option GrantStatus
status_in id [] = none
status_in id (g ∷ gs) = if g.id == id then some g.status else status_in id gs

pub status_eq_iff : (a b : GrantStatus) → (status_eq a b ≡ true) ↔ (a ≡ b)
status_eq_iff a b = ground arith

-- An update of the rows of one grant that are in one state moves that grant alone.
pub status_in-update :
    (f : GrantEntry → GrantEntry) (to from : GrantStatus) (k id : ℕ) (gs : List GrantEntry)
    → ((g : GrantEntry) → ((f g).id ≡ g.id) × ((f g).status ≡ to))
    → (status_in id (update_rows (is_at k from) f gs) ≡ status_in id gs)
      ⊎ ((id ≡ k)
          × (status_in id gs ≡ some from)
          × (status_in id (update_rows (is_at k from) f gs) ≡ some to))
status_in-update f to from k id [] h = inl refl
status_in-update f to from k id (g ∷ gs) h =
    ground (arith, h g, status_eq_iff g.status from, status_in-update f to from k id gs h)

pub status_in-append :
    (id : ℕ) (gs : List GrantEntry) (g : GrantEntry)
    → status_in id (gs ++ (g ∷ [])) ≡ elim (status_in id gs) [
      | none ↦ if g.id == id then some g.status else none
      | some s ↦ some s
    ]
status_in-append id [] g = ground arith
status_in-append id (x ∷ gs) g = ground (arith, status_in-append id gs g)

-- What a table says of an identifier: the state of its first row.
module _ {A B : Type 0} (key : A → ℕ) (state : A → B) where
  abbrev pub first_in : ℕ → List A → Option B
  first_in id [] = none
  first_in id (x ∷ xs) = if key x == id then some (state x) else first_in id xs

  -- An update of rows of one identifier, from one state to another.
  pub first_in-update :
      (p : A → Bool) (f : A → A) (from to : B) (k id : ℕ) (xs : List A)
      → ((x : A) → key (f x) ≡ key x)
      → ((x : A) → p x ≡ true → (key x ≡ k) × (state x ≡ from) × (state (f x) ≡ to))
      → (first_in id (update_rows p f xs) ≡ first_in id xs)
        ⊎ ((id ≡ k) × (first_in id xs ≡ some from) × (first_in id (update_rows p f xs) ≡ some to))
  first_in-update p f from to k id [] h u = inl refl
  first_in-update p f from to k id (x ∷ xs) h u =
      ground (arith, h x, u x, first_in-update p f from to k id xs h u)

  pub first_in-append :
      (id : ℕ) (xs : List A) (x : A)
      → (first_in id (xs ++ (x ∷ [])) ≡ first_in id xs)
        ⊎ ((id ≡ key x) × (first_in id xs ≡ none) × (first_in id (xs ++ (x ∷ [])) ≡ some (state x)))
  first_in-append id [] x = ground arith
  first_in-append id (y ∷ xs) x = ground (arith, first_in-append id xs x)
