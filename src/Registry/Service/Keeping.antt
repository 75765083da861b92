-- ===== src/Registry/Service/Keeping.antt =====
-- How a predicate on a state goes through the programs of Registry/Db, for any state.
use agent_auth.Prelude.{◌≡◌, refl, Bool, true, false, if◌then◌else◌, Result, ok, err}
use agent_auth.Registry.Error.{RegistryError}
use agent_auth.Registry.Db.{Prog, ◌>>=◌, continue}

module _ {S : Type 0} where
  -- Whatever it answers, the program leaves a state in which `P` holds again.
  abbrev pub Keeps : {A : Type 0} → (P : S → Type 0) → Prog S A → Type 0
  Keeps P m = (s : S) → P s → P (m s).1

  continue-Keeps :
      {A B : Type 0} (P : S → Type 0) (x : Result RegistryError A) (s : S) (f : A → Prog S B)
      → P s
      → ((a : A) → x ≡ ok a → P (f a s).1)
      → P (continue x s f).1
  continue-Keeps P (ok a) s f p k = k a refl
  continue-Keeps P (err e) s f p k = p

  -- After its first part, which may end it, and after its second.
  pub bind-after :
      {A B : Type 0} (P : S → Type 0) (m : Prog S A) (f : A → Prog S B) (s : S)
      → P (m s).1
      → ((a : A) → (m s).0 ≡ ok a → P (f a (m s).1).1)
      → P ((m >>= f) s).1
  bind-after P m f s = continue-Keeps P (m s).0 (m s).1 f

  -- A second part that keeps `P`.
  pub bind-then :
      {A B : Type 0} (P : S → Type 0) (m : Prog S A) (f : A → Prog S B) (s : S)
      → P (m s).1
      → ((a : A) → Keeps P (f a))
      → P ((m >>= f) s).1
  bind-then P m f s p k = bind-after P m f s p (λ a e. k a (m s).1 p)

  pub bind-Keeps :
      {A B : Type 0} (P : S → Type 0) (m : Prog S A) (f : A → Prog S B)
      → Keeps P m
      → ((a : A) → Keeps P (f a))
      → Keeps P (m >>= f)
  bind-Keeps P m f k l s p = bind-then P m f s (k s p) l

  -- Both branches of a test.
  pub if-Keeps :
      {A : Type 0} (P : S → Type 0) (b : Bool) (m n : Prog S A)
      → Keeps P m
      → Keeps P n
      → Keeps P (if b then m else n)
  if-Keeps P true m n k l = k
  if-Keeps P false m n k l = l
