-- ===== src/Sdk/Retry.antt =====
-- crates/sdk/src/retry.rs: the loop over attempts. The operation is a parameter, a function on
-- whatever state it acts on; the waits between attempts and the logs leave no trace.
use agent_auth.Prelude.{
  ℕ, zero, suc, ◌+◌, ◌%◌, ◌≤◌, ◌<◌, ◌≡◌, refl, sym, ap, subst, ◌∙◌, ◌⊎◌, inl, inr, Bool, true,
  false, not, Option, none, some, arith, if◌then◌else◌, Bool-cases, Result, ok, err,
}
use agent_auth.Sdk.Error.{SdkError, internal_error, is_transient}

abbrev pub u32_mod : ℕ
u32_mod = 4_294_967_296

-- `last_error.unwrap_or_else(…)`
abbrev last_or : Option SdkError → SdkError
last_or none = internal_error "No attempts made"
last_or (some e) = e

module _ {S A : Type 0} (operation : S → Result SdkError A × S) where
  -- What becomes of one attempt: `again` is the rest of the loop.
  abbrev judge : (SdkError → Result SdkError A × S) → Result SdkError A → S → Result SdkError A × S
  judge again (ok a) s = (ok a, s)
  judge again (err e) s = if not (is_transient e) then (err e, s) else again e

  -- `for attempt in 0..max_attempts`, with the attempts that are left.
  unfoldable pub attempts : ℕ → Option SdkError → S → Result SdkError A × S
  attempts zero last s = (err (last_or last), s)
  attempts (suc n) last s =
      judge (λ e. attempts n (some e) (operation s).1) (operation s).0 (operation s).1

  -- The sum is that of u32, which wraps.
  unfoldable pub with_retry : ℕ → S → Result SdkError A × S
  unfolding attempts
  with_retry max_attempts s = attempts ((max_attempts + 1) % u32_mod) none s

  -- The result ends the loop: a success or an error that is not transient.
  abbrev pub is_final : Result SdkError A → Bool
  is_final (ok a) = true
  is_final (err e) = not (is_transient e)

  -- The state after some calls.
  abbrev pub after : ℕ → S → S
  after zero s = s
  after (suc k) s = after k (operation s).1

  -- The first k calls all fail with transient errors.
  abbrev pub FailsTransiently : ℕ → S → Type 0
  FailsTransiently zero s = Unit
  FailsTransiently (suc k) s =
      (is_final (operation s).0 ≡ false) × FailsTransiently k (operation s).1

  abbrev pub Outcome : ℕ → S → Result SdkError A × S → Type 0
  Outcome n s r =
      (k : ℕ) × (k ≤ n)
      × FailsTransiently k s
      × (r ≡ operation (after k s))
      × ((k ≡ n) ⊎ (is_final (operation (after k s)).0 ≡ true))

  judge-final :
      (again : SdkError → Result SdkError A × S) (q : Result SdkError A) (s : S)
      → is_final q ≡ true
      → judge again q s ≡ (q, s)
  judge-final again (ok a) s f = refl
  judge-final again (err e) s f = rw f refl

  judge-again :
      (again : SdkError → Result SdkError A × S) (q : Result SdkError A) (s : S)
      → is_final q ≡ false
      → (e : SdkError) × (q ≡ err e) × (judge again q s ≡ again e)
  judge-again again (ok a) s f = ground arith
  judge-again again (err e) s f = (e, refl, rw f refl)

  attempts-Outcome :
      (n : ℕ) (last : Option SdkError) (s : S) → Outcome n s (attempts (suc n) last s)
  unfolding attempts
  attempts-Outcome zero last s = elim (Bool-cases (is_final (operation s).0)) [
    | inl f ↦ (0, omega arith, tt, judge-final _ (operation s).0 (operation s).1 f, inl refl)
    | inr f ↦
        let (e, x, y) =
          judge-again (λ e. attempts 0 (some e) (operation s).1) (operation s).0 (operation s).1
            f in
        (
          0,
          omega arith,
          tt,
          y ∙ ap (λ (q : Result SdkError A). (q, (operation s).1)) (sym x),
          inl refl,
        )
  ]
  attempts-Outcome (suc n) last s = elim (Bool-cases (is_final (operation s).0)) [
    | inl f ↦ (0, omega arith, tt, judge-final _ (operation s).0 (operation s).1 f, inr f)
    | inr f ↦
        let (e, x, y) =
          judge-again (λ e. attempts (suc n) (some e) (operation s).1) (operation s).0
            (operation s).1 f in
        let (k, le, fails, same, why) = attempts-Outcome n (some e) (operation s).1 in
        (
          suc k,
          omega (arith, le),
          (f, fails),
          y ∙ same,
          ended k n (is_final (operation (after k (operation s).1)).0 ≡ true) why,
        )
  ]
    where
      ended : (k n : ℕ) (P : Type 0) → (k ≡ n) ⊎ P → (suc k ≡ suc n) ⊎ P
      ended k n P (inl e) = inl (ap suc e)
      ended k n P (inr p) = inr p

  -- With fewer than 2^32 - 1 retries, the loop returns the outcome of some call, at most as many
  -- after the first as there are retries: every call before it failed with a transient error, and
  -- it succeeded, failed with an error that is not transient, or was the last one allowed.
  pub with_retry-Outcome :
      (max_attempts : ℕ) (s : S)
      → max_attempts + 1 < u32_mod
      → Outcome max_attempts s (with_retry max_attempts s)
  unfolding with_retry
  with_retry-Outcome max_attempts s small =
      let e : (max_attempts + 1) % u32_mod ≡ suc max_attempts = omega (arith, small) in
      subst (λ n. Outcome max_attempts s (attempts n none s)) (sym e)
        (attempts-Outcome max_attempts none s)
