-- ===== src/Archiver/Partition/Coverage.antt =====
-- The partitions that are made cover every day from today to the end of the advance window, and none
-- that is archived holds a day of the retention window.
use agent_auth.Prelude.{
  ℕ, zero, suc, ◌+◌, ◌≤◌, ◌<◌, ◌≡◌, refl, sym, subst, ◌⊎◌, inl, inr, Bool, true, false, Option,
  none, some, List, [], ◌∷◌, ◌++◌, arith, ltb, leb, if◌then◌else◌, leb→le, Bool-cases, Option-cases,
  any, All,
}
use agent_auth.Archiver.Partition.{
  Month, month_eq, PartitionInfo, Calendar, advance, within, months_until, with_target,
  partitions_to_create, partitions_to_archive,
}

abbrev pub Has : Month → List Month → Type 0
Has m [] = ⊥
Has m (x ∷ xs) = (m ≡ x) ⊎ Has m xs

Has-append : (m : Month) (xs ys : List Month) → Has m xs → Has m (xs ++ ys)
Has-append m [] ys h = absurd h
Has-append m (x ∷ xs) ys (inl e) = inl e
Has-append m (x ∷ xs) ys (inr h) = inr (Has-append m xs ys h)

module _ (c : Calendar) where
  -- The rounds that are left are enough, since each starts a later day.
  enough :
      (n target s : ℕ) (m : Month)
      → c.first_day m ≡ some s
      → s ≤ target
      → target < s + n
      → (ms : List Month) × (months_until c n target m ≡ some ms)
  unfolding months_until
  enough zero target s m e le lt = absurd (omega arith)
  enough (suc n) target s m e le lt = elim (Option-cases (c.first_day (advance m))) [
    | inl f ↦ (m ∷ [], rw f refl)
    | inr (d, f) ↦ elim (Bool-cases (leb d target)) [
      | inl g ↦
          let (ms, k) =
            enough n target d (advance m) f (leb→le d target g)
              (omega (arith, c.advance_later s d m e f)) in
          (m ∷ ms, rw (f, g, k) refl)
      | inr g ↦ (m ∷ [], rw (f, g) refl)
    ]
  ]

  -- From the month of today, one round more than the window has days.
  enough_today :
      (today days : ℕ)
      → (ms : List Month) × (months_until c (suc days) (today + days) (c.month_of today) ≡ some ms)
  unfolding months_until
  enough_today today days = elim (Option-cases (c.first_day (advance (c.month_of today)))) [
    | inl f ↦ (c.month_of today ∷ [], rw f refl)
    | inr (d, f) ↦ elim (Bool-cases (leb d (today + days))) [
      | inl g ↦
          let (ms, k) =
            enough days (today + days) d (advance (c.month_of today)) f (leb→le d (today + days) g)
              (omega (arith, c.advance_after today d f)) in
          (c.month_of today ∷ ms, rw (f, g, k) refl)
      | inr g ↦ (c.month_of today ∷ [], rw (f, g) refl)
    ]
  ]

  -- One round of the loop.
  round :
      (n target : ℕ) (m : Month) (ms : List Month)
      → months_until c (suc n) target m ≡ some ms
      → (rest : List Month) × (ms ≡ m ∷ rest)
        × (within c target (c.first_day (advance m)) ≡ true
            → months_until c n target (advance m) ≡ some rest)
  unfolding months_until
  round n target m ms k =
      go (within c target (c.first_day (advance m))) (months_until c n target (advance m)) k
    where
      go :
          (b : Bool) (o : Option (List Month))
          → (if b then (elim o [ none ↦ none | some xs ↦ some (m ∷ xs) ]) else some (m ∷ []))
            ≡ some ms
          → (rest : List Month) × (ms ≡ m ∷ rest) × (b ≡ true → o ≡ some rest)
      go true none e = absurd (ground arith)
      go true (some xs) e = (xs, ground arith, λ _. refl)
      go false o e = ([], ground arith, λ f. absurd (ground arith))

  covers :
      (n target d s : ℕ) (m : Month) (ms : List Month)
      → c.first_day m ≡ some s
      → s ≤ d
      → d ≤ target
      → months_until c n target m ≡ some ms
      → Has (c.month_of d) ms
  unfolding months_until
  covers zero target d s m ms e le lt k = absurd (ground arith)
  covers (suc n) target d s m ms e le lt k =
      let (rest, p, more) = round n target m ms k in
      subst (Has (c.month_of d)) (sym p) (elim (Option-cases (c.first_day (advance m))) [
        | inl f ↦ inl (c.month_of_unique d s m e le (λ x g. absurd (ground arith)))
        | inr (x, f) ↦ elim (Bool-cases (ltb d x)) [
          | inl g ↦ inl (c.month_of_unique d s m e le (λ y i. ground arith))
          | inr g ↦ inr (
              covers n target d x (advance m) rest f (ground arith) lt (more (rw f (ground arith))))
        ]
      ])

  with_target-Has :
      (m : Month) (target : ℕ) (ms : List Month) → Has m ms → Has m (with_target c target ms)
  unfolding with_target
  with_target-Has m target ms h =
      elim (c.first_day (c.month_of target))
        as (λ o. Has m (elim o [
          | none ↦ ms
          | some t ↦
              let entry = c.month_of t in if any (month_eq entry) ms then ms else ms ++ (entry ∷ [])
        ])) [
          | none ↦ h
          | some t ↦
              elim (any (month_eq (c.month_of t)) ms)
                as (λ b. Has m (if b then ms else ms ++ (c.month_of t ∷ []))) [
                  | true ↦ h
                  | false ↦ Has-append m ms (c.month_of t ∷ []) h
                ]
        ]

  -- The loop ends, and the partitions to create have the month of every day from today to the end of
  -- the advance window.
  pub creates_cover :
      (today advance_days : ℕ)
      → (ms : List Month) × (partitions_to_create c today advance_days ≡ some ms)
        × ((d : ℕ) → today ≤ d → d ≤ today + advance_days → Has (c.month_of d) ms)
  unfolding partitions_to_create
  creates_cover today advance_days =
      let (ms, k) = enough_today today advance_days in
      let (s, e, le) = c.first_day-month_of today in
      (
        with_target c (today + advance_days) ms,
        rw (k, partitions_to_create) refl,
        λ d ge lt. with_target-Has (c.month_of d) (today + advance_days) ms (
            covers (suc advance_days) (today + advance_days) d s (c.month_of today) ms e
              (omega arith) lt k),
      )

-- A day of the retention window, or a later one, is in no partition that is archived.
pub archives_old :
    (partitions : List PartitionInfo) (today hot_retention_days d : ℕ)
    → today ≤ d + hot_retention_days
    → All (λ p. p.range_end ≤ d) (partitions_to_archive partitions today hot_retention_days)
unfolding partitions_to_archive
archives_old [] today hot d lt = tt
archives_old (p ∷ ps) today hot d lt = ground (arith, archives_old ps today hot d lt)
