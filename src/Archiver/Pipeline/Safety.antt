-- ===== src/Archiver/Pipeline/Safety.antt =====
-- No run drops events that were not written to cold storage: a partition that holds events keeps them
-- until an object stands under its key.
use agent_auth.Prelude.{
  ℕ, zero, suc, ◌-◌, ◌≡◌, refl, sym, subst, ◌∙◌, ◌⊎◌, inl, inr, Bool, true, false, Option, none,
  some, List, [], ◌∷◌, ◌++◌, arith, if◌then◌else◌, ==_iff, Bool-cases, length,
}
use agent_auth.Archiver.Partition.{
  Month, month_eq, PartitionInfo, Calendar, partitions_to_create, partitions_to_archive,
}
use agent_auth.Archiver.Pipeline.{
  Parquet, Table, Object, Archive, chunks, prepend, total, find_table, detached, is_there,
  archive_single_partition, archive_all, ensure_partition, ensure_all, ensure_future_partitions,
  archive_expired, run_pipeline, ensure_needed, archive_listed, then_act, RetentionConfig,
  list_partitions, next, order_by_name, infos,
}
use agent_auth.Archiver.Pipeline.Writes.{
  After, answered, Droppable, dropped, stored, archive_cases, ensure_cases,
}

total-prepend : {A : Type 0} (x : A) (cs : List (List A)) → total (prepend x cs) ≡ suc (total cs)
total-prepend x [] = refl
total-prepend x (c ∷ cs) = omega arith

-- The batches of an export have all its rows.
pub total-chunks :
    {A : Type 0} (size room : ℕ) (xs : List A) → total (chunks size room xs) ≡ length xs
unfolding chunks
total-chunks size room [] = refl
total-chunks size room (x ∷ []) = refl
total-chunks size zero (x ∷ y ∷ xs) = omega (arith, total-chunks size (size - 1) (y ∷ xs))
total-chunks size (suc n) (x ∷ y ∷ xs) =
    omega (arith, total-prepend x (chunks size n (y ∷ xs)), total-chunks size n (y ∷ xs))

month_eq_iff : (a b : Month) → (month_eq a b ≡ true) → a ≡ b
month_eq_iff a b e = ground (arith, ==_iff a.year b.year, ==_iff a.month b.month)

module _ (q : Parquet) where
  -- The rows of a table, if there is one of that name.
  abbrev pub rows_in : Month → List (Table q) → Option (List q.Row)
  rows_in m [] = none
  rows_in m (t ∷ ts) = if month_eq t.name m then some t.rows else rows_in m ts

  rows_in-find :
      (m : Month) (ts : List (Table q)) (t : Table q)
      → find_table q m ts ≡ some t
      → rows_in m ts ≡ some t.rows
  rows_in-find m [] t e = ground arith
  rows_in-find m (x ∷ ts) t e = ground (arith, rows_in-find m ts t)

  rows_in-detached :
      (m k : Month) (ts : List (Table q)) → rows_in m (detached q k ts) ≡ rows_in m ts
  rows_in-detached m k [] = refl
  rows_in-detached m k (t ∷ ts) = ground (arith, rows_in-detached m k ts)

  rows_in-dropped :
      (m k : Month) (ts : List (Table q))
      → month_eq m k ≡ false
      → rows_in m (dropped q k ts) ≡ rows_in m ts
  rows_in-dropped m k [] e = refl
  rows_in-dropped m k (t ∷ ts) e = elim (Bool-cases (month_eq t.name m)) [
    | inl f ↦ ground (arith, subst (λ x. month_eq x k ≡ false) (sym (month_eq_iff t.name m f)) e)
    | inr f ↦ ground (arith, rows_in-dropped m k ts e)
  ]

  rows_in-append :
      (m : Month) (rows : List q.Row) (ts us : List (Table q))
      → rows_in m ts ≡ some rows
      → rows_in m (ts ++ us) ≡ some rows
  rows_in-append m rows [] us e = ground arith
  rows_in-append m rows (t ∷ ts) us e = ground (arith, rows_in-append m rows ts us)

  module _ (m : Month) (row : q.Row) (more : List q.Row) where
    -- The events of the month are in their table, or an object stands under its key.
    abbrev pub Holds : List (Table q) → (Month → Option (Object q)) → Type 0
    Holds ts objects = (rows_in m ts ≡ some (row ∷ more)) ⊎ (is_there q (objects m) ≡ true)

    droppable :
        (k : Month) (s : Archive q)
        → Holds s.tables s.objects
        → (month_eq m k ≡ true → is_there q (s.objects m) ≡ true)
        → Droppable q Holds k s
    droppable k s (inr e) safe = (inr e, inr e, inr e)
    droppable k s (inl e) safe = (
      inl e,
      inl (rows_in-detached m k s.tables ∙ e),
      elim (Bool-cases (month_eq m k)) [
        | inl f ↦ inr (safe f)
        | inr f ↦
            inl (rows_in-dropped m k (detached q k s.tables) f ∙ rows_in-detached m k s.tables ∙ e)
      ],
    )

    -- A table that is exported with no row is not that of the month.
    empty-other :
        (k : Month) (s : Archive q) (t : Table q)
        → Holds s.tables s.objects
        → find_table q k s.tables ≡ some t
        → total (chunks 1000 999 t.rows) ≡ 0
        → month_eq m k ≡ true
        → is_there q (s.objects m) ≡ true
    empty-other k s t (inr e) f z g = e
    empty-other k s t (inl e) f z g =
        let found =
          subst (λ j. rows_in j s.tables ≡ some t.rows) (sym (month_eq_iff m k g))
            (rows_in-find k s.tables t f) in
        absurd (ground (arith, total-chunks 1000 999 t.rows))

    stored-Holds :
        (k : Month) (x : Object q) (s : Archive q)
        → Holds s.tables s.objects
        → Holds s.tables (stored q k x s.objects)
    stored-Holds k x s h = ground arith

    archive-Holds :
        (k : Month) (s : Archive q)
        → Holds s.tables s.objects
        → After q Holds k (archive_single_partition q k s).1
    archive-Holds k s h =
        archive_cases q Holds k s h
          (λ e.
            droppable k s h
              (λ g. subst (λ j. is_there q (s.objects j) ≡ true) (sym (month_eq_iff m k g)) e))
          (λ t f z. droppable k s h (empty-other k s t h f z))
          (λ x.
            droppable k (record s { objects = stored q k x s.objects }) (stored-Holds k x s h)
              (λ g. rw g refl))

    abbrev Good : Archive q → Type 0
    Good s = Holds s.tables s.objects

    archive_all-Good :
        (shutdown : List Bool) (ps : List PartitionInfo) (s : Archive q)
        → Good s
        → Good (archive_all q shutdown ps s).1
    unfolding archive_all
    archive_all-Good bs [] s h = h
    archive_all-Good [] (p ∷ ps) s h = archive_all-Good [] ps _ (archive-Holds p.name s h)
    archive_all-Good (true ∷ bs) (p ∷ ps) s h = h
    archive_all-Good (false ∷ bs) (p ∷ ps) s h = archive_all-Good bs ps _ (archive-Holds p.name s h)

    ensure_all-Good :
        (c : Calendar) (ms : List Month) (s : Archive q) → Good s → Good (ensure_all q c ms s).1
    unfolding ensure_partition
    ensure_all-Good c [] s h = h
    ensure_all-Good c (k ∷ ms) s h =
        ensure_all-Good c ms _ (ensure_cases q Holds k c s h (λ e. appended k s h))
      where
        appended :
            (k : Month) (s : Archive q)
            → Holds s.tables s.objects
            → Holds (s.tables ++ (record { name = k; attached = true; rows = [] } ∷ [])) s.objects
        appended k s (inl e) = inl (rows_in-append m (row ∷ more) s.tables _ e)
        appended k s (inr e) = inr e

    ensure-Good :
        (c : Calendar) (config : RetentionConfig) (today : ℕ) (s : Archive q)
        → Good s
        → Good (ensure_future_partitions q c config today s).1
    unfolding ensure_future_partitions
    ensure-Good c config today s h = go (partitions_to_create c today config.advance_partition_days)
      where
        go : (o : Option (List Month)) → Good (ensure_needed q c o s).1
        go none = h
        go (some needed) = ensure_all-Good c needed s h

    listed-Good :
        (c : Calendar) (shutdown : List Bool) (ps : List PartitionInfo) (s : Archive q)
        → Good s
        → Good (archive_listed q c shutdown ps s).1
    unfolding archive_listed
    listed-Good c shutdown [] s h = h
    listed-Good c shutdown (p ∷ ps) s h =
        answered q Good (λ (_ : Unit {0}). archive_all q shutdown (p ∷ ps)) (s.fault 0) tt
          (next q s) (next q s) h h (archive_all-Good shutdown (p ∷ ps) (next q s) h)

    expired-Good :
        (c : Calendar) (config : RetentionConfig) (today : ℕ) (shutdown : List Bool) (s : Archive q)
        → Good s
        → Good (archive_expired q c config today shutdown s).1
    unfolding archive_expired list_partitions
    expired-Good c config today shutdown s h =
        answered q Good
          (λ existing.
            archive_listed q c shutdown
              (partitions_to_archive existing today config.hot_retention_days))
          (s.fault 0) (order_by_name q c (infos q c s.tables)) (next q s) (next q s) h h
          (listed-Good c shutdown _ (next q s) h)

    then-Good :
        (k : Archive q → Option (Unit {0}) × Archive q) (o : Option (Unit {0})) (s : Archive q)
        → ((s' : Archive q) → Good s' → Good (k s').1)
        → Good s
        → Good (then_act q o s (λ _. k)).1
    then-Good k none s f h = h
    then-Good k (some x) s f h = f s h

    -- Over a whole run, whichever calls fail or lose their answer, and whenever a shutdown is asked
    -- for: the events of a month that stood in a table still stand there, or an object stands in
    -- cold storage under the key of the month.
    pub nothing_lost :
        (c : Calendar) (config : RetentionConfig) (today : ℕ) (first second : Bool)
        (shutdown : List Bool) (s : Archive q)
        → rows_in m s.tables ≡ some (row ∷ more)
        → let s' = (run_pipeline q c config today first second shutdown s).1 in
          (rows_in m s'.tables ≡ some (row ∷ more)) ⊎ (is_there q (s'.objects m) ≡ true)
    unfolding run_pipeline
    nothing_lost c config today true second shutdown s h = inl h
    nothing_lost c config today false true shutdown s h = ensure-Good c config today s (inl h)
    nothing_lost c config today false false shutdown s h =
        then-Good (archive_expired q c config today shutdown)
          (ensure_future_partitions q c config today s).0
          (ensure_future_partitions q c config today s).1 (expired-Good c config today shutdown)
          (ensure-Good c config today s (inl h))
