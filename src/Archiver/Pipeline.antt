-- ===== src/Archiver/Pipeline.antt =====
-- services/audit-archiver/src/main.rs, with the statements of partition.rs, the export of export.rs and
-- the calls of storage.rs: the pipeline of one run. The conversion of rows to record batches and the
-- writing of a Parquet file are parameters. The advisory lock lets one archiver run at a time.
pub mod Writes
pub mod Safety
pub mod Loss
use agent_auth.Prelude.{
  ℕ, zero, suc, ◌+◌, ◌-◌, Bool, true, false, not, ◌&&◌, ◌||◌, Option, none, some, List, [], ◌∷◌,
  ◌++◌, ltb, leb, ◌==◌, if◌then◌else◌, length, keep,
}
use agent_auth.Registry.Db.{Fault, answers, lost_before, lost_after}
use agent_auth.Archiver.Partition.{
  Month, month_eq, PartitionInfo, Calendar, advance, partitions_to_create, partitions_to_archive,
}

-- The libraries that make a file of rows, and the type of a row.
pub record Parquet : Type 1 where
  pub Row : Type 0
  pub Batch : Type 0
  pub File : Type 0
  -- `rows_to_record_batch`
  pub rows_to_record_batch : List Row → Option Batch
  -- `write_parquet`
  pub write_parquet : List Batch → Option File

-- The counters of the run, which are far from their bounds.
pub record PipelineResult : Type 0 where
  pub partitions_created : ℕ  -- u32
  pub partitions_archived : ℕ  -- u32
  pub partitions_skipped : ℕ  -- u32
  pub total_rows_exported : ℕ  -- u64

pub record RetentionConfig : Type 0 where
  pub hot_retention_days : ℕ  -- u32
  pub advance_partition_days : ℕ  -- u32

-- `slice.chunks(size)` of a positive size: `room` is what is left of the current chunk.
module _ {A : Type 0} where
  abbrev prepend : A → List (List A) → List (List A)
  prepend x [] = (x ∷ []) ∷ []
  prepend x (c ∷ cs) = (x ∷ c) ∷ cs

  unfoldable pub chunks : (size room : ℕ) → List A → List (List A)
  chunks size room [] = []
  chunks size room (x ∷ []) = (x ∷ []) ∷ []
  chunks size zero (x ∷ y ∷ xs) = (x ∷ []) ∷ chunks size (size - 1) (y ∷ xs)
  chunks size (suc n) (x ∷ y ∷ xs) = prepend x (chunks size n (y ∷ xs))

-- `filter_map(… .ok())`
abbrev pub collect_ok : {A B : Type 0} → (A → Option B) → List A → List B
collect_ok f [] = []
collect_ok f (x ∷ xs) = elim (f x) [ none ↦ collect_ok f xs | some y ↦ y ∷ collect_ok f xs ]

-- The sum of the lengths of the batches.
abbrev pub total : {A : Type 0} → List (List A) → ℕ
total [] = 0
total (b ∷ bs) = length b + total bs

module _ (q : Parquet) where
  open q use {Row, Batch, File, rows_to_record_batch, write_parquet}

  -- A table of audit events, attached to the parent table or not.
  pub record Table : Type 0 where
    pub name : Month
    pub attached : Bool
    pub rows : List Row

  -- An object in cold storage, with its metadata.
  pub record Object : Type 0 where
    pub file : File
    pub row_count : ℕ

  -- The database, the storage and the counters, and the fate of the next calls.
  pub record Archive : Type 0 where
    pub tables : List Table
    pub objects : Month → Option Object
    pub result : PipelineResult
    pub fault : ℕ → Fault

  -- A part of the run that may return early, with `none`.
  abbrev pub Act : Type 0 → Type 0
  Act A = Archive → Option A × Archive

  abbrev pub then_act : {A B : Type 0} → Option A → Archive → (A → Act B) → Option B × Archive
  then_act none s f = (none, s)
  then_act (some a) s f = f a s

  infixl 5 ◌>>=◌ ◌>>◌
  abbrev pub ◌>>=◌ : {A B : Type 0} → Act A → (A → Act B) → Act B
  ◌>>=◌ m f s = then_act (m s).0 (m s).1 f

  abbrev pub ◌>>◌ : {B : Type 0} → Act (Unit {0}) → Act B → Act B
  m >> k = m >>= λ _. k

  abbrev pub done : {A : Type 0} → A → Act A
  done a s = (some a, s)

  abbrev pub return_early : {A : Type 0} → Act A
  return_early s = (none, s)

  -- The caller goes on, whether the part returned early or not.
  abbrev pub attempt : {A : Type 0} → Act A → Act (Unit {0})
  attempt m s = (some tt, (m s).1)

  -- A call outside: it takes effect or fails, and its answer may be lost.
  abbrev pub outcome : {A : Type 0} → Fault → Option (A × Archive) → Archive → Option A × Archive
  outcome answers (some (a, s')) s = (some a, s')
  outcome lost_after (some (a, s')) s = (none, s')
  outcome lost_before (some x) s = (none, s)
  outcome f none s = (none, s)

  abbrev pub next : Archive → Archive
  next s = record s { fault = λ n. s.fault (suc n) }

  abbrev pub call : {A : Type 0} → (Archive → Option (A × Archive)) → Act A
  call f s = outcome (s.fault 0) (f (next s)) (next s)

  abbrev pub is_there : Option Object → Bool
  is_there none = false
  is_there (some o) = true

  -- `exists(key)`; the key of a partition is made from its name.
  exists_object : Month → Act Bool
  exists_object m = call (λ s. some (is_there (s.objects m), s))

  upload : Month → File → ℕ → Act (Unit {0})
  upload m file row_count = call (λ s. some (
    tt,
    record s {
      objects = λ k.
          if month_eq k m
          then some (record { file = file; row_count = row_count })
          else s.objects k;
    },
  ))

  abbrev pub find_table : Month → List Table → Option Table
  find_table m [] = none
  find_table m (t ∷ ts) = if month_eq t.name m then some t else find_table m ts

  -- SELECT … FROM the table, cut into batches.
  export_partition : Month → ℕ → Act (List (List Row))
  unfolding chunks
  export_partition m batch_size = call (λ s. elim (find_table m s.tables) [
    | none ↦ none
    | some t ↦ some (chunks batch_size (batch_size - 1) t.rows, s)
  ])

  abbrev detached : Month → List Table → List Table
  detached m [] = []
  detached m (t ∷ ts) =
      (if month_eq t.name m then record t { attached = false } else t) ∷ detached m ts

  abbrev is_attached : Option Table → Bool
  is_attached none = false
  is_attached (some t) = t.attached

  -- ALTER TABLE … DETACH PARTITION … CONCURRENTLY, an error for a table that is not attached. Its two
  -- transactions are taken as one call, so the state in between, detach pending, does not appear.
  detach_partition : Month → Act (Unit {0})
  detach_partition m = call (λ s.
      if is_attached (find_table m s.tables)
      then some (tt, record s { tables = detached m s.tables })
      else none)

  -- DROP TABLE IF EXISTS
  drop_partition : Month → Act (Unit {0})
  drop_partition m =
      call (λ s. some (tt, record s { tables = keep (λ t. not (month_eq t.name m)) s.tables }))

  drop_partition_with_warning : Month → Act (Unit {0})
  unfolding detach_partition drop_partition
  drop_partition_with_warning m = attempt (detach_partition m >> drop_partition m)

  abbrev pub count : (PipelineResult → PipelineResult) → Act (Unit {0})
  count f s = (some tt, record s { result = f s.result })

  finish_archive : Month → List (List Row) → Act (Unit {0})
  unfolding drop_partition_with_warning
  finish_archive m batches =
      drop_partition_with_warning m
      >> count (λ c. record c {
        partitions_archived = c.partitions_archived + 1;
        total_rows_exported = c.total_rows_exported + total batches;
      })

  verify_upload : Month → List (List Row) → Act (Unit {0})
  unfolding exists_object finish_archive
  verify_upload m batches =
      exists_object m >>= λ verified. if verified then finish_archive m batches else return_early

  upload_file : Month → List (List Row) → Option File → Act (Unit {0})
  unfolding upload verify_upload
  upload_file m batches none = return_early
  upload_file m batches (some file) = upload m file (total batches) >> verify_upload m batches

  store_rows : Month → List (List Row) → Act (Unit {0})
  unfolding upload_file
  store_rows m batches =
      upload_file m batches (write_parquet (collect_ok rows_to_record_batch batches))

  -- An empty partition is dropped.
  rows_or_drop : Month → List (List Row) → Act (Unit {0})
  unfolding drop_partition_with_warning store_rows
  rows_or_drop m batches =
      if total batches == 0
      then (drop_partition_with_warning m
          >> count (λ c. record c { partitions_archived = c.partitions_archived + 1 }))
      else store_rows m batches

  archive_rows : Month → Act (Unit {0})
  unfolding export_partition rows_or_drop
  archive_rows m = export_partition m 1000 >>= λ batches. rows_or_drop m batches

  -- A partition whose object is there is dropped.
  when_checked : Month → Bool → Act (Unit {0})
  unfolding drop_partition_with_warning archive_rows
  when_checked m archived =
      if archived
      then (drop_partition_with_warning m
          >> count (λ c. record c { partitions_skipped = c.partitions_skipped + 1 }))
      else archive_rows m

  unfoldable pub archive_single_partition : Month → Act (Unit {0})
  unfolding exists_object when_checked
  archive_single_partition m = exists_object m >>= λ archived. when_checked m archived

  -- The loop, with the readings of the shutdown flag.
  unfoldable pub archive_all : (shutdown : List Bool) → List PartitionInfo → Act (Unit {0})
  archive_all shutdown [] = done tt
  archive_all [] (p ∷ ps) = attempt (archive_single_partition p.name) >> archive_all [] ps
  archive_all (true ∷ bs) (p ∷ ps) = done tt
  archive_all (false ∷ bs) (p ∷ ps) = attempt (archive_single_partition p.name) >> archive_all bs ps

  module _ (c : Calendar) where
    -- The bounds of a month, where the calendar has them.
    abbrev pub info_of : Month → Option PartitionInfo
    info_of m = elim (c.first_day m) [
      | none ↦ none
      | some s ↦ elim (c.first_day (advance m)) [
        | none ↦ none
        | some e ↦ some (record { name = m; range_start = s; range_end = e })
      ]
    ]

    abbrev is_some_info : Option PartitionInfo → Bool
    is_some_info none = false
    is_some_info (some p) = true

    -- Whether the table was made. After CREATE TABLE come GRANT and REVOKE.
    create_partition : Month → Act Bool
    create_partition m = do
      if is_some_info (info_of m) then done tt else return_early
      exists ←
          call
            (λ s. elim (find_table m s.tables) [ none ↦ some (false, s) | some t ↦ some (true, s) ])
      if exists then done false else make_table m
      where
        make_table : Month → Act Bool
        make_table m = do
          call (λ s. some (
            tt,
            record s {
              tables = s.tables ++ (record { name = m; attached = true; rows = [] } ∷ []);
            },
          ))
          call (λ s. some (tt, s))
          call (λ s. some (tt, s))
          done true

    -- One month of the loop: a failure is passed over.
    pub ensure_partition : Month → Act (Unit {0})
    unfolding create_partition
    ensure_partition m = attempt (
        create_partition m >>= λ created.
        if created
        then count (λ x. record x { partitions_created = x.partitions_created + 1 })
        else done tt)

    abbrev pub ensure_all : List Month → Act (Unit {0})
    ensure_all [] = done tt
    ensure_all (m ∷ ms) = ensure_partition m >> ensure_all ms

    abbrev ensure_needed : Option (List Month) → Act (Unit {0})
    ensure_needed none = return_early
    ensure_needed (some needed) = ensure_all needed

    unfoldable pub ensure_future_partitions : RetentionConfig → ℕ → Act (Unit {0})
    unfolding ensure_partition
    ensure_future_partitions config today =
        ensure_needed (partitions_to_create c today config.advance_partition_days)

    abbrev infos : List Table → List PartitionInfo
    infos [] = []
    infos (t ∷ ts) = elim (info_of t.name) [
      | none ↦ infos ts
      | some p ↦ if t.attached then p ∷ infos ts else infos ts
    ]

    -- ORDER BY relname: the text order of names is the order of their months.
    abbrev earlier : PartitionInfo → PartitionInfo → Bool
    earlier a b =
        ltb a.name.year b.name.year || (a.name.year == b.name.year && leb a.name.month b.name.month)

    abbrev insert_by_name : PartitionInfo → List PartitionInfo → List PartitionInfo
    insert_by_name p [] = p ∷ []
    insert_by_name p (x ∷ xs) = if earlier p x then p ∷ x ∷ xs else x ∷ insert_by_name p xs

    abbrev order_by_name : List PartitionInfo → List PartitionInfo
    order_by_name [] = []
    order_by_name (p ∷ ps) = insert_by_name p (order_by_name ps)

    list_partitions : Act (List PartitionInfo)
    list_partitions = call (λ s. some (order_by_name (infos s.tables), s))

    -- The storage client is made only if there is something to do.
    archive_listed : List Bool → List PartitionInfo → Act (Unit {0})
    unfolding archive_all
    archive_listed shutdown [] = done tt
    archive_listed shutdown (p ∷ ps) =
        call (λ s. some (tt, s)) >>= λ (_ : Unit {0}). archive_all shutdown (p ∷ ps)

    unfoldable pub archive_expired : RetentionConfig → ℕ → List Bool → Act (Unit {0})
    unfolding list_partitions archive_listed
    archive_expired config today shutdown = list_partitions >>= λ existing.
        archive_listed shutdown (partitions_to_archive existing today config.hot_retention_days)

    -- Both steps, each unless the shutdown flag is up by then; `none` is the error of the second.
    unfoldable pub run_pipeline :
        RetentionConfig → (today : ℕ) → (stop_first stop_second : Bool) → List Bool → Act (Unit {0})
    unfolding ensure_future_partitions archive_expired
    run_pipeline config today true stop_second shutdown = done tt
    run_pipeline config today false true shutdown = ensure_future_partitions config today
    run_pipeline config today false false shutdown =
        ensure_future_partitions config today >> archive_expired config today shutdown
