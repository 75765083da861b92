-- ===== src/Archiver/Pipeline/Writes.antt =====
-- What the parts of the pipeline may do to the tables and to the objects in cold storage, whichever
-- calls fail.
use agent_auth.Prelude.{
  ◌≡◌, refl, inl, inr, true, false, not, Option, none, some, List, [], ◌∷◌, ◌++◌, arith, ◌==◌,
  if◌then◌else◌, ==_iff, Bool-cases, keep,
}
use agent_auth.Registry.Db.{Fault, answers, lost_before, lost_after}
use agent_auth.Archiver.Partition.{Month, month_eq, Calendar}
use agent_auth.Archiver.Pipeline.{
  Parquet, Table, Object, Archive, Act, chunks, total, find_table, detached, is_there,
  exists_object, upload, export_partition, detach_partition, drop_partition,
  drop_partition_with_warning, finish_archive, verify_upload, upload_file, store_rows, rows_or_drop,
  archive_rows, when_checked, archive_single_partition, ensure_partition, create_partition, next,
  outcome, then_act, return_early,
}

module _ (q : Parquet) where
  abbrev pub dropped : Month → List (Table q) → List (Table q)
  dropped k ts = keep (λ t. not (month_eq t.name k)) ts

  abbrev pub stored : Month → Object q → (Month → Option (Object q)) → Month → Option (Object q)
  stored k o objects j = if month_eq j k then some o else objects j

  module _ {A B : Type 0} (P : Archive q → Type 0) (k : A → Act q B) where
    -- A call that takes effect, if it is not lost, and what follows its answer, if that is not lost.
    pub answered :
        (e : Fault) (a : A) (s s' : Archive q)
        → P s
        → P s'
        → P (k a s').1
        → P (then_act q (outcome q e (some (a, s')) s).0 (outcome q e (some (a, s')) s).1 k).1
    answered answers a s s' p p' h = h
    answered lost_before a s s' p p' h = p
    answered lost_after a s s' p p' h = p'

    refused :
        (e : Fault) (s : Archive q)
        → P s
        → P (then_act q (outcome q {A = A} e none s).0 (outcome q {A = A} e none s).1 k).1
    refused answers s p = p
    refused lost_before s p = p
    refused lost_after s p = p

  module _ (Q : List (Table q) → (Month → Option (Object q)) → Type 0) (k : Month) where
    -- What a step leaves.
    abbrev pub After : Archive q → Type 0
    After s = Q s.tables s.objects

    -- The drop with its warning, in any of its three outcomes.
    abbrev pub Droppable : Archive q → Type 0
    Droppable s =
        Q s.tables s.objects
        × Q (detached q k s.tables) s.objects
        × Q (dropped k (detached q k s.tables)) s.objects

    drop_cases : (s : Archive q) → Droppable s → After (drop_partition_with_warning q k s).1
    unfolding drop_partition_with_warning detach_partition drop_partition
    drop_cases s d = grind arith

    finish_cases :
        (batches : List (List q.Row)) (s : Archive q)
        → Droppable s
        → After (finish_archive q k batches s).1
    unfolding finish_archive
    finish_cases batches s d = drop_cases s d

    verify_cases :
        (batches : List (List q.Row)) (s : Archive q)
        → Droppable s
        → After (verify_upload q k batches s).1
    unfolding verify_upload exists_object
    verify_cases batches s d =
        answered After (λ verified. if verified then finish_archive q k batches else return_early q)
          (s.fault 0) (is_there q (s.objects k)) (next q s) (next q s) d.0 d.0
          (elim (is_there q (s.objects k))
            as (λ b.
              After ((if b then finish_archive q k batches else return_early q) (next q s)).1) [
                | true ↦ finish_cases batches (next q s) d
                | false ↦ d.0
              ])

    upload_cases :
        (batches : List (List q.Row)) (o : Option q.File) (s : Archive q)
        → After s
        → ((x : Object q) → Droppable (record s { objects = stored k x s.objects }))
        → After (upload_file q k batches o s).1
    unfolding upload_file upload
    upload_cases batches none s same uploaded = same
    upload_cases batches (some file) s same uploaded =
        answered After (λ (_ : Unit {0}). verify_upload q k batches) (s.fault 0) tt (next q s) after
          same (uploaded x).0 (verify_cases batches after (uploaded x))
      where
        x : Object q
        x = record { file = file; row_count = total batches }

        after : Archive q
        after = record (next q s) { objects = stored k x s.objects }

    rows_cases :
        (batches : List (List q.Row)) (s : Archive q)
        → After s
        → (total batches ≡ 0 → Droppable s)
        → ((x : Object q) → Droppable (record s { objects = stored k x s.objects }))
        → After (rows_or_drop q k batches s).1
    unfolding rows_or_drop store_rows
    rows_cases batches s same empty uploaded = elim (Bool-cases (total batches == 0)) [
      | inl e ↦ rw e (drop_cases s (empty ((==_iff (total batches) 0).0 e)))
      | inr e ↦ rw e (upload_cases batches _ s same uploaded)
    ]

    export_cases :
        (s : Archive q)
        → After s
        → ((t : Table q)
            → find_table q k s.tables ≡ some t
            → total (chunks 1000 999 t.rows) ≡ 0
            → Droppable s)
        → ((x : Object q) → Droppable (record s { objects = stored k x s.objects }))
        → After (archive_rows q k s).1
    unfolding archive_rows export_partition
    export_cases s same empty uploaded = go (find_table q k s.tables) empty
      where
        exported : Option (Table q) → Option (List (List q.Row) × Archive q)
        exported o = elim o [ none ↦ none | some t ↦ some (chunks 1000 999 t.rows, next q s) ]

        go :
            (o : Option (Table q))
            → ((t : Table q) → o ≡ some t → total (chunks 1000 999 t.rows) ≡ 0 → Droppable s)
            → After
                (then_act q
                  (outcome q (s.fault 0) (exported o) (next q s)).0
                  (outcome q (s.fault 0) (exported o) (next q s)).1
                  (rows_or_drop q k)).1
        go none h = refused After (rows_or_drop q k) (s.fault 0) (next q s) same
        go (some t) h =
            answered After (rows_or_drop q k) (s.fault 0) (chunks 1000 999 t.rows) (next q s)
              (next q s) same same
              (rows_cases (chunks 1000 999 t.rows) (next q s) same (h t refl) uploaded)

    -- What the archival of one partition may do to the tables and the objects.
    pub archive_cases :
        (s : Archive q)
        → After s
        → (is_there q (s.objects k) ≡ true → Droppable s)
        → ((t : Table q)
            → find_table q k s.tables ≡ some t
            → total (chunks 1000 999 t.rows) ≡ 0
            → Droppable s)
        → ((x : Object q) → Droppable (record s { objects = stored k x s.objects }))
        → After (archive_single_partition q k s).1
    unfolding archive_single_partition exists_object
    archive_cases s same archived empty uploaded =
        answered After (when_checked q k) (s.fault 0) (is_there q (s.objects k)) (next q s)
          (next q s) same same
          (elim (Bool-cases (is_there q (s.objects k))) [
            | inl e ↦ rw (e, when_checked) (drop_cases (next q s) (archived e))
            | inr e ↦ rw (e, when_checked) (export_cases (next q s) same empty uploaded)
          ])

    -- The creation of one month's partition.
    pub ensure_cases :
        (c : Calendar) (s : Archive q)
        → After s
        → (find_table q k s.tables ≡ none
            → Q (s.tables ++ (record { name = k; attached = true; rows = [] } ∷ [])) s.objects)
        → After (ensure_partition q c k s).1
    unfolding ensure_partition create_partition
    ensure_cases c s same made = grind arith
