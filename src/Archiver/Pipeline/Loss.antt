-- ===== src/Archiver/Pipeline/Loss.antt =====
-- What the object of a partition holds once the partition is dropped: the batches that could be
-- converted, and no other.
use agent_auth.Prelude.{ℕ, ◌≡◌, refl, true, false, none, some, List, [], ◌∷◌, arith, ◌==◌, length}
use agent_auth.Registry.Db.{answers}
use agent_auth.Archiver.Partition.{Month, month_eq}
use agent_auth.Archiver.Pipeline.{
  Parquet, Table, Archive, chunks, total, find_table, detached, collect_ok,
  archive_single_partition, exists_object, when_checked, archive_rows, export_partition,
  rows_or_drop, store_rows, upload_file, upload, verify_upload, finish_archive,
  drop_partition_with_warning, detach_partition, drop_partition,
}
use agent_auth.Archiver.Pipeline.Writes.{dropped}
use agent_auth.Archiver.Pipeline.Safety.{rows_in, total-chunks}

module _ (q : Parquet) where
  rows_in-dropped_self : (k : Month) (ts : List (Table q)) → rows_in q k (dropped q k ts) ≡ none
  rows_in-dropped_self k [] = refl
  rows_in-dropped_self k (t ∷ ts) = ground (arith, rows_in-dropped_self k ts)

  -- Where every call is answered, the archival of an attached partition with events and no object
  -- drops the partition, and stores a file of exactly the batches of a thousand events that could be
  -- converted, with the count of all its events: those of the other batches are in neither.
  pub archives_converted :
      (k : Month) (s : Archive q) (t : Table q) (row : q.Row) (more : List q.Row) (file : q.File)
      → ((n : ℕ) → s.fault n ≡ answers)
      → s.objects k ≡ none
      → find_table q k s.tables ≡ some t
      → t.attached ≡ true
      → t.rows ≡ row ∷ more
      → q.write_parquet (collect_ok q.rows_to_record_batch (chunks 1000 999 t.rows)) ≡ some file
      → let s' = (archive_single_partition q k s).1 in
        (s'.objects k ≡ some (record { file = file; row_count = length t.rows }))
        × (rows_in q k s'.tables ≡ none)
  unfolding archive_single_partition exists_object when_checked archive_rows export_partition
      rows_or_drop store_rows upload_file upload verify_upload finish_archive
      drop_partition_with_warning detach_partition drop_partition
  archives_converted k s t row more file a o f g e w =
      let z : (total (chunks 1000 999 t.rows) == 0) ≡ false =
        ground (arith, total-chunks 1000 999 t.rows) in
      let self : month_eq k k ≡ true = ground arith in
      rw (a 0, o, a 1, f, z, w, a 2, a 3, self, a 4, f, g, a 5)
        (
          rw (self, total-chunks 1000 999 t.rows) refl,
          rows_in-dropped_self k (detached q k s.tables),
        )
