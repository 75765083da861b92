-- ===== src/Archiver/Tests.antt =====
-- Runs of the archiver at concrete inputs, in a calendar whose months have thirty days.
use agent_auth.Prelude.{
  ℕ, ◌+◌, ◌-◌, ◌*◌, ◌/◌, ◌%◌, ◌≤◌, ◌<◌, ◌≡◌, refl, ◌⊎◌, Bool, true, false, ◌&&◌, Option, none, some,
  List, [], ◌∷◌, arith, leb, ◌==◌, if◌then◌else◌,
}
use agent_auth.Registry.Db.{answers, lost_after}
use agent_auth.Archiver.Partition.{Month, Calendar, advance, partitions_to_create}
use agent_auth.Archiver.Partition.Coverage.{Has, creates_cover}
use agent_auth.Archiver.Pipeline.{
  Parquet, Table, Archive, RetentionConfig, run_pipeline, archive_single_partition, is_there,
  chunks, collect_ok,
}
use agent_auth.Archiver.Pipeline.Safety.{rows_in, nothing_lost}
use agent_auth.Archiver.Pipeline.Loss.{archives_converted}

abbrev month : ℕ → ℕ → Month
month y m = record { year = y; month = m }

abbrev start : Month → ℕ
start m = m.year * 360 + (m.month - 1) * 30

abbrev in_year : Month → Bool
in_year m = leb 1 m.month && leb m.month 12

in_month :
    (d y m : ℕ)
    → 1 ≤ m
    → m ≤ 12
    → y * 360 + (m - 1) * 30 ≤ d
    → d < y * 360 + (m - 1) * 30 + 30
    → month (d / 360) (d % 360 / 30 + 1) ≡ month y m
in_month d y m lo hi le lt =
    let e : d / 360 ≡ y = omega arith in
    let f : d % 360 / 30 + 1 ≡ m = omega (arith, e) in rw (e, f) refl

unique :
    (d s : ℕ) (m : Month)
    → (if in_year m then some (start m) else none) ≡ some s
    → s ≤ d
    → ((e : ℕ) → (if in_year (advance m) then some (start (advance m)) else none) ≡ some e → d < e)
    → month (d / 360) (d % 360 / 30 + 1) ≡ m
unique d s m h le k =
    let lt : d < start (advance m) = k (start (advance m)) (ground arith) in
    in_month d m.year m.month (ground arith) (ground arith) (ground arith) (ground arith)

abbrev thirty : Calendar
thirty = record {
  month_of = λ d. month (d / 360) (d % 360 / 30 + 1);
  first_day = λ m. if in_year m then some (start m) else none;
  first_day-month_of = λ d. (start (month (d / 360) (d % 360 / 30 + 1)), ground arith, omega arith);
  advance_after = λ d e h. ground arith;
  month_of_unique = unique;
  advance_later = λ s e m h k. ground arith;
}

-- From day 95, in the fourth month, for forty days ahead.
creates_cover_example :
    (ms : List Month) × (partitions_to_create thirty 95 40 ≡ some ms)
    × ((d : ℕ) → 95 ≤ d → d ≤ 95 + 40 → Has (thirty.month_of d) ms)
creates_cover_example = creates_cover thirty 95 40

-- Rows are numbers, and a batch converts unless it starts with 13.
abbrev convert : List ℕ → Option (List ℕ)
convert [] = some []
convert (x ∷ xs) = if x == 13 then none else some (x ∷ xs)

abbrev files : Parquet
files = record {
  Row = ℕ;
  Batch = List ℕ;
  File = List (List ℕ);
  rows_to_record_batch = convert;
  write_parquet = λ bs. some bs;
}

abbrev january : Table files
january = record { name = month 0 1; attached = true; rows = 13 ∷ 14 ∷ [] }

abbrev state : Archive files
state = record {
  tables = january ∷ record { name = month 0 4; attached = true; rows = 7 ∷ [] } ∷ [];
  objects = λ m. none;
  result = record {
    partitions_created = 0;
    partitions_archived = 0;
    partitions_skipped = 0;
    total_rows_exported = 0;
  };
  fault = λ n. answers;
}

-- Every third answer is lost.
abbrev flaky : Archive files
flaky = record state { fault = λ n. if n % 3 == 2 then lost_after else answers }

abbrev retention : RetentionConfig
retention = record { hot_retention_days = 30; advance_partition_days = 40 }

nothing_lost_example :
    let s' = (run_pipeline files thirty retention 95 false false (false ∷ []) flaky).1 in
    (rows_in files (month 0 1) s'.tables ≡ some (13 ∷ 14 ∷ []))
    ⊎ (is_there files (s'.objects (month 0 1)) ≡ true)
nothing_lost_example =
    nothing_lost files (month 0 1) 13 (14 ∷ []) thirty retention 95 false false (false ∷ []) flaky
      refl

batches-none :
    files.write_parquet (collect_ok files.rows_to_record_batch (chunks 1000 999 january.rows))
    ≡ some []
unfolding chunks
batches-none = refl

-- The one batch does not convert: the file is empty, and the partition is gone.
archives_converted_example :
    let s' = (archive_single_partition files (month 0 1) state).1 in
    (s'.objects (month 0 1) ≡ some (record { file = []; row_count = 2 }))
    × (rows_in files (month 0 1) s'.tables ≡ none)
archives_converted_example =
    archives_converted files (month 0 1) state january 13 (14 ∷ []) [] (λ n. refl) refl refl refl
      refl batches-none
