-- ===== src/Archiver/Names/Tests.antt =====
-- The names of partitions at concrete inputs.
use agent_auth.Prelude.{
  ℕ, ◌<◌, ◌≡◌, refl, ◌↔◌, true, ◌&&◌, none, some, arith, leb, if◌then◌else◌, ok, ℤ, pos, codes,
}
use agent_auth.Archiver.Names.{
  partition_name, validate_partition_name, parse_partition_name, storage_key, Dates, month_range,
}
use agent_auth.Archiver.Names.RoundTrip.{partition_name_round_trip}
use agent_auth.Archiver.Names.Exact.{validate_partition_name_iff}

-- A year, a month and a day.
abbrev Date : Type 0
Date = ℤ × ℕ × ℕ

abbrev dates : Dates
dates = record {
  NaiveDate = Date;
  from_ymd_opt =
      λ y m d. if leb 1 m && leb m 12 && leb 1 d && leb d 28 then some (y, m, d) else none;
}

name_run : partition_name 2025 1 ≡ codes "audit_events_2025_01"
unfolding partition_name
name_run = refl

key_run :
    storage_key (codes "audit/") (codes "audit_events_2025_01")
    ≡ ok (codes "audit/year=2025/month=01/audit_events_2025_01.parquet")
unfolding storage_key
key_run = refl

partition_name_round_trip_example :
    (validate_partition_name (partition_name 2025 12) ≡ ok true)
    × (parse_partition_name dates (partition_name 2025 12)
        ≡ ok (
            some (record {
              name = partition_name 2025 12;
              range_start = (pos 2025, 12, 1);
              range_end = (pos 2026, 1, 1);
            })))
unfolding month_range
partition_name_round_trip_example =
    partition_name_round_trip dates 2025 12 (pos 2025, 12, 1) (pos 2026, 1, 1) (omega arith)
      (omega arith) refl

validate_partition_name_iff_example :
    (validate_partition_name (codes "audit_events_2025_01") ≡ ok true)
    ↔ ((y m : ℕ) × (y < 10000) × (m < 100) × (codes "audit_events_2025_01" ≡ partition_name y m))
validate_partition_name_iff_example = validate_partition_name_iff (codes "audit_events_2025_01")
