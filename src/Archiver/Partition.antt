-- ===== src/Archiver/Partition.antt =====
-- services/audit-archiver/src/partition.rs: which partitions are needed, and which are old enough to
-- archive. A date is the number of its day; the calendar of chrono is a parameter. A partition's name
-- stands for the year and the month that it is made from: its text is left out, and so is its parsing.
pub mod Coverage
use agent_auth.Prelude.{
  ℕ, zero, suc, ◌+◌, ◌≤◌, ◌<◌, ◌≡◌, Bool, false, ◌&&◌, Option, none, some, List, [], ◌∷◌, ◌++◌, leb,
  ◌==◌, if◌then◌else◌, any, keep,
}

pub record Month : Type 0 where
  pub year : ℕ  -- i32
  pub month : ℕ  -- u32

pub record PartitionInfo : Type 0 where
  pub name : Month
  pub range_start : ℕ
  pub range_end : ℕ

-- The month that follows, as the code advances.
abbrev pub advance : Month → Month
advance m =
    if m.month == 12
    then record { year = m.year + 1; month = 1 }
    else record { year = m.year; month = m.month + 1 }

-- What the code uses of `NaiveDate`.
pub record Calendar : Type 0 where
  -- `year()` and `month()` of a day.
  pub month_of : ℕ → Month
  -- `NaiveDate::from_ymd_opt(year, month, 1)`
  pub first_day : Month → Option ℕ
  -- A day is not before the first day of its month, and before that of the next.
  pub first_day-month_of : (d : ℕ) → (s : ℕ) × (first_day (month_of d) ≡ some s) × (s ≤ d)
  pub advance_after : (d e : ℕ) → first_day (advance (month_of d)) ≡ some e → d < e
  -- A day between the first days of two months in a row is of the first one. The same where the
  -- calendar ends.
  pub month_of_unique :
      (d s : ℕ) (m : Month)
      → first_day m ≡ some s
      → s ≤ d
      → ((e : ℕ) → first_day (advance m) ≡ some e → d < e)
      → month_of d ≡ m
  -- A month has a day.
  pub advance_later :
      (s e : ℕ) (m : Month) → first_day m ≡ some s → first_day (advance m) ≡ some e → s < e

-- `result.contains(&entry)`
abbrev pub month_eq : Month → Month → Bool
month_eq a b = a.year == b.year && a.month == b.month

module _ (c : Calendar) where
  -- Whether the loop goes on to a month: the calendar has it, and it starts by the target date.
  abbrev pub within : ℕ → Option ℕ → Bool
  within target none = false
  within target (some d) = leb d target

  -- The loop. `none` is a loop that did not end in the given number of rounds.
  unfoldable pub months_until : (fuel : ℕ) → ℕ → Month → Option (List Month)
  months_until zero target m = none
  months_until (suc n) target m =
      let rest = months_until n target (advance m) in
      if within target (c.first_day (advance m))
      then elim rest [ none ↦ none | some ms ↦ some (m ∷ ms) ]
      else some (m ∷ [])

  -- The month of the target date, unless it is there.
  unfoldable pub with_target : ℕ → List Month → List Month
  with_target target result = elim (c.first_day (c.month_of target)) [
    | none ↦ result
    | some tms ↦
        let entry = c.month_of tms in
        if any (month_eq entry) result then result else result ++ (entry ∷ [])
  ]

  -- Every round starts a later month, so `advance_days + 1` rounds are enough.
  unfoldable pub partitions_to_create : ℕ → ℕ → Option (List Month)
  unfolding months_until with_target
  partitions_to_create today advance_days =
      elim (months_until (suc advance_days) (today + advance_days) (c.month_of today)) [
        | none ↦ none
        | some result ↦ some (with_target (today + advance_days) result)
      ]

-- The cutoff is `today - hot_retention_days`, which may lie before day 0: the days are added instead.
unfoldable pub partitions_to_archive : List PartitionInfo → ℕ → ℕ → List PartitionInfo
partitions_to_archive partitions today hot_retention_days =
    keep (λ p. leb (p.range_end + hot_retention_days) today) partitions
