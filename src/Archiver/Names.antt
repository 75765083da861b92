-- ===== src/Archiver/Names.antt =====
-- services/audit-archiver/src/partition.rs and storage.rs: the names of partitions and the keys of their
-- files, as bytes. A slice of a text panics where it would cut a character. The dates of chrono are a
-- parameter; a year stands here for one of the common era, which `{year:04}` prints without a sign.
pub mod RoundTrip
pub mod Exact
mod Tests
use mathlib.Core.Option
use agent_auth.Prelude.{
  ℕ, zero, suc, ◌+◌, ◌-◌, ◌*◌, Bool, true, false, not, ◌&&◌, ◌||◌, Option, none, some, [], ◌∷◌,
  ◌++◌, map, ltb, leb, ◌==◌, if◌then◌else◌, length, all, Result, ok, err, ◌>>=◌, ◌>>◌, ℤ, pos,
  negsuc, neg, Bytes, codes, decimal,
}

abbrev pub zeros : ℕ → Bytes
zeros zero = []
zeros (suc n) = b'0' ∷ zeros n

-- `{n:0w}`
unfoldable pub padded : (width : ℕ) → ℕ → Bytes
unfolding decimal
padded width n = let digits = decimal (suc n) n [] in zeros (width - length digits) ++ digits

unfoldable pub partition_name : (year month : ℕ) → Bytes
unfolding padded
partition_name year month =
    codes "audit_events_" ++ (padded 4 year ++ (codes "_" ++ padded 2 month))

-- A text slice that does not begin and end between characters.
pub data Panic : Type 0 where
  not_a_boundary : Panic

-- Whether a byte begins a character of UTF-8.
abbrev pub is_boundary : Bytes → Bool
is_boundary [] = true
is_boundary (b ∷ bs) = ltb b 0x80 || leb 0xc0 b

abbrev pub take : ℕ → Bytes → Bytes
take zero bs = []
take (suc n) [] = []
take (suc n) (b ∷ bs) = b ∷ take n bs

abbrev pub drop : ℕ → Bytes → Bytes
drop zero bs = bs
drop (suc n) [] = []
drop (suc n) (b ∷ bs) = drop n bs

-- `&name[from..to]`, within the text.
abbrev pub slice : (from to : ℕ) → Bytes → Result Panic Bytes
slice from to name =
    if is_boundary (drop from name) && is_boundary (drop to name)
    then ok (take (to - from) (drop from name))
    else err not_a_boundary

abbrev pub starts_with : Bytes → Bytes → Bool
starts_with name [] = true
starts_with [] (p ∷ ps) = false
starts_with (b ∷ bs) (p ∷ ps) = b == p && starts_with bs ps

abbrev pub is_ascii_digit : ℕ → Bool
is_ascii_digit b = leb b'0' b && leb b b'9'

-- `name.as_bytes()[i] == b`
abbrev pub byte_is : ℕ → ℕ → Bytes → Bool
byte_is i b name = elim (drop i name) [ [] ↦ false | c ∷ _ ↦ c == b ]

abbrev pub when : Bool → Result Panic Bool → Result Panic Bool
when false rest = ok false
when true rest = rest

-- Whether a name is valid; each test is made only if those before it hold.
unfoldable pub validate_partition_name : Bytes → Result Panic Bool
validate_partition_name name =
    when (length name == 20 && starts_with name (codes "audit_events_")) (
      slice 13 17 name >>= λ year.
      when (all is_ascii_digit year && byte_is 17 b'_' name)
        (slice 18 20 name >>= λ month. ok (all is_ascii_digit month)))

-- Digits in front of what was read; texts this short do not overflow.
abbrev pub digits_value : ℕ → Bytes → Option ℕ
digits_value n [] = some n
digits_value n (b ∷ bs) =
    let rest = digits_value (n * 10 + (b - b'0')) bs in if is_ascii_digit b then rest else none

abbrev pub unsigned : Bytes → Option ℕ
unsigned [] = none
unsigned (b ∷ bs) = digits_value 0 (b ∷ bs)

-- `parse::<u32>()`, which takes a plus sign, and `parse::<i32>()`, which takes either sign.
unfoldable pub parse_u32 : Bytes → Option ℕ
parse_u32 [] = none
parse_u32 (b ∷ bs) = if b == b'+' then unsigned bs else unsigned (b ∷ bs)

unfoldable pub parse_i32 : Bytes → Option ℤ
unfolding parse_u32
parse_i32 [] = none
parse_i32 (b ∷ bs) =
    if b == b'-' then Option.map neg (unsigned bs) else Option.map pos (parse_u32 (b ∷ bs))

-- What is used of `NaiveDate`.
pub record Dates : Type 1 where
  pub NaiveDate : Type 0
  pub from_ymd_opt : (year : ℤ) → (month day : ℕ) → Option NaiveDate

-- `year + 1`
abbrev pub next_year : ℤ → ℤ
next_year (pos n) = pos (n + 1)
next_year (negsuc zero) = pos 0
next_year (negsuc (suc n)) = negsuc n

module _ (d : Dates) where
  open d use {NaiveDate, from_ymd_opt}

  pub record PartitionInfo : Type 0 where
    pub name : Bytes
    pub range_start : NaiveDate
    pub range_end : NaiveDate

  -- The first days of a month and of the next one.
  unfoldable pub month_range : ℤ → ℕ → Option (NaiveDate × NaiveDate)
  month_range year month = elim (from_ymd_opt year month 1) [
    | none ↦ none
    | some range_start ↦
        elim (if month == 12
          then from_ymd_opt (next_year year) 1 1
          else from_ymd_opt year (month + 1) 1) [
            | none ↦ none
            | some range_end ↦ some (range_start, range_end)
          ]
  ]

  unfoldable pub info_for :
      Bytes → Option ℤ → Result Panic Bytes → Result Panic (Option PartitionInfo)
  unfolding month_range parse_u32
  info_for name none text = ok none
  info_for name (some year) (err p) = err p
  info_for name (some year) (ok text) = ok (elim (parse_u32 text) [
    | none ↦ none
    | some month ↦ elim (month_range year month) [
      | none ↦ none
      | some (range_start, range_end) ↦
          some (record { name = name; range_start = range_start; range_end = range_end })
    ]
  ])

  -- The slice of the month is taken after the year has been read.
  unfoldable pub parse_partition_name : Bytes → Result Panic (Option PartitionInfo)
  unfolding info_for parse_i32
  parse_partition_name name =
      if not (length name == 20) || not (starts_with name (codes "audit_events_"))
      then ok none
      else slice 13 17 name >>= λ text. info_for name (parse_i32 text) (slice 18 20 name)

-- The key of a partition's file.
unfoldable pub storage_key : (prefix partition_name : Bytes) → Result Panic Bytes
storage_key prefix partition_name = do
  year ← slice 13 17 partition_name
  month ← slice 18 20 partition_name
  ok (
      prefix
      ++ (codes "year="
          ++ (year
              ++ (codes "/month="
                  ++ (month ++ (codes "/" ++ (partition_name ++ codes ".parquet")))))))
